-- ===== src/Task/Dependency/Search.antt =====
-- The search of AddTaskDependency ends, and answers whether the task is reached.
use mathlib.Core.List.Memᴰ
use open_agent_showcase.Common.{
  ℕ, zero, suc, ◌+◌, ◌≤◌, some, List, [], ◌∷◌, ◌++◌, Bool, true, false, ◌≡◌, refl, sym, subst, ◌≢◌,
  ◌⊎◌, inl, inr, ⊎_elim, arith, Memᴰ, Memᴰ-cons, Memᴰ-append, Bool-cases, ◌==◌, ==_iff, has,
  has_iff, length, length-append, if◌then◌else◌,
}
use open_agent_showcase.Task.Dependency.{list_task_dependencies, meets}
use open_agent_showcase.Task.Dependency.Graph.{Edge, Reach, here, next}

-- The edges that the search has still to follow.
abbrev pub open_edges : List ℕ → List (ℕ × ℕ) → ℕ
open_edges visited [] = 0
open_edges visited ((x, y) ∷ g) =
    if has visited x then open_edges visited g else suc (open_edges visited g)

open_edges-visit :
    (visited : List ℕ) (cur : ℕ) (g : List (ℕ × ℕ))
    → has visited cur ≡ false
    → open_edges (cur ∷ visited) g + length (list_task_dependencies g cur) ≡ open_edges visited g
unfolding list_task_dependencies
open_edges-visit visited cur [] new = omega arith
open_edges-visit visited cur ((x, y) ∷ g) new = elim (Bool-cases (x == cur)) [
  | inl same ↦
      let e : x ≡ cur = (==_iff x cur).0 same in
      rw e (ground (arith, open_edges-visit visited cur g new))
  | inr other ↦ ground (arith, open_edges-visit visited cur g new)
]

pub open_edges-le : (visited : List ℕ) (g : List (ℕ × ℕ)) → open_edges visited g ≤ length g
open_edges-le visited [] = omega arith
open_edges-le visited ((x, y) ∷ g) = ground (arith, open_edges-le visited g)

-- As many rounds as there are queued tasks and open edges are enough.
pub meets_total :
    (rounds : ℕ) (g : List (ℕ × ℕ)) (task : ℕ) (visited queue : List ℕ)
    → length queue + open_edges visited g ≤ rounds
    → (found : Bool) × (meets rounds g task visited queue ≡ some found)
unfolding meets
meets_total zero g task visited [] h = (false, refl)
meets_total zero g task visited (cur ∷ queue) h = absurd (omega arith)
meets_total (suc rounds) g task visited [] h = (false, refl)
meets_total (suc rounds) g task visited (cur ∷ queue) h = elim (Bool-cases (cur == task)) [
  | inl same ↦ (true, rw same refl)
  | inr other ↦ elim (Bool-cases (has visited cur)) [
    | inl old ↦
        let (found, e) = meets_total rounds g task visited queue (omega arith) in
        (found, rw other (rw old e))
    | inr new ↦
        let (found, e) =
          meets_total rounds g task (cur ∷ visited) (queue ++ list_task_dependencies g cur) (
            omega (
              arith,
              open_edges-visit visited cur g new,
              length-append queue (list_task_dependencies g cur),
            )) in
        (found, rw other (rw new e))
  ]
]

module _ (g : List (ℕ × ℕ)) (task on : ℕ) where
  -- What is found is a chain of dependencies.
  pub meets_sound :
      (rounds : ℕ) (visited queue : List ℕ)
      → ((v : ℕ) → Memᴰ v queue → Reach g on v)
      → meets rounds g task visited queue ≡ some true
      → Reach g on task
  unfolding meets
  meets_sound zero visited [] q h = cc
  meets_sound zero visited (cur ∷ queue) q h = cc
  meets_sound (suc rounds) visited [] q h = cc
  meets_sound (suc rounds) visited (cur ∷ queue) q h = elim (Bool-cases (cur == task)) [
    | inl same ↦
        let e : cur ≡ task = (==_iff cur task).0 same in rw (sym e) (q cur (Memᴰ.head refl))
    | inr other ↦ elim (Bool-cases (has visited cur)) [
      | inl old ↦ meets_sound rounds visited queue (λ v m. q v (Memᴰ.tail m)) (rw (other, old) at h)
      | inr new ↦
          meets_sound rounds (cur ∷ visited) (queue ++ list_task_dependencies g cur)
            (λ v m.
              ⊎_elim (λ a. q v (Memᴰ.tail a)) (λ b. next (q cur (Memᴰ.head refl)) b)
                ((Memᴰ-append v queue (list_task_dependencies g cur)).0 m))
            (rw (other, new) at h)
    ]
  ]

  -- A task that the search has followed or queued.
  abbrev pub Known : List ℕ → List ℕ → ℕ → Type 0
  Known visited queue v = (Memᴰ v visited × (v ≢ task)) ⊎ Memᴰ v queue

  pub record IsClosed (visited queue : List ℕ) : Type 0 where
    pub start : Known visited queue on
    pub step : (u v : ℕ) → Memᴰ u visited → u ≢ task → Edge g u v → Known visited queue v

  IsClosed-skip :
      (visited queue : List ℕ) (cur : ℕ)
      → cur ≢ task
      → Memᴰ cur visited
      → IsClosed visited (cur ∷ queue)
      → IsClosed visited queue
  IsClosed-skip visited queue cur ne old c = record {
    start = ground (arith, c.start, Memᴰ-cons on cur queue);
    step = λ u v m k e. ground (arith, c.step u v m k e, Memᴰ-cons v cur queue);
  }

  Known-expand :
      (visited queue : List ℕ) (cur v : ℕ)
      → cur ≢ task
      → Known visited (cur ∷ queue) v
      → Known (cur ∷ visited) (queue ++ list_task_dependencies g cur) v
  Known-expand visited queue cur v ne k = ground (
    arith,
    k,
    Memᴰ-cons v cur queue,
    Memᴰ-cons v cur visited,
    Memᴰ-append v queue (list_task_dependencies g cur),
  )

  IsClosed-expand :
      (visited queue : List ℕ) (cur : ℕ)
      → cur ≢ task
      → IsClosed visited (cur ∷ queue)
      → IsClosed (cur ∷ visited) (queue ++ list_task_dependencies g cur)
  IsClosed-expand visited queue cur ne c = record {
    start = Known-expand visited queue cur on ne c.start;
    step = λ u v m k e.
        ⊎_elim
          (λ same. inr (
            (Memᴰ-append v queue (list_task_dependencies g cur)).1
              (inr (subst (λ w. Edge g w v) same e))))
          (λ old. Known-expand visited queue cur v ne (c.step u v old k e))
          ((Memᴰ-cons u cur visited).0 m);
  }

  Reach-known :
      (visited : List ℕ) (v : ℕ) → IsClosed visited [] → Reach g on v → Memᴰ v visited × (v ≢ task)
  Reach-known visited v c here = ⊎_elim (λ k. k) (λ q. absurd (Memᴰ.not-nil q)) c.start
  Reach-known visited v c (next {v = u} p e) =
      let (m, ne) = Reach-known visited u c p in
      ⊎_elim (λ k. k) (λ q. absurd (Memᴰ.not-nil q)) (c.step u v m ne e)

  -- When nothing is found, there is no chain of dependencies.
  pub meets_complete :
      (rounds : ℕ) (visited queue : List ℕ)
      → IsClosed visited queue
      → meets rounds g task visited queue ≡ some false
      → ¬ Reach g on task
  unfolding meets
  meets_complete zero visited [] c h p = (Reach-known visited task c p).1 refl
  meets_complete zero visited (cur ∷ queue) c h p = cc
  meets_complete (suc rounds) visited [] c h p = (Reach-known visited task c p).1 refl
  meets_complete (suc rounds) visited (cur ∷ queue) c h p = elim (Bool-cases (cur == task)) [
    | inl same ↦ let h' = rw same at h in cc
    | inr other ↦
        let ne : cur ≢ task = ground arith in
        elim (Bool-cases (has visited cur)) [
          | inl old ↦
              meets_complete rounds visited queue
                (IsClosed-skip visited queue cur ne ((has_iff visited cur).0 old) c)
                (rw (other, old) at h) p
          | inr new ↦
              meets_complete rounds (cur ∷ visited) (queue ++ list_task_dependencies g cur)
                (IsClosed-expand visited queue cur ne c) (rw (other, new) at h) p
        ]
  ]

  pub IsClosed-start : IsClosed (task ∷ []) (on ∷ [])
  IsClosed-start = record {
    start = inr (Memᴰ.head refl);
    step = λ u v m k e. absurd (k (Memᴰ.eq_of_singleton m));
  }
