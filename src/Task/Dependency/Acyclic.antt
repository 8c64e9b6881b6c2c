-- ===== src/Task/Dependency/Acyclic.antt =====
-- AddTaskDependency keeps the dependency graph without cycles, and refuses nothing else.
use mathlib.Core.List.Memᴰ
use open_agent_showcase.Common.{
  ℕ, suc, some, List, [], ◌∷◌, ◌++◌, Bool, true, false, ◌≡◌, refl, sym, subst, ◌↔◌, ◌⊎◌, inl, inr,
  ⊎_elim, arith, Bool-cases, length, Memᴰ, any, eq_iff, Memᴰ-cons, ◌==◌, ◌&&◌,
}
use open_agent_showcase.Task.Dependency.{
  list_task_dependencies, meets, insert_edge, Added, added, cycle_detected, add_task_dependency,
  status_of, some_open, is_task_blocked,
}
use open_agent_showcase.Task.{Task, Db}
use open_agent_showcase.Task.Dependency.Graph.{
  Edge, Reach, here, next, IsAcyclic, Reach-trans, Edge-append, Reach-append,
}
use open_agent_showcase.Task.Dependency.Search.{
  open_edges-le, meets_total, meets_sound, meets_complete, IsClosed-start,
}

-- What the call answers, in terms of chains of dependencies.
pub data Answer (g : List (ℕ × ℕ)) (task on : ℕ) (r : Added) : Type 0 where
  refused : Reach g on task → r ≡ cycle_detected → Answer g task on r
  inserted : ¬ Reach g on task → r ≡ added (insert_edge g task on) → Answer g task on r

-- The search always ends: the call refuses the dependency exactly when `on` already depends on
-- `task`, directly or through others, or is `task` itself, and inserts it otherwise.
pub add_task_dependency-Answer :
    (g : List (ℕ × ℕ)) (task on : ℕ) → Answer g task on (add_task_dependency g task on)
unfolding add_task_dependency
add_task_dependency-Answer g task on = go (
    meets_total (suc (length g)) g task (task ∷ []) (on ∷ [])
      (omega (arith, open_edges-le (task ∷ []) g)))
  where
    start : (v : ℕ) → Memᴰ v (on ∷ []) → Reach g on v
    start v m = subst (Reach g on) (sym (Memᴰ.eq_of_singleton m)) here

    go :
        (found : Bool) × (meets (suc (length g)) g task (task ∷ []) (on ∷ []) ≡ some found)
        → Answer g task on (add_task_dependency g task on)
    go (true, e) =
        refused (meets_sound g task on (suc (length g)) (task ∷ []) (on ∷ []) start e)
          (rw (e, add_task_dependency) refl)
    go (false, e) =
        inserted
          (meets_complete g task on (suc (length g)) (task ∷ []) (on ∷ [])
            (IsClosed-start g task on) e)
          (rw (e, add_task_dependency) refl)

IsAcyclic-append :
    (g : List (ℕ × ℕ)) (task on : ℕ)
    → IsAcyclic g
    → ¬ Reach g on task
    → IsAcyclic (g ++ (task, on) ∷ [])
IsAcyclic-append g task on ac free u v e p =
    go (Edge-append g task on u v e) (Reach-append g task on v u p)
  where
    go : Edge g u v ⊎ (task ≡ u) × (v ≡ on) → Reach g v u ⊎ Reach g v task × Reach g on u → ⊥
    go (inl d) (inl q) = ac u v d q
    go (inl d) (inr (q, r)) = free (Reach-trans (next r d) q)
    go (inr (tu, vo)) (inl q) = free (subst (Reach g on) (sym tu) (subst (λ w. Reach g w u) vo q))
    go (inr (tu, vo)) (inr (q, r)) = free (subst (λ w. Reach g w task) vo q)

IsAcyclic-insert_edge :
    (g : List (ℕ × ℕ)) (task on : ℕ)
    → IsAcyclic g
    → ¬ Reach g on task
    → IsAcyclic (insert_edge g task on)
IsAcyclic-insert_edge g task on ac free =
    elim (Bool-cases (any (λ e. e.0 == task && e.1 == on) g)) [
      | inl old ↦ rw old ac
      | inr new ↦ rw new (IsAcyclic-append g task on ac free)
    ]

-- Whatever is inserted, a graph without cycles stays without cycles.
pub add_task_dependency-IsAcyclic :
    (g : List (ℕ × ℕ)) (task on : ℕ) (g' : List (ℕ × ℕ))
    → IsAcyclic g
    → add_task_dependency g task on ≡ added g'
    → IsAcyclic g'
add_task_dependency-IsAcyclic g task on g' ac h = elim (add_task_dependency-Answer g task on) [
  | refused p e ↦ cc
  | inserted free e ↦
      let same : insert_edge g task on ≡ g' = cc in
      subst IsAcyclic same (IsAcyclic-insert_edge g task on ac free)
]

some_open_iff :
    (rows : List Task) (deps : List ℕ)
    → (some_open rows deps ≡ false) ↔ ((dep : ℕ) → Memᴰ dep deps → status_of rows dep ≡ "completed")
some_open_iff rows [] = (λ h dep m. absurd (Memᴰ.not-nil m), λ h. refl)
some_open_iff rows (x ∷ deps) = (
  λ h dep m.
      ⊎_elim (λ (e : dep ≡ x). rw e (ground (arith, eq_iff (status_of rows x) "completed")))
        ((some_open_iff rows deps).0 (ground arith) dep) ((Memᴰ-cons dep x deps).0 m),
  λ h. ground (
    arith,
    eq_iff (status_of rows x) "completed",
    h x (Memᴰ.head refl),
    (some_open_iff rows deps).1 (λ dep m. h dep (Memᴰ.tail m)),
  ),
)

-- A task is free to run exactly when every task that it depends on is completed.
is_task_blocked_iff :
    (db : Db) (task : ℕ)
    → (is_task_blocked db task ≡ false)
      ↔ ((dep : ℕ) → Edge db.deps task dep → status_of db.tasks dep ≡ "completed")
unfolding is_task_blocked
is_task_blocked_iff db task = some_open_iff db.tasks (list_task_dependencies db.deps task)
