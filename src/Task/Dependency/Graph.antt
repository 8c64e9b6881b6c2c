-- ===== src/Task/Dependency/Graph.antt =====
-- Walks in the dependency graph.
use open_agent_showcase.Common.{
  ℕ, List, [], ◌∷◌, ◌++◌, ◌≡◌, sym, ◌⊎◌, inl, inr, arith, Memᴰ, Memᴰ-cons, subst,
}
use open_agent_showcase.Task.Dependency.{list_task_dependencies}

abbrev pub Edge : List (ℕ × ℕ) → ℕ → ℕ → Type 0
Edge g u v = Memᴰ v (list_task_dependencies g u)

-- Chains of dependencies.
pub data Reach (g : List (ℕ × ℕ)) (u : ℕ) : ℕ → Type 0 where
  here : Reach g u u
  next : {v w : ℕ} → Reach g u v → Edge g v w → Reach g u w

-- No task depends on itself, directly or through others.
abbrev pub IsAcyclic : List (ℕ × ℕ) → Type 0
IsAcyclic g = (u v : ℕ) → Edge g u v → ¬ Reach g v u

pub Reach-trans : {g : List (ℕ × ℕ)} {u v w : ℕ} → Reach g u v → Reach g v w → Reach g u w
Reach-trans p here = p
Reach-trans p (next q e) = next (Reach-trans p q) e

pub Edge-append :
    (g : List (ℕ × ℕ)) (a b u v : ℕ) → Edge (g ++ (a, b) ∷ []) u v → Edge g u v ⊎ (a ≡ u) × (v ≡ b)
unfolding list_task_dependencies
Edge-append [] a b u v m = ground (arith, Memᴰ-cons v b [])
Edge-append ((x, y) ∷ g) a b u v m = ground (
  arith,
  Edge-append g a b u v,
  Memᴰ-cons v y (list_task_dependencies g u),
  Memᴰ-cons v y (list_task_dependencies (g ++ (a, b) ∷ []) u),
)

-- Reaching in the graph with one edge more.
pub Reach-append :
    (g : List (ℕ × ℕ)) (a b u v : ℕ)
    → Reach (g ++ (a, b) ∷ []) u v
    → Reach g u v ⊎ Reach g u a × Reach g b v
Reach-append g a b u v here = inl here
Reach-append g a b u v (next {v = w} p e) = go (Reach-append g a b u w p) (Edge-append g a b w v e)
  where
    go :
        Reach g u w ⊎ Reach g u a × Reach g b w
        → Edge g w v ⊎ (a ≡ w) × (v ≡ b)
        → Reach g u v ⊎ Reach g u a × Reach g b v
    go (inl q) (inl d) = inl (next q d)
    go (inl q) (inr (aw, vb)) = inr (subst (Reach g u) (sym aw) q, subst (Reach g b) (sym vb) here)
    go (inr (q, r)) (inl d) = inr (q, next r d)
    go (inr (q, r)) (inr (aw, vb)) = inr (q, subst (Reach g b) (sym vb) here)
