-- ===== src/Tests/Graph.antt =====
-- Tests of the task dependencies.
use open_agent_showcase.Common.{ℕ, List, [], ◌∷◌, ◌≡◌, refl}
use mathlib.Core.List.Memᴰ
use open_agent_showcase.Task.{Db}
use open_agent_showcase.Task.Dependency.{
  list_task_dependencies, cycle_detected, add_task_dependency,
}
use open_agent_showcase.Task.Dependency.Graph.{IsAcyclic}
use open_agent_showcase.Task.Dependency.Acyclic.{
  Answer, add_task_dependency-Answer, add_task_dependency-IsAcyclic,
}
use open_agent_showcase.Tests.Data.{store}

abbrev chain : List (ℕ × ℕ)
chain = (1, 2) ∷ (2, 3) ∷ []

add_task_dependency_test : add_task_dependency chain 3 1 ≡ cycle_detected
unfolding add_task_dependency
add_task_dependency_test = refl

add_task_dependency-Answer_example : Answer chain 3 1 (add_task_dependency chain 3 1)
add_task_dependency-Answer_example = add_task_dependency-Answer chain 3 1

none-IsAcyclic : IsAcyclic []
unfolding list_task_dependencies
none-IsAcyclic u v e p = absurd (Memᴰ.not-nil e)

add_task_dependency-IsAcyclic_example : IsAcyclic ((1, 2) ∷ [])
unfolding add_task_dependency
add_task_dependency-IsAcyclic_example =
    add_task_dependency-IsAcyclic [] 1 2 ((1, 2) ∷ []) none-IsAcyclic refl

abbrev waiting_store : Db
waiting_store = record (store "completed") { deps = (4, 7) ∷ [] }
