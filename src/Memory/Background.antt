-- ===== src/Memory/Background.antt =====
-- BackgroundConsolidation of backend/internal/memory/service.go.
pub mod Renewed
use open_agent_showcase.Common.{
  ℕ, suc, ◌+◌, ◌*◌, ◌==◌, String, Option, none, some, List, [], ◌∷◌, Bool, true, false, ◌||◌, ◌&&◌,
  not, leb, str_eq, if◌then◌else◌, keep, take, Result, ok, err,
}
use open_agent_showcase.Memory.Fraction.{Fraction, over, percent}
use open_agent_showcase.Memory.Similar.{classify_relationship}
use open_agent_showcase.Memory.Store.{Memory, Store, Input, Setting, same_id}
use open_agent_showcase.Memory.Handle.{Output, handle_merge}
use open_agent_showcase.Memory.Consolidate.{is_merge}

-- The rows that are read are compared on their organization, scope, agent and project.
unfoldable pub is_pair : Memory → Memory → Bool
unfolding classify_relationship
is_pair m k =
    (m.org == k.org && str_eq m.scope k.scope)
    && ((same_id m.agent k.agent && same_id m.project k.project)
        && is_merge (classify_relationship m.content k.content).0)

-- The row that handleMerge is given has no more than what was read of it: its importance, confidence
-- and version are 0, and its status is empty.
unfoldable pub partial_row : Memory → Memory
partial_row m = record m {
  conversation = none;
  task = none;
  kind = "";
  source = "";
  importance = over 0 1;
  confidence = over 0 1;
  status = "";
  expires = none;
  accessed = none;
  confirmed = none;
  hash = 0;
  superseded_by = none;
  version = 0;
}

unfoldable pub input_of_row : Memory → Input
input_of_row k = record {
  org = k.org;
  agent = k.agent;
  project = k.project;
  conversation = k.conversation;
  task = k.task;
  kind = "";
  scope = k.scope;
  source = "manual";
  content = k.content;
  importance = over 1 2;
  confidence = over 0 1;
  expires = none;
}

unfoldable pub merge_pair : Setting → Memory → Memory → Store → Store × Result Output
unfolding handle_merge input_of_row partial_row
merge_pair set m k st = handle_merge set (input_of_row k) (partial_row m) (percent 80) st

abbrev count_merge : ℕ → Result Output → ℕ
count_merge n (ok _) = suc n
count_merge n (err _) = n

-- The inner loop, with the number of merges so far.
unfoldable pub merge_into : Setting → ℕ → Memory → List Memory → Store × ℕ → Store × ℕ
unfolding is_pair merge_pair
merge_into set batch m [] (st, n) = (st, n)
merge_into set batch m (k ∷ ks) (st, n) =
    let merged = merge_pair set m k st in
    let after =
      if leb batch n
      then (st, n)
      else if is_pair m k
      then (merged.0, count_merge n merged.1)
      else (st, n) in
    merge_into set batch m ks after

-- The outer loop.
unfoldable pub merge_all : Setting → ℕ → List Memory → Store × ℕ → Store × ℕ
unfolding merge_into
merge_all set batch [] s = s
merge_all set batch (m ∷ ms) s = merge_all set batch ms (merge_into set batch m ms s)

-- `newest` orders rows by their time of creation, the latest first.
unfoldable pub background_consolidation :
    Setting → (List Memory → List Memory) → ℕ → Store → Store × ℕ
unfolding merge_all
background_consolidation set newest batch st =
    let size = if batch == 0 then 20 else batch in
    merge_all set size
      (take (size * 2) (newest (keep (λ (m : Memory). str_eq m.status "active") st.memories)))
      (st, 0)
