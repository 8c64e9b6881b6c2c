-- ===== src/Memory/Handle.antt =====
-- What Consolidate does with a candidate: handleExactDuplicate, handleMerge, handleUpdate,
-- handleContradiction and createNewMemory of backend/internal/memory/service.go.
pub mod Place
pub mod Isolated
pub mod Supersede
pub mod Statuses
use open_agent_showcase.Common.{
  ℕ, suc, ◌+◌, ◌-◌, ◌*◌, String, Option, none, some, List, [], ◌∷◌, ◌++◌, Bool, true, false, ◌||◌,
  ◌&&◌, not, ◌==◌, str_eq, if◌then◌else◌, has_str, any, find, take, Bytes, trim_space, Result, ok,
  err,
}
use open_agent_showcase.Memory.Fraction.{
  Fraction, over, percent, is_zero, below, at_most, plus, times, smaller, larger,
}
use open_agent_showcase.Memory.Text.{normalize, choose_stronger}
use open_agent_showcase.Memory.Store.{
  Memory, Version, Store, Input, Setting, is_taken, find_memory, update_memory, checked_update,
  or_half, with_version, new_memory, Inserted, taken, failed, row, insert_memory, with_memory,
}

pub data Outcome : Type 0 where
  created merged updated conflict rejected : Outcome

-- ConsolidateOutput
pub record Output : Type 0 where
  pub memory : Option Memory
  pub outcome : Outcome
  pub reason : String
  pub related : Option ℕ

-- x + (1 - x) * share, and at most 0.99
abbrev reinforced : Fraction → Fraction → Fraction
reinforced x share = smaller (percent 99) (plus x (times (over (x.den - x.num) x.den) share))

-- The new confidence counts for nothing.
unfoldable pub reinforce_confidence : Fraction → String → Fraction
reinforce_confidence old source =
    let base = or_half old in
    if has_str ("EXPLICIT_USER_PREFERENCE" ∷ "explicit_user_preference" ∷ []) source
    then reinforced base (over 5 10)
    else reinforced base (over 3 10)

unfoldable pub confirm : Setting → Bytes → ℕ → Fraction → Fraction → Memory → Memory
confirm set content hash importance confidence m = record m {
  content = content;
  hash = hash;
  importance = importance;
  confidence = confidence;
  confirmed = some set.now;
  accessed = some set.now;
  version = suc m.version;
}

-- The row as it now is.
unfoldable pub after_confirm : String → ℕ → Store → Option (List Memory) → Store × Result Output
after_confirm reason id st none = (st, err "duplicate key")
after_confirm reason id st (some rows) = (
  record st { memories = rows },
  ok (record {
    memory = find_memory rows id;
    outcome = merged;
    reason = reason;
    related = some id;
  }),
)

-- The stronger text with its hash, and the larger importance.
unfoldable pub merge_change : Setting → Input → Memory → Fraction → Memory → Memory
unfolding choose_stronger normalize confirm
merge_change set in' m confidence =
    let content = choose_stronger m.content in'.content in
    confirm set content (set.hash (normalize content)) (larger m.importance in'.importance)
      confidence

-- Both merges.
unfoldable pub merge_with :
    Setting → Input → Memory → Fraction → String → String → Store → Store × Result Output
unfolding merge_change checked_update after_confirm
merge_with set in' m confidence note reason st =
    after_confirm reason m.id (with_version m note st)
      (checked_update m.id (merge_change set in' m confidence) st.memories)

unfoldable pub handle_merge : Setting → Input → Memory → Fraction → Store → Store × Result Output
unfolding merge_with reinforce_confidence
handle_merge set in' m found st =
    merge_with set in' m (larger (reinforce_confidence m.confidence in'.source) found)
      "semantic merge" "semantic duplicate merged" st

abbrev default_confidence : String → Fraction
default_confidence source =
    if str_eq source "EXPLICIT_USER_PREFERENCE"
    then percent 95
    else if str_eq source "USER_MESSAGE"
    then percent 80
    else percent 50

abbrev pub final_confidence : Input → Fraction
final_confidence in' =
    if is_zero in'.confidence then default_confidence in'.source else in'.confidence

abbrev pub final_importance : Input → Fraction
final_importance in' =
    if not (is_zero in'.importance)
    then in'.importance
    else if str_eq in'.source "EXPLICIT_USER_PREFERENCE"
    then percent 85
    else percent 50

abbrev pub max_content : ℕ
max_content = 5000

-- Where the index refuses the row, any row of the scope with the hash is returned.
abbrev pub has_hash : Input → ℕ → Memory → Bool
has_hash in' hash m = m.org == in'.org && (str_eq m.scope in'.scope && m.hash == hash)

unfoldable pub reuse : Store → Option Memory → Store × Result Output
reuse st none = (st, err "duplicate key")
reuse st (some m) = (
  st,
  ok (record {
    memory = some m;
    outcome = merged;
    reason = "idempotent duplicate";
    related = some m.id;
  }),
)

unfoldable pub after_creation : Setting → Input → ℕ → Store → Inserted → Store × Result Output
unfolding reuse
after_creation set in' hash st failed = (st, err "insert failed")
after_creation set in' hash st taken = reuse st (find (has_hash in' hash) st.memories)
after_creation set in' hash st (row m) =
    let m' = record m { confidence = final_confidence in'; importance = final_importance in' } in
    (
      with_memory m' st,
      ok (record {
        memory = some m';
        outcome = created;
        reason = "new memory created";
        related = none;
      }),
    )

unfoldable pub create_new_memory : Setting → Input → ℕ → Store → Store × Result Output
unfolding new_memory insert_memory after_creation trim_space
create_new_memory set in' hash st =
    let m = new_memory set in' hash "active" (take max_content (trim_space in'.content)) in
    after_creation set in' hash st (insert_memory set m st)

unfoldable pub after_read : Setting → Input → ℕ → Store → Option Memory → Store × Result Output
unfolding create_new_memory merge_with reinforce_confidence
after_read set in' hash st none = create_new_memory set in' hash st
after_read set in' hash st (some m) =
    merge_with set in' m (reinforce_confidence m.confidence in'.source) "reinforce duplicate"
      "exact duplicate reinforced" st

unfoldable pub handle_exact_duplicate : Setting → Input → ℕ → ℕ → Store → Store × Result Output
unfolding after_read
handle_exact_duplicate set in' id hash st = after_read set in' hash st (find_memory st.memories id)

unfoldable pub superseded : ℕ → Memory → Memory
superseded link m = record m { status = "superseded"; superseded_by = some link }

unfoldable pub linked : ℕ → Memory → Memory
linked id m = record m { superseded_by = some id }

-- UPDATE memories SET status='superseded', superseded_by=$1 …: the column refers to a memory, and where
-- there is none of that identifier the statement fails, which the code ignores.
unfoldable pub supersede : ℕ → ℕ → List Memory → List Memory
unfolding update_memory superseded
supersede link id rows =
    if any (λ (m : Memory). m.id == link) rows
    then update_memory id (superseded link) rows
    else rows

unfoldable pub after_update : Setting → Input → Memory → Store → Inserted → Store × Result Output
unfolding update_memory handle_merge linked
after_update set in' m st taken = handle_merge set in' m (over 0 1) st
after_update set in' m st failed = handle_merge set in' m (over 0 1) st
after_update set in' m st (row new) =
    let st1 = with_memory new st in
    (
      record st1 { memories = update_memory m.id (linked new.id) st1.memories },
      ok (record {
        memory = some new;
        outcome = updated;
        reason = "update superseded previous";
        related = some m.id;
      }),
    )

unfoldable pub handle_update : Setting → Input → Memory → ℕ → Store → Store × Result Output
unfolding supersede new_memory choose_stronger insert_memory after_update
handle_update set in' m hash st =
    let st1 = with_version m "superseded by update" st in
    let st2 = record st1 { memories = supersede set.link_id m.id st1.memories } in
    let new = new_memory set in' hash "active" (choose_stronger m.content in'.content) in
    after_update set in' m st2 (insert_memory set new st2)

abbrev pub is_explicit : String → Bool
is_explicit source =
    has_str ("EXPLICIT_USER_PREFERENCE" ∷ "USER_MESSAGE" ∷ "user_preference" ∷ []) source

unfoldable pub after_conflict : Memory → Store → Inserted → Store × Result Output
after_conflict m st taken = (st, err "duplicate key")
after_conflict m st failed = (st, err "insert failed")
after_conflict m st (row new) = (
  with_memory new st,
  ok (record {
    memory = some new;
    outcome = conflict;
    reason = "contradictory facts preserved";
    related = some m.id;
  }),
)

unfoldable pub in_conflict : ℕ → Memory → Memory
in_conflict now m = record m { status = "conflict"; confirmed = some now }

unfoldable pub handle_contradiction : Setting → Input → Memory → ℕ → Store → Store × Result Output
unfolding handle_update new_memory insert_memory after_conflict update_memory in_conflict
handle_contradiction set in' m hash st =
    if is_explicit in'.source
      && (at_most (percent 90) (or_half in'.confidence) && below m.confidence (percent 80))
    then handle_update set in' m hash st
    else let st1 =
        with_version m "conflict detected"
          (record st { memories = update_memory m.id (in_conflict set.now) st.memories }) in
      after_conflict m st1 (insert_memory set (new_memory set in' hash "conflict" in'.content) st1)
