-- ===== src/Tests/Memories.antt =====
-- Tests of the memories.
use mathlib.Core.List.Memᴰ
use open_agent_showcase.Common.{
  ℕ, String, none, some, List, ◌≤◌, length, Bytes, [], ◌∷◌, false, bytes, trim_space, to_lower, ok,
  err, ◌≡◌, refl,
}
use open_agent_showcase.Memory.Fraction.{percent}
use open_agent_showcase.Memory.Text.{
  collapse, fields_func, collect, token_set, score, choose_stronger, normalize,
}
use open_agent_showcase.Memory.Sequence.{fill_row, fill_table, longest_common_subsequence}
use open_agent_showcase.Memory.Sequence.Longest.{Sub, longest_common_subsequence-IsLongest}
use open_agent_showcase.Memory.Similar.{
  last_word, shares_subject, is_contradictory, classify_relationship,
}
use open_agent_showcase.Memory.Similar.Relation.{classify_relationship_comm}
use open_agent_showcase.Memory.Store.{
  Memory, Store, Input, Setting, new_memory, insert_memory, is_taken, find_memory, update_memory,
  with_version,
}
use open_agent_showcase.Memory.Handle.{
  Output, after_update, handle_update, updated, created, after_creation, create_new_memory,
}
use open_agent_showcase.Memory.Handle.Place.{elsewhere}
use open_agent_showcase.Memory.Handle.Supersede.{handle_update-text}
use open_agent_showcase.Memory.Handle.Statuses.{handle_update-status}
use open_agent_showcase.Memory.Consolidate.{
  nearest, find_candidates, settle, after_exact, screen, after_screen, consolidate,
}
use open_agent_showcase.Memory.Consolidate.Repeated.{consolidate_again}
use open_agent_showcase.Memory.Screen.{is_low_value, secret_pattern, is_secret_content}
use open_agent_showcase.Memory.Consolidate.Isolation.{consolidate-elsewhere}
use open_agent_showcase.Memory.Create.{create_error, create}
use open_agent_showcase.Memory.Lifecycle.{in_org, restored, archive, restore, cleanup_expired}
use open_agent_showcase.Memory.Lifecycle.Archived.{restore-archive}
use open_agent_showcase.Memory.Retrieve.{
  Search, parameter, has_type, holds, every_type, some_holds, build_scope_filter, first_of_each,
  retrieve, deduplicate_for_context,
}
use open_agent_showcase.Memory.Retrieve.Access.{is_askable, retrieve-reference}
use open_agent_showcase.Memory.Retrieve.Context.{texts, occurrences, deduplicate_for_context-once}
use open_agent_showcase.Memory.Background.{background_consolidation}
use open_agent_showcase.Memory.Background.Renewed.{Renewed, background_consolidation-Renewed}

abbrev setting : Setting
setting = record {
  now = 1000;
  new_id = 9;
  link_id = 8;
  hash = λ s. 77;
  embedding = none;
  query_fails = false;
  insert_fails = false;
  model = λ s t. none;
}

abbrev row : ℕ → String → String → Memory
row id status text = record {
  id = id;
  org = 1;
  agent = some 5;
  project = none;
  conversation = none;
  task = none;
  kind = "agent";
  scope = "agent";
  source = "manual";
  content = bytes text;
  importance = percent 50;
  confidence = percent 50;
  status = status;
  expires = none;
  accessed = none;
  confirmed = some 10;
  hash = id;
  superseded_by = none;
  version = 1;
}

abbrev input : String → Input
input text = record {
  org = 1;
  agent = some 5;
  project = none;
  conversation = none;
  task = none;
  kind = "agent";
  scope = "agent";
  source = "manual";
  content = bytes text;
  importance = percent 50;
  confidence = percent 50;
  expires = none;
}

abbrev old_text : String
old_text = "The customer wants the report as csv"

abbrev new_text : String
new_text = "The customer wants the report as pdf"

abbrev store : Store
store = record {
  memories = row 3 "active" old_text ∷ record (row 4 "active" new_text) { org = 2 } ∷ [];
  versions = [];
}

classify_relationship_test :
    (classify_relationship (bytes old_text) (bytes new_text)).0 ≡ "contradiction"
unfolding classify_relationship is_contradictory shares_subject last_word normalize collapse
    trim_space to_lower
classify_relationship_test = refl

create_test :
    (create setting
      (record {
        org = 1;
        agent = some 5;
        project = none;
        kind = "conversation";
        scope = "agent";
        source = "";
        content = bytes "The deadline is monday";
        importance = percent 20;
        expires = none;
      })
      store)
    ≡ (store, err "conversation memory importance too low")
unfolding create create_error trim_space
create_test = refl

longest_common_subsequence_test :
    longest_common_subsequence
      (bytes "a" ∷ bytes "b" ∷ bytes "c" ∷ [])
      (bytes "b" ∷ bytes "a" ∷ bytes "c" ∷ [])
    ≡ 2
unfolding longest_common_subsequence fill_table fill_row
longest_common_subsequence_test = refl

longest_common_subsequence-IsLongest_example :
    ((s : List Bytes) × (Sub s (bytes "a" ∷ [])
        × (Sub s (bytes "b" ∷ bytes "a" ∷ [])
            × (length s
                ≡ longest_common_subsequence (bytes "a" ∷ []) (bytes "b" ∷ bytes "a" ∷ [])))))
    × ((s : List Bytes)
        → Sub s (bytes "a" ∷ [])
        → Sub s (bytes "b" ∷ bytes "a" ∷ [])
        → length s ≤ longest_common_subsequence (bytes "a" ∷ []) (bytes "b" ∷ bytes "a" ∷ []))
longest_common_subsequence-IsLongest_example =
    longest_common_subsequence-IsLongest (bytes "a" ∷ []) (bytes "b" ∷ bytes "a" ∷ [])

classify_relationship_comm_example :
    classify_relationship (bytes old_text) (bytes new_text)
    ≡ classify_relationship (bytes new_text) (bytes old_text)
classify_relationship_comm_example = classify_relationship_comm (bytes old_text) (bytes new_text)

consolidate-elsewhere_example :
    elsewhere (input new_text) (consolidate setting (input new_text) store).0.memories
    ≡ elsewhere (input new_text) store.memories
consolidate-elsewhere_example =
    consolidate-elsewhere setting (input new_text) store (refl, (refl, tt)) tt

abbrev report : Memory
report = row 3 "active" "Status of the quarterly report: draft"

abbrev text_store : Store
text_store = record { memories = report ∷ []; versions = [] }

abbrev short_input : Input
short_input = input "Report status: final"

abbrev updated_output : Output
updated_output = record {
  memory = some (record report { id = 9; hash = 77; accessed = some 1000; confirmed = some 1000 });
  outcome = updated;
  reason = "update superseded previous";
  related = some 3;
}

handle_update_test : (handle_update setting short_input report 77 text_store).1 ≡ ok updated_output
unfolding handle_update new_memory insert_memory after_update is_taken choose_stronger score
    token_set collect fields_func trim_space to_lower
handle_update_test = refl

handle_update-text_example :
    (new : Memory) × ((updated_output.memory ≡ some new)
      × ((new.content ≡ bytes "Status of the quarterly report: draft") × (new.hash ≡ 77)))
unfolding trim_space score token_set collect fields_func to_lower
handle_update-text_example =
    handle_update-text setting short_input report 77 text_store updated_output handle_update_test
      refl refl refl

handle_update-status_example :
    (k' : Memory) × ((find_memory
          (handle_update setting short_input report 77 text_store).0.memories
          3
        ≡ some k')
      × (k'.status ≡ "active"))
handle_update-status_example =
    handle_update-status setting short_input report 77 3 text_store report refl refl

restore-archive_example : restore 1000 1 3 (archive 1 3 store).0 ≡ (
  record (with_version (row 3 "active" old_text) "archived" store) {
    memories = update_memory 3 (in_org 1 (restored 1000)) store.memories;
  },
  none,
)
unfolding is_taken restored
restore-archive_example = restore-archive 1000 1 (row 3 "active" old_text) store refl refl refl

abbrev overdue : Store
overdue = record {
  memories = record (row 3 "active" old_text) { expires = some 20 } ∷ [];
  versions = [];
}

cleanup_expired_test : (cleanup_expired 1000 (cleanup_expired 1000 overdue).0).1 ≡ 1
unfolding cleanup_expired
cleanup_expired_test = refl

abbrev query : Search
query = record {
  org = 1;
  agent = none;
  project = some 2;
  embedding = none;
  limit = 5;
  min_importance = percent 30;
  now = 1000;
  order = λ rows. rows;
}

retrieve_test :
    retrieve (record query { agent = some 5 }) store.memories ≡ ok (row 3 "active" old_text ∷ [])
unfolding retrieve build_scope_filter every_type has_type parameter some_holds holds
    deduplicate_for_context first_of_each
retrieve_test = refl

retrieve-reference_example :
    retrieve query store.memories ≡ err "operator does not exist: uuid = real"
unfolding is_askable
retrieve-reference_example = retrieve-reference query store.memories

deduplicate_for_context-once_example :
    occurrences (texts (deduplicate_for_context store.memories)) (normalize (bytes old_text)) ≡ 1
deduplicate_for_context-once_example =
    deduplicate_for_context-once store.memories (row 3 "active" old_text) (Memᴰ.head refl) refl

background_consolidation-Renewed_example :
    Renewed store.memories (background_consolidation setting (λ rows. rows) 20 store).0.memories
background_consolidation-Renewed_example =
    background_consolidation-Renewed setting (λ rows. rows) 20 store

abbrev fresh_input : Input
fresh_input = input "The deadline of the launch moved"

abbrev empty_store : Store
empty_store = record { memories = []; versions = [] }

abbrev fresh_output : Output
fresh_output = record {
  memory = some (record (row 9 "active" "The deadline of the launch moved") {
    hash = 77;
    accessed = some 1000;
    confirmed = some 1000;
  });
  outcome = created;
  reason = "new memory created";
  related = none;
}

consolidate_test : (consolidate setting fresh_input empty_store).1 ≡ ok fresh_output
unfolding consolidate screen after_screen after_exact find_candidates nearest settle
    create_new_memory after_creation new_memory insert_memory is_taken is_low_value
    is_secret_content secret_pattern normalize collapse trim_space to_lower
consolidate_test = refl

consolidate_again_example :
    length
      (consolidate
        (record setting { now = 5000; new_id = 12 })
        fresh_input
        (consolidate setting fresh_input empty_store).0).0.memories
    ≡ length (consolidate setting fresh_input empty_store).0.memories
consolidate_again_example =
    consolidate_again setting (record setting { now = 5000; new_id = 12 }) fresh_input empty_store
      fresh_output consolidate_test refl refl
