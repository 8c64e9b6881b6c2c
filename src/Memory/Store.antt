-- ===== src/Memory/Store.antt =====
-- The tables memories and memory_versions, and the statements of backend/internal/memory/service.go
-- on them. Times are seconds. Metadata, events, audit rows, the source event and the idempotency key
-- are not modelled.
use open_agent_showcase.Common.{
  ℕ, String, Option, none, some, List, [], ◌∷◌, ◌++◌, Bool, true, false, ◌&&◌, not, ◌==◌, str_eq,
  if◌then◌else◌, has_str, any, find, Bytes,
}
use open_agent_showcase.Memory.Fraction.{Fraction, over, is_zero}

-- domain.Memory, a row.
pub record Memory : Type 0 where
  pub id : ℕ
  pub org : ℕ
  pub agent : Option ℕ
  pub project : Option ℕ
  pub conversation : Option ℕ
  pub task : Option ℕ
  pub kind : String
  pub scope : String
  pub source : String
  pub content : Bytes
  pub importance : Fraction
  pub confidence : Fraction
  pub status : String
  pub expires : Option ℕ
  pub accessed : Option ℕ
  pub confirmed : Option ℕ
  pub hash : ℕ
  pub superseded_by : Option ℕ
  pub version : ℕ

-- A row of memory_versions.
pub record Version : Type 0 where
  pub memory : ℕ
  pub number : ℕ
  pub content : Bytes
  pub importance : Fraction
  pub confidence : Fraction
  pub status : String
  pub reason : String

pub record Store : Type 0 where
  pub memories : List Memory
  pub versions : List Version

-- ConsolidateInput
pub record Input : Type 0 where
  pub org : ℕ
  pub agent : Option ℕ
  pub project : Option ℕ
  pub conversation : Option ℕ
  pub task : Option ℕ
  pub kind : String
  pub scope : String
  pub source : String
  pub content : Bytes
  pub importance : Fraction
  pub confidence : Fraction
  pub expires : Option ℕ

-- What is answered by the embedding service: whether it is the stub, and the order by distance.
pub record Embedding : Type 0 where
  pub is_stub : Bool
  pub by_distance : List Memory → List Memory

-- The reply of a model to llmClassify, once it is decoded.
pub record Reply : Type 0 where
  pub relationship : String
  pub confidence : Fraction
  pub consolidated : Bytes

-- What comes from elsewhere: the time, the identifiers that are generated, the hash, the embedding,
-- whether the database fails to answer the query for candidates, whether it refuses an insertion for a
-- reason of its own, and the replies of the model, if there is one.
pub record Setting : Type 0 where
  pub now : ℕ
  pub new_id : ℕ
  pub link_id : ℕ
  pub hash : Bytes → ℕ
  pub embedding : Option Embedding
  pub query_fails : Bool
  pub insert_fails : Bool
  pub model : Bytes → Bytes → Option Reply

-- IS NOT DISTINCT FROM
abbrev pub same_id : Option ℕ → Option ℕ → Bool
same_id none none = true
same_id none (some b) = false
same_id (some a) none = false
same_id (some a) (some b) = a == b

-- The organization, the scope and the owner of the input.
unfoldable pub is_in_place : Input → Memory → Bool
is_in_place in' m =
    m.org == in'.org
    && (str_eq m.scope in'.scope
        && (same_id m.agent in'.agent
            && (same_id m.project in'.project
                && (same_id m.conversation in'.conversation && same_id m.task in'.task))))

abbrev pub is_live : String → Bool
is_live s = has_str ("active" ∷ "candidate" ∷ "validating" ∷ "conflict" ∷ []) s

abbrev pub is_indexed : String → Bool
is_indexed s = has_str ("active" ∷ "candidate" ∷ "validating" ∷ []) s

-- COALESCE(id, uuid.Nil)
abbrev pub or_nil : Option ℕ → ℕ
or_nil none = 0
or_nil (some a) = a

-- The unique index idx_memories_idempotency, of which the conversation and the task are no part.
abbrev pub collides : Memory → Memory → Bool
collides m k =
    not (k.id == m.id)
    && ((is_indexed m.status && is_indexed k.status)
        && (k.org == m.org
            && (str_eq k.scope m.scope
                && (or_nil k.agent == or_nil m.agent
                    && (or_nil k.project == or_nil m.project && k.hash == m.hash)))))

unfoldable pub is_taken : List Memory → Memory → Bool
is_taken rows m = any (collides m) rows

abbrev pub find_memory : List Memory → ℕ → Option Memory
find_memory rows id = find (λ (m : Memory). m.id == id) rows

-- UPDATE memories SET … WHERE id=$1
unfoldable pub update_memory : ℕ → (Memory → Memory) → List Memory → List Memory
update_memory id f [] = []
update_memory id f (m ∷ rows) = (if m.id == id then f m else m) ∷ update_memory id f rows

-- The same where the statement may violate the index: `found` is the row as it is.
unfoldable pub update_unless_taken :
    ℕ → (Memory → Memory) → List Memory → Option Memory → Option (List Memory)
unfolding is_taken update_memory
update_unless_taken id f rows none = some rows
update_unless_taken id f rows (some m) =
    if is_taken rows (f m) then none else some (update_memory id f rows)

unfoldable pub checked_update : ℕ → (Memory → Memory) → List Memory → Option (List Memory)
unfolding update_unless_taken
checked_update id f rows = update_unless_taken id f rows (find_memory rows id)

abbrev pub or_half : Fraction → Fraction
or_half x = if is_zero x then over 1 2 else x

-- UNIQUE (memory_id, version)
abbrev pub has_version : List Version → ℕ → ℕ → Bool
has_version rows id n = any (λ (v : Version). v.memory == id && v.number == n) rows

abbrev pub version_of : Memory → String → Version
version_of m reason = record {
  memory = m.id;
  number = m.version;
  content = m.content;
  importance = m.importance;
  confidence = m.confidence;
  status = m.status;
  reason = reason;
}

abbrev pub insert_version : Version → List Version → List Version
insert_version v rows = if has_version rows v.memory v.number then rows else rows ++ v ∷ []

-- createVersion, whose error every caller drops.
abbrev pub with_version : Memory → String → Store → Store
with_version m reason st = record st { versions = insert_version (version_of m reason) st.versions }

unfoldable pub new_memory : Setting → Input → ℕ → String → Bytes → Memory
new_memory set in' hash status content = record {
  id = set.new_id;
  org = in'.org;
  agent = in'.agent;
  project = in'.project;
  conversation = in'.conversation;
  task = in'.task;
  kind = in'.kind;
  scope = in'.scope;
  source = in'.source;
  content = content;
  importance = or_half in'.importance;
  confidence = or_half in'.confidence;
  status = status;
  expires = in'.expires;
  accessed = some set.now;
  confirmed = some set.now;
  hash = hash;
  superseded_by = none;
  version = 1;
}

-- What insertMemory comes to: refused by the index or for another reason, or the new row.
pub data Inserted : Type 0 where
  taken failed : Inserted
  row : Memory → Inserted

unfoldable pub insert_memory : Setting → Memory → Store → Inserted
unfolding is_taken
insert_memory set m st =
    if set.insert_fails then failed else if is_taken st.memories m then taken else row m

abbrev pub with_memory : Memory → Store → Store
with_memory m st = record st { memories = st.memories ++ m ∷ [] }
