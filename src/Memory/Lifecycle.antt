-- ===== src/Memory/Lifecycle.antt =====
-- CleanupExpired, Archive, Restore, MarkStale, ListVersions and Get of
-- backend/internal/memory/service.go. A version is written before the row is, and stays if that fails.
pub mod Archived
pub mod Expired
use open_agent_showcase.Common.{
  ℕ, ◌+◌, ◌-◌, ◌==◌, String, Option, none, some, List, [], ◌∷◌, ◌++◌, Bool, true, false, ◌||◌, ◌&&◌,
  not, ltb, str_eq, if◌then◌else◌, is_some, is_id, has_str, keep, map, length, Bytes, trim_space,
  Result, ok, err,
}
use open_agent_showcase.Memory.Fraction.{Fraction, over, percent, is_zero, below}
use open_agent_showcase.Memory.Text.{is_nothing}
use open_agent_showcase.Memory.Store.{
  Memory, Version, Store, Input, Setting, find_memory, update_memory, checked_update, with_version,
}
use open_agent_showcase.Memory.Handle.{
  Output, Outcome, created, merged, updated, conflict, rejected,
}
use open_agent_showcase.Memory.Consolidate.{consolidate}
use open_agent_showcase.Memory.Create.{working_ttl, conversation_ttl}

-- WHERE id=$1 AND organization_id=$2
unfoldable pub in_org : ℕ → (Memory → Memory) → Memory → Memory
in_org org f m = if m.org == org then f m else m

-- expires_at IS NOT NULL AND expires_at < now()
abbrev pub is_expired : ℕ → Memory → Bool
is_expired now m = elim m.expires [ none ↦ false | some t ↦ ltb t now ]

unfoldable pub archived : Memory → Memory
archived m = record m { status = "archived" }

unfoldable pub restored : ℕ → Memory → Memory
restored now m = record m { status = "active"; confirmed = some now }

unfoldable pub archive_row : ℕ → Store → Option Memory → Store × Option String
unfolding update_memory in_org archived
archive_row org st none = (st, some "sql: no rows in result set")
archive_row org st (some m) = if not (m.org == org) then (st, some "not found") else (
  record (with_version m "archived" st) {
    memories = update_memory m.id (in_org org archived) st.memories;
  },
  none,
)

unfoldable pub archive : ℕ → ℕ → Store → Store × Option String
unfolding archive_row
archive org id st = archive_row org st (find_memory st.memories id)

abbrev pub after_restore : Store → Option (List Memory) → Store × Option String
after_restore st none = (st, some "duplicate key")
after_restore st (some rows) = (record st { memories = rows }, none)

-- The row becomes active, which the unique index may refuse.
unfoldable pub restore_row : ℕ → ℕ → Store → Option Memory → Store × Option String
unfolding checked_update in_org restored
restore_row now org st none = (st, some "sql: no rows in result set")
restore_row now org st (some m) =
    if not (m.org == org)
    then (st, some "not found")
    else if not (has_str ("archived" ∷ "stale" ∷ "superseded" ∷ []) m.status)
    then (st, some "memory not archived")
    else after_restore (with_version m "restored" st)
        (checked_update m.id (in_org org (restored now)) st.memories)

unfoldable pub restore : ℕ → ℕ → ℕ → Store → Store × Option String
unfolding restore_row
restore now org id st = restore_row now org st (find_memory st.memories id)

-- memory_type='working' after an hour, 'conversation' after seven days, and what has expired. A
-- comparison with NULL does not hold.
abbrev older : ℕ → ℕ → Option ℕ → Bool
older now age none = false
older now age (some t) = ltb (t + age) now

-- COALESCE
abbrev coalesce : Option ℕ → Option ℕ → Option ℕ
coalesce none t = t
coalesce (some s) t = some s

abbrev pub becomes_stale : ℕ → Memory → Bool
becomes_stale now m =
    str_eq m.status "active"
    && (is_expired now m
        || ((str_eq m.kind "working" && older now working_ttl m.confirmed)
            || (str_eq m.kind "conversation"
                && older now conversation_ttl (coalesce m.accessed m.confirmed))))

abbrev pub stale : Memory → Memory
stale m = record m { status = "stale" }

abbrev pub batch_of : ℕ → ℕ → ℕ
batch_of default_size n = if n == 0 then default_size else n

-- The first `left` rows that are due, in the order of the table, for a query without an order; with
-- their number.
unfoldable pub mark_rows : ℕ → ℕ → List Memory → List Memory × ℕ
mark_rows now left [] = ([], 0)
mark_rows now left (m ∷ rows) =
    let due = becomes_stale now m && not (left == 0) in
    let rest = mark_rows now (if due then left - 1 else left) rows in
    if due then (stale m ∷ rest.0, rest.1 + 1) else (m ∷ rest.0, rest.1)

unfoldable pub mark_stale : ℕ → ℕ → Store → Store × ℕ
unfolding mark_rows
mark_stale now batch st =
    let marked = mark_rows now (batch_of 50 batch) st.memories in
    (record st { memories = marked.0 }, marked.1)

abbrev pub is_disposable : ℕ → Memory → Bool
is_disposable now m = is_expired now m && (str_eq m.status "stale" || str_eq m.status "archived")

-- ON DELETE SET NULL
abbrev pub without_link : List Memory → Memory → Memory
without_link kept m = record m {
  superseded_by = elim m.superseded_by [
    | none ↦ none
    | some id ↦ elim (find_memory kept id) [ none ↦ none | some _ ↦ some id ]
  ];
}

abbrev pub expire : ℕ → Memory → Memory
expire now m = if is_expired now m && str_eq m.status "active" then stale m else m

-- ON DELETE CASCADE
abbrev pub of_kept : List Memory → Version → Bool
of_kept kept v = is_some (find_memory kept v.memory)

unfoldable pub cleanup_expired : ℕ → Store → Store × ℕ
cleanup_expired now st =
    let kept = keep (λ m. not (is_disposable now m)) st.memories in
    (
      record {
        memories = map (expire now) (map (without_link kept) kept);
        versions = keep (of_kept kept) st.versions;
      },
      length st.memories - length kept,
    )

unfoldable pub list_versions : ℕ → Store → List Version
list_versions id st = keep (λ (v : Version). v.memory == id) st.versions

unfoldable pub accessed_at : ℕ → Memory → Memory
accessed_at now m = record m { accessed = some now }

abbrev get_row : ℕ → ℕ → Store → Option Memory → Store × Result Memory
unfolding update_memory accessed_at
get_row now org st none = (st, err "sql: no rows in result set")
get_row now org st (some m) =
    if not (m.org == org)
    then (st, err "not found")
    else (record st { memories = update_memory m.id (accessed_at now) st.memories }, ok m)

-- The row as it was before the time of access is set.
unfoldable pub get : ℕ → ℕ → ℕ → Store → Store × Result Memory
unfolding update_memory accessed_at
get now org id st = get_row now org st (find_memory st.memories id)
