-- ===== src/Approval.antt =====
-- Approvals, backend/internal/approval/service.go, on the rows of the table. Times are seconds, and
-- the statements succeed.
pub mod Decided
use open_agent_showcase.Common.{
  ℕ, zero, suc, ◌+◌, String, Option, none, some, List, [], ◌∷◌, ◌++◌, Bool, true, false, ◌&&◌, not,
  ◌==◌, ltb, str_eq, if◌then◌else◌, has_str, find, Result, ok, err,
}

-- The columns that the course of an approval depends on: not the requester, the subject, the
-- description, the payload and the context.
pub record Approval : Type 0 where
  pub id : ℕ
  pub org : ℕ
  pub title : String
  pub risk : String
  pub action : String
  pub status : String
  pub decided_by : Option ℕ
  pub decided_at : Option ℕ
  pub expires_at : Option ℕ

abbrev valid_risk_levels : List String
valid_risk_levels = "low" ∷ "medium" ∷ "high" ∷ "critical" ∷ []

abbrev pub valid_approval_statuses : List String
valid_approval_statuses = "pending" ∷ "approved" ∷ "rejected" ∷ "expired" ∷ "cancelled" ∷ []

-- Create at a time; `id` is the identifier that is generated.
unfoldable pub create : ℕ → ℕ → ℕ → String → String → String → ℕ → List Approval → List Approval
create now id org title risk action expires_in rows =
    rows
    ++ record {
      id = id;
      org = org;
      title = title;
      risk = if has_str valid_risk_levels risk then risk else "medium";
      action = if str_eq action "" then title else action;
      status = "pending";
      decided_by = none;
      decided_at = none;
      expires_at = some (now + (if expires_in == 0 then 86400 else expires_in));
    }
      ∷ []

abbrev pub approval_of : List Approval → ℕ → ℕ → Option Approval
approval_of rows org id = find (λ (a : Approval). a.id == id && a.org == org) rows

-- expires_at is in the past.
abbrev pub is_lapsed : ℕ → Approval → Bool
is_lapsed now a = elim a.expires_at [ none ↦ false | some t ↦ ltb t now ]

-- What Decide finds before it writes.
pub data Checked : Type 0 where
  refused : String → Checked
  lapsed clear : Checked

unfoldable pub check : ℕ → List Approval → ℕ → ℕ → String → Checked
check now rows org id decision =
    if not (has_str valid_approval_statuses decision)
    then refused "invalid status"
    else if str_eq decision "pending"
    then refused "cannot decide to pending"
    else elim (approval_of rows org id) [
      | none ↦ refused "sql: no rows in result set"
      | some a ↦
          if not (str_eq a.status "pending")
          then refused "approval already decided"
          else if is_lapsed now a
          then lapsed
          else clear
    ]

abbrev pub on_id : (Approval → Approval) → ℕ → List Approval → List Approval
on_id f id [] = []
on_id f id (a ∷ rows) = (if a.id == id then f a else a) ∷ on_id f id rows

abbrev pub on_row : (Approval → Approval) → ℕ → ℕ → List Approval → List Approval
on_row f org id [] = []
on_row f org id (a ∷ rows) = (if a.id == id && a.org == org then f a else a) ∷ on_row f org id rows

abbrev pub with_decision : ℕ → String → ℕ → Approval → Approval
with_decision now decision by a = record a {
  status = decision;
  decided_by = some by;
  decided_at = some now;
}

-- The row that the UPDATE returns.
unfoldable pub returned : Option Approval → Result Approval
returned none = err "sql: no rows in result set"
returned (some a) = ok a

-- The statement that follows: it does not look at the status again.
unfoldable pub apply :
    ℕ → Checked → ℕ → ℕ → String → ℕ → List Approval → List Approval × Result Approval
apply now (refused e) org id decision by rows = (rows, err e)
apply now lapsed org id decision by rows =
    (on_id (λ a. record a { status = "expired" }) id rows, err "approval expired")
apply now clear org id decision by rows =
    let after = on_row (with_decision now decision by) org id rows in
    (after, returned (approval_of after org id))

unfoldable pub decide : ℕ → List Approval → ℕ → ℕ → ℕ → String → List Approval × Result Approval
decide now rows org id by decision =
    apply now (check now rows org id decision) org id decision by rows

-- ExpirePending, with the number of the rows that it sets.
unfoldable pub expire_pending : ℕ → List Approval → List Approval × ℕ
expire_pending now [] = ([], 0)
expire_pending now (a ∷ rows) =
    let (rest, n) = expire_pending now rows in
    if str_eq a.status "pending" && is_lapsed now a
    then (record a { status = "expired" } ∷ rest, suc n)
    else (a ∷ rest, n)
