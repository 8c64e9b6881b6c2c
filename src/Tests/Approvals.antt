-- ===== src/Tests/Approvals.antt =====
-- Tests of the approvals.
use open_agent_showcase.Common.{none, some, List, [], ◌∷◌, ok, err, ◌≡◌, refl}
use open_agent_showcase.Approval.{
  Approval, create, approval_of, clear, check, with_decision, apply, returned, decide,
  expire_pending,
}
use open_agent_showcase.Approval.Decided.{decide_race}

abbrev requested : List Approval
requested = create 100 7 1 "publish" "severe" "" 0 []

create_test :
    requested
    ≡ record {
      id = 7;
      org = 1;
      title = "publish";
      risk = "medium";
      action = "publish";
      status = "pending";
      decided_by = none;
      decided_at = none;
      expires_at = some 86500;
    }
      ∷ []
unfolding create
create_test = refl

decide_lapsed : (decide 90000 requested 1 7 3 "approved").1 ≡ err "approval expired"
unfolding create check apply decide
decide_lapsed = refl

decide_foreign :
    decide 200 requested 2 7 3 "approved" ≡ (requested, err "sql: no rows in result set")
unfolding create check apply decide
decide_foreign = refl

expire_pending_test : (expire_pending 90000 requested).1 ≡ 1
unfolding create expire_pending
expire_pending_test = refl

abbrev request : Approval
request = record {
  id = 7;
  org = 1;
  title = "publish";
  risk = "high";
  action = "publish";
  status = "pending";
  decided_by = none;
  decided_at = none;
  expires_at = some 86500;
}

abbrev approved : Approval
approved = with_decision 200 "approved" 3 request

decided_ok : (decide 200 (request ∷ []) 1 7 3 "approved").1 ≡ ok approved
unfolding check apply decide returned
decided_ok = refl

is_clear :
    (check 200 (request ∷ []) 1 7 "approved" ≡ clear)
    × (check 200 (request ∷ []) 1 7 "rejected" ≡ clear)
unfolding check
is_clear = (refl, refl)

decide_race_example :
    let once =
      apply 200 (check 200 (request ∷ []) 1 7 "approved") 1 7 "approved" 3 (request ∷ []) in
    let twice = apply 200 (check 200 (request ∷ []) 1 7 "rejected") 1 7 "rejected" 4 once.0 in
    let second = with_decision 200 "rejected" 4 approved in
    (once.1 ≡ ok approved) × ((twice.1 ≡ ok second) × (approval_of twice.0 1 7 ≡ some second))
decide_race_example =
    decide_race 200 (request ∷ []) 1 7 3 4 "approved" "rejected" request refl is_clear.0 is_clear.1
