-- ===== src/Approval/Decided.antt =====
-- How often an approval of backend/internal/approval/service.go is decided.
use open_agent_showcase.Common.{
  ℕ, String, some, List, [], ◌∷◌, true, false, str_eq, has_str, ok, ◌≡◌, refl, sym, ap, ◌∙◌, arith,
  Bool-cases, Option-cases, inl, inr,
}
use open_agent_showcase.Approval.{
  Approval, valid_approval_statuses, approval_of, is_lapsed, Checked, refused, lapsed, clear,
  returned, check, on_row, with_decision, apply, decide,
}

approval_of-on_row :
    (f : Approval → Approval) (org id : ℕ) (rows : List Approval) (a : Approval)
    → ((b : Approval) → ((f b).id ≡ b.id) × ((f b).org ≡ b.org))
    → approval_of rows org id ≡ some a
    → approval_of (on_row f org id rows) org id ≡ some (f a)
approval_of-on_row f org id [] a same h = cc
approval_of-on_row f org id (b ∷ rows) a same h =
    ground (arith, same b, approval_of-on_row f org id rows a same)

-- What a row has to be for Decide to write its decision.
check-clear :
    (now : ℕ) (rows : List Approval) (org id : ℕ) (decision : String)
    → check now rows org id decision ≡ clear
    → (a : Approval) × ((approval_of rows org id ≡ some a)
        × ((str_eq a.status "pending" ≡ true)
            × ((is_lapsed now a ≡ false) × (str_eq decision "pending" ≡ false))))
unfolding check
check-clear now rows org id decision h =
    elim (Bool-cases (has_str valid_approval_statuses decision)) [
      | inr e ↦ absurd (cc (rw e at h))
      | inl e ↦ elim (Bool-cases (str_eq decision "pending")) [
        | inl f ↦ absurd (cc (rw (e, f) at h))
        | inr f ↦ elim (Option-cases (approval_of rows org id)) [
          | inl g ↦ absurd (cc (rw (e, f, g) at h))
          | inr (a, g) ↦ (a, (g, go e f a g))
        ]
      ]
    ]
  where
    go :
        has_str valid_approval_statuses decision ≡ true
        → str_eq decision "pending" ≡ false
        → (a : Approval) → approval_of rows org id ≡ some a
        → (str_eq a.status "pending" ≡ true)
          × ((is_lapsed now a ≡ false) × (str_eq decision "pending" ≡ false))
    go e f a g = elim (Bool-cases (str_eq a.status "pending")) [
      | inr i ↦ absurd (cc (rw (e, f, g, i) at h))
      | inl i ↦ elim (Bool-cases (is_lapsed now a)) [
        | inl j ↦ absurd (cc (rw (e, f, g, i, j) at h))
        | inr j ↦ (i, (j, f))
      ]
    ]

apply-clear :
    (now : ℕ) (c : Checked) (org id : ℕ) (decision : String) (by : ℕ) (rows : List Approval)
    (b : Approval)
    → (apply now c org id decision by rows).1 ≡ ok b
    → c ≡ clear
unfolding apply
apply-clear now (refused e) org id decision by rows b h = absurd (cc h)
apply-clear now lapsed org id decision by rows b h = absurd (cc h)
apply-clear now clear org id decision by rows b h = refl

of_ok : (a b : Approval) → ok a ≡ ok b → a ≡ b
of_ok a b h = cc h

-- The write after a clear check, on a row that is there.
applied :
    (now org id by : ℕ) (decision : String) (rows : List Approval) (a : Approval)
    → approval_of rows org id ≡ some a
    → let after = apply now clear org id decision by rows in
      (approval_of after.0 org id ≡ some (with_decision now decision by a))
      × (after.1 ≡ ok (with_decision now decision by a))
unfolding apply returned
applied now org id by decision rows a found =
    let e =
      approval_of-on_row (with_decision now decision by) org id rows a (λ b. (refl, refl)) found in
    (e, ap returned e)

-- Decide succeeds only on a row that is pending and has not lapsed, with a status that ends it, and
-- writes and returns the row with that status and who decided.
decide-ok :
    (now : ℕ) (rows : List Approval) (org id by : ℕ) (decision : String) (b : Approval)
    → (decide now rows org id by decision).1 ≡ ok b
    → (a : Approval) × ((approval_of rows org id ≡ some a)
        × ((str_eq a.status "pending" ≡ true)
            × ((is_lapsed now a ≡ false)
                × ((str_eq decision "pending" ≡ false)
                    × ((b ≡ with_decision now decision by a)
                        × (approval_of (decide now rows org id by decision).0 org id ≡ some b))))))
unfolding decide
decide-ok now rows org id by decision b h =
    let c = apply-clear now (check now rows org id decision) org id decision by rows b h in
    let (a, (g, (i, (j, f)))) = check-clear now rows org id decision c in
    let (row, out) = applied now org id by decision rows a g in
    let got = sym h ∙ ap (λ k. (apply now k org id decision by rows).1) c ∙ out in
    let same = of_ok b (with_decision now decision by a) got in
    (
      a,
      (
        g,
        (
          i,
          (
            j,
            (
              f,
              (
                same,
                ap (λ k. approval_of (apply now k org id decision by rows).0 org id) c
                    ∙ row
                    ∙ ap some (sym same),
              ),
            ),
          ),
        ),
      ),
    )

-- Two calls of Decide that both read before either writes both succeed, and the later decision
-- replaces the earlier one.
pub decide_race :
    (now : ℕ) (rows : List Approval) (org id by by' : ℕ) (decision decision' : String)
    (a : Approval)
    → approval_of rows org id ≡ some a
    → check now rows org id decision ≡ clear
    → check now rows org id decision' ≡ clear
    → let once = apply now (check now rows org id decision) org id decision by rows in
      let twice = apply now (check now rows org id decision') org id decision' by' once.0 in
      let first = with_decision now decision by a in
      let second = with_decision now decision' by' first in
      (once.1 ≡ ok first) × ((twice.1 ≡ ok second) × (approval_of twice.0 org id ≡ some second))
decide_race now rows org id by by' decision decision' a found c c' =
    let (row, out) = applied now org id by decision rows a found in
    let (row', out') =
      applied now org id by' decision' (apply now clear org id decision by rows).0
        (with_decision now decision by a) row in
    rw (c, c') (out, (out', row'))
