-- ===== src/Memory/Sequence/Longest.antt =====
-- What the table of longestCommonSubsequence, backend/internal/memory/service.go, computes.
use mathlib.Core.List.{append-nil}
use open_agent_showcase.Common.{
  ℕ, suc, ◌+◌, ◌≤◌, List, [], ◌∷◌, ◌++◌, true, false, ltb, if◌then◌else◌, Bytes, bytes_eq, length,
  bytes_eq_iff, ◌⊎◌, ◌≡◌, refl, sym, ap, ◌∙◌, subst, arith, Bool-cases, inl, inr,
}
use open_agent_showcase.Memory.Sequence.{
  fill_row, fill_table, zeros, last_cell, longest_common_subsequence,
}

-- A list is in another in its order.
pub data Sub : List Bytes → List Bytes → Type 0 where
  stop : Sub [] []
  skip : {s t : List Bytes} (x : Bytes) → Sub s t → Sub s (x ∷ t)
  keep : {s t : List Bytes} (x : Bytes) → Sub s t → Sub (x ∷ s) (x ∷ t)

-- The recurrence of the table, on the prefixes read backwards.
common : List Bytes → List Bytes → ℕ
common [] q = 0
common (x ∷ p) [] = 0
common (x ∷ p) (y ∷ q) =
    let both = common p q in
    let one = common p (y ∷ q) in
    let other = common (x ∷ p) q in
    if bytes_eq x y then suc both else if ltb other one then one else other

-- The values for the longer prefixes of the second list.
cells : List Bytes → List Bytes → List Bytes → List ℕ
unfolding common
cells p q [] = []
cells p q (y ∷ b) = common p (y ∷ q) ∷ cells p (y ∷ q) b

fill_row-cells :
    (x : Bytes) (p q b : List Bytes)
    → fill_row x b (common p q) (common (x ∷ p) q) (cells p q b) ≡ cells (x ∷ p) q b
unfolding fill_row cells
fill_row-cells x p q [] = refl
fill_row-cells x p q (y ∷ b) =
    ap (λ row. common (x ∷ p) (y ∷ q) ∷ row) (fill_row-cells x p (y ∷ q) b)

common-nil : (p : List Bytes) → common p [] ≡ 0
unfolding common
common-nil [] = refl
common-nil (x ∷ p) = refl

zeros-cells : (q b : List Bytes) → zeros b ≡ 0 ∷ cells [] q b
unfolding cells
zeros-cells q [] = refl
zeros-cells q (y ∷ b) = ap (λ row. 0 ∷ row) (zeros-cells (y ∷ q) b)

-- The first list before the second, backwards.
onto : List Bytes → List Bytes → List Bytes
onto [] q = q
onto (x ∷ p) q = onto p (x ∷ q)

fill_table-cells :
    (a p b : List Bytes) → fill_table a b (0 ∷ cells p [] b) ≡ 0 ∷ cells (onto a p) [] b
unfolding fill_table onto
fill_table-cells [] p b = refl
fill_table-cells (x ∷ a) p b =
    ap (λ row. fill_table a b (0 ∷ row)) (first p) ∙ fill_table-cells a (x ∷ p) b
  where
    first : (p : List Bytes) → fill_row x b 0 0 (cells p [] b) ≡ cells (x ∷ p) [] b
    first p = rw (common-nil p, common-nil (x ∷ p)) at (fill_row-cells x p [] b)

last_cell-cells : (p q b : List Bytes) → last_cell (common p q ∷ cells p q b) ≡ common p (onto b q)
unfolding cells onto
last_cell-cells p q [] = refl
last_cell-cells p q (y ∷ b) = last_cell-cells p (y ∷ q) b

longest-common :
    (a b : List Bytes) → longest_common_subsequence a b ≡ common (onto a []) (onto b [])
unfolding longest_common_subsequence
longest-common [] b = unfold onto common in refl
longest-common (x ∷ a) [] = unfold onto in sym (common-nil (onto a (x ∷ [])))
longest-common (x ∷ a) (y ∷ b) =
    let p = onto (x ∷ a) [] in
    ap (λ row. last_cell (fill_table (x ∷ a) (y ∷ b) row)) (zeros-cells [] (y ∷ b))
    ∙ ap last_cell (fill_table-cells (x ∷ a) [] (y ∷ b))
    ∙ ap (λ n. last_cell (n ∷ cells p [] (y ∷ b))) (sym (common-nil p))
    ∙ last_cell-cells p [] (y ∷ b)

Sub-less : {z : Bytes} {s t : List Bytes} → Sub (z ∷ s) t → Sub s t
Sub-less (skip x h) = skip x (Sub-less h)
Sub-less (keep x h) = skip x h

Sub-rest : {z x : Bytes} {s t : List Bytes} → Sub (z ∷ s) (x ∷ t) → Sub s t
Sub-rest (skip x h) = Sub-less h
Sub-rest (keep x h) = h

Sub-first : {z x : Bytes} {s t : List Bytes} → Sub (z ∷ s) (x ∷ t) → Sub (z ∷ s) t ⊎ (z ≡ x)
Sub-first (skip x h) = inl h
Sub-first (keep x h) = inr refl

Sub-nil : {z : Bytes} {s : List Bytes} → Sub (z ∷ s) [] → ⊥
Sub-nil h = elim h [ ]

nil-Sub : (t : List Bytes) → Sub [] t
nil-Sub [] = stop
nil-Sub (x ∷ t) = skip x (nil-Sub t)

module _ (x y : Bytes) (p q : List Bytes) where
  common-same : bytes_eq x y ≡ true → common (x ∷ p) (y ∷ q) ≡ suc (common p q)
  unfolding common
  common-same e = rw e

  common-other :
      bytes_eq x y ≡ false
      → (common p (y ∷ q) ≤ common (x ∷ p) (y ∷ q))
        × ((common (x ∷ p) q ≤ common (x ∷ p) (y ∷ q))
            × ((common (x ∷ p) (y ∷ q) ≡ common p (y ∷ q))
                ⊎ (common (x ∷ p) (y ∷ q) ≡ common (x ∷ p) q)))
  unfolding common
  common-other e = rw e (largest (common p (y ∷ q)) (common (x ∷ p) q))
    where
      largest :
          (one other : ℕ)
          → let m = if ltb other one then one else other in
            (one ≤ m) × ((other ≤ m) × ((m ≡ one) ⊎ (m ≡ other)))
      largest one other = ground arith

common-Sub : (p q s : List Bytes) → Sub s p → Sub s q → length s ≤ common p q
common-Sub p q [] h k = omega arith
common-Sub [] q (z ∷ s) h k = absurd (Sub-nil h)
common-Sub (x ∷ p) [] (z ∷ s) h k = absurd (Sub-nil k)
common-Sub (x ∷ p) (y ∷ q) (z ∷ s) h k = elim (Bool-cases (bytes_eq x y)) [
  | inl e ↦ omega (arith, common-same x y p q e, common-Sub p q s (Sub-rest h) (Sub-rest k))
  | inr e ↦ elim (Sub-first h) [
    | inl f ↦ omega (arith, (common-other x y p q e).0, common-Sub p (y ∷ q) (z ∷ s) f k)
    | inr f ↦ elim (Sub-first k) [
      | inl g ↦ omega (arith, (common-other x y p q e).1.0, common-Sub (x ∷ p) q (z ∷ s) h g)
      | inr g ↦ absurd (cc (sym ((bytes_eq_iff x y).1 (sym f ∙ g)) ∙ e))
    ]
  ]
]

-- A longest one.
attained : (p q : List Bytes) → (s : List Bytes) × (Sub s p × (Sub s q × (length s ≡ common p q)))
attained [] q = ([], (stop, (nil-Sub q, unfold common in refl)))
attained (x ∷ p) [] = ([], (nil-Sub (x ∷ p), (stop, unfold common in refl)))
attained (x ∷ p) (y ∷ q) = elim (Bool-cases (bytes_eq x y)) [
  | inl e ↦
      let (s, (h, (k, n))) = attained p q in
      (
        x ∷ s,
        (
          keep x h,
          (
            subst (λ z. Sub (x ∷ s) (z ∷ q)) ((bytes_eq_iff x y).0 e) (keep x k),
            omega (arith, common-same x y p q e),
          ),
        ),
      )
  | inr e ↦ elim (common-other x y p q e).1.1 [
    | inl m ↦ let (s, (h, (k, n))) = attained p (y ∷ q) in (s, (skip x h, (k, omega (arith, m))))
    | inr m ↦ let (s, (h, (k, n))) = attained (x ∷ p) q in (s, (h, (skip y k, omega (arith, m))))
  ]
]

Sub-onto : {s t s' t' : List Bytes} → Sub s t → Sub s' t' → Sub (onto s s') (onto t t')
unfolding onto
Sub-onto stop k = k
Sub-onto (skip x h) k = Sub-onto h (skip x k)
Sub-onto (keep x h) k = Sub-onto h (keep x k)

onto-onto : (a p q : List Bytes) → onto (onto a p) q ≡ onto p (a ++ q)
unfolding onto
onto-onto [] p q = refl
onto-onto (x ∷ a) p q = onto-onto a (x ∷ p) q

length-onto : (a p : List Bytes) → length (onto a p) ≡ length a + length p
unfolding onto
length-onto [] p = omega arith
length-onto (x ∷ a) p = omega (arith, length-onto a (x ∷ p))

back : (a : List Bytes) → onto (onto a []) [] ≡ a
back a = onto-onto a [] [] ∙ unfold onto in append-nil a

-- longestCommonSubsequence returns the length of a list that is in both lists in their order, and no
-- list that is in both is longer.
pub longest_common_subsequence-IsLongest :
    (a b : List Bytes)
    → ((s : List Bytes) × (Sub s a × (Sub s b × (length s ≡ longest_common_subsequence a b))))
      × ((s : List Bytes) → Sub s a → Sub s b → length s ≤ longest_common_subsequence a b)
longest_common_subsequence-IsLongest a b = (
  (let (s, (h, (k, n))) = attained (onto a []) (onto b []) in
      (
        onto s [],
        (
          subst (λ t. Sub (onto s []) t) (back a) (Sub-onto h stop),
          (
            subst (λ t. Sub (onto s []) t) (back b) (Sub-onto k stop),
            omega (arith, longest-common a b, length-onto s []),
          ),
        ),
      )),
  λ s h k. omega (
    arith,
    longest-common a b,
    length-onto s [],
    common-Sub (onto a []) (onto b []) (onto s []) (Sub-onto h stop) (Sub-onto k stop),
  ),
)
