-- ===== src/Common/Members.antt =====
-- Sorting, and what is a member of a part of a list.
use mathlib.Core.Path.{◌≡◌, sym, subst}
use mathlib.Core.Logic.{◌⊎◌, inl, inr, ⊎_elim}
use mathlib.Core.Bool.{Bool, true}
use mathlib.Core.Option.{some}
use mathlib.Core.List.{List, [], ◌∷◌, Memᴰ}
use mathlib.Core.List.Memᴰ
use Prim.Native.Nat.{ℕ, zero, suc}
use open_agent_showcase.Common.Checks.{if◌then◌else◌, Bool-cases}
use open_agent_showcase.Common.Lists.{take, keep, find}

module _ {ℓ} {A : Type ℓ} where
  abbrev pub insert_by : (A → A → Bool) → A → List A → List A
  insert_by before x [] = x ∷ []
  insert_by before x (y ∷ ys) = if before y x then y ∷ insert_by before x ys else x ∷ y ∷ ys

  -- A stable sort.
  abbrev pub sort_by : (A → A → Bool) → List A → List A
  sort_by before [] = []
  sort_by before (x ∷ xs) = insert_by before x (sort_by before xs)

  pub Memᴰ-keep :
      (p : A → Bool) (a : A) (xs : List A) → Memᴰ a (keep p xs) → Memᴰ a xs × (p a ≡ true)
  Memᴰ-keep p a [] h = absurd (Memᴰ.not-nil h)
  Memᴰ-keep p a (x ∷ xs) h = elim (Bool-cases (p x)) [
    | inl e ↦
        ⊎_elim (λ i. (Memᴰ.head i, subst (λ y. p y ≡ true) (sym i) e))
          (λ m. let (k, t) = Memᴰ-keep p a xs m in (Memᴰ.tail k, t)) (Memᴰ.cases_cons (rw e at h))
    | inr e ↦ let (k, t) = Memᴰ-keep p a xs (rw e at h) in (Memᴰ.tail k, t)
  ]

  pub Memᴰ-take : (n : ℕ) (a : A) (xs : List A) → Memᴰ a (take n xs) → Memᴰ a xs
  Memᴰ-take zero a xs h = absurd (Memᴰ.not-nil h)
  Memᴰ-take (suc n) a [] h = h
  Memᴰ-take (suc n) a (x ∷ xs) h =
      ⊎_elim Memᴰ.head (λ m. Memᴰ.tail (Memᴰ-take n a xs m)) (Memᴰ.cases_cons h)

  pub find-Memᴰ :
      (p : A → Bool) (a : A) (xs : List A) → find p xs ≡ some a → Memᴰ a xs × (p a ≡ true)
  find-Memᴰ p a [] h = absurd (cc h)
  find-Memᴰ p a (x ∷ xs) h = elim (Bool-cases (p x)) [
    | inl e ↦
        let i : x ≡ a = of_some (rw e at h) in (Memᴰ.head (sym i), subst (λ y. p y ≡ true) i e)
    | inr e ↦ let (k, t) = find-Memᴰ p a xs (rw e at h) in (Memᴰ.tail k, t)
  ]
    where
      of_some : {y z : A} → some y ≡ some z → y ≡ z
      of_some h = cc h

  insert_by-Memᴰ :
      (before : A → A → Bool) (a x : A) (xs : List A)
      → Memᴰ a (insert_by before x xs)
      → (a ≡ x) ⊎ Memᴰ a xs
  insert_by-Memᴰ before a x [] h = Memᴰ.cases_cons h
  insert_by-Memᴰ before a x (y ∷ ys) h = elim (Bool-cases (before y x)) [
    | inl e ↦
        ⊎_elim (λ i. inr (Memᴰ.head i))
          (λ m. ⊎_elim inl (λ k. inr (Memᴰ.tail k)) (insert_by-Memᴰ before a x ys m))
          (Memᴰ.cases_cons (rw e at h))
    | inr e ↦ Memᴰ.cases_cons (rw e at h)
  ]

  pub sort_by-Memᴰ :
      (before : A → A → Bool) (a : A) (xs : List A) → Memᴰ a (sort_by before xs) → Memᴰ a xs
  sort_by-Memᴰ before a [] h = h
  sort_by-Memᴰ before a (x ∷ xs) h =
      ⊎_elim Memᴰ.head (λ m. Memᴰ.tail (sort_by-Memᴰ before a xs m))
        (insert_by-Memᴰ before a x (sort_by before xs) h)
