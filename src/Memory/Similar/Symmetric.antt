-- ===== src/Memory/Similar/Symmetric.antt =====
-- That the order of two memories does not matter to classifyRelationship of
-- backend/internal/memory/service.go.
use open_agent_showcase.Common.{
  ℕ, ◌+◌, ◌-◌, List, [], ◌∷◌, false, ◌&&◌, ◌==◌, if◌then◌else◌, length, Bytes, bytes_eq,
  bytes_eq_iff, ◌≡◌, refl, sym, ap, subst, arith, Bool-cases, inl, inr,
}
use open_agent_showcase.Memory.Fraction.{over}
use open_agent_showcase.Memory.Text.{token_set, collect, fields_func, has_bytes, is_separator}
use open_agent_showcase.Memory.Sequence.{longest_common_subsequence}
use open_agent_showcase.Memory.Sequence.Longest.{longest_common_subsequence-IsLongest}
use open_agent_showcase.Memory.Similar.{shared_tokens, jaccard}

pub longest_common_subsequence_comm :
    (a b : List Bytes) → longest_common_subsequence a b ≡ longest_common_subsequence b a
longest_common_subsequence_comm a b =
    let ((s, (h, (k, n))), most) = longest_common_subsequence-IsLongest a b in
    let ((s', (h', (k', n'))), most') = longest_common_subsequence-IsLongest b a in
    omega (arith, most s' k' h', most' s k h)

pub bytes_eq_comm : (s t : Bytes) → bytes_eq s t ≡ bytes_eq t s
bytes_eq_comm [] [] = refl
bytes_eq_comm [] (b ∷ t) = refl
bytes_eq_comm (a ∷ s) [] = refl
bytes_eq_comm (a ∷ s) (b ∷ t) = ground (arith, bytes_eq_comm s t)

-- Each token once.
Distinct : List Bytes → Type 0
Distinct [] = Unit
Distinct (t ∷ ts) = (has_bytes ts t ≡ false) × Distinct ts

collect-Distinct : (ts : List Bytes) → Distinct (collect ts)
unfolding collect Distinct
collect-Distinct [] = tt
collect-Distinct (t ∷ ts) = ground (arith, collect-Distinct ts)

token_set-Distinct : (s : Bytes) → Distinct (token_set s)
unfolding token_set
token_set-Distinct s = collect-Distinct (fields_func is_separator [] s)

-- How many tokens of a set are a given one.
times_in : Bytes → List Bytes → ℕ
times_in t [] = 0
times_in t (u ∷ us) = (if bytes_eq u t then 1 else 0) + times_in t us

times_in-absent : (t : Bytes) (us : List Bytes) → has_bytes us t ≡ false → times_in t us ≡ 0
unfolding times_in
times_in-absent t [] h = refl
times_in-absent t (u ∷ us) h = ground (arith, bytes_eq_comm t u, times_in-absent t us)

times_in-Distinct :
    (t : Bytes) (us : List Bytes) → Distinct us → times_in t us ≡ (if has_bytes us t then 1 else 0)
unfolding times_in Distinct
times_in-Distinct t [] d = refl
times_in-Distinct t (u ∷ us) d = elim (Bool-cases (bytes_eq u t)) [
  | inl e ↦
      let same = (bytes_eq_iff u t).0 e in
      let none_left = times_in-absent t us (subst (λ v. has_bytes us v ≡ false) same d.0) in
      rw (bytes_eq_comm t u, e) (ap (λ n. 1 + n) none_left)
  | inr e ↦ rw (bytes_eq_comm t u, e) (omega (arith, times_in-Distinct t us d.1))
]

shared_tokens-nil : (us : List Bytes) → shared_tokens us [] ≡ 0
unfolding shared_tokens
shared_tokens-nil [] = refl
shared_tokens-nil (u ∷ us) = shared_tokens-nil us

shared_tokens-cons :
    (t : Bytes) (ts us : List Bytes)
    → has_bytes ts t ≡ false
    → shared_tokens us (t ∷ ts) ≡ times_in t us + shared_tokens us ts
unfolding shared_tokens times_in
shared_tokens-cons t ts [] h = refl
shared_tokens-cons t ts (u ∷ us) h = elim (Bool-cases (bytes_eq u t)) [
  | inl e ↦
      let absent = subst (λ v. has_bytes ts v ≡ false) (sym ((bytes_eq_iff u t).0 e)) h in
      rw (e, absent) (omega (arith, shared_tokens-cons t ts us h))
  | inr e ↦ elim (Bool-cases (has_bytes ts u)) [
    | inl f ↦ rw (e, f) (omega (arith, shared_tokens-cons t ts us h))
    | inr f ↦ rw (e, f) (omega (arith, shared_tokens-cons t ts us h))
  ]
]

shared_tokens_comm :
    (ts us : List Bytes) → Distinct ts → Distinct us → shared_tokens ts us ≡ shared_tokens us ts
unfolding shared_tokens Distinct
shared_tokens_comm [] us d e = sym (shared_tokens-nil us)
shared_tokens_comm (t ∷ ts) us d e = ground (
  arith,
  shared_tokens_comm ts us d.1 e,
  shared_tokens-cons t ts us d.0,
  times_in-Distinct t us e,
)

jaccard_comm : (ts us : List Bytes) → Distinct ts → Distinct us → jaccard ts us ≡ jaccard us ts
unfolding jaccard
jaccard_comm ts us d e =
    same (length ts) (length us) (shared_tokens ts us) (shared_tokens us ts)
      (shared_tokens_comm ts us d e)
  where
    same :
        (m n i j : ℕ)
        → i ≡ j
        → (if m == 0 && n == 0
            then over 1 1
            else if m + n - i == 0
            then over 0 1
            else over i (m + n - i))
          ≡ (if n == 0 && m == 0
              then over 1 1
              else if n + m - j == 0
              then over 0 1
              else over j (n + m - j))
    same m n i j h = ground arith

pub token_jaccard_comm :
    (a b : Bytes) → jaccard (token_set a) (token_set b) ≡ jaccard (token_set b) (token_set a)
token_jaccard_comm a b =
    jaccard_comm (token_set a) (token_set b) (token_set-Distinct a) (token_set-Distinct b)
