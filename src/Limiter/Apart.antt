-- ===== src/Limiter/Apart.antt =====
-- That the callers of the rate limiter of backend/internal/http/middleware/ratelimit.go do not take
-- from each other.
use open_agent_showcase.Common.{
  ℕ, ◌+◌, String, Option, none, some, List, [], ◌∷◌, Bool, false, not, ltb, str_eq, if◌then◌else◌,
  keep, length, All, ◌≡◌, refl, ap, ◌∙◌, subst, sym, eq_iff, Bool-cases, inl, inr,
}
use open_agent_showcase.Limiter.{
  Entry, Request, key_of, ten_minutes, cleaned, entry_of, limiter_of, put, rate_limit, serve,
}

module _ (L : Type 0) (allow : ℕ → L → Bool × L) (fresh : L) where
  -- Whether the limiter may be dropped.
  abbrev pub is_old : Option (Entry L) → ℕ → Bool
  is_old none now = false
  is_old (some e) now = ltb (e.last_seen + ten_minutes) now

  put-other :
      (k : String) (e : Entry L) (es : List (Entry L))
      → str_eq e.key k ≡ false
      → entry_of L allow fresh k (put L allow fresh e es) ≡ entry_of L allow fresh k es
  put-other k e [] h = rw h refl
  put-other k e (f ∷ es) h = elim (Bool-cases (str_eq f.key e.key)) [
    | inl same ↦
        let other : str_eq f.key k ≡ false =
          subst (λ j. str_eq j k ≡ false) (sym ((eq_iff f.key e.key).0 same)) h in
        rw (same, h, other) refl
    | inr differs ↦
        let rest = put-other k e es h in
        rw differs (ap (λ o. if str_eq f.key k then some f else o) rest)
  ]

  keep-entry_of :
      (k : String) (now : ℕ) (es : List (Entry L))
      → is_old (entry_of L allow fresh k es) now ≡ false
      → entry_of L allow fresh k
          (keep (λ (e : Entry L). not (ltb (e.last_seen + ten_minutes) now)) es)
        ≡ entry_of L allow fresh k es
  keep-entry_of k now [] h = refl
  keep-entry_of k now (f ∷ es) h = elim (Bool-cases (str_eq f.key k)) [
    | inl same ↦
        let recent : ltb (f.last_seen + ten_minutes) now ≡ false = rw same at h in
        rw (recent, same) refl
    | inr differs ↦
        let rest = keep-entry_of k now es (rw differs at h) in
        elim (Bool-cases (ltb (f.last_seen + ten_minutes) now)) [
          | inl old ↦ rw (old, differs) rest
          | inr recent ↦ rw (recent, differs) rest
        ]
  ]

  cleaned-entry_of :
      (k : String) (now : ℕ) (es : List (Entry L))
      → is_old (entry_of L allow fresh k es) now ≡ false
      → entry_of L allow fresh k (cleaned L allow fresh now es) ≡ entry_of L allow fresh k es
  cleaned-entry_of k now es h = elim (Bool-cases (ltb 1000 (length es))) [
    | inl full ↦ rw full (keep-entry_of k now es h)
    | inr few ↦ rw few refl
  ]

  -- Requests with another key, each not later than ten minutes after the key `k` was seen.
  abbrev pub IsApart : String → Option (Entry L) → List (ℕ × Request) → Type 0
  IsApart k o rs =
      All (λ (q : ℕ × Request). (str_eq (key_of q.1) k ≡ false) × (is_old o q.0 ≡ false)) rs

  serve-entry_of :
      (k : String) (rs : List (ℕ × Request)) (es : List (Entry L))
      → IsApart k (entry_of L allow fresh k es) rs
      → entry_of L allow fresh k (serve L allow fresh rs es) ≡ entry_of L allow fresh k es
  unfolding serve rate_limit key_of
  serve-entry_of k [] es h = refl
  serve-entry_of k ((now, r) ∷ rs) es h =
      let next : entry_of L allow fresh k ((rate_limit L allow fresh now r es).1)
          ≡ entry_of L allow fresh k es =
        put-other k _ (cleaned L allow fresh now es) h.0.0 ∙ cleaned-entry_of k now es h.0.1 in
      let apart = subst (λ o. IsApart k o rs) (sym next) h.1 in
      serve-entry_of k rs ((rate_limit L allow fresh now r es).1) apart ∙ next

  -- When no more than ten minutes have passed since the entry of a request's key was last seen, or it
  -- has none, any number of requests with other keys in between, none of them later than that, do not
  -- change whether it is served: what its own limiter allows at its time is what it gets, or what a new
  -- one allows when there is none.
  pub rate_limit-serve :
      (now : ℕ) (r : Request) (rs : List (ℕ × Request)) (es : List (Entry L))
      → IsApart (key_of r) (entry_of L allow fresh (key_of r) es) rs
      → is_old (entry_of L allow fresh (key_of r) es) now ≡ false
      → (rate_limit L allow fresh now r (serve L allow fresh rs es)).0
        ≡ (allow now (limiter_of L allow fresh (entry_of L allow fresh (key_of r) es))).0
  unfolding rate_limit
  rate_limit-serve now r rs es h recent =
      let same = serve-entry_of (key_of r) rs es h in
      let still = subst (λ o. is_old o now ≡ false) (sym same) recent in
      ap (λ o. (allow now (limiter_of L allow fresh o)).0)
        (cleaned-entry_of (key_of r) now (serve L allow fresh rs es) still ∙ same)
