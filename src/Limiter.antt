-- ===== src/Limiter.antt =====
-- The rate limiter of backend/internal/http/middleware/ratelimit.go. The limiter of
-- golang.org/x/time/rate is a parameter: `allow` is Allow at a time, in nanoseconds like last_seen,
-- with the limiter after it, and `fresh` is a new limiter with the burst. One request is served at a
-- time.
pub mod Apart
use Prim.Native.String.{◌++◌}
use open_agent_showcase.Common.{
  ℕ, ◌+◌, String, Option, none, some, List, [], ◌∷◌, Bool, true, false, not, ltb, str_eq,
  if◌then◌else◌, find, keep, length,
}

-- limiterEntry with its key.
pub record Entry (L : Type 0) : Type 0 where
  pub key : String
  pub limiter : L
  pub last_seen : ℕ

pub record Request : Type 0 where
  pub remote_addr : String
  pub header : String
  pub claims : Option String
  pub path : String

abbrev claimed_key : Request → String
claimed_key r = elim r.claims [ some org ↦ org | none ↦ r.remote_addr ]

-- The header goes first, then the organization of the claims, then the address.
abbrev caller : Request → String
caller r = if not (str_eq r.header "") then r.header else claimed_key r

unfoldable pub key_of : Request → String
key_of r = caller r ++ (":" ++ r.path)

abbrev pub ten_minutes : ℕ
ten_minutes = 600000000000

module _ (L : Type 0) (allow : ℕ → L → Bool × L) (fresh : L) where
  abbrev pub cleaned : ℕ → List (Entry L) → List (Entry L)
  cleaned now es =
      if ltb 1000 (length es)
      then keep (λ (e : Entry L). not (ltb (e.last_seen + ten_minutes) now)) es
      else es

  abbrev pub entry_of : String → List (Entry L) → Option (Entry L)
  entry_of k es = find (λ (e : Entry L). str_eq e.key k) es

  abbrev pub limiter_of : Option (Entry L) → L
  limiter_of none = fresh
  limiter_of (some e) = e.limiter

  abbrev pub put : Entry L → List (Entry L) → List (Entry L)
  put e [] = e ∷ []
  put e (f ∷ es) = let rest = put e es in if str_eq f.key e.key then e ∷ es else f ∷ rest

  -- Whether the request is served, and the limiters after it.
  unfoldable pub rate_limit : ℕ → Request → List (Entry L) → Bool × List (Entry L)
  unfolding key_of
  rate_limit now r es =
      let found = allow now (limiter_of (entry_of (key_of r) (cleaned now es))) in
      (
        found.0,
        put (record { key = key_of r; limiter = found.1; last_seen = now }) (cleaned now es),
      )

  unfoldable pub serve : List (ℕ × Request) → List (Entry L) → List (Entry L)
  unfolding rate_limit
  serve [] es = es
  serve ((now, r) ∷ rs) es = serve rs ((rate_limit now r es).1)
