-- ===== src/Tests/Limits.antt =====
-- Tests of the rate limiter, with a limiter that counts down.
use open_agent_showcase.Common.{ℕ, zero, suc, none, List, [], ◌∷◌, Bool, true, false, ◌≡◌, refl}
use open_agent_showcase.Limiter.{Entry, Request, key_of, rate_limit, serve}
use open_agent_showcase.Limiter.Apart.{rate_limit-serve}

abbrev allow : ℕ → ℕ → Bool × ℕ
allow now zero = (false, zero)
allow now (suc n) = (true, n)

abbrev request : Request
request = record { remote_addr = "10.0.0.1:7"; header = ""; claims = none; path = "/tasks" }

abbrev other : Request
other = record { remote_addr = "10.0.0.1:8"; header = "a"; claims = none; path = "/tasks" }

key_of_test : key_of other ≡ "a:/tasks"
unfolding key_of
key_of_test = refl

abbrev entries : List (Entry ℕ)
entries = record { key = "10.0.0.1:7:/tasks"; limiter = 0; last_seen = 5 } ∷ []

serve_test : (rate_limit ℕ allow 1 9 other (serve ℕ allow 1 ((8, other) ∷ []) entries)).0 ≡ false
unfolding key_of rate_limit serve
serve_test = refl

rate_limit-serve_example :
    (rate_limit ℕ allow 1 9 request (serve ℕ allow 1 ((8, other) ∷ []) entries)).0 ≡ false
unfolding key_of
rate_limit-serve_example =
    rate_limit-serve ℕ allow 1 9 request ((8, other) ∷ []) entries ((refl, refl), tt) refl
