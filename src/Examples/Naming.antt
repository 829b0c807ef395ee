-- ===== src/Examples/Naming.antt =====
-- Names and the rate limiter, at concrete inputs.
use drip_ex.Base.{List, codes, lookup, ℕ, ◌+◌, ◌*◌, ◌%◌, ◌≤◌, refl, [], ◌∷◌, arith}
use drip_ex.Tunnel.RateLimiter.{RateLimiter, open_entry}
use drip_ex.Tunnel.RateLimiter.Windows.{
  Call, checks, gives_back, cleans, given_back, granted, granted-le-rate_limit,
}

abbrev dice : ℕ → ℕ
dice i = (i * 7 + 3) % 36

abbrev limiter : RateLimiter
limiter = record { rate_limits = []; rate_limit = 2; rate_limit_window = 60 }

-- A registration that is taken back, and a cleanup, between four that count.
abbrev some_calls : List Call
some_calls =
    checks 10 (codes "10.0.0.1")
    ∷ gives_back (codes "10.0.0.1")
    ∷ checks 12 (codes "10.0.0.2")
    ∷ cleans 15
    ∷ checks 20 (codes "10.0.0.1")
    ∷ checks 65 (codes "10.0.0.1")
    ∷ []

granted-le-rate_limit_example :
    granted (codes "10.0.0.1") limiter (checks 5 (codes "10.0.0.1") ∷ some_calls)
    ≤ 2 + given_back (codes "10.0.0.1") some_calls
unfolding open_entry lookup
granted-le-rate_limit_example =
    granted-le-rate_limit (codes "10.0.0.1") limiter 5 some_calls (λ e. cc) (omega arith) refl
      (omega arith)
