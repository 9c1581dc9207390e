-- ===== src/Gateway/RateLimit/Bounds.antt =====
-- The shared limiter keeps its limit over any history of checks.
use zorch.Prelude.{ℕ, ◌+◌, ◌-◌, ◌≤◌, ◌≡◌, true, Bool, List, ◌∷◌, String, arith, inl, inr}
use zorch.Shared.Errors.{ok, got, Reply-cases}
use zorch.External.Redis.{Redis}
use zorch.External.Redis.Laws.{SortedSetLaws}
use zorch.Gateway.SlidingWindow.{sliding_window}
use zorch.Gateway.SlidingWindow.Step.{IsFresh}
use zorch.Gateway.SlidingWindow.History.{History, admits, count_above, History-bounded}
use zorch.Gateway.RateLimit.{check_rate_limit, rate_limit_key}

-- An answer of the limiter is the answer of its window, whose key lives a minute longer than the
-- window is wide.
check_rate_limit-ok :
    (r : Redis) (now : ℕ) (uuid id model : String) (width max : ℕ) (s t : r.Server) (b : Bool)
    → check_rate_limit r (got now) uuid id model width max s ≡ (ok b, t)
    → sliding_window r now (rate_limit_key id model) (now - width) max (width + 60) uuid s
      ≡ (ok b, t)
unfolding check_rate_limit
check_rate_limit-ok r now uuid id model width max s t b h = elim (Reply-cases (r.connect s)) [
  | inl (u, e) ↦ ground (arith, e, h)
  | inr (m, e) ↦ absurd (ground (arith, e, h))
]

-- After any history of checks of a client and a model, a check that admits leaves at most the
-- maximum of admitted requests in the window that ends with it, itself included.
pub check_rate_limit-bounded :
    (r : Redis) (laws : SortedSetLaws r) (id model : String) (width max last now : ℕ) (log : List ℕ)
    (uuid : String) (s t : r.Server)
    → History r laws (rate_limit_key id model) width max (width + 60) last log s
    → last ≤ now
    → IsFresh r laws now (rate_limit_key id model) (now - width) uuid s
    → check_rate_limit r (got now) uuid id model width max s ≡ (ok true, t)
    → count_above (now - width) (now ∷ log) ≤ max
check_rate_limit-bounded r laws id model width max last now log uuid s t h p f e =
    History-bounded r laws (rate_limit_key id model) width max (width + 60) now (now ∷ log) t
      (omega arith)
      (admits now uuid h p f (check_rate_limit-ok r now uuid id model width max s t true e))
