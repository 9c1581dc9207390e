-- ===== src/Gateway/KeyLimits/Bounds.antt =====
-- The windows of a key keep their limits over any history of checks.
use zorch.Prelude.{ℕ, ◌-◌, ◌≤◌, ◌≡◌, ◌≢◌, true, List, ◌∷◌, String}
use zorch.Shared.Errors.{ok}
use zorch.External.Redis.{Redis}
use zorch.External.Redis.Laws.{SortedSetLaws}
use zorch.Gateway.SlidingWindow.Step.{IsFresh}
use zorch.Gateway.SlidingWindow.History.{History, admits, count_above, History-bounded}
use zorch.Gateway.KeyLimits.{expiry_for, check_sliding_window}
use zorch.Gateway.KeyLimits.Admission.{expiry_for-covers}

-- For a window of at most a day and a limit other than 100: after any history of checks, a check
-- that admits leaves at most the maximum of admitted requests in the window that ends with it,
-- itself included.
pub check_sliding_window-bounded :
    (r : Redis) (laws : SortedSetLaws r) (key : String) (width max last now : ℕ) (log : List ℕ)
    (uuid : String) (s t : r.Server)
    → max ≢ 100
    → width ≤ 86400
    → History r laws key width max (expiry_for max) last log s
    → last ≤ now
    → IsFresh r laws now key (now - width) uuid s
    → check_sliding_window r key now (now - width) max uuid s ≡ (ok true, t)
    → count_above (now - width) (now ∷ log) ≤ max
unfolding check_sliding_window
check_sliding_window-bounded r laws key width max last now log uuid s t n w h p f e =
    History-bounded r laws key width max (expiry_for max) now (now ∷ log) t
      (expiry_for-covers max width n w) (admits now uuid h p f e)
