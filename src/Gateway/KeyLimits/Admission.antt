-- ===== src/Gateway/KeyLimits/Admission.antt =====
-- What a check of crates/zorch-gateway/src/key_limits.rs does to the windows of its key.
use zorch.Prelude.{
  ℕ, ◌+◌, ◌-◌, ◌≤◌, ◌<◌, ◌≡◌, ◌≢◌, sym, true, false, String, arith, length, any, is_empty, ◌⊎◌,
}
use zorch.Prelude.Classes.{◌==◌, string_eq}
use zorch.Shared.Float.{Fpu}
use zorch.Shared.Errors.{ok, err, got, bad_request, Message}
use zorch.Shared.Text.{append_apart, code_at}
use zorch.External.Redis.{Redis}
use zorch.External.Redis.Laws.{SortedSetLaws}
use zorch.Gateway.SlidingWindow.{sliding_window}
use zorch.Gateway.SlidingWindow.Step.{
  kept, admitted_window, IsFresh, sliding_window-refused, sliding_window-admitted,
  sliding_window-other,
}
use zorch.Gateway.KeyLimits.{
  KeyLimitConfig, rpm_key, rpd_key, spend_key, float_or_zero, check_budget, check_model, expiry_for,
  check_sliding_window, check_limits,
}

module _ (r : Redis) (laws : SortedSetLaws r) where
  open laws use {window}

  -- A limit of exactly 100 requests, whatever its window: once a request has been admitted at `t0`
  -- and the key has been left alone for 120 seconds, the next check does not refuse, however many
  -- requests the window should still count.
  pub check_sliding_window-forgets :
      (key : String) (t0 now start0 start : ℕ) (uuid0 uuid : String) (s s1 s2 : r.Server)
      → IsFresh r laws t0 key start0 uuid0 s
      → check_sliding_window r key t0 start0 100 uuid0 s ≡ (ok true, s1)
      → window s2 key ≡ window s1 key
      → t0 + 120 ≤ now
      → (check_sliding_window r key now start 100 uuid s2).0 ≢ ok false
  unfolding check_sliding_window expiry_for
  check_sliding_window-forgets key t0 now start0 start uuid0 uuid s s1 s2 f h e p g =
      let w = sliding_window-admitted r laws t0 key start0 100 120 uuid0 s f h in
      let q =
        sliding_window-refused r laws now key start 100 120 uuid s2
          (λ i. (g i, (sliding_window r now key start 100 120 uuid s2).1)) in
      ground (arith, w, q, e)

-- A limit other than 100 keeps its key at least as long as a window of up to a day.
pub expiry_for-covers : (max width : ℕ) → max ≢ 100 → width ≤ 86400 → width ≤ expiry_for max
unfolding expiry_for
expiry_for-covers max width h w = ground arith

rpm-ne-rpd : (a b : String) → rpm_key a ≢ rpd_key b
unfolding code_at
rpm-ne-rpd a b = append_apart 6 "key_rpm:" "key_rpd:" a b (omega arith) (omega arith) (omega arith)

module _ (r : Redis) (laws : SortedSetLaws r) where
  open laws use {window}

  admitted_at :
      (key : String) (now start max : ℕ) (uuid : String) (s : r.Server)
      → IsFresh r laws now key start uuid s
      → (check_sliding_window r key now start max uuid s).0 ≡ ok true
      → (length (kept now start (window s key)) < max)
        × (window (check_sliding_window r key now start max uuid s).1 key
            ≡ admitted_window now start (expiry_for max) (window s key))
  unfolding check_sliding_window
  admitted_at key now start max uuid s f h =
      sliding_window-admitted r laws now key start max (expiry_for max) uuid s f
        (λ i. (h i, (sliding_window r now key start max (expiry_for max) uuid s).1))

  other_at :
      (key j : String) (now start max : ℕ) (uuid : String) (s : r.Server)
      → key ≢ j
      → window (check_sliding_window r key now start max uuid s).1 j ≡ window s j
  unfolding check_sliding_window
  other_at key j now start max uuid s ne =
      sliding_window-other r laws now key start max (expiry_for max) uuid s j ne

  not_bad_request :
      (key : String) (now start max : ℕ) (uuid : String) (s : r.Server) (m : Message)
      → (check_sliding_window r key now start max uuid s).0 ≢ err (bad_request m)
  unfolding check_sliding_window sliding_window
  not_bad_request key now start max uuid s m h = ground arith

  module _ (fpu : Fpu) (now : ℕ) (uuid1 uuid2 id model : String) (config : KeyLimitConfig)
      (s t : r.Server) where
    -- The server after the check of the minute.
    abbrev pub after_rpm : r.Server
    after_rpm =
        (check_sliding_window r (rpm_key id) now (now - 60) config.requests_per_minute uuid1 s).1

    -- The two UUIDs are new when they are drawn.
    abbrev pub AreFresh : Type 0
    AreFresh =
        IsFresh r laws now (rpm_key id) (now - 60) uuid1 s
        × IsFresh r laws now (rpd_key id) (now - 86400) uuid2 after_rpm

    -- Both windows of the key had room, and hold the request now.
    abbrev pub TookSlots : Type 0
    TookSlots =
        (length (kept now (now - 60) (window s (rpm_key id))) < config.requests_per_minute)
        × (length (kept now (now - 86400) (window s (rpd_key id))) < config.requests_per_day)
        × (window t (rpm_key id)
            ≡ admitted_window now (now - 60) (expiry_for config.requests_per_minute)
                (window s (rpm_key id)))
        × (window t (rpd_key id)
            ≡ admitted_window now (now - 86400) (expiry_for config.requests_per_day)
                (window s (rpd_key id)))

    -- Where the whole check passes, both windows had room and hold the request now, the spend is below
    -- the budget, and the model is on the list of the key, if that list has entries.
    pub check_limits-ok :
        AreFresh
        → check_limits r fpu (got now) uuid1 uuid2 id model config s ≡ (ok tt, t)
        → TookSlots
          × (fpu.le config.max_spend_usd (float_or_zero (r.get_float now (spend_key id) t)) ≡ false)
          × ((is_empty config.allowed_models ≡ true)
              ⊎ (any (λ m. m == model) config.allowed_models ≡ true))
    unfolding check_limits check_budget check_model
    check_limits-ok f h = ground (
      arith,
      admitted_at (rpm_key id) now (now - 60) config.requests_per_minute uuid1 s f.0,
      admitted_at (rpd_key id) now (now - 86400) config.requests_per_day uuid2 after_rpm f.1,
      other_at (rpm_key id) (rpd_key id) now (now - 60) config.requests_per_minute uuid1 s
          (rpm-ne-rpd id id),
      other_at (rpd_key id) (rpm_key id) now (now - 86400) config.requests_per_day uuid2 after_rpm
          (λ e. rpm-ne-rpd id id (sym e)),
    )

    -- The one refusal for a model comes last: the request that is turned away for its model has
    -- used up a slot of the minute and one of the day, as an admitted one would, its key was within
    -- its budget, and its model is not on a list of the key that has entries.
    pub check_limits-bad_request :
        (m : Message)
        → AreFresh
        → check_limits r fpu (got now) uuid1 uuid2 id model config s ≡ (err (bad_request m), t)
        → TookSlots
          × (fpu.le config.max_spend_usd (float_or_zero (r.get_float now (spend_key id) t)) ≡ false)
          × (is_empty config.allowed_models ≡ false)
          × (any (λ m. m == model) config.allowed_models ≡ false)
    unfolding check_limits check_budget check_model
    check_limits-bad_request m f h = ground (
      arith,
      not_bad_request (rpm_key id) now (now - 60) config.requests_per_minute uuid1 s m,
      not_bad_request (rpd_key id) now (now - 86400) config.requests_per_day uuid2 after_rpm m,
      admitted_at (rpm_key id) now (now - 60) config.requests_per_minute uuid1 s f.0,
      admitted_at (rpd_key id) now (now - 86400) config.requests_per_day uuid2 after_rpm f.1,
      other_at (rpm_key id) (rpd_key id) now (now - 60) config.requests_per_minute uuid1 s
          (rpm-ne-rpd id id),
      other_at (rpd_key id) (rpm_key id) now (now - 86400) config.requests_per_day uuid2 after_rpm
          (λ e. rpm-ne-rpd id id (sym e)),
    )
