-- ===== src/Gateway/SlidingWindow/Step.antt =====
-- One run of the sliding window against a server that behaves as documented.
use zorch.Prelude.{
  ℕ, ◌+◌, ◌≤◌, ◌<◌, ◌≡◌, ◌≢◌, refl, ap, subst, ◌∙◌, true, false, String, Option, some, List, [],
  ◌∷◌, arith, length, Bool-cases, inl, inr,
}
use zorch.Shared.Errors.{ok, got, Reply-cases}
use zorch.External.Redis.{Redis}
use zorch.External.Redis.Laws.{Window, SortedSetLaws, alive, above, expired, keep_deadline}
use zorch.Gateway.SlidingWindow.{sliding_window}

-- The abstract step: what is left of the window, the test, and the window after it.
abbrev pub kept : ℕ → ℕ → Window → List ℕ
kept now start w = above start (alive now w)

abbrev pub admitted_window : ℕ → ℕ → ℕ → Window → Window
admitted_window now start ttl w = record {
  scores = now ∷ kept now start w;
  deadline = some (now + ttl);
}

abbrev pub refused_window : ℕ → ℕ → Window → Window
refused_window now start w = record {
  scores = kept now start w;
  deadline = keep_deadline (kept now start w) w.deadline;
}

-- A window whose members are alive at `now`, or that has none, is whole at `now`.
alive-trimmed :
    (now : ℕ) (xs ys : List ℕ) (d : Option ℕ)
    → (expired now d ≡ true → ys ≡ [])
    → alive now (record { scores = ys; deadline = keep_deadline ys d }) ≡ ys
alive-trimmed now xs [] d h = refl
alive-trimmed now xs (y ∷ ys) d h = ground (arith, h)

kept_of_expired :
    (now start : ℕ) (w : Window) → expired now w.deadline ≡ true → kept now start w ≡ []
kept_of_expired now start w h = rw h

alive-kept :
    (now start : ℕ) (w : Window) → alive now (refused_window now start w) ≡ kept now start w
alive-kept now start w =
    alive-trimmed now [] (kept now start w) w.deadline (kept_of_expired now start w)

alive-added :
    (now start : ℕ) (w : Window) (xs : List ℕ)
    → kept now start w ≡ xs
    → alive now
        (record { scores = now ∷ xs; deadline = keep_deadline xs (keep_deadline xs w.deadline) })
      ≡ now ∷ xs
alive-added now start w [] e = refl
alive-added now start w (x ∷ xs) e = elim (Bool-cases (expired now w.deadline)) [
  | inl dead ↦ cc (kept_of_expired now start w dead)
  | inr live ↦ rw live
]

abbrev add_member : ℕ → Window → Window
add_member now w = record {
  scores = now ∷ alive now w;
  deadline = keep_deadline (alive now w) w.deadline;
}

abbrev renew : ℕ → ℕ → Window → Window
renew now ttl w = record { scores = alive now w; deadline = some (now + ttl) }

added : ℕ → ℕ → Window → Window
added now start w = add_member now (refused_window now start w)

alive-add_member :
    (now start : ℕ) (w : Window) → alive now (added now start w) ≡ now ∷ kept now start w
unfolding added
alive-add_member now start w = rw (alive-kept now start w) (alive-added now start w _ refl)

renew-added :
    (now start ttl : ℕ) (w : Window)
    → renew now ttl (added now start w) ≡ admitted_window now start ttl w
renew-added now start ttl w =
    ap (λ xs. record { scores = xs; deadline = some (now + ttl) }) (alive-add_member now start w)

module _ (r : Redis) (laws : SortedSetLaws r) where
  open laws use {window, IsMember}

  -- The UUID drawn is new: no member of the trimmed set carries it.
  abbrev pub IsFresh : ℕ → String → ℕ → String → r.Server → Type 0
  IsFresh now key start uuid s = ¬ IsMember (r.trim_and_count now key start s).1 key (now, uuid)

  module _ (now : ℕ) (key : String) (start max ttl : ℕ) (uuid : String) (s : r.Server) where
    -- A check that refuses found the window full: at least the maximum of requests are alive in it. It
    -- leaves these requests and drops the older ones.
    pub sliding_window-refused :
        {t : r.Server}
        → sliding_window r now key start max ttl uuid s ≡ (ok false, t)
        → (max ≤ length (kept now start (window s key)))
          × (window t key ≡ refused_window now start (window s key))
    unfolding sliding_window
    sliding_window-refused h = elim (Reply-cases (r.trim_and_count now key start s).0) [
      | inl (n, e) ↦ ground (arith, e, laws.count_ok now key start n s e)
      | inr (m, e) ↦ ground (arith, e)
    ]

    after_expire :
        (n : ℕ)
        → IsFresh now key start uuid s
        → (r.trim_and_count now key start s).0 ≡ got n
        → let s1 = (r.trim_and_count now key start s).1 in
          let s2 = (r.zadd now key (now, uuid) now s1).1 in
          (r.zadd now key (now, uuid) now s1).0 ≡ got tt
          → (r.expire now key ttl s2).0 ≡ got tt
          → window (r.expire now key ttl s2).1 key ≡ admitted_window now start ttl (window s key)
    unfolding added
    after_expire n f e1 e2 e3 =
        let s1 = (r.trim_and_count now key start s).1 in
        let w2 =
          laws.zadd_ok now key (now, uuid) now s1 f e2
          ∙ ap (add_member now) (laws.count_ok now key start n s e1).1 in
        let live : alive now (window (r.zadd now key (now, uuid) now s1).1 key) ≢ [] =
          rw w2 (rw (alive-add_member now start (window s key)) (λ e. cc)) in
        laws.expire_ok now key ttl _ live e3
        ∙ ap (renew now ttl) w2
        ∙ renew-added now start ttl (window s key)

    -- A check that admits, with a new UUID, found less than the maximum of requests alive in the window.
    -- It leaves these and the new one, and sets the expiry of the key anew.
    pub sliding_window-admitted :
        {t : r.Server}
        → IsFresh now key start uuid s
        → sliding_window r now key start max ttl uuid s ≡ (ok true, t)
        → (length (kept now start (window s key)) < max)
          × (window t key ≡ admitted_window now start ttl (window s key))
    unfolding sliding_window
    sliding_window-admitted {t} f h = elim (Reply-cases (r.trim_and_count now key start s).0) [
      | inl (n, e) ↦ elim (Reply-cases (r.zadd now key (now, uuid) now s1).0) [
        | inl (u, e2) ↦ elim (Reply-cases (r.expire now key ttl s2).0) [
          | inl (v, e3) ↦ (
            ground (arith, e, laws.count_ok now key start n s e),
            subst (λ x. window x key ≡ admitted_window now start ttl (window s key))
                (ground (arith, e, e2, e3)) (after_expire n f e e2 e3),
          )
          | inr (m, e3) ↦ ground (arith, e, e2, e3)
        ]
        | inr (m, e2) ↦ ground (arith, e, e2)
      ]
      | inr (m, e) ↦ ground (arith, e)
    ]
      where
        s1 : r.Server
        s1 = (r.trim_and_count now key start s).1

        s2 : r.Server
        s2 = (r.zadd now key (now, uuid) now s1).1

    -- No other key's set is touched, whatever the answers.
    pub sliding_window-other :
        (j : String)
        → key ≢ j
        → window (sliding_window r now key start max ttl uuid s).1 j ≡ window s j
    unfolding sliding_window
    sliding_window-other j ne =
        let s1 = (r.trim_and_count now key start s).1 in
        let s2 = (r.zadd now key (now, uuid) now s1).1 in
        ground (
          arith,
          laws.trim_and_count_other now key j start s ne,
          laws.zadd_other now key j (now, uuid) now s1 ne,
          laws.expire_other now key j ttl s2 ne,
        )
