-- ===== src/Gateway/SlidingWindow/History.antt =====
-- Many runs of the sliding window on one key, at times that do not go back.
use zorch.Prelude.{
  ℕ, suc, ◌+◌, ◌-◌, ◌≤◌, ◌<◌, ◌≡◌, refl, true, false, String, Option, none, some, List, [], ◌∷◌,
  arith, leb, length, Bool-cases, inl, inr, All,
}
use zorch.Shared.Errors.{ok}
use zorch.External.Redis.{Redis}
use zorch.External.Redis.Laws.{Window, SortedSetLaws, alive, above, keep_deadline}
use zorch.Gateway.SlidingWindow.{sliding_window}
use zorch.Gateway.SlidingWindow.Step.{
  kept, admitted_window, refused_window, IsFresh, sliding_window-refused, sliding_window-admitted,
}

-- How many times lie above a bound.
abbrev pub count_above : ℕ → List ℕ → ℕ
count_above lo ts = length (above lo ts)

count_above-above :
    (lo hi : ℕ) (ts : List ℕ) → hi ≤ lo → count_above lo (above hi ts) ≡ count_above lo ts
count_above-above lo hi [] h = refl
count_above-above lo hi (t ∷ ts) h = ground (arith, count_above-above lo hi ts h)

count_above_antitone : (lo hi : ℕ) (ts : List ℕ) → hi ≤ lo → count_above lo ts ≤ count_above hi ts
count_above_antitone lo hi [] h = omega arith
count_above_antitone lo hi (t ∷ ts) h = ground (arith, count_above_antitone lo hi ts h)

count_above_none : (lo : ℕ) (ts : List ℕ) → All (λ t. t ≤ lo) ts → count_above lo ts ≡ 0
count_above_none lo [] h = refl
count_above_none lo (t ∷ ts) h = ground (arith, count_above_none lo ts h.1)

count_above-cons-le : (lo t : ℕ) (ts : List ℕ) → count_above lo (t ∷ ts) ≤ suc (count_above lo ts)
count_above-cons-le lo t ts = ground arith

All-le_trans :
    (w lo d : ℕ) (ts : List ℕ) → d ≤ lo + w → All (λ t. t + w ≤ d) ts → All (λ t. t ≤ lo) ts
All-le_trans w lo d [] p h = tt
All-le_trans w lo d (t ∷ ts) p h = (omega arith, All-le_trans w lo d ts p h.1)

All-later : (w d e : ℕ) (ts : List ℕ) → d ≤ e → All (λ t. t + w ≤ d) ts → All (λ t. t + w ≤ e) ts
All-later w d e [] p h = tt
All-later w d e (t ∷ ts) p h = (omega arith, All-later w d e ts p h.1)

abbrev Deadlined : ℕ → List ℕ → Option ℕ → Type 0
Deadlined width log none = Unit
Deadlined width log (some d) = All (λ t. t + width ≤ d) log

-- The window holds every admission that a window of `width` seconds may still count, and does not
-- expire while it does.
record Covers (width last max : ℕ) (log : List ℕ) (w : Window) : Type 0 where
  cover : (lo : ℕ) → last ≤ lo + width → count_above lo log ≤ count_above lo w.scores
  outlives : Deadlined width log w.deadline
  past : All (λ t. t ≤ last) log
  bounded : count_above (last - width) log ≤ max

alive-cover :
    (width last max now lo : ℕ) (log : List ℕ) (w : Window)
    → Covers width last max log w
    → last ≤ now
    → now ≤ lo + width
    → count_above lo log ≤ count_above lo (alive now w)
alive-cover width last max now lo log w c p q =
    go w.deadline refl c.outlives (c.cover lo (omega arith))
  where
    go :
        (d : Option ℕ)
        → w.deadline ≡ d
        → Deadlined width log d
        → count_above lo log ≤ count_above lo w.scores
        → count_above lo log ≤ count_above lo (alive now w)
    go none e o h = rw e h
    go (some d) e o h = elim (Bool-cases (leb d now)) [
      | inl dead ↦
          omega (arith, count_above_none lo log (All-le_trans width lo d log (ground arith) o))
      | inr live ↦ rw (e, live) h
    ]

kept-cover :
    (width last max now lo : ℕ) (log : List ℕ) (w : Window)
    → Covers width last max log w
    → last ≤ now
    → now ≤ lo + width
    → count_above lo log ≤ count_above lo (kept now (now - width) w)
kept-cover width last max now lo log w c p q =
    rw (count_above-above lo (now - width) (alive now w) (omega arith))
      (alive-cover width last max now lo log w c p q)

Deadlined-keep :
    (width : ℕ) (log xs : List ℕ) (d : Option ℕ)
    → Deadlined width log d
    → Deadlined width log (keep_deadline xs d)
Deadlined-keep width log [] d h = tt
Deadlined-keep width log (x ∷ xs) d h = h

All-past :
    (last now : ℕ) (ts : List ℕ) → last ≤ now → All (λ t. t ≤ last) ts → All (λ t. t ≤ now) ts
All-past last now [] p h = tt
All-past last now (t ∷ ts) p h = (omega arith, All-past last now ts p h.1)

All-deadline :
    (width last d : ℕ) (ts : List ℕ)
    → last + width ≤ d
    → All (λ t. t ≤ last) ts
    → All (λ t. t + width ≤ d) ts
All-deadline width last d [] p h = tt
All-deadline width last d (t ∷ ts) p h = (omega arith, All-deadline width last d ts p h.1)

refused-Covers :
    (width last max now : ℕ) (log : List ℕ) (w : Window)
    → Covers width last max log w
    → last ≤ now
    → Covers width now max log (refused_window now (now - width) w)
refused-Covers width last max now log w c p = record {
  cover = λ lo q. kept-cover width last max now lo log w c p q;
  outlives = Deadlined-keep width log (kept now (now - width) w) w.deadline c.outlives;
  past = All-past last now log p c.past;
  bounded = omega (arith, count_above_antitone (now - width) (last - width) log, c.bounded);
}

admitted-Covers :
    (width last max ttl now : ℕ) (log : List ℕ) (w : Window)
    → width ≤ ttl
    → Covers width last max log w
    → last ≤ now
    → length (kept now (now - width) w) < max
    → Covers width now max (now ∷ log) (admitted_window now (now - width) ttl w)
admitted-Covers width last max ttl now log w t c p n = record {
  cover = λ lo q. ground (arith, kept-cover width last max now lo log w c p q);
  outlives =
      (omega arith, All-deadline width now _ log (omega arith) (All-past last now log p c.past));
  past = (omega arith, All-past last now log p c.past);
  bounded = omega (
    arith,
    count_above-cons-le (now - width) now log,
    alive-cover width last max now (now - width) log w c p (omega arith),
  );
}

module _ (r : Redis) (laws : SortedSetLaws r) (key : String) (width max ttl : ℕ) where
  open laws use {window}

  -- The checks of one key: at each the answer came, with a new UUID. `log` holds the times of the
  -- requests admitted, the latest first, and `last` is the time of the latest check. In between
  -- the server may change in any way that leaves the set of this key alone.
  pub data History : ℕ → List ℕ → r.Server → Type 0 where
    begins :
        {s : r.Server} → window s key ≡ record { scores = []; deadline = none } → History 0 [] s
    admits :
        {last : ℕ} {log : List ℕ} {s t : r.Server} (now : ℕ) (uuid : String)
        → History last log s
        → last ≤ now
        → IsFresh r laws now key (now - width) uuid s
        → sliding_window r now key (now - width) max ttl uuid s ≡ (ok true, t)
        → History now (now ∷ log) t
    refuses :
        {last : ℕ} {log : List ℕ} {s t : r.Server} (now : ℕ) (uuid : String)
        → History last log s
        → last ≤ now
        → sliding_window r now key (now - width) max ttl uuid s ≡ (ok false, t)
        → History now log t
    elsewhere :
        {last : ℕ} {log : List ℕ} {s t : r.Server}
        → History last log s
        → window t key ≡ window s key
        → History last log t

  History-Covers :
      {last : ℕ} {log : List ℕ} {s : r.Server}
      → width ≤ ttl
      → History last log s
      → Covers width last max log (window s key)
  History-Covers w (begins e) =
      rw e (record { cover = λ lo q. omega arith; outlives = tt; past = tt; bounded = omega arith })
  History-Covers w (admits {last = l} {log = log} {s = s} now uuid h p f e) =
      let (n, x) = sliding_window-admitted r laws now key (now - width) max ttl uuid s f e in
      rw x (admitted-Covers width l max ttl now log (window s key) w (History-Covers w h) p n)
  History-Covers w (refuses {last = l} {log = log} {s = s} now uuid h p e) =
      let (n, x) = sliding_window-refused r laws now key (now - width) max ttl uuid s e in
      rw x (refused-Covers width l max now log (window s key) (History-Covers w h) p)
  History-Covers w (elsewhere h e) = rw e (History-Covers w h)

  -- If the keys of the limiter live at least as long as its window, then after any history of
  -- checks the window that ends with the latest check holds at most `max` admitted requests.
  pub History-bounded :
      (last : ℕ) (log : List ℕ) (s : r.Server)
      → width ≤ ttl
      → History last log s
      → count_above (last - width) log ≤ max
  History-bounded last log s w h = (History-Covers w h).bounded
