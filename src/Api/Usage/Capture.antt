-- ===== src/Api/Usage/Capture.antt =====
-- What the task of a stream records.
use zorch.Prelude.{
  ℕ, ◌≤◌, ◌<◌, true, false, String, Option, none, some, List, [], ◌∷◌, ◌++◌, ◌≡◌, refl, ◌⊎◌,
  Option-cases, All, inl, inr, arith,
}
use zorch.Api.Usage.{
  Tokens, chunk, broken, ended, pending, waiting, recorded, Session, Event, polled, dropped, woken,
  new, try_send, take_and_send, capture, capture_if, look_at, finish, poll_next, receive, wake,
  step, run,
}

module _ (parse : String → Option Tokens) where
  -- The usage of the first chunk that has one, after `found`.
  unfoldable pub seen : Option Tokens → Event → Option Tokens
  seen (some u) e = some u
  seen none (polled (chunk c)) = parse c
  seen none e = none

  unfoldable pub first_usage : Option Tokens → List Event → Option Tokens
  first_usage found [] = found
  first_usage found (e ∷ es) = first_usage (seen found e) es

  -- The stream holds the first usage, the channel that or nothing, and the task has recorded that or
  -- zeros or nothing.
  abbrev IsSound : Option Tokens → Session → Type 0
  IsSound found s =
      (s.stream.captured_usage ≡ found)
      × ((s.queue ≡ none) ⊎ (s.queue ≡ found))
      × ((s.task ≡ waiting)
          ⊎ (s.task ≡ recorded (0, 0))
          ⊎ ((t : Tokens) × (found ≡ some t) × (s.task ≡ recorded t)))

  step-IsSound :
      (e : Event) (found : Option Tokens) (s : Session)
      → IsSound found s
      → IsSound (seen found e) (step parse e s)
  unfolding seen step poll_next look_at capture_if capture take_and_send try_send finish wake
      receive
  step-IsSound (polled (chunk c)) none s h = ground arith
  step-IsSound (polled (chunk c)) (some u) s h = ground arith
  step-IsSound (polled (broken c)) found s h = ground arith
  step-IsSound (polled ended) found s h = ground arith
  step-IsSound (polled pending) found s h = ground arith
  step-IsSound dropped found s h = ground arith
  step-IsSound (woken now) found s h = ground arith

  run-IsSound :
      (es : List Event) (found : Option Tokens) (s : Session)
      → IsSound found s
      → IsSound (first_usage found es) (run parse es s)
  unfolding run first_usage
  run-IsSound [] found s h = h
  run-IsSound (e ∷ es) found s h =
      run-IsSound es (seen found e) (step parse e s) (step-IsSound e found s h)

  new-IsSound : IsSound none new
  unfolding new
  new-IsSound = (refl, inl refl, inl refl)

  -- After any polls, wakings and a drop at any times: if the task has recorded numbers, they are
  -- zeros or the usage of the first chunk that has one.
  pub run-recorded :
      (es : List Event) (t : Tokens)
      → (run parse es new).task ≡ recorded t
      → (t ≡ (0, 0)) ⊎ (first_usage none es ≡ some t)
  run-recorded es t h = let sound = run-IsSound es none new new-IsSound in ground (arith, sound, h)

  -- Nothing is recorded twice: what the task has recorded stays.
  run-keeps :
      (es : List Event) (s : Session) (t : Tokens)
      → s.task ≡ recorded t
      → (run parse es s).task ≡ recorded t
  unfolding run step poll_next look_at capture_if capture take_and_send finish wake
  run-keeps [] s t h = h
  run-keeps (polled (chunk c) ∷ es) s t h =
      run-keeps es (step parse (polled (chunk c)) s) t (ground (arith, h))
  run-keeps (polled (broken e) ∷ es) s t h =
      run-keeps es (step parse (polled (broken e)) s) t (ground (arith, h))
  run-keeps (polled ended ∷ es) s t h =
      run-keeps es (step parse (polled ended) s) t (ground (arith, h))
  run-keeps (polled pending ∷ es) s t h =
      run-keeps es (step parse (polled pending) s) t (ground (arith, h))
  run-keeps (dropped ∷ es) s t h = run-keeps es (step parse dropped s) t (ground (arith, h))
  run-keeps (woken now ∷ es) s t h = run-keeps es (step parse (woken now) s) t (ground (arith, h))

  run-append :
      (es fs : List Event) (s : Session) → run parse (es ++ fs) s ≡ run parse fs (run parse es s)
  unfolding run
  run-append [] fs s = refl
  run-append (e ∷ es) fs s = run-append es fs (step parse e s)

  -- A task that is woken after ten seconds or later, before a chunk with a usage has come, records
  -- zeros, whatever the stream still brings.
  pub run-late :
      (es later : List Event) (now : ℕ)
      → first_usage none es ≡ none
      → 10000 ≤ now
      → (run parse (es ++ woken now ∷ later) new).task ≡ recorded (0, 0)
  unfolding run step wake receive
  run-late es later now h late =
      let s = run parse es new in
      let sound = run-IsSound es none new new-IsSound in
      let zeros : (step parse (woken now) s).task ≡ recorded (0, 0) =
        ground (arith, sound, h, late) in
      rw (run-append es (woken now ∷ later) new)
        (run-keeps later (step parse (woken now) s) (0, 0) zeros)

  -- Polls, and wakings before the ten seconds are over.
  abbrev pub InTime : Event → Type 0
  InTime (polled p) = Unit
  InTime dropped = ⊥
  InTime (woken now) = now < 10000

  -- The task waits or has recorded the usage, which the channel holds as long as it waits.
  abbrev IsPrompt : Option Tokens → Session → Type 0
  IsPrompt none s =
      (s.stream ≡ record { has_tx = true; captured_usage = none })
      × (s.queue ≡ none)
      × (s.task ≡ waiting)
  IsPrompt (some u) s =
      (s.stream.captured_usage ≡ some u)
      × (s.stream.has_tx ≡ false)
      × (((s.queue ≡ some u) × (s.task ≡ waiting)) ⊎ (s.task ≡ recorded u))

  step-IsPrompt :
      (e : Event) (found : Option Tokens) (s : Session)
      → InTime e
      → IsPrompt found s
      → IsPrompt (seen found e) (step parse e s)
  unfolding seen step poll_next look_at capture_if capture take_and_send try_send finish wake
      receive
  step-IsPrompt (polled (chunk c)) none s i h = elim (Option-cases (parse c)) [
    | inl n ↦ ground (arith, h, n)
    | inr (u, n) ↦ ground (arith, h, n)
  ]
  step-IsPrompt (polled (chunk c)) (some u) s i h = ground (arith, h)
  step-IsPrompt (polled (broken c)) none s i h = ground (arith, h)
  step-IsPrompt (polled (broken c)) (some u) s i h = ground (arith, h)
  step-IsPrompt (polled ended) none s i h = ground (arith, h)
  step-IsPrompt (polled ended) (some u) s i h = ground (arith, h)
  step-IsPrompt (polled pending) none s i h = ground (arith, h)
  step-IsPrompt (polled pending) (some u) s i h = ground (arith, h)
  step-IsPrompt (woken now) none s i h = ground (arith, h)
  step-IsPrompt (woken now) (some u) s i h = ground (arith, h)
  step-IsPrompt dropped found s i h = absurd i

  run-IsPrompt :
      (es : List Event) (found : Option Tokens) (s : Session)
      → All InTime es
      → IsPrompt found s
      → IsPrompt (first_usage found es) (run parse es s)
  unfolding run first_usage
  run-IsPrompt [] found s i h = h
  run-IsPrompt (e ∷ es) found s i h =
      run-IsPrompt es (seen found e) (step parse e s) i.1 (step-IsPrompt e found s i.0 h)

  -- If the body is not dropped, and a chunk with a usage comes and the task is woken only before the
  -- ten seconds are over, then the task records the usage of the first such chunk when it is next
  -- woken, at any time, and whatever follows.
  pub run-prompt :
      (es later : List Event) (now : ℕ) (u : Tokens)
      → All InTime es
      → first_usage none es ≡ some u
      → (run parse (es ++ woken now ∷ later) new).task ≡ recorded u
  unfolding run step wake receive new
  run-prompt es later now u i h =
      let s = run parse es new in
      let prompt : IsPrompt (some u) s = rw h at (run-IsPrompt es none new i (refl, refl, refl)) in
      let kept : (step parse (woken now) s).task ≡ recorded u = ground (arith, prompt) in
      rw (run-append es (woken now ∷ later) new) (run-keeps later (step parse (woken now) s) u kept)
