-- ===== src/Api/Usage.antt =====
-- crates/zorch-api/src/routes/v1/proxy/usage.rs: reading the numbers of tokens from an answer, and
-- the stream that watches for them. Times are milliseconds since the stream was made. The stream and
-- the task that waits for it share a channel with one place.
pub mod Capture
pub mod Recording
mod Examples
use zorch.Prelude.{
  ℕ, ◌%◌, ◌^◌, Bool, true, false, String, Option, none, some, List, [], ◌∷◌, leb, if◌then◌else◌,
}
use zorch.Prelude.Classes.{◌==◌, string_eq}
use zorch.Shared.Errors.{Reply}
use zorch.Shared.Lines.{lines, trim}
use zorch.External.Serde.{Serde}
use zorch.Api.Request.{and_then, to_option, strip_prefix}

-- Prompt tokens and completion tokens, u32
abbrev pub Tokens : Type 0
Tokens = ℕ × ℕ

-- `lines().find(|line| line.starts_with("data: "))?.strip_prefix("data: ")`
unfoldable pub data_line : List String → Option String
data_line [] = none
data_line (line ∷ rest) =
    let later = data_line rest in
    elim (strip_prefix "data: " line) [ none ↦ later | some content ↦ some content ]

module _ (serde : Serde) where
  -- `and_then(|v| v.as_u64()).map(|v| v as u32)`
  unfoldable pub tokens_of : String → serde.Json → Option ℕ
  tokens_of name usage =
      and_then (and_then (serde.get name usage) serde.as_u64) (λ v. some (v % 2 ^ 32))

  unfoldable pub usage_in : serde.Json → Option Tokens
  usage_in json = and_then (serde.get "usage" json) (λ usage.
      and_then (tokens_of "prompt_tokens" usage) (λ prompt.
        and_then (tokens_of "completion_tokens" usage) (λ completion. some (prompt, completion))))

  unfoldable pub parse_usage_from_response : String → Option Tokens
  parse_usage_from_response bytes = and_then (to_option (serde.from_slice bytes)) usage_in

  -- `std::str::from_utf8` is the first argument.
  unfoldable pub parse_sse_usage_chunk : (String → Option String) → String → Option Tokens
  parse_sse_usage_chunk from_utf8 chunk = and_then (from_utf8 chunk) (λ s.
      and_then (data_line (lines s)) (λ content.
        if trim content == "[DONE]"
        then none
        else and_then (to_option (serde.from_slice content)) usage_in))

-- The sender is there until it is taken or dropped.
pub record UsageCapturingStream : Type 0 where
  pub has_tx : Bool
  pub captured_usage : Option Tokens

-- What the inner stream answers to a poll.
pub data Poll : Type 0 where
  chunk : String → Poll
  broken : String → Poll
  ended pending : Poll

-- The task that `new` starts: it waits for the usage, and then records some numbers.
pub data Task : Type 0 where
  waiting : Task
  recorded : Tokens → Task

pub record Session : Type 0 where
  pub stream : UsageCapturingStream
  pub queue : Option Tokens
  pub task : Task

-- What can happen: the body is polled, the body is dropped, the task is woken.
pub data Event : Type 0 where
  polled : Poll → Event
  dropped : Event
  woken : ℕ → Event

unfoldable pub new : Session
new = record {
  stream = record { has_tx = true; captured_usage = none };
  queue = none;
  task = waiting;
}

-- `try_send` fails if the place is taken or the receiver is gone.
unfoldable pub try_send : Tokens → Task → Option Tokens → Option Tokens
try_send usage waiting none = some usage
try_send usage waiting (some u) = some u
try_send usage (recorded t) queue = queue

-- `if let Some(tx) = self.usage_tx.take() { let _ = tx.try_send(usage); }`
unfoldable pub take_and_send : Tokens → Session → Session
take_and_send usage s = record s {
  stream = record s.stream { has_tx = false };
  queue = if s.stream.has_tx then try_send usage s.task s.queue else s.queue;
}

unfoldable pub capture : Tokens → Session → Session
capture usage s =
    take_and_send usage (record s { stream = record s.stream { captured_usage = some usage } })

unfoldable pub capture_if : Option Tokens → Session → Session
capture_if none s = s
capture_if (some usage) s = capture usage s

unfoldable pub look_at : Option Tokens → Option Tokens → Session → Session
look_at none parsed s = capture_if parsed s
look_at (some u) parsed s = s

unfoldable pub finish : Option Tokens → Session → Session
finish none s = s
finish (some usage) s = take_and_send usage s

module _ (parse : String → Option Tokens) where
  -- The answer of the inner stream is passed on.
  unfoldable pub poll_next : Poll → Session → Poll × Session
  poll_next (chunk c) s = (chunk c, look_at s.stream.captured_usage (parse c) s)
  poll_next (broken e) s = (broken e, s)
  poll_next ended s = (ended, finish s.stream.captured_usage s)
  poll_next pending s = (pending, s)

  -- `timeout(10 s, usage_rx.recv())`: a message, or nothing at the sender's end or the timeout;
  -- `.ok().flatten().unwrap_or((0, 0))`.
  unfoldable pub receive : ℕ → Bool → Option Tokens → Task
  receive now has_tx (some usage) = recorded usage
  receive now true none = if leb 10000 now then recorded (0, 0) else waiting
  receive now false none = recorded (0, 0)

  unfoldable pub wake : ℕ → Task → Session → Session
  wake now waiting s = record s { task = receive now s.stream.has_tx s.queue }
  wake now (recorded t) s = s

  unfoldable pub step : Event → Session → Session
  step (polled p) s = (poll_next p s).1
  step dropped s = record s { stream = record s.stream { has_tx = false } }
  step (woken now) s = wake now s.task s

  unfoldable pub run : List Event → Session → Session
  run [] s = s
  run (e ∷ es) s = run es (step e s)
