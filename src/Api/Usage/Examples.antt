-- ===== src/Api/Usage/Examples.antt =====
-- A stream of three chunks, the second with a usage.
use zorch.Prelude.{ℕ, ◌≡◌, refl, ◌⊎◌, String, Option, none, some, List, [], ◌∷◌, ◌++◌, arith}
use zorch.Shared.Lines.{
  lines, push_first, starts_line_feed, trim, trim_start, trim_end, is_whitespace,
}
use zorch.External.Json.{
  Value, Table, json_of, map_of, entry, no_entries, whole, read_in, get_value, find_field, whole_of,
}
use zorch.Api.Request.{and_then, to_option, strip_prefix}
use zorch.Prelude.{suc}
use zorch.Prelude.Int.{pos}
use zorch.Prelude.Classes.{string_eq}
use zorch.Prelude.Map.{lookup, insert}
use zorch.Shared.Float.{integers}
use zorch.Shared.Errors.{got}
use zorch.External.Json.{null}
use zorch.Gateway.Pricing.{gpt_4o, register, calculate_cost, get_pricing, new as new_prices}
use zorch.Shared.Sql.{float}
use zorch.Api.Usage.Recording.{Ledger, RequestContext, Timing, billed_row, lookup-bill}
use zorch.Api.Usage.{
  Tokens, chunk, ended, Event, polled, woken, recorded, new, run, step, poll_next, look_at,
  capture_if, capture, take_and_send, try_send, finish, wake, receive, data_line, tokens_of,
  usage_in, parse_usage_from_response, parse_sse_usage_chunk,
}
use zorch.Api.Usage.Capture.{seen, first_usage, run-recorded, run-late, run-prompt}

abbrev tokens : Value
tokens = map_of (
    entry "usage"
      (map_of (
        entry "prompt_tokens" (whole 10) (entry "completion_tokens" (whole 4294967301) no_entries)))
      no_entries)

abbrev table : Table
table = ("{\"usage\":1}", tokens) ∷ ("{}", map_of no_entries) ∷ []

abbrev parse : String → Option Tokens
parse = parse_sse_usage_chunk (json_of table) some

-- The number of completion tokens is cast to u32.
response : parse_usage_from_response (json_of table) "{\"usage\":1}" ≡ some (10, 5)
unfolding parse_usage_from_response and_then to_option read_in usage_in get_value find_field
    tokens_of whole_of
response = refl

-- A usage after the first data line of a chunk is not read.
second_line : parse "data: {}\n\ndata: {\"usage\":1}\n\n" ≡ none
unfolding parse_sse_usage_chunk and_then data_line lines push_first starts_line_feed strip_prefix
    trim trim_end trim_start is_whitespace to_option read_in usage_in get_value find_field tokens_of
    whole_of
second_line = refl

finished : parse "data: [DONE]\r\n" ≡ none
unfolding parse_sse_usage_chunk and_then data_line lines push_first starts_line_feed strip_prefix
    trim trim_end trim_start is_whitespace to_option read_in usage_in get_value find_field tokens_of
    whole_of
finished = refl

abbrev polls : List Event
polls =
    polled (chunk "data: {}\n\n")
    ∷ woken 20
    ∷ polled (chunk "data: {\"usage\":1}\n\n")
    ∷ polled ended
    ∷ []

run-prompt_example : (run parse (polls ++ woken 12000 ∷ []) new).task ≡ recorded (10, 5)
unfolding first_usage seen parse_sse_usage_chunk and_then data_line lines push_first
    starts_line_feed strip_prefix trim trim_end trim_start is_whitespace to_option read_in usage_in
    get_value find_field tokens_of whole_of
run-prompt_example =
    run-prompt parse polls [] 12000 (10, 5) (tt, (omega arith, (tt, (tt, tt)))) refl

run-late_example :
    (run parse (polled (chunk "data: {}\n\n") ∷ woken 10000 ∷ polls) new).task ≡ recorded (0, 0)
unfolding first_usage seen parse_sse_usage_chunk and_then data_line lines push_first
    starts_line_feed strip_prefix trim trim_end trim_start is_whitespace to_option read_in usage_in
    get_value find_field tokens_of whole_of
run-late_example =
    run-late parse (polled (chunk "data: {}\n\n") ∷ []) polls 10000 refl (omega arith)

run-recorded_example :
    (◌≡◌ {A = Tokens} (10, 5) (0, 0))
    ⊎ (first_usage parse none (polls ++ woken 30 ∷ []) ≡ some (10, 5))
unfolding run step poll_next look_at capture_if capture take_and_send try_send finish wake receive
    new parse_sse_usage_chunk and_then data_line lines push_first starts_line_feed strip_prefix trim
    trim_end trim_start is_whitespace to_option read_in usage_in get_value find_field tokens_of
    whole_of
run-recorded_example = run-recorded parse (polls ++ woken 30 ∷ []) (10, 5) refl

abbrev ledger : Ledger Value ℕ
ledger = record {
  fpu = integers;
  select_tags = λ key db. got none;
  execute = λ row db. (got tt, suc db);
  no_tags = null;
  now = 0;
  fresh = 7;
  show = λ n. "key";
}

abbrev context : RequestContext
context = record {
  api_key_id = 1;
  org_id = 2;
  provider_id = "openai";
  provider_api_key_id = none;
  backend_id = 3;
  public_model_id = "gpt-4";
  target_model_id = "gpt-4o";
}

abbrev timing : Timing
timing = record {
  status_code = pos 200;
  latency_ms = pos 90;
  provider_latency_ms = pos 80;
  gateway_latency_ms = pos 10;
}

lookup-bill_example :
    (lookup "provider_cost" (billed_row ledger new_prices context (10, 5) timing null)
      ≡ some (float (calculate_cost integers new_prices "openai" "gpt-4o" 10 5).0))
    × (lookup "total_cost" (billed_row ledger new_prices context (10, 5) timing null)
        ≡ some (float (calculate_cost integers new_prices "openai" "gpt-4o" 10 5).1))
unfolding get_pricing lookup new_prices register insert
lookup-bill_example = lookup-bill ledger new_prices context gpt_4o 10 5 timing null refl
