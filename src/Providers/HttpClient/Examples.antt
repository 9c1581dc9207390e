-- ===== src/Providers/HttpClient/Examples.antt =====
-- A network whose first answer is 503 and whose later ones are 200; it counts requests and waiting.
use zorch.Prelude.{ℕ, ◌+◌, ◌*◌, ◌≤◌, refl, [], nat_beq, if◌then◌else◌, arith}
use zorch.Shared.Float.{integers}
use zorch.Providers.HttpClient.{
  default_retry, Request, Response, answered, Network, jitter_range, execute_with_retry,
}
use zorch.Providers.HttpClient.Retry.{Meters, execute_with_retry_bounds}

abbrev pub response : ℕ → Response
response status = record { status = status; headers = []; body = "{}" }

abbrev pub busy_once : Network (ℕ × ℕ)
busy_once = record {
  send = λ q n w. (answered (response (if nat_beq w.0 0 then 503 else 200)), (w.0 + 1, w.1));
  gen_range = λ bound w. (0, w);
  sleep = λ delay w. (w.0, w.1 + delay);
}

abbrev pub busy_once_meters : Meters busy_once
busy_once_meters = record {
  sends = λ w. w.0;
  slept = λ w. w.1;
  sends-send = λ q n w. refl;
  slept-send = λ q n w. refl;
  sends-draw = λ b w. refl;
  slept-draw = λ b w. refl;
  draw-le = λ b w. omega arith;
  sends-sleep = λ d w. refl;
  slept-sleep = λ d w. refl;
}

abbrev request : Request
request = record { method = "POST"; url = "http://localhost"; headers = []; body = "{}" }

execute_with_retry_bounds_example :
    ((execute_with_retry busy_once integers default_retry request (0, 0)).1.0 ≤ 0 + (3 + 1))
    × ((execute_with_retry busy_once integers default_retry request (0, 0)).1.1
        ≤ 0 + 3 * (2 * 30000))
unfolding jitter_range
execute_with_retry_bounds_example =
    execute_with_retry_bounds busy_once integers default_retry busy_once_meters (λ d. omega arith)
      request (0, 0)
