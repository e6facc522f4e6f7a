-- ===== src/Http/Examples.antt =====
-- Inputs for the theorems about the HTTP client, and tests.
use stv_renew.Prelude.{◌≡◌, refl, ℕ, suc, ◌+◌, true, false, [], arith}
use stv_renew.Prelude.Int.{pos}
use stv_renew.Errors.{err}
use stv_renew.Http.{
  HttpRequest, http_get, RetryPolicy, Surroundings, execute, make_http_error, network_error,
  timed_out, parse_http_error_code, next_backoff,
}
use stv_renew.Http.Retries.{IsCounted, AnsweredBy, execute-AnsweredBy}
use stv_renew.Http.Codes.{parse_http_error_code-make_http_error}

-- A clock and a number of calls; the inner client never gets through.
abbrev down : Surroundings (ℕ × ℕ)
down = record {
  call = λ w q. ((w.0, suc w.1), err (make_http_error network_error "No network." "down" true));
  is_canceled = λ w. (w, false);
  clock = λ w. w.0;
  sleep_for = λ w n. (w.0 + n, w.1);
}

down-IsCounted : IsCounted down (λ w. w.1)
down-IsCounted = record {
  sleep_long = λ w n. omega arith;
  poll_on = λ w. omega arith;
  call-calls = λ w q. refl;
  poll-calls = λ w. refl;
  sleep-calls = λ w n. refl;
}

abbrev request : HttpRequest
request = record {
  method = http_get;
  url = "/health";
  request_id = "r1";
  headers = [];
  body = "";
  trace_id = "w";
  timeout = 30000;
}

abbrev policy : RetryPolicy
policy = record {
  max_retries = pos 3;
  initial_backoff = 4;
  backoff_multiplier = (2, 1);
  max_backoff = 10;
  sleep_slice = 2;
}

execute-AnsweredBy_example :
    AnsweredBy (λ (w : ℕ × ℕ). w.1) 4 (execute down policy true request (0, 0))
execute-AnsweredBy_example =
    execute-AnsweredBy down (λ w. w.1) policy true request (0, 0) down-IsCounted (omega arith)

backoffs : next_backoff policy 4 ≡ 8
unfolding next_backoff
backoffs = refl

parse_http_error_code-make_http_error_example :
    parse_http_error_code (make_http_error timed_out "Timed out." "deadline" true) ≡ timed_out
parse_http_error_code-make_http_error_example =
    parse_http_error_code-make_http_error timed_out "Timed out." "deadline" true (λ n e. cc)
