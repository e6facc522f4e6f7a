-- ===== src/Curl/Examples.antt =====
-- Inputs for the theorems about the curl client, and tests.
use stv_renew.Prelude.{[], ◌∷◌, none}
use stv_renew.Prelude.Int.{pos}
use stv_renew.Http.{HttpRequest, http_post}
use stv_renew.Curl.{Libcurl, Outcome, CurlClient, curle_ok, begins, run, new_client}

abbrev libcurl : Libcurl
libcurl = record { number = λ code. 42; strerror = λ code. "aborted" }

abbrev request : HttpRequest
request = record {
  method = http_post;
  url = "http://s/v1/tts";
  request_id = "r1";
  headers = [];
  body = "{}";
  trace_id = "w";
  timeout = 1000;
}

abbrev page : Outcome
page = record { code = curle_ok; http_code = pos 200; pieces = "he" ∷ "llo" ∷ []; elapsed_ms = 3 }

-- The transfer runs, with a new token.
abbrev running : CurlClient
running = run libcurl (new_client []) (begins request none ∷ [])
