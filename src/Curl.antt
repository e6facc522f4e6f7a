-- ===== src/Curl.antt =====
-- infra/include/infra/curl_http_client.h and infra/src/curl_http_client.cpp: `CurlHttpClient`. libcurl
-- is a parameter: the codes, the texts of its errors, and what a transfer comes to. `execute` holds
-- the mutex of the handle from its start to its end and lets `cancel` in while the transfer runs: it
-- is `execute_begin` and `execute_end`, with the calls of `cancel` between.
pub mod InFlight
pub mod Answers
mod Examples
use stv_renew.Prelude.{
  ℕ, ◌/◌, Bool, true, false, not, ◌&&◌, String, List, [], ◌∷◌, ◌++◌, map, Option, none, some,
  concat, decimal, str_eq, is_empty, if◌then◌else◌,
}
use stv_renew.Prelude.Int.{ℤ, pos, leb_ℤ}
use stv_renew.Prelude.Numbers.{int_to_string}
use stv_renew.Errors.{put, look_up, TaskError, Result, ok, err}
use stv_renew.Cancel.{Tokens, allocate, request_at, is_canceled_at}
use stv_renew.Http.{
  http_get, http_post, http_put, http_delete, HttpRequest, HttpResponse, HttpErrorCode,
  network_error, timed_out, request_canceled, server_error, client_error, rate_limit, unknown_error,
  make_http_error,
}

-- The codes that the program names; `other_code`: one of the rest.
pub data CurlCode : Type 0 where
  curle_ok couldnt_resolve_host couldnt_connect send_error recv_error : CurlCode
  operation_timedout aborted_by_callback : CurlCode
  other_code : ℕ → CurlCode

-- `CURLcode` as a number, and `curl_easy_strerror`.
pub record Libcurl : Type 0 where
  pub number : CurlCode → ℕ
  pub strerror : CurlCode → String

-- What the options of the handle make of a request: `none` leaves libcurl's own method.
pub data SetMethod : Type 0 where
  post_fields : (body : String) → SetMethod
  http_get_set default_method : SetMethod

pub record Transfer : Type 0 where
  pub url : String
  pub timeout_ms : ℕ
  pub connect_timeout_ms : ℕ
  pub method : SetMethod
  pub headers : List String
  pub token : ℕ

-- What the transfer came to: the data that the write callback got, in its pieces.
pub record Outcome : Type 0 where
  pub code : CurlCode
  pub http_code : ℤ
  pub pieces : List String
  pub elapsed_ms : ℕ

-- `performing`: the request of the thread in `execute`, which holds the mutex of the handle.
-- `invoked`: the callbacks of the tokens that were called.
pub record CurlClient : Type 0 where
  pub in_flight : List (String × ℕ)
  pub tokens : Tokens
  pub performing : Option (HttpRequest × ℕ)
  pub invoked : List ℕ

-- Nonzero makes libcurl stop the transfer.
unfoldable pub progress_callback : Option ℕ → Tokens → ℕ
unfolding is_canceled_at
progress_callback token tokens = if is_canceled_at token tokens then 1 else 0

-- The buffer after the calls of `write_callback`.
unfoldable pub write_all : String → List String → String
write_all buffer [] = buffer
write_all buffer (piece ∷ pieces) = write_all (concat (buffer ∷ piece ∷ [])) pieces

unfoldable pub classify_curl_error : CurlCode → HttpErrorCode
classify_curl_error curle_ok = unknown_error
classify_curl_error couldnt_resolve_host = network_error
classify_curl_error couldnt_connect = network_error
classify_curl_error send_error = network_error
classify_curl_error recv_error = network_error
classify_curl_error operation_timedout = timed_out
classify_curl_error aborted_by_callback = request_canceled
classify_curl_error (other_code n) = unknown_error

abbrev pub set_method : HttpRequest → SetMethod
set_method request = elim request.method [
  | http_post ↦ post_fields request.body
  | http_get ↦ http_get_set
  | http_put ↦ default_method
  | http_delete ↦ default_method
]

abbrev pub header_line : String × String → String
header_line (key, value) = concat (key ∷ ": " ∷ value ∷ [])

-- `in_flight_requests_.erase(id)`.
unfoldable pub forget : String → List (String × ℕ) → List (String × ℕ)
forget id [] = []
forget id ((k, v) ∷ m) = let rest = forget id m in if str_eq k id then rest else (k, v) ∷ rest

-- The caller's token, or a new one.
abbrev pub token_for : Tokens → Option ℕ → Tokens × ℕ
token_for tokens none = allocate tokens
token_for tokens (some a) = (tokens, a)

-- The token for the request, its registration, and the options; the mutex is taken.
unfoldable pub execute_begin : CurlClient → HttpRequest → Option ℕ → CurlClient × Transfer
unfolding allocate put
execute_begin c request token =
    let (tokens, address) = token_for c.tokens token in
    (
      record {
        in_flight =
            if is_empty request.request_id
            then c.in_flight
            else put request.request_id address c.in_flight;
        tokens = tokens;
        performing = some (request, address);
        invoked = c.invoked;
      },
      record {
        url = request.url;
        timeout_ms = request.timeout;
        connect_timeout_ms = request.timeout / 2;
        method = set_method request;
        headers = map header_line request.headers;
        token = address;
      },
    )

abbrev error_message : HttpErrorCode → String
error_message network_error = "Network error occurred. Please check your connection."
error_message timed_out = "Request timed out. Please try again."
error_message request_canceled = "Request was canceled."
error_message _ = "Unknown error occurred."

abbrev pub is_canceled_code : HttpErrorCode → Bool
is_canceled_code request_canceled = true
is_canceled_code _ = false

-- `res != CURLE_OK`.
unfoldable pub transfer_error : Libcurl → CurlCode → TaskError
unfolding classify_curl_error make_http_error decimal
transfer_error lib code =
    let error_code = classify_curl_error code in
    make_http_error error_code (error_message error_code)
      (concat
        ("CURL error: " ∷ lib.strerror code ∷ " (code: " ∷ decimal (lib.number code) ∷ ")" ∷ []))
      (not (is_canceled_code error_code))

-- The tests of the status.
unfoldable pub status_answer : HttpRequest → Outcome → Result HttpResponse TaskError
unfolding make_http_error int_to_string write_all
status_answer request outcome =
    let said = concat ("HTTP " ∷ int_to_string outcome.http_code ∷ " response" ∷ []) in
    if leb_ℤ (pos 500) outcome.http_code
    then err
        (make_http_error server_error "Server error occurred. Please try again later." said true)
    else if leb_ℤ (pos 429) outcome.http_code && leb_ℤ outcome.http_code (pos 429)
    then err (
        make_http_error rate_limit "Too many requests. Please slow down." "HTTP 429 Rate Limit"
          true)
    else if leb_ℤ (pos 400) outcome.http_code
    then err
        (make_http_error client_error "Invalid request. Please check your parameters." said false)
    else ok (record {
      status_code = outcome.http_code;
      headers = [];
      body = write_all "" outcome.pieces;
      request_id = concat (
          (if is_empty request.request_id then request.trace_id else request.request_id)
          ∷ "_resp"
          ∷ []);
      elapsed_ms = outcome.elapsed_ms;
    })

unfoldable pub answer : Libcurl → HttpRequest → Outcome → Result HttpResponse TaskError
unfolding transfer_error status_answer
answer lib request outcome = elim outcome.code [
  | curle_ok ↦ status_answer request outcome
  | code ↦ err (transfer_error lib code)
]

-- After the transfer: the answer, and the guard that takes the registration back.
unfoldable pub execute_end :
    Libcurl → CurlClient → Outcome → CurlClient × Option (Result HttpResponse TaskError)
unfolding answer forget
execute_end lib c outcome = elim c.performing [
  | none ↦ (c, none)
  | some (request, token) ↦ (
    record c {
      in_flight =
          if is_empty request.request_id
          then c.in_flight
          else forget request.request_id c.in_flight;
      performing = none;
    },
    some (answer lib request outcome),
  )
]

-- The token of a registered request is kept alive by `execute`.
unfoldable pub cancel : CurlClient → String → CurlClient × Bool
unfolding look_up request_at
cancel c request_id =
    if is_empty request_id then (c, false) else elim (look_up request_id c.in_flight) [
      | none ↦ (c, false)
      | some token ↦
          let (tokens, invoked) = request_at (some token) c.tokens in
          (record c { tokens = tokens; invoked = c.invoked ++ invoked }, true)
    ]

-- What threads do with the client, in any order. A thread that calls `execute` while another one is
-- in it waits for the mutex: its begin is not there yet.
pub data Op : Type 0 where
  begins : HttpRequest → Option ℕ → Op
  ends : Outcome → Op
  cancels : String → Op

module _ (lib : Libcurl) where
  unfoldable pub step : CurlClient → Op → CurlClient
  unfolding execute_begin execute_end cancel
  step c (begins request token) = elim c.performing [
    | none ↦ (execute_begin c request token).0
    | some _ ↦ c
  ]
  step c (ends outcome) = (execute_end lib c outcome).0
  step c (cancels request_id) = (cancel c request_id).0

  unfoldable pub run : CurlClient → List Op → CurlClient
  unfolding step
  run c [] = c
  run c (op ∷ ops) = run (step c op) ops

-- The constructor; a handle that libcurl does not give makes it throw, and there is no client.
abbrev pub new_client : Tokens → CurlClient
new_client tokens = record { in_flight = []; tokens = tokens; performing = none; invoked = [] }
