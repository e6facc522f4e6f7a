-- ===== src/Http.antt =====
-- infra/include/infra/http_client.h and infra/src/http_client.cpp: HTTP errors and
-- `RetryableHttpClient`. The inner client, the clock and the token are the surroundings of a call. A
-- backoff is in milliseconds and its factor a fraction: the rounding of `double` is left out.
pub mod Retries
pub mod Codes
mod Examples
use Prim.Native.Char.{code}
use stv_renew.Prelude.{
  ℕ, zero, suc, ◌+◌, ◌-◌, ◌*◌, ◌/◌, Bool, true, false, not, ◌&&◌, ltb, leb, ◌==◌, String, [], ◌∷◌,
  Option, none, some, decimal, is_empty, if◌then◌else◌,
}
use stv_renew.Prelude.Int.{ℤ, pos, negsuc, pos_part}
use stv_renew.Errors.{
  ErrorCategory, network, pipeline, unknown, Details, put, look_up, TaskError, full_error, Result,
  ok, err,
}

pub data HttpMethod : Type 0 where
  http_get http_post http_put http_delete : HttpMethod

pub record HttpRequest : Type 0 where
  pub method : HttpMethod
  pub url : String
  pub request_id : String
  pub headers : Details
  pub body : String
  pub trace_id : String
  pub timeout : ℕ

pub record HttpResponse : Type 0 where
  pub status_code : ℤ
  pub headers : Details
  pub body : String
  pub request_id : String
  pub elapsed_ms : ℕ

-- `other`: a number without a name, which `static_cast` lets through.
pub data HttpErrorCode : Type 0 where
  network_error timed_out request_canceled server_error client_error : HttpErrorCode
  rate_limit parse_error unknown_error : HttpErrorCode
  other : ℤ → HttpErrorCode

unfoldable pub code_number : HttpErrorCode → ℤ
code_number network_error = pos 1001
code_number timed_out = pos 1002
code_number request_canceled = pos 1003
code_number server_error = pos 1004
code_number client_error = pos 1005
code_number rate_limit = pos 1006
code_number parse_error = pos 1007
code_number unknown_error = pos 1999
code_number (other n) = n

-- `static_cast<HttpErrorCode>(n)`.
unfoldable pub code_of : ℤ → HttpErrorCode
code_of (negsuc n) = other (negsuc n)
code_of (pos n) =
    if n == 1001
    then network_error
    else if n == 1002
    then timed_out
    else if n == 1003
    then request_canceled
    else if n == 1004
    then server_error
    else if n == 1005
    then client_error
    else if n == 1006
    then rate_limit
    else if n == 1007
    then parse_error
    else if n == 1999
    then unknown_error
    else other (pos n)

-- `std::from_chars` on digits to the end of the text.
digits_value : ℕ → String → Option ℕ
digits_value acc String.[] = some acc
digits_value acc (String.◌∷◌ c s) =
    let rest = digits_value (acc * 10 + (code c - 48)) s in
    if leb 48 (code c) && leb (code c) 57 then rest else none

in_range : ℕ → Option ℕ → Option ℕ
in_range bound none = none
in_range bound (some n) = if leb n bound then some n else none

negated : Option ℕ → Option ℤ
negated none = none
negated (some zero) = some (pos 0)
negated (some (suc n)) = some (negsuc n)

positive : Option ℕ → Option ℤ
positive none = none
positive (some n) = some (pos n)

-- The whole text as an `int`; `none` for anything else.
unfoldable pub parse_int : String → Option ℤ
unfolding digits_value in_range negated positive
parse_int String.[] = none
parse_int (String.◌∷◌ c s) =
    let minus = if is_empty s then none else negated (in_range 2147483648 (digits_value 0 s)) in
    let plus = positive (in_range 2147483647 (digits_value 0 (String.◌∷◌ c s))) in
    if code c == 45 then minus else plus

unfoldable pub parse_http_error_code : TaskError → HttpErrorCode
unfolding parse_int code_of look_up
parse_http_error_code e = elim (look_up "http_error_code" e.details) [
  | none ↦ unknown_error
  | some text ↦ elim (parse_int text) [ none ↦ unknown_error | some n ↦ code_of n ]
]

unfoldable pub category_of : HttpErrorCode → ErrorCategory
category_of network_error = network
category_of timed_out = ErrorCategory.timeout
category_of request_canceled = ErrorCategory.canceled
category_of server_error = network
category_of rate_limit = network
category_of client_error = pipeline
category_of parse_error = pipeline
category_of unknown_error = unknown
category_of (other n) = unknown

-- The codes that the program passes are not negative.
unfoldable pub make_http_error : HttpErrorCode → String → String → Bool → TaskError
unfolding decimal code_number category_of
make_http_error c user_message internal_message retryable =
    full_error (category_of c) (code_number c) retryable user_message internal_message
      (("http_error_code", decimal (pos_part (code_number c))) ∷ [])

pub record RetryPolicy : Type 0 where
  pub max_retries : ℤ
  pub initial_backoff : ℕ
  pub backoff_multiplier : ℕ × ℕ
  pub max_backoff : ℕ
  pub sleep_slice : ℕ

unfoldable pub should_retry : HttpErrorCode → Bool
should_retry network_error = true
should_retry timed_out = true
should_retry server_error = true
should_retry rate_limit = true
should_retry _ = false

-- `duration_cast` of the product, which cuts the fraction off, and the cap.
unfoldable pub next_backoff : RetryPolicy → ℕ → ℕ
next_backoff policy backoff =
    let next = backoff * policy.backoff_multiplier.0 / policy.backoff_multiplier.1 in
    if ltb policy.max_backoff next then policy.max_backoff else next

-- The inner client, the token (`false` for a null one), the clock and the sleep.
pub record Surroundings (W : Type 0) : Type 0 where
  pub call : W → HttpRequest → W × Result HttpResponse TaskError
  pub is_canceled : W → W × Bool
  pub clock : W → ℕ
  pub sleep_for : W → ℕ → W

-- The details that every error gets.
abbrev pub with_retry_count : ℕ → TaskError → TaskError
with_retry_count count e = record e { details = put "retry_count" (decimal count) e.details }

abbrev pub with_request_id : String → TaskError → TaskError
with_request_id id e = record e { details = put "request_id" id e.details }

unfoldable pub own_error : HttpRequest → ℕ → HttpErrorCode → String → String → TaskError
unfolding make_http_error put decimal
own_error request count c user_message internal_message =
    with_request_id request.request_id
      (with_retry_count count (make_http_error c user_message internal_message false))

unfoldable pub inner_error : HttpRequest → ℕ → TaskError → TaskError
unfolding put decimal
inner_error request count e =
    let counted = with_retry_count count e in
    if is_empty request.request_id then counted else with_request_id request.request_id counted

module _ {W : Type 0} (env : Surroundings W) (policy : RetryPolicy) where
  -- The inner loop, until the time given; `true` if the token was canceled. `none`: out of fuel.
  unfoldable pub wait : ℕ → W → (until : ℕ) → Option (W × Bool)
  wait zero w until = none
  wait (suc fuel) w until =
      let (w1, stop) = env.is_canceled w in
      let rest = wait fuel (env.sleep_for w1 policy.sleep_slice) until in
      if ltb (env.clock w) until then if stop then some (w1, true) else rest else some (w, false)

  -- A round up to the answer of the inner client. `again` goes on after an error that may be retried.
  unfoldable pub attempt :
      Bool
      → HttpRequest
      → ℕ
      → (W → TaskError → Option (W × Result HttpResponse TaskError))
      → W
      → Option (W × Result HttpResponse TaskError)
  unfolding own_error inner_error should_retry parse_http_error_code
  attempt has_inner request count again w =
      let (w1, stop) = env.is_canceled w in
      let (w2, r) = env.call w1 request in
      if stop
      then some (
        w1,
        err (
            own_error request count request_canceled "Request canceled."
              "Cancellation requested before HTTP call"),
      )
      else if not has_inner
      then some (
        w1,
        err (
            own_error request count unknown_error "Request failed."
              "RetryableHttpClient has null inner client"),
      )
      else elim r [
        | ok response ↦ some (w2, ok response)
        | err e ↦
            if should_retry (parse_http_error_code e)
            then again w2 (inner_error request count e)
            else some (w2, err (inner_error request count e))
      ]

  -- The outer loop: `left` is the number of retries left, `max_retries - retry_count`.
  unfoldable pub retry :
      Bool → HttpRequest → ℕ → ℕ → ℕ → W → Option (W × Result HttpResponse TaskError)
  unfolding attempt wait own_error next_backoff
  retry has_inner request zero count backoff =
      attempt has_inner request count (λ w e. some (w, err e))
  retry has_inner request (suc left) count backoff = attempt has_inner request count (λ w e.
      elim (wait (suc backoff) w (env.clock w + backoff)) [
        | none ↦ none
        | some (w', stop) ↦ elim stop [
          | true ↦ some (
            w',
            err (
                own_error request count request_canceled "Request canceled."
                  "Cancellation requested during retry backoff"),
          )
          | false ↦ retry has_inner request left (suc count) (next_backoff policy backoff) w'
        ]
      ])

  unfoldable pub execute : Bool → HttpRequest → W → Option (W × Result HttpResponse TaskError)
  unfolding retry
  execute has_inner request =
      retry has_inner request (pos_part policy.max_retries) 0 policy.initial_backoff

-- `IHttpClient::get` and `post`, over the client's `execute`.
abbrev pub get : {A : Type 0} → (HttpRequest → A) → HttpRequest → A
get execute request = execute (record request { method = http_get })

abbrev pub post : {A : Type 0} → (HttpRequest → A) → HttpRequest → A
post execute request = execute (record request { method = http_post })

-- `RetryableHttpClient::cancel`: `none` for a null inner client.
unfoldable pub retryable_cancel :
    {S : Type 0} → Option (S → String → S × Bool) → S → String → S × Bool
retryable_cancel none s request_id = (s, false)
retryable_cancel (some cancel) s request_id = cancel s request_id
