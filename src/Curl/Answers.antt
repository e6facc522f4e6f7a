-- ===== src/Curl/Answers.antt =====
-- What the client makes of a transfer, and how that fits the retries of `RetryableHttpClient`.
use Prim.Native.String.{◌++◌ as str_append}
use stv_renew.Prelude.{◌≡◌, ◌≢◌, ◌⊎◌, Bool, true, false, String, concat}
use stv_renew.Prelude.Int.{pos, leb_ℤ}
use stv_renew.Errors.{TaskError, Result, ok, err}
use stv_renew.Http.{
  HttpRequest, HttpResponse, HttpErrorCode, unknown_error, parse_http_error_code, should_retry,
}
use stv_renew.Curl.{Outcome, curle_ok}

-- An error that the policy of the retries reads as its flag says; only an unknown one is marked as
-- one to retry and is not retried.
abbrev pub Fits : HttpErrorCode → Bool → Type 0
Fits code retryable =
    ((code ≢ unknown_error) × (retryable ≡ should_retry code))
    ⊎ ((code ≡ unknown_error) × (retryable ≡ true))

abbrev pub Consistent : TaskError → Type 0
Consistent e = Fits (parse_http_error_code e) e.retryable

-- A response: the pieces in their order, and a status below 400.
abbrev pub Delivered : HttpRequest → Outcome → HttpResponse → Type 0
Delivered request outcome response =
    (outcome.code ≡ curle_ok)
    × (leb_ℤ (pos 400) outcome.http_code ≡ false)
    × (response.status_code ≡ outcome.http_code)
    × (response.body ≡ concat outcome.pieces)
    × (response.elapsed_ms ≡ outcome.elapsed_ms)

abbrev pub Answered : HttpRequest → Outcome → Result HttpResponse TaskError → Type 0
Answered request outcome (ok response) = Delivered request outcome response
Answered request outcome (err e) = Consistent e
