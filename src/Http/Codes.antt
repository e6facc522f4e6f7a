-- ===== src/Http/Codes.antt =====
-- The error code written into the details of an error, and read back.
use stv_renew.Prelude.{◌≡◌, ◌≢◌, refl, Bool, String}
use stv_renew.Prelude.Int.{ℤ}
use stv_renew.Http.{
  HttpErrorCode, network_error, timed_out, request_canceled, server_error, client_error, rate_limit,
  parse_error, unknown_error, other, make_http_error, parse_http_error_code,
}

-- `parse_http_error_code` reads from an error that `make_http_error` made, with whatever texts, the
-- code it was made with, for every code that has a name.
pub parse_http_error_code-make_http_error :
    (c : HttpErrorCode) (user_message internal_message : String) (retryable : Bool)
    → ((n : ℤ) → c ≢ other n)
    → parse_http_error_code (make_http_error c user_message internal_message retryable) ≡ c
unfolding parse_http_error_code make_http_error
parse_http_error_code-make_http_error network_error u i r h = refl
parse_http_error_code-make_http_error timed_out u i r h = refl
parse_http_error_code-make_http_error request_canceled u i r h = refl
parse_http_error_code-make_http_error server_error u i r h = refl
parse_http_error_code-make_http_error client_error u i r h = refl
parse_http_error_code-make_http_error rate_limit u i r h = refl
parse_http_error_code-make_http_error parse_error u i r h = refl
parse_http_error_code-make_http_error unknown_error u i r h = refl
parse_http_error_code-make_http_error (other n) u i r h = absurd (h n refl)
