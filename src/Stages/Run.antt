-- ===== src/Stages/Run.antt =====
-- infra/src/stages.cpp: what a run of a stage is, and the parts that the four stages share:
-- `generate_request_id`, the request, the errors and the tests of the answer.
use stv_renew.Prelude.{
  ℕ, suc, Bool, true, not, ◌&&◌, String, List, [], ◌∷◌, ◌++◌, Option, concat, decimal,
  if◌then◌else◌, false,
}
use stv_renew.Prelude.Int.{ℤ, pos, leb_ℤ}
use stv_renew.Prelude.Float.{Float, float_one}
use stv_renew.Prelude.Numbers.{int_to_string}
use stv_renew.Errors.{TaskError, full_error, pipeline, network, Result, ok, err, Status}
use stv_renew.Pipeline.{StageContext}
use stv_renew.Http.{HttpRequest, HttpResponse, http_post}

-- `http_client_->execute(request, ctx.cancel_token)`.
abbrev pub Client : Type 0
Client = HttpRequest → Option ℕ → Result HttpResponse TaskError

-- A call of `on_progress`, and a request with its answer.
pub data StageEvent : Type 0 where
  reported : Float → StageEvent
  sent : HttpRequest → StageEvent

-- `thrown`: an exception of `std::stof`.
pub data Ending : Type 0 where
  returned : Status → Ending
  thrown : Ending

pub record StageRun : Type 0 where
  pub events : List StageEvent
  pub context : StageContext
  pub counter : ℕ
  pub ending : Ending

-- The id, and the counter after.
unfoldable pub generate_request_id : (now counter : ℕ) → String × ℕ
unfolding decimal
generate_request_id now counter =
    (concat ("req-" ∷ decimal now ∷ "-" ∷ decimal (suc counter) ∷ []), suc counter)

abbrev pub post_request :
    (url trace_id request_id : String) (timeout : ℕ) (body : String) → HttpRequest
post_request url trace_id request_id timeout body = record {
  method = http_post;
  url = url;
  request_id = request_id;
  headers = ("Content-Type", "application/json") ∷ [];
  body = body;
  trace_id = trace_id;
  timeout = timeout;
}

abbrev pub missing_input : String → String → TaskError
missing_input user_message internal_message =
    full_error pipeline (pos 1) false user_message internal_message []

abbrev pub invalid_response : String → TaskError
invalid_response internal_message =
    full_error pipeline (pos 2) false "Invalid response" internal_message []

unfoldable pub server_error : String → ℤ → TaskError
unfolding int_to_string
server_error stage status =
    full_error network status true "Server error"
      (concat (stage ∷ ": HTTP " ∷ int_to_string status ∷ [])) []

abbrev pub is_200 : ℤ → Bool
is_200 n = leb_ℤ (pos 200) n && leb_ℤ n (pos 200)

-- The return for an empty input: nothing was reported or sent.
abbrev pub refused_input : StageContext → ℕ → TaskError → StageRun
refused_input ctx counter e = record {
  events = [];
  context = ctx;
  counter = counter;
  ending = returned (err e);
}

-- The report before the request, the request, and the returns for an error and for another status.
-- `k` goes on after the second report; the run that it gets ends with the exception, if one is thrown.
unfoldable pub answered :
    String
    → StageContext
    → ℕ
    → HttpRequest
    → (before after : Float) → Result HttpResponse TaskError
    → (StageRun → HttpResponse → StageRun)
    → StageRun
unfolding server_error
answered stage ctx counter request before after (err e) k = record {
  events = reported before ∷ sent request ∷ [];
  context = ctx;
  counter = counter;
  ending = returned (err e);
}
answered stage ctx counter request before after (ok response) k =
    if not (is_200 response.status_code)
    then record {
      events = reported before ∷ sent request ∷ [];
      context = ctx;
      counter = counter;
      ending = returned (err (server_error stage response.status_code));
    }
    else k
        (record {
          events = reported before ∷ sent request ∷ reported after ∷ [];
          context = ctx;
          counter = counter;
          ending = thrown;
        })
        response

-- The last report and the return.
abbrev pub completed : StageRun → StageContext → StageRun
completed run ctx = record run {
  events = run.events ++ reported float_one ∷ [];
  context = ctx;
  ending = returned (ok tt);
}
