-- ===== src/Stages/Finished.antt =====
-- The ways in which a run of a stage can end, and what the parts that the stages share lead to.
use mathlib.Core.Path.{subst}
use stv_renew.Prelude.{
  ◌≡◌, ◌≢◌, refl, sym, ◌∙◌, ap, inl, inr, ℕ, Bool, true, false, String, [], ◌∷◌, some, is_empty,
  if◌then◌else◌, Bool-cases, eq_iff,
}
use stv_renew.Prelude.Float.{Float, float_one, float_lt}
use stv_renew.Errors.{look_up, TaskError, network, Result, ok, err}
use stv_renew.Pipeline.{StageContext, Values, text}
use stv_renew.Http.{HttpRequest, HttpResponse}
use stv_renew.Stages.{StageKind, storyboard_stage, image_gen_stage, tts_stage, compose_stage}
use stv_renew.Stages.Run.{
  Client, StageRun, reported, sent, returned, thrown, Ending, answered, completed, refused_input,
  server_error, is_200,
}

-- The input that a stage cannot do without.
abbrev pub needed : StageKind → String
needed storyboard_stage = "story_text"
needed image_gen_stage = "prompt"
needed tts_stage = "text"
needed compose_stage = "scenes_json"

-- A run that has not produced anything: it ended with an error or an exception.
abbrev pub Failed : StageRun → StageContext → Type 0
Failed run ctx = (run.context ≡ ctx) × (run.ending ≢ returned (ok tt))

abbrev pub StoredPath : String → Values → Type 0
StoredPath key outputs = (path : String) × (path ≢ "") × (look_up key outputs ≡ some (text path))

-- What a stage that succeeded has stored.
abbrev pub Stored : StageKind → HttpResponse → Values → Type 0
Stored storyboard_stage response outputs =
    look_up "storyboard_json" outputs ≡ some (text response.body)
Stored image_gen_stage response outputs = StoredPath "image_path" outputs
Stored tts_stage response outputs = StoredPath "audio_path" outputs
Stored compose_stage response outputs = StoredPath "video_path" outputs

pub data Finished (kind : StageKind) (client : Client) (ctx : StageContext) (input : String)
    (run : StageRun) : Type 0 where
  no_input :
      (e : TaskError)
      → input ≡ ""
      → run.events ≡ []
      → run.ending ≡ returned (err e)
      → run.context ≡ ctx
      → e.retryable ≡ false
      → Finished kind client ctx input run
  no_answer :
      (r : HttpRequest) (a : Float) (e : TaskError)
      → input ≢ ""
      → client r ctx.cancel_token ≡ err e
      → run.events ≡ reported a ∷ sent r ∷ []
      → run.ending ≡ returned (err e)
      → run.context ≡ ctx
      → Finished kind client ctx input run
  bad_status :
      (r : HttpRequest) (a : Float) (response : HttpResponse) (e : TaskError)
      → input ≢ ""
      → client r ctx.cancel_token ≡ ok response
      → is_200 response.status_code ≡ false
      → run.events ≡ reported a ∷ sent r ∷ []
      → run.ending ≡ returned (err e)
      → (e.category ≡ network) × (e.code ≡ response.status_code) × (e.retryable ≡ true)
      → run.context ≡ ctx
      → Finished kind client ctx input run
  bad_body :
      (r : HttpRequest) (a b : Float) (response : HttpResponse)
      → input ≢ ""
      → client r ctx.cancel_token ≡ ok response
      → is_200 response.status_code ≡ true
      → run.events ≡ reported a ∷ sent r ∷ reported b ∷ []
      → Failed run ctx
      → Finished kind client ctx input run
  success :
      (r : HttpRequest) (a b : Float) (response : HttpResponse)
      → input ≢ ""
      → client r ctx.cancel_token ≡ ok response
      → is_200 response.status_code ≡ true
      → run.events ≡ reported a ∷ sent r ∷ reported b ∷ reported float_one ∷ []
      → (float_lt a b ≡ true) × (float_lt b float_one ≡ true)
      → run.ending ≡ returned (ok tt)
      → Stored kind response run.context.outputs
      → Finished kind client ctx input run

-- What a stage makes of a good answer.
pub data Continued (Good : Values → Type 0) (start run : StageRun) : Type 0 where
  gave_up :
      (e : Ending)
      → e ≢ returned (ok tt)
      → run ≡ record start { ending = e }
      → Continued Good start run
  went_on :
      (ctx : StageContext) → Good ctx.outputs → run ≡ completed start ctx → Continued Good start run

module _ (kind : StageKind) (client : Client) (ctx : StageContext) (input : String)
    (r : HttpRequest) (a b : Float) where
  Continued-Finished :
      (counter : ℕ) (response : HttpResponse) (run : StageRun)
      → input ≢ ""
      → client r ctx.cancel_token ≡ ok response
      → is_200 response.status_code ≡ true
      → (float_lt a b ≡ true) × (float_lt b float_one ≡ true)
      → Continued
          (Stored kind response)
          (record {
            events = reported a ∷ sent r ∷ reported b ∷ [];
            context = ctx;
            counter = counter;
            ending = thrown;
          })
          run
      → Finished kind client ctx input run
  Continued-Finished counter response run given said good rising (gave_up e failed same) =
      bad_body r a b response given said good (ap (λ (x : StageRun). x.events) same) (
        ap (λ (x : StageRun). x.context) same,
        λ h. failed (sym (ap (λ (x : StageRun). x.ending) same) ∙ h),
      )
  Continued-Finished counter response run given said good rising (went_on c stored same) =
      success r a b response given said good (ap (λ (x : StageRun). x.events) same) rising
        (ap (λ (x : StageRun). x.ending) same)
        (subst (λ (x : StageRun). Stored kind response x.context.outputs) (sym same) stored)

  answered-Finished :
      (stage : String) (counter : ℕ) (answer : Result HttpResponse TaskError)
      (k : StageRun → HttpResponse → StageRun)
      → input ≢ ""
      → client r ctx.cancel_token ≡ answer
      → (float_lt a b ≡ true) × (float_lt b float_one ≡ true)
      → ((start : StageRun) (response : HttpResponse)
          → start.ending ≡ thrown
          → Continued (Stored kind response) start (k start response))
      → Finished kind client ctx input (answered stage ctx counter r a b answer k)
  unfolding answered server_error
  answered-Finished stage counter (err e) k given said rising go =
      no_answer r a e given said refl refl refl
  answered-Finished stage counter (ok response) k given said rising go =
      elim (Bool-cases (is_200 response.status_code)) [
        | inr bad ↦
            rw (bad, answered)
              (bad_status r a response _ given said bad refl refl (refl, refl, refl) refl)
        | inl good ↦
            rw (good, answered)
              (Continued-Finished counter response _ given said good rising (go _ response refl))
      ]

  -- A stage looks at its input first.
  pub checked-Finished :
      (stage : String) (start counter : ℕ) (e : TaskError) (k : StageRun → HttpResponse → StageRun)
      (empty : Bool)
      → is_empty input ≡ empty
      → e.retryable ≡ false
      → (float_lt a b ≡ true) × (float_lt b float_one ≡ true)
      → ((run : StageRun) (response : HttpResponse)
          → run.ending ≡ thrown
          → Continued (Stored kind response) run (k run response))
      → Finished kind client ctx input (
          if empty
          then refused_input ctx start e
          else answered stage ctx counter r a b (client r ctx.cancel_token) k)
  checked-Finished stage start counter e k true h once rising go =
      no_input e ((eq_iff input "").0 h) refl refl refl once
  checked-Finished stage start counter e k false h once rising go =
      answered-Finished stage counter (client r ctx.cancel_token) k
        (λ same. absurd (full_not_empty (sym h ∙ ap is_empty same))) refl rising go
    where
      full_not_empty : false ≡ true → ⊥
      full_not_empty e = cc
