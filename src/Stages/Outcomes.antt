-- ===== src/Stages/Outcomes.antt =====
-- How a run of a stage ends: one statement for the four stages.
use stv_renew.Prelude.{
  ◌≡◌, ◌≢◌, refl, sym, ◌∙◌, ap, ℕ, Bool, true, false, String, Option, none, some, is_empty,
  if◌then◌else◌, str_eq,
}
use stv_renew.Prelude.Int.{pos}
use stv_renew.Prelude.Float.{Float, float_lt}
use stv_renew.Prelude.Numbers.{float_ratio}
use stv_renew.Errors.{put, TaskError, ok, err}
use stv_renew.Pipeline.{
  StageContext, Values, Value, get_text, get_int, text, float, int, set_output,
}
use stv_renew.Http.{HttpResponse}
use stv_renew.Stages.{
  StageKind, storyboard_stage, image_gen_stage, tts_stage, compose_stage, execute_stage,
}
use stv_renew.Stages.Run.{Client, StageRun, returned, thrown, Ending, completed, invalid_response}
use stv_renew.Stages.Json.{extract_json_string, extract_json_float}
use stv_renew.Stages.Storyboard.{execute_storyboard}
use stv_renew.Stages.ImageGen.{execute_image_gen}
use stv_renew.Stages.Tts.{execute_tts}
use stv_renew.Stages.Compose.{execute_compose}
use stv_renew.Errors.Lookup.{look_up-put_same, look_up-put_other}
use stv_renew.Stages.Finished.{
  needed, Stored, StoredPath, Finished, Continued, gave_up, went_on, checked-Finished,
}

not_empty : (v : String) → is_empty v ≡ false → v ≢ ""
not_empty v full e = absurd (apart (sym full ∙ ap is_empty e))
  where
    apart : false ≡ true → ⊥
    apart e = cc

-- A path that was stored, and another key after it.
stored_path :
    (key other v : String) (x : Value) (m : Values)
    → str_eq other key ≡ false
    → is_empty v ≡ false
    → StoredPath key (put other x (put key (text v) m))
stored_path key other v x m apart full = (
  v,
  not_empty v full,
  look_up-put_other other key x (put key (text v) m) apart ∙ look_up-put_same key (text v) m,
)

thrown_not_ok : {e : Ending} → e ≡ thrown → e ≢ returned (ok tt)
thrown_not_ok h k = cc

error_not_ok : (e : TaskError) → returned (err e) ≢ returned (ok tt)
error_not_ok e h = cc

storyboard_run :
    (client : Client) (base : String) (now counter : ℕ) (ctx : StageContext)
    → Finished storyboard_stage client ctx
        (get_text ctx "story_text" "")
        (execute_storyboard client base now counter ctx)
unfolding execute_storyboard set_output float_ratio float_lt
storyboard_run client base now counter ctx =
    checked-Finished storyboard_stage client ctx (get_text ctx "story_text" "") _ _ _ _ _ _ _ _
      (is_empty (get_text ctx "story_text" "")) refl refl (refl, refl) go_on
  where
    parsed : StageRun → HttpResponse → Option Float → StageRun
    parsed run response none = run
    parsed run response (some total) = completed run (
        set_output
          (set_output (set_output ctx "storyboard_json" (text response.body)) "total_duration"
            (float total))
          "scene_count" (int (get_int ctx "scene_count" (pos 4))))

    by_parse :
        (run : StageRun) (response : HttpResponse) (o : Option Float)
        → run.ending ≡ thrown
        → Continued (Stored storyboard_stage response) run (parsed run response o)
    by_parse run response none h = gave_up run.ending (thrown_not_ok h) refl
    by_parse run response (some total) h =
        went_on _
          (look_up-put_other "scene_count" "storyboard_json" _ _ refl
            ∙ look_up-put_other "total_duration" "storyboard_json" _ _ refl
            ∙ look_up-put_same "storyboard_json" _ ctx.outputs)
          refl

    go_on :
        (run : StageRun) (response : HttpResponse)
        → run.ending ≡ thrown
        → Continued
            (Stored storyboard_stage response)
            run
            (parsed run response (extract_json_float response.body "total_duration"))
    go_on run response = by_parse run response _

image_gen_run :
    (client : Client) (base : String) (now counter : ℕ) (ctx : StageContext)
    → Finished image_gen_stage client ctx
        (get_text ctx "prompt" "")
        (execute_image_gen client base now counter ctx)
unfolding execute_image_gen set_output float_ratio float_lt
image_gen_run client base now counter ctx =
    checked-Finished image_gen_stage client ctx (get_text ctx "prompt" "") _ _ _ _ _ _ _ _
      (is_empty (get_text ctx "prompt" "")) refl refl (refl, refl)
      (λ run response h. by_path run response _ _ _ refl)
  where
    by_path :
        (run : StageRun) (response : HttpResponse) (path : String) (e : TaskError) (empty : Bool)
        → is_empty path ≡ empty
        → Continued (Stored image_gen_stage response) run (
            if empty
            then record run { ending = returned (err e) }
            else completed run (set_output ctx "image_path" (text path)))
    by_path run response path e true h = gave_up _ (error_not_ok e) refl
    by_path run response path e false h =
        went_on _ (path, not_empty path h, look_up-put_same "image_path" (text path) ctx.outputs)
          refl

-- What `tts` and `compose` do with a good answer.
path_and_duration :
    (ctx : StageContext) (run : StageRun) (key path : String) (e : TaskError) (o : Option Float)
    (empty : Bool)
    → str_eq "duration_seconds" key ≡ false
    → is_empty path ≡ empty
    → run.ending ≡ thrown
    → Continued (StoredPath key) run (elim o [
      | none ↦ run
      | some duration ↦
          if empty
          then record run { ending = returned (err e) }
          else completed run
              (set_output (set_output ctx key (text path)) "duration_seconds" (float duration))
    ])
unfolding set_output
path_and_duration ctx run key path e none empty apart h t =
    gave_up run.ending (thrown_not_ok t) refl
path_and_duration ctx run key path e (some duration) true apart h t =
    gave_up _ (error_not_ok e) refl
path_and_duration ctx run key path e (some duration) false apart h t =
    went_on _ (stored_path key "duration_seconds" path (float duration) ctx.outputs apart h) refl

tts_run :
    (client : Client) (base : String) (now counter : ℕ) (ctx : StageContext)
    → Finished tts_stage client ctx
        (get_text ctx "text" "")
        (execute_tts client base now counter ctx)
unfolding execute_tts float_ratio float_lt
tts_run client base now counter ctx =
    checked-Finished tts_stage client ctx (get_text ctx "text" "") _ _ _ _ _ _ _ _
      (is_empty (get_text ctx "text" "")) refl refl (refl, refl)
      (λ run response h.
        path_and_duration ctx run "audio_path" (extract_json_string response.body "audio_path")
          (invalid_response "TtsStage: missing audio_path in response")
          (extract_json_float response.body "duration_seconds") _ refl refl h)

compose_run :
    (client : Client) (base : String) (now counter : ℕ) (ctx : StageContext)
    → Finished compose_stage client ctx
        (get_text ctx "scenes_json" "")
        (execute_compose client base now counter ctx)
unfolding execute_compose float_ratio float_lt
compose_run client base now counter ctx =
    checked-Finished compose_stage client ctx (get_text ctx "scenes_json" "") _ _ _ _ _ _ _ _
      (is_empty (get_text ctx "scenes_json" "")) refl refl (refl, refl)
      (λ run response h.
        path_and_duration ctx run "video_path" (extract_json_string response.body "video_path")
          (invalid_response "ComposeStage: missing video_path in response")
          (extract_json_float response.body "duration_seconds") _ refl refl h)

pub execute_stage-Finished :
    (kind : StageKind) (client : Client) (base : String) (now counter : ℕ) (ctx : StageContext)
    → Finished kind client ctx
        (get_text ctx (needed kind) "")
        (execute_stage kind client base now counter ctx)
unfolding execute_stage
execute_stage-Finished storyboard_stage client base now counter ctx =
    storyboard_run client base now counter ctx
execute_stage-Finished image_gen_stage client base now counter ctx =
    image_gen_run client base now counter ctx
execute_stage-Finished tts_stage client base now counter ctx = tts_run client base now counter ctx
execute_stage-Finished compose_stage client base now counter ctx =
    compose_run client base now counter ctx
