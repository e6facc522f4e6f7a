-- ===== src/Stages/Storyboard.antt =====
-- infra/src/stages.cpp: `StoryboardStage::execute`.
use stv_renew.Prelude.{ℕ, String, [], ◌∷◌, none, some, concat, is_empty, if◌then◌else◌}
use stv_renew.Prelude.Int.{pos}
use stv_renew.Prelude.Numbers.{float_ratio, float_text, int_to_string}
use stv_renew.Pipeline.{StageContext, text, float, int, get_text, get_float, get_int, set_output}
use stv_renew.Stages.Json.{extract_json_float}
use stv_renew.Stages.Run.{
  Client, StageRun, generate_request_id, post_request, missing_input, refused_input, answered,
  completed,
}

unfoldable pub execute_storyboard : Client → String → (now counter : ℕ) → StageContext → StageRun
unfolding generate_request_id answered extract_json_float float_ratio float_text int_to_string
    get_text get_float get_int set_output
execute_storyboard client base now counter ctx =
    let story_text = get_text ctx "story_text" "" in
    let target_duration = get_float ctx "target_duration" (float_ratio 30 1) in
    let scene_count = get_int ctx "scene_count" (pos 4) in
    let (id, counter') = generate_request_id now counter in
    let body = concat (
      "{\"trace_id\":\""
      ∷ ctx.trace_id
      ∷ "\",\"request_id\":\""
      ∷ id
      ∷ "\",\"story_text\":\""
      ∷ story_text
      ∷ "\",\"target_duration\":"
      ∷ float_text target_duration
      ∷ ",\"scene_count\":"
      ∷ int_to_string scene_count
      ∷ "}"
      ∷ []) in
    let request = post_request (concat (base ∷ "/v1/storyboard" ∷ [])) ctx.trace_id id 30000 body in
    if is_empty story_text
    then refused_input ctx counter
        (missing_input "Missing story_text" "StoryboardStage: story_text is empty")
    else answered "StoryboardStage" ctx counter' request (float_ratio 3 10) (float_ratio 8 10)
        (client request ctx.cancel_token)
        (λ run response. elim (extract_json_float response.body "total_duration") [
          | none ↦ run
          | some total_duration ↦ completed run (
              set_output
                (set_output (set_output ctx "storyboard_json" (text response.body)) "total_duration"
                  (float total_duration))
                "scene_count" (int scene_count))
        ])
