-- ===== src/Stages/Compose.antt =====
-- infra/src/stages.cpp: `ComposeStage::execute`.
use stv_renew.Prelude.{ℕ, String, [], ◌∷◌, none, some, concat, is_empty, if◌then◌else◌}
use stv_renew.Prelude.Numbers.{float_ratio, float_text}
use stv_renew.Errors.{err}
use stv_renew.Pipeline.{StageContext, text, float, get_text, get_float, set_output}
use stv_renew.Stages.Json.{extract_json_string, extract_json_float}
use stv_renew.Stages.Run.{
  Client, StageRun, returned, generate_request_id, post_request, missing_input, invalid_response,
  refused_input, answered, completed,
}

unfoldable pub execute_compose : Client → String → (now counter : ℕ) → StageContext → StageRun
unfolding generate_request_id answered extract_json_string extract_json_float float_ratio float_text
    get_text get_float set_output
execute_compose client base now counter ctx =
    let scenes_json = get_text ctx "scenes_json" "" in
    let output_path = get_text ctx "output_path" "/tmp/output.mp4" in
    let (id, counter') = generate_request_id now counter in
    let body = concat (
      "{\"trace_id\":\"" ∷ ctx.trace_id ∷ "\",\"request_id\":\"" ∷ id ∷ "\",\"scenes\":"
      ∷ scenes_json ∷ ",\"output_path\":\"" ∷ output_path ∷ "\",\"fps\":24}" ∷ []) in
    let request = post_request (concat (base ∷ "/v1/compose" ∷ [])) ctx.trace_id id 300000 body in
    if is_empty scenes_json
    then refused_input ctx counter
        (missing_input "Missing scenes" "ComposeStage: scenes_json is empty")
    else answered "ComposeStage" ctx counter' request (float_ratio 2 10) (float_ratio 9 10)
        (client request ctx.cancel_token)
        (λ run response.
          let video_path = extract_json_string response.body "video_path" in
          elim (extract_json_float response.body "duration_seconds") [
            | none ↦ run
            | some duration ↦
                if is_empty video_path
                then record run {
                  ending =
                      returned
                        (err (invalid_response "ComposeStage: missing video_path in response"));
                }
                else completed run (
                    set_output (set_output ctx "video_path" (text video_path)) "duration_seconds"
                      (float duration))
          ])
