-- ===== src/Stages/ImageGen.antt =====
-- infra/src/stages.cpp: `ImageGenStage::execute`.
use stv_renew.Prelude.{ℕ, String, [], ◌∷◌, concat, is_empty, if◌then◌else◌}
use stv_renew.Prelude.Int.{pos}
use stv_renew.Prelude.Numbers.{float_ratio, int_to_string}
use stv_renew.Errors.{err}
use stv_renew.Pipeline.{StageContext, text, get_text, get_int, set_output}
use stv_renew.Stages.Json.{extract_json_string}
use stv_renew.Stages.Run.{
  Client, StageRun, returned, generate_request_id, post_request, missing_input, invalid_response,
  refused_input, answered, completed,
}

unfoldable pub execute_image_gen : Client → String → (now counter : ℕ) → StageContext → StageRun
unfolding generate_request_id answered extract_json_string float_ratio int_to_string get_text
    get_int set_output
execute_image_gen client base now counter ctx =
    let prompt = get_text ctx "prompt" "" in
    let width = get_int ctx "width" (pos 512) in
    let height = get_int ctx "height" (pos 512) in
    let steps = get_int ctx "num_inference_steps" (pos 20) in
    let (id, counter') = generate_request_id now counter in
    let body = concat (
      "{\"trace_id\":\""
      ∷ ctx.trace_id
      ∷ "\",\"request_id\":\""
      ∷ id
      ∷ "\",\"prompt\":\""
      ∷ prompt
      ∷ "\",\"width\":"
      ∷ int_to_string width
      ∷ ",\"height\":"
      ∷ int_to_string height
      ∷ ",\"num_inference_steps\":"
      ∷ int_to_string steps
      ∷ "}"
      ∷ []) in
    let request = post_request (concat (base ∷ "/v1/imagegen" ∷ [])) ctx.trace_id id 120000 body in
    if is_empty prompt
    then refused_input ctx counter (missing_input "Missing prompt" "ImageGenStage: prompt is empty")
    else answered "ImageGenStage" ctx counter' request (float_ratio 2 10) (float_ratio 9 10)
        (client request ctx.cancel_token)
        (λ run response.
          let image_path = extract_json_string response.body "image_path" in
          if is_empty image_path
          then record run {
            ending =
                returned (err (invalid_response "ImageGenStage: missing image_path in response"));
          }
          else completed run (set_output ctx "image_path" (text image_path)))
