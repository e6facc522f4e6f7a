-- ===== src/Stages/Tts.antt =====
-- infra/src/stages.cpp: `TtsStage::execute`.
use stv_renew.Prelude.{ℕ, String, [], ◌∷◌, none, some, concat, is_empty, if◌then◌else◌}
use stv_renew.Prelude.Numbers.{float_ratio, float_text}
use stv_renew.Errors.{err}
use stv_renew.Pipeline.{StageContext, text, float, get_text, get_float, set_output}
use stv_renew.Stages.Json.{extract_json_string, extract_json_float}
use stv_renew.Stages.Run.{
  Client, StageRun, returned, generate_request_id, post_request, missing_input, invalid_response,
  refused_input, answered, completed,
}

unfoldable pub execute_tts : Client → String → (now counter : ℕ) → StageContext → StageRun
unfolding generate_request_id answered extract_json_string extract_json_float float_ratio float_text
    get_text get_float set_output
execute_tts client base now counter ctx =
    let spoken = get_text ctx "text" "" in
    let voice = get_text ctx "voice" "default" in
    let speed = get_float ctx "speed" (float_ratio 1 1) in
    let (id, counter') = generate_request_id now counter in
    let body = concat (
      "{\"trace_id\":\""
      ∷ ctx.trace_id
      ∷ "\",\"request_id\":\""
      ∷ id
      ∷ "\",\"text\":\""
      ∷ spoken
      ∷ "\",\"voice\":\""
      ∷ voice
      ∷ "\",\"speed\":"
      ∷ float_text speed
      ∷ "}"
      ∷ []) in
    let request = post_request (concat (base ∷ "/v1/tts" ∷ [])) ctx.trace_id id 60000 body in
    if is_empty spoken
    then refused_input ctx counter (missing_input "Missing text" "TtsStage: text is empty")
    else answered "TtsStage" ctx counter' request (float_ratio 3 10) (float_ratio 9 10)
        (client request ctx.cancel_token)
        (λ run response.
          let audio_path = extract_json_string response.body "audio_path" in
          elim (extract_json_float response.body "duration_seconds") [
            | none ↦ run
            | some duration ↦
                if is_empty audio_path
                then record run {
                  ending =
                      returned (err (invalid_response "TtsStage: missing audio_path in response"));
                }
                else completed run (
                    set_output (set_output ctx "audio_path" (text audio_path)) "duration_seconds"
                      (float duration))
          ])
