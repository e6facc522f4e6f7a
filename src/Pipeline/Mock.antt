-- ===== src/Pipeline/Mock.antt =====
-- core/src/pipeline.cpp: the mock stages and their factory. `polls i` is what the token answers the
-- i-th time that the stage looks at it. A sleep only adds to the time slept.
use stv_renew.Prelude.{
  ℕ, zero, suc, ◌+◌, Bool, true, false, ◌&&◌, String, List, [], ◌∷◌, Option, concat, decimal,
  if◌then◌else◌,
}
use stv_renew.Prelude.Int.{pos, pos_part}
use stv_renew.Prelude.Float.{Float}
use stv_renew.Prelude.Numbers.{float_ratio, int_to_string}
use stv_renew.Errors.{canceled_error, ok, err, Status}
use stv_renew.Task.{TaskType, storyboard, image_gen, video_clip, tts, compose, has_value}
use stv_renew.Pipeline.{StageContext, text, texts, get_int, set_output}

-- The loop: the values reported, the milliseconds slept, and whether it returned on a canceled token.
pub record MockLoop : Type 0 where
  pub reports : List Float
  pub slept : ℕ
  pub stopped : Bool

unfoldable pub mock_loop : Option ℕ → (ℕ → Bool) → (steps i left : ℕ) → MockLoop
unfolding float_ratio
mock_loop token polls steps i zero = record { reports = []; slept = 0; stopped = false }
mock_loop token polls steps i (suc left) =
    let rest = mock_loop token polls steps (suc i) left in
    if has_value token && polls i
    then record { reports = []; slept = 0; stopped = true }
    else record {
      reports = float_ratio (i + 1) steps ∷ rest.reports;
      slept = 100 + rest.slept;
      stopped = rest.stopped;
    }

pub record MockRun : Type 0 where
  pub loop : MockLoop
  pub context : StageContext
  pub result : Status

-- `scenes`, from the i-th on.
unfoldable pub scene_prompts : ℕ → ℕ → List String
unfolding decimal
scene_prompts i zero = []
scene_prompts i (suc left) =
    concat ("mock_scene_prompt_" ∷ decimal (i + 1) ∷ []) ∷ scene_prompts (suc i) left

abbrev pub ended : MockLoop → StageContext → StageContext → MockRun
ended loop before after =
    if loop.stopped
    then record {
      loop = loop;
      context = before;
      result = err (canceled_error "Operation canceled");
    }
    else record { loop = loop; context = after; result = ok tt }

unfoldable pub execute_mock_storyboard : (ℕ → Bool) → StageContext → MockRun
unfolding mock_loop scene_prompts get_int set_output
execute_mock_storyboard polls ctx =
    let scene_count = get_int ctx "scene_count" (pos 4) in
    ended (mock_loop ctx.cancel_token polls 5 0 5) ctx (
      set_output (set_output ctx "scenes" (texts (scene_prompts 0 (pos_part scene_count))))
        "storyboard_json" (text "{\"scenes\": [\"mock\"]}"))

unfoldable pub execute_mock_image_gen : (ℕ → Bool) → StageContext → MockRun
unfolding mock_loop int_to_string get_int set_output
execute_mock_image_gen polls ctx =
    let scene_index = get_int ctx "scene_index" (pos 0) in
    ended (mock_loop ctx.cancel_token polls 3 0 3) ctx (
      set_output ctx "image_path"
        (text (concat ("/tmp/stv_mock/frame_" ∷ int_to_string scene_index ∷ ".png" ∷ []))))

unfoldable pub execute_mock_compose : (ℕ → Bool) → StageContext → MockRun
unfolding mock_loop set_output
execute_mock_compose polls ctx =
    ended (mock_loop ctx.cancel_token polls 5 0 5) ctx
      (set_output ctx "output_path" (text "/tmp/stv_mock/final_output.mp4"))

pub data MockKind : Type 0 where
  mock_storyboard mock_image_gen mock_compose : MockKind

unfoldable pub create_mock_stage : TaskType → MockKind
create_mock_stage storyboard = mock_storyboard
create_mock_stage image_gen = mock_image_gen
create_mock_stage compose = mock_compose
create_mock_stage tts = mock_storyboard
create_mock_stage video_clip = mock_image_gen

-- The virtual call of `execute`.
unfoldable pub execute_mock : MockKind → (ℕ → Bool) → StageContext → MockRun
unfolding execute_mock_storyboard execute_mock_image_gen execute_mock_compose
execute_mock mock_storyboard = execute_mock_storyboard
execute_mock mock_image_gen = execute_mock_image_gen
execute_mock mock_compose = execute_mock_compose
