-- ===== src/Pipeline/Examples.antt =====
-- Inputs for the theorems about the mock stages, and tests.
use stv_renew.Prelude.{◌≡◌, ◌⊎◌, refl, false, ◌==◌, some, [], ◌∷◌}
use stv_renew.Prelude.Int.{pos}
use stv_renew.Prelude.Numbers.{float_ratio}
use stv_renew.Errors.{look_up}
use stv_renew.Pipeline.{StageContext, int, text, texts}
use stv_renew.Pipeline.Mock.{mock_storyboard, mock_image_gen, execute_mock}
use stv_renew.Pipeline.Progress.{RanThrough, RanUntil, stops, execute_mock-Ran}

abbrev context : StageContext
context = record {
  trace_id = "w";
  cancel_token = some 0;
  inputs = ("scene_count", int (pos 2)) ∷ [];
  outputs = [];
}

execute_mock-Ran_example :
    RanThrough mock_image_gen
      (stops (some 0) (λ i. i == 1))
      (execute_mock mock_image_gen (λ i. i == 1) context)
    ⊎ RanUntil mock_image_gen context
        (stops (some 0) (λ i. i == 1))
        (execute_mock mock_image_gen (λ i. i == 1) context)
execute_mock-Ran_example = execute_mock-Ran mock_image_gen (λ i. i == 1) context

program : Unit {0}
unfolding execute_mock look_up
program = tt

stopped_at_second :
    (execute_mock mock_image_gen (λ i. i == 1) context).loop.reports ≡ float_ratio 1 3 ∷ []
unfolding program
stopped_at_second = refl

two_scenes :
    (execute_mock mock_storyboard (λ i. false) context).context.outputs
    ≡ ("scenes", texts ("mock_scene_prompt_1" ∷ "mock_scene_prompt_2" ∷ []))
      ∷ ("storyboard_json", text "{\"scenes\": [\"mock\"]}")
      ∷ []
unfolding program
two_scenes = refl
