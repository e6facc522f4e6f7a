-- ===== src/Pipeline.antt =====
-- core/include/core/pipeline.h: the context of a stage, and what a scheduler hands to a stage.
pub mod Mock
pub mod Progress
mod Examples
use stv_renew.Prelude.{ℕ, String, List, [], ◌∷◌, Option, some}
use stv_renew.Prelude.Int.{ℤ}
use stv_renew.Prelude.Float.{Float}
use stv_renew.Errors.{put, look_up}

-- `std::any`, over the types that the program stores in a context.
pub data Value : Type 0 where
  int : ℤ → Value
  float : Float → Value
  text : String → Value
  texts : List String → Value

abbrev pub Values : Type 0
Values = List (String × Value)

pub record StageContext : Type 0 where
  pub trace_id : String
  pub cancel_token : Option ℕ
  pub inputs : Values
  pub outputs : Values

-- `get_input<int>`: the default for a missing key, and for a value of another type.
unfoldable pub get_int : StageContext → String → ℤ → ℤ
get_int ctx key default = elim (look_up key ctx.inputs) [ some (int n) ↦ n | _ ↦ default ]

unfoldable pub get_text : StageContext → String → String → String
get_text ctx key default = elim (look_up key ctx.inputs) [ some (text s) ↦ s | _ ↦ default ]

unfoldable pub get_float : StageContext → String → Float → Float
get_float ctx key default = elim (look_up key ctx.inputs) [ some (float x) ↦ x | _ ↦ default ]

unfoldable pub set_output : StageContext → String → Value → StageContext
unfolding put
set_output ctx key v = record ctx { outputs = put key v ctx.outputs }

-- `for (const auto &[key, val] : outputs) ctx.inputs[key] = val;`
unfoldable pub merge : Values → Values → Values
unfolding put
merge into [] = into
merge into ((key, value) ∷ rest) = merge (put key value into) rest

-- What a scheduler hands to `stage->execute`.
pub record Dispatch : Type 0 where
  pub task_id : String
  pub stage : ℕ
  pub context : StageContext
