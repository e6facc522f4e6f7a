-- ===== src/Stages.antt =====
-- infra/src/stages.cpp, infra/include/infra/stage_factory.h: the stages that call the server. `Json`
-- has the search for a field, `Storyboard`, `ImageGen`, `Tts` and `Compose` one stage each. The HTTP
-- client, the clock and the counter of the request ids are parameters of a run; what the stage does
-- is recorded: the progress it reports and the requests it sends.
pub mod Run
pub mod Json
pub mod Storyboard
pub mod ImageGen
pub mod Tts
pub mod Compose
pub mod Fields
pub mod Finished
pub mod Outcomes
pub mod Inputs
mod Examples
use stv_renew.Prelude.{Option, none, some, String, ℕ}
use stv_renew.Task.{TaskType, storyboard, image_gen, video_clip, tts, compose}
use stv_renew.Pipeline.{StageContext}
use stv_renew.Stages.Run.{Client, StageRun}
use stv_renew.Stages.Storyboard.{execute_storyboard}
use stv_renew.Stages.ImageGen.{execute_image_gen}
use stv_renew.Stages.Tts.{execute_tts}
use stv_renew.Stages.Compose.{execute_compose}

-- The four classes.
pub data StageKind : Type 0 where
  storyboard_stage image_gen_stage tts_stage compose_stage : StageKind

-- `StageFactory::create_stage`; `none` for a null pointer.
unfoldable pub create_stage : TaskType → Option StageKind
create_stage storyboard = some storyboard_stage
create_stage image_gen = some image_gen_stage
create_stage tts = some tts_stage
create_stage compose = some compose_stage
create_stage video_clip = none

-- The virtual call of `execute`.
unfoldable pub execute_stage :
    StageKind → Client → String → (now counter : ℕ) → StageContext → StageRun
unfolding execute_storyboard execute_image_gen execute_tts execute_compose
execute_stage storyboard_stage = execute_storyboard
execute_stage image_gen_stage = execute_image_gen
execute_stage tts_stage = execute_tts
execute_stage compose_stage = execute_compose
