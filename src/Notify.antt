-- ===== src/Notify.antt =====
-- State events and the callbacks that both schedulers send them to (`IScheduler::StateCallback`,
-- `on_state_change`). A callback is a `std::function`, possibly empty; a call of it is recorded by
-- its number. Callbacks that call back into the scheduler are not modelled.
use stv_renew.Prelude.{ℕ, String, List, [], ◌∷◌, Option, none, some}
use stv_renew.Prelude.Float.{Float}
use stv_renew.Task.{TaskState}

pub record StateEvent : Type 0 where
  pub task_id : String
  pub state : TaskState
  pub progress : Float

-- What a scheduler does to its surroundings, in order: it calls a state callback, or a canceled
-- token calls one of its own callbacks.
pub data Effect : Type 0 where
  notified : (callback : ℕ) → StateEvent → Effect
  token_callback : ℕ → Effect

abbrev pub event : String → TaskState → Float → StateEvent
event id st p = record { task_id = id; state = st; progress = p }

-- `for (auto &cb : callbacks_) if (cb) cb(task_id, state, progress);`
unfoldable pub call_all : List (Option ℕ) → StateEvent → List Effect
call_all [] e = []
call_all (none ∷ cbs) e = call_all cbs e
call_all (some cb ∷ cbs) e = notified cb e ∷ call_all cbs e

abbrev pub token_callbacks : List ℕ → List Effect
token_callbacks [] = []
token_callbacks (n ∷ ns) = token_callback n ∷ token_callbacks ns
