-- ===== src/Lib.antt =====
-- The C++ core of stv-renew, a story-to-video client: workflows of tasks that a scheduler runs.
--
-- Parts and how they interact. A workflow is a chain of tasks (core/src/task.cpp) with
-- dependencies. A scheduler (core/src/scheduler.cpp, core/src/thread_pool_scheduler.cpp) keeps
-- them in a table by id, makes a task ready when its dependencies have succeeded, hands its stage
-- (core/include/core/pipeline.h) a context, and tells its callbacks about every change of state.
-- Tasks share cancellation tokens (core/src/cancel_token.cpp) with the stages, and all parts
-- return `Result` with a `TaskError` (core/include/core/result.h, core/include/core/task_error.h).
--
-- Files:
-- - Prelude and its children: Boolean tests, lists, texts, integers, floats, tables with a text
--   key.
-- - Errors: core/include/core/task_error.h and core/include/core/result.h.
-- - Cancel: core/src/cancel_token.cpp. Registry has the histories of a token, Race the window
--   between the flag and the lock in `on_cancel`.
-- - Task: core/include/core/task.h and core/src/task.cpp. Transition has the table of legal
--   transitions, Lifecycle the validity of a task, Progress the clamping, Starting what moves a
--   task out of the waiting states, Active which tasks a worker may hold.
-- - Notify: the events that schedulers send.
-- - Pipeline: core/include/core/pipeline.h, the context of a stage. Mock has the mock stages of
--   core/src/pipeline.cpp, Progress what they report.
-- - Simple: core/src/scheduler.cpp, the class `SimpleScheduler`. `tick` is `tick_begin`, up to the
--   call of the stage with the lock released, and `tick_end`, after it; `Op` lists the calls and
--   `run` composes them in any order. Entries has the table laws, Changes what one call may
--   change, Invariant what all histories keep, Ticks and Idle what a tick starts, Defects the
--   cases where the scheduler strays.
-- - ThreadPool: core/src/thread_pool_scheduler.cpp. Config has the configuration, State the
--   members, Graph the walks along the successor lists, Pick the choice of the next task,
--   Submission and Requests the calls of `IScheduler`, Worker the worker threads, Steps the
--   histories. Every section under the mutex is one operation; threads interleave as the order of
--   `Op`s. Search and Cycles are about the cycle check, Choice about the choice of a task,
--   Starting about the start of a stage and the accounts, Terminal about tasks that have ended,
--   Walks, Reached and Propagation about the cancellation of dependents, Nodes about the node
--   table, Defects about submissions that fail half way. Changes and its children have what one
--   operation may change in the tables of nodes, of running tasks and of edges, Accounts what all
--   histories keep of the running tasks, Outcomes what becomes of a task that has ended, Soundness
--   when a task may begin.
-- - Workflow: core/src/orchestrator.cpp. The scheduler is the interface `Api`, whose calls return
--   the events that reach the engine's callback. Chain has the tasks that a workflow is to submit,
--   Submission what `start_workflow` submits, Completion what the engine counts and reports,
--   Stopping the laws of `cancel` and `SimpleScheduler` as an instance of them.
-- - Http: infra/include/infra/http_client.h and infra/src/http_client.cpp. Codes has the error
--   codes in the details of an error, Retries the loop of `RetryableHttpClient::execute`.
-- - Stages: infra/src/stages.cpp and infra/include/infra/stage_factory.h. Json has the search for a
--   field, Run what the stages share, Storyboard, ImageGen, Tts and Compose one stage each, Finished
--   and Outcomes how a run ends, Fields what is read back, Inputs what the scheduler gives a stage.
-- - Presenter: app/src/presenter.cpp, over Workflow. Members has what a set of a member leaves
--   alone, Starts what a start and a completion do, Busy how long the presenter is busy.
-- - Curl: infra/src/curl_http_client.cpp. InFlight has which requests are registered and what
--   `cancel` hits, Answers what a transfer comes to and how that fits the retries of Http.
-- - Session: infra/src/platform/path_service_unix.cpp, infra/src/token_storage.cpp and
--   app/src/auth_presenter.cpp. Restart has what the token file keeps between two starts.
--
-- State and errors. Each class is a record and each method a function from the state and the
-- arguments to the new state and what is returned. Callbacks and token callbacks are recorded as
-- effects in the order of the calls. Time points are parameters, in milliseconds. A stage is a
-- number that the scheduler only passes on; what it returns is a parameter of the second half of
-- an execution. `int` is an integer without a bound: sums of demands and priorities that overflow
-- are not modelled.
--
-- Fuel. `cycle_search` and `walk` take fuel. A round pops one entry of the stack, and the entries
-- pushed are those given at the start and those of successor lists of ids seen for the first time,
-- so one more than their number is enough. `hex` prints numbers below 2^32, which have at most
-- eight digits. `wait`, the sleep of a backoff, takes one unit of fuel for each slice, and a slice
-- takes at least a millisecond.
--
-- Not modelled: callbacks that call back into the scheduler, blocking on the condition variables
-- (the two sides of a wait are separate operations), the logger, Qt and QML, libcurl and JSON, the
-- settings of infra/include/infra/config.h, the API client and the event stream, whose endpoints
-- are stubs, the job and export presenters, the servers.
pub mod Prelude
pub mod Errors
pub mod Cancel
pub mod Task
pub mod Notify
pub mod Pipeline
pub mod Simple
pub mod ThreadPool
pub mod Workflow
pub mod Http
pub mod Stages
pub mod Presenter
pub mod Curl
pub mod Session
