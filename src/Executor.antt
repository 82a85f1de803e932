-- ===== src/Executor.antt =====
-- patroni/async_executor.py: the classes `CriticalTask` and `AsyncExecutor`. What a method does while
-- it holds a lock is one function here; the text of an action stands for the action.
pub mod Task
pub mod System
pub mod Threads
pub mod Waiting
pub mod Ending
pub mod Overlap
use pennsignals_postgres.Base.{String, Bool, true, false, Option, none, some, is_some}

pub record Executor : Type 0 where
  pub scheduled_action : Option String
  pub is_cancelled : Bool
  pub finish_event : Bool

abbrev pub new_executor : Executor
new_executor = record { scheduled_action = none; is_cancelled = false; finish_event = false }

unfoldable pub busy : Executor → Bool
busy e = is_some e.scheduled_action

abbrev pub place : Option String → String → Executor → Option String × Executor
place (some prev) action e = (some prev, e)
place none action e =
    (none, record { scheduled_action = some action; is_cancelled = false; finish_event = true })

-- The action that was there, which stays, or `none` where the new one takes its place.
unfoldable pub schedule : String → Executor → Option String × Executor
schedule action e = place e.scheduled_action action e

unfoldable pub reset_scheduled_action : Executor → Executor
reset_scheduled_action e = record e { scheduled_action = none }

abbrev pub begin_if : Bool → Executor → Bool × Executor
begin_if true e = (false, e)
begin_if false e = (true, record e { finish_event = false })

-- The first block of `run`: whether the function is called.
unfoldable pub begin_run : Executor → Bool × Executor
begin_run e = begin_if e.is_cancelled e

-- The block under `finally` of `run`; `critical_task` is reset there too.
unfoldable pub end_run : Executor → Executor
unfolding reset_scheduled_action
end_run e = record (reset_scheduled_action e) { finish_event = true }

abbrev pub flag_if : Option String → Executor → Bool × Executor
flag_if none e = (false, e)
flag_if (some a) e = (true, record e { is_cancelled = true })

-- The first block of `cancel`: whether it goes on to wait for the event.
unfoldable pub begin_cancel : Executor → Bool × Executor
begin_cancel e = flag_if e.scheduled_action e
