-- ===== src/Executor/Task.antt =====
-- patroni/async_executor.py: the class `CriticalTask`, whose methods are called under its lock.
use pennsignals_postgres.Base.{Bool, true, false, Option, none, some}

pub record CriticalTask (A : Type 0) : Type 0 where
  pub is_cancelled : Bool
  pub result : Option A

module _ {A : Type 0} where
  unfoldable pub reset : CriticalTask A → CriticalTask A
  reset t = record { is_cancelled = false; result = none }

  abbrev cancel_if : Option A → CriticalTask A → Bool × CriticalTask A
  cancel_if (some r) t = (false, t)
  cancel_if none t = (true, record t { is_cancelled = true })

  unfoldable pub cancel : CriticalTask A → Bool × CriticalTask A
  cancel t = cancel_if t.result t

  -- The result `None` leaves the task as one that has not run.
  unfoldable pub complete : Option A → CriticalTask A → CriticalTask A
  complete r t = record t { result = r }
