-- ===== src/Watchdog/Device.antt =====
-- patroni/watchdog/base.py: the class `WatchdogBase`, what the facade asks of a device. The type `D`
-- holds all that the device's answers depend on, so an operation may change it.
use pennsignals_postgres.Base.{Bool, true, false, ◌≡◌}
use pennsignals_postgres.Base.Int.{ℤ}
use pennsignals_postgres.Base.Fallible.{Method, Result, done, threw}

pub data Fault : Type 0 where
  watchdog_error : Fault
  -- A value of a wrong type, such as the `None` of a device that is not open.
  type_error : Fault

pub record Device (D : Type 0) : Type 0 where
  pub open_device : Method D Fault (Unit {0})
  pub close : Method D Fault (Unit {0})
  pub keepalive : Method D Fault (Unit {0})
  pub get_timeout : Method D Fault ℤ
  pub set_timeout : ℤ → Method D Fault (Unit {0})
  pub has_set_timeout : Method D Fault Bool
  pub can_be_disabled : Method D Fault Bool
  pub is_running : D → Bool
  pub is_healthy : D → Bool

abbrev pub is_expected : Fault → Bool
is_expected watchdog_error = true
is_expected type_error = false

abbrev pub is_typed : {A : Type 0} → Result Fault A → Bool
is_typed (done a) = true
is_typed (threw e) = is_expected e

-- What a device promises: `limit` is the time that it leaves the machine without a keepalive. A device
-- tells it truly, asking changes neither it nor whether the device runs, and a failure to be set up
-- shows as a `WatchdogError`.
pub record Laws {D : Type 0} (v : Device D) : Type 0 where
  pub limit : D → ℤ
  pub timeout_limit : (d : D) (t : ℤ) → (v.get_timeout d).0 ≡ done t → limit (v.get_timeout d).1 ≡ t
  pub disabled_limit : (d : D) → limit (v.can_be_disabled d).1 ≡ limit d
  pub open_typed : (d : D) → is_typed (v.open_device d).0 ≡ true
  pub close_typed : (d : D) → is_typed (v.close d).0 ≡ true
  pub get_typed : (d : D) → is_typed (v.get_timeout d).0 ≡ true
  pub set_typed : (t : ℤ) (d : D) → is_typed (v.set_timeout t d).0 ≡ true
  pub settable_typed : (d : D) → is_typed (v.has_set_timeout d).0 ≡ true
  pub disabled_typed : (d : D) → is_typed (v.can_be_disabled d).0 ≡ true
