-- ===== src/Watchdog/Facade.antt =====
-- patroni/watchdog/base.py: the class `Watchdog`, which manages a device and the changes of its
-- configuration, and the class `NullWatchdog`, the device of a machine without one.
use pennsignals_postgres.Base.{
  Bool, true, false, not, ◌&&◌, ◌||◌, Option, none, some, ◌==◌, if◌then◌else◌,
}
use pennsignals_postgres.Base.Int.{ℤ, pos, ltb_ℤ}
use pennsignals_postgres.Base.Fallible.{
  Method, Result, done, threw, give, throw, read, change, branch, guarded, ◌>>=◌, ◌>>◌,
}
use pennsignals_postgres.Json.{Fields, same_num}
use pennsignals_postgres.Watchdog.Config.{
  WatchdogConfig, is_off, is_required, same_driver, same_config, timeout, timing_slack, is_negative,
}
use pennsignals_postgres.Watchdog.Device.{Device, Fault, watchdog_error, type_error}

pub data Impl (D : Type 0) : Type 0 where
  null_watchdog : Impl D
  device : D → Impl D

pub record Watchdog (D : Type 0) : Type 0 where
  pub config : WatchdogConfig
  pub active_config : WatchdogConfig
  pub active : Bool
  pub impl : Impl D

-- The devices of a platform: the class that drives them, and how it is made of `driver_config`.
pub record Platform (D : Type 0) : Type 0 where
  pub api : Device D
  pub is_linux : Bool
  pub linux_device : Fields → D
  pub testing_device : Fields → D

abbrev pub Acting : Type 0 → Type 0 → Type 0
Acting D A = Method (Watchdog D) Fault A

module _ {D : Type 0} where
  abbrev with_impl : {A : Type 0} → Watchdog D → Result Fault A × D → Result Fault A × Watchdog D
  with_impl w (r, d) = (r, record w { impl = device d })

  -- `self.impl.f(...)`: what `NullWatchdog` does, or what the device does.
  abbrev on_impl : {A : Type 0} → Impl D → Result Fault A → Method D Fault A → Acting D A
  on_impl null_watchdog r f w = (r, w)
  on_impl (device d) r f w = with_impl w (f d)

  unfoldable pub asking : {A : Type 0} → Result Fault A → Method D Fault A → Acting D A
  asking r f w = on_impl w.impl r f w

  unfoldable pub is_null : Impl D → Bool
  is_null null_watchdog = true
  is_null (device d) = false

  unfoldable pub set_impl : Impl D → Acting D (Unit {0})
  set_impl i = change (λ w. record w { impl = i })

module _ {D : Type 0} (p : Platform D) where
  unfoldable pub get_impl : WatchdogConfig → Impl D
  get_impl c =
      if c.driver == "testing"
      then device (p.testing_device c.driver_config)
      else if p.is_linux && c.driver == "default"
      then device (p.linux_device c.driver_config)
      else null_watchdog

  unfoldable pub runs : Impl D → Bool
  runs null_watchdog = false
  runs (device d) = p.api.is_running d

  abbrev pub impl_runs : Acting D Bool
  impl_runs = read (λ w. runs w.impl)

  abbrev impl_disables : Acting D Bool
  impl_disables = asking (done true) p.api.can_be_disabled

  -- `self.impl.is_running and not self.impl.can_be_disabled`
  unfoldable pub cannot_stop : Acting D Bool
  cannot_stop = do
    running ← impl_runs
    branch running (do b ← impl_disables; give (not b)) (give false)

  -- `none` is the `SystemExit` where a watchdog is required on a platform without one.
  unfoldable pub new_watchdog : WatchdogConfig → Option (Watchdog D)
  new_watchdog c =
      let made = get_impl c in
      if is_off c.mode
      then some (record { config = c; active_config = c; active = false; impl = null_watchdog })
      else if is_required c.mode && is_null made
      then none
      else some (record { config = c; active_config = c; active = false; impl = made })

  -- `none` is the `None` of a device that was closed because its timeout is unsafe.
  unfoldable pub set_timeout : Acting D (Option ℤ)
  set_timeout = do
    settable ← asking (done false) p.api.has_set_timeout
    c ← read (λ w. w.config)
    branch settable (asking (threw watchdog_error) (p.api.set_timeout (timeout c))) (give tt)
    actual ← asking (done (pos 1000000000)) p.api.get_timeout
    running ← impl_runs
    branch (running && ltb_ℤ actual (pos c.loop_wait))
        (do
          b ← impl_disables
          branch b (do asking (done tt) p.api.close; set_impl null_watchdog; give none)
              (give (some actual)))
        (give (some actual))

  abbrev pub open_and_set : Acting D (Option ℤ)
  open_and_set = do asking (done tt) p.api.open_device; set_timeout

  abbrev pub replace_failed : Fault → Acting D (Option ℤ)
  replace_failed watchdog_error = do set_impl null_watchdog; give none
  replace_failed type_error = throw type_error

  -- The timeout that was read is bound and a number only where a device was opened.
  abbrev longer_than : Option ℤ → ℤ → Acting D Bool
  longer_than none t = throw type_error
  longer_than (some actual) t = give (ltb_ℤ t actual)

  -- `not self.impl.is_running or actual_timeout > self.config.timeout`
  unfoldable pub is_unsafe : Option ℤ → Acting D Bool
  is_unsafe actual = do
    running ← impl_runs
    c ← read (λ w. w.config)
    branch running (longer_than actual (timeout c)) (give true)

  -- Whether the watchdog counts as configured: a required one must run and be fast enough.
  unfoldable pub judge : Option ℤ → Acting D Bool
  judge actual = do
    refused ← is_unsafe actual
    c ← read (λ w. w.config)
    running ← impl_runs
    branch (refused && is_required c.mode) (give false) (give (running || not (is_required c.mode)))

  unfoldable pub activate_configured : Acting D Bool
  activate_configured = do
    change (λ w. record w { active_config = w.config })
    c ← read (λ w. w.config)
    branch (is_negative (timing_slack c)) (set_impl null_watchdog) (give tt)
    actual ← guarded open_and_set replace_failed
    cannot_stop
    judge actual

  unfoldable pub activate : Acting D Bool
  activate = do change (λ w. record w { active = true }); activate_configured

  -- A `WatchdogError` is only logged.
  abbrev forgive : Fault → Acting D (Unit {0})
  forgive watchdog_error = give tt
  forgive type_error = throw type_error

  unfoldable pub disable_device : Acting D (Unit {0})
  disable_device =
      guarded
        (do
          stuck ← cannot_stop
          branch stuck
              (do
                asking (done tt) p.api.keepalive
                asking (done (pos 1000000000)) p.api.get_timeout
                give tt)
              (give tt)
          asking (done tt) p.api.close)
        forgive

  unfoldable pub disable : Acting D (Unit {0})
  disable = do disable_device; change (λ w. record w { active = false })

  unfoldable pub reload_config : WatchdogConfig → Acting D (Unit {0})
  reload_config c = do
    change (λ w. record w { config = c })
    active ← read (λ w. w.active)
    branch (is_off c.mode)
        (do
          branch active disable_device (give tt)
          change (λ w. record w { active_config = c; impl = null_watchdog }))
        (give tt)
    branch active (give tt) (do
      was ← read (λ w. w.active_config)
      branch (not (same_driver c was)) (set_impl (get_impl c)) (give tt)
      change (λ w. record w { active_config = c }))

  -- The pending configuration of a watchdog that is active; each test reads `active_config` as the
  -- step before it left it.
  abbrev apply_pending : WatchdogConfig → WatchdogConfig → Acting D (Unit {0})
  apply_pending c was = do
    branch (not (is_off c.mode) && is_off was.mode)
        (do set_impl (get_impl c); activate_configured; give tt) (give tt)
    now ← read (λ w. w.active_config)
    branch (not (same_driver c now))
        (do disable_device; set_impl (get_impl c); activate_configured; give tt) (give tt)
    last ← read (λ w. w.active_config)
    branch (same_num (timeout c) (timeout last)) (give tt)
        (asking (threw watchdog_error) (p.api.set_timeout (timeout c)))

  unfoldable pub keepalive : Acting D (Unit {0})
  keepalive =
      guarded
        (do
          active ← read (λ w. w.active)
          branch active (asking (done tt) p.api.keepalive) (give tt)
          c ← read (λ w. w.config)
          was ← read (λ w. w.active_config)
          branch (active && not (same_config c was)) (apply_pending c was) (give tt))
        forgive

  unfoldable pub is_running : Watchdog D → Bool
  is_running w = runs w.impl

  abbrev impl_healthy : Impl D → Bool
  impl_healthy null_watchdog = false
  impl_healthy (device d) = p.api.is_healthy d

  unfoldable pub is_healthy : Watchdog D → Bool
  is_healthy w =
      if is_required w.config.mode
      then not (is_negative (timing_slack w.config)) && impl_healthy w.impl
      else true
