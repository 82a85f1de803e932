-- ===== src/Watchdog/Reload.antt =====
-- A watchdog that is turned on by a new configuration (patroni/watchdog/base.py: `reload_config`).
use pennsignals_postgres.Base.{Bool, true, false, ◌≡◌, refl}
use pennsignals_postgres.Base.Fallible.{done, give, read, change, branch, guarded, ◌>>=◌}
use pennsignals_postgres.Watchdog.Config.{
  WatchdogConfig, required, same_driver, is_negative, timing_slack,
}
use pennsignals_postgres.Watchdog.Facade.{
  Watchdog, null_watchdog, Platform, asking, set_impl, runs, cannot_stop, set_timeout, is_unsafe,
  judge, activate_configured, activate, reload_config,
}

module _ {D : Type 0} (p : Platform D) where
  without_device :
      (b : Bool) (w : Watchdog D)
      → w.impl ≡ null_watchdog
      → w.config.mode ≡ required
      → is_negative (timing_slack w.config) ≡ b
      → (activate p w).0 ≡ done false
  unfolding activate activate_configured judge is_unsafe set_timeout cannot_stop runs set_impl
      asking read give change branch guarded ◌>>=◌
  without_device true w i m n = rw (n, m) refl
  without_device false w i m n = rw (n, i, m) refl

  -- A watchdog that was off is not turned on by a configuration that names the same driver: the
  -- device is only made anew for another one, so where the new mode is `required` the next
  -- activation is refused on every platform.
  pub reload_config-refused :
      (c : WatchdogConfig) (w : Watchdog D)
      → w.active ≡ false
      → w.impl ≡ null_watchdog
      → same_driver c w.active_config ≡ true
      → c.mode ≡ required
      → (activate p (reload_config p c w).1).0 ≡ done false
  unfolding reload_config set_impl read give change branch ◌>>=◌
  reload_config-refused c w a i d m =
      rw (m, a, d)
        (without_device _
          (record {
            config = record c { mode = required };
            active_config = record c { mode = required };
            active = false;
            impl = w.impl;
          })
          i refl refl)
