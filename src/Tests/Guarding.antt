-- ===== src/Tests/Guarding.antt =====
-- The watchdog at a concrete device.
use pennsignals_postgres.Base.{true, false, none, some, ◌≡◌, refl}
use pennsignals_postgres.Base.Int.{◌-ℤ◌, ℤ, pos}
use pennsignals_postgres.Base.Fallible.{throw, guarded, give, branch, read, change, ◌>>=◌, done}
use pennsignals_postgres.Json.{same_fields, end}
use pennsignals_postgres.Watchdog.Config.{timeout, timing_slack, WatchdogConfig, required, off}
use pennsignals_postgres.Watchdog.Device.{Laws, is_typed}
use pennsignals_postgres.Watchdog.Facade.{
  set_impl, runs, judge, is_unsafe, cannot_stop, set_timeout, asking, activate_configured, Watchdog,
  device, null_watchdog, Platform, activate, reload_config,
}
use pennsignals_postgres.Watchdog.Linux.{
  set_timeout as set_device_timeout, is_running, can_be_disabled, get_timeout, get_support,
  has_set_timeout, open_device, Kernel, KernelLaws, LinuxWatchdogDevice, linux_api, from_config,
}
use pennsignals_postgres.Watchdog.LinuxLaws.{linux_api-Laws}
use pennsignals_postgres.Watchdog.Activation.{IsGuard, activate-IsGuard, activate-is_typed}
use pennsignals_postgres.Watchdog.Reload.{reload_config-refused}

-- A driver that sets the timeout that it is given; the state is that timeout.
abbrev softdog : Kernel ℤ
softdog = record {
  os_open = λ path s. (some 3, s);
  os_write = λ fd text s. (true, s);
  os_close = λ fd s. (true, s);
  ioctl_support = λ fd s. (some 384, s);
  ioctl_set_timeout = λ fd t s. (true, t);
  ioctl_get_timeout = λ fd s. (some s, s);
  is_writable = λ path s. true;
}

softdog_laws : KernelLaws softdog
softdog_laws = record { limit = λ s. s; told = λ fd s t e. cc; support_limit = λ fd s. refl }

abbrev linux : Platform (LinuxWatchdogDevice ℤ)
linux = record {
  api = linux_api softdog;
  is_linux = true;
  linux_device = λ d. from_config (pos 60) none;
  testing_device = λ d. from_config (pos 60) none;
}

softdog_guard : Laws (linux_api softdog)
softdog_guard = (linux_api-Laws softdog softdog_laws).0

abbrev settings : WatchdogConfig
settings = record {
  mode = required;
  ttl = 30;
  loop_wait = 10;
  safety_margin = pos 5;
  driver = "default";
  driver_config = end;
}

abbrev at_rest : Watchdog (LinuxWatchdogDevice ℤ)
at_rest = record {
  config = settings;
  active_config = settings;
  active = false;
  impl = device (from_config (pos 60) none);
}

activated : (activate linux at_rest).0 ≡ done true
unfolding activate set_device_timeout ◌>>=◌ change read branch give guarded throw
    activate_configured timing_slack timeout ◌-ℤ◌ asking open_device set_timeout has_set_timeout
    get_support from_config get_timeout can_be_disabled cannot_stop is_unsafe judge runs set_impl
    is_running
activated = refl

activate-IsGuard_example : IsGuard linux softdog_guard settings (activate linux at_rest).1.impl
activate-IsGuard_example = activate-IsGuard linux softdog_guard at_rest activated refl

activate-is_typed_example : is_typed (activate linux at_rest).0 ≡ true
activate-is_typed_example = activate-is_typed linux softdog_guard at_rest

-- A watchdog that is off, by a configuration that names the same driver.
abbrev turned_off : Watchdog (LinuxWatchdogDevice ℤ)
turned_off = record {
  config = record settings { mode = off };
  active_config = record settings { mode = off };
  active = false;
  impl = null_watchdog;
}

reload_config-refused_example :
    (activate linux (reload_config linux settings turned_off).1).0 ≡ done false
unfolding same_fields
reload_config-refused_example = reload_config-refused linux settings turned_off refl refl refl refl
