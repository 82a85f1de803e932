-- ===== src/Watchdog/Linux.antt =====
-- patroni/watchdog/linux.py: the class `LinuxWatchdogDevice`. The calls to the system are a
-- parameter; a state of the system is a value of the type `K`.
use pennsignals_postgres.Base.{
  ℕ, ◌/◌, ◌%◌, String, Bool, true, false, ◌&&◌, Option, none, some, ◌≡◌, eqb, is_some,
  if◌then◌else◌,
}
use pennsignals_postgres.Base.Int.{ℤ, pos, ltb_ℤ}
use pennsignals_postgres.Base.Fallible.{Result, Method, done, threw}
use pennsignals_postgres.Watchdog.Device.{Device, Fault, watchdog_error, type_error}

-- `none` and `false` are an `OSError`.
pub record Kernel (K : Type 0) : Type 0 where
  pub os_open : String → K → Option ℕ × K
  pub os_write : ℕ → String → K → Bool × K
  pub os_close : ℕ → K → Bool × K
  -- The options of `WDIOC_GETSUPPORT`.
  pub ioctl_support : ℕ → K → Option ℕ × K
  pub ioctl_set_timeout : ℕ → ℤ → K → Bool × K
  pub ioctl_get_timeout : ℕ → K → Option ℤ × K
  -- The device exists and may be written to.
  pub is_writable : String → K → Bool

-- The documented behaviour of the watchdog driver: the timeout that it tells is the one in effect, and
-- asking for it or for the options changes nothing of it.
pub record KernelLaws {K : Type 0} (k : Kernel K) : Type 0 where
  pub limit : K → ℤ
  pub told :
      (fd : ℕ) (s : K) (t : ℤ)
      → (k.ioctl_get_timeout fd s).0 ≡ some t
      → limit (k.ioctl_get_timeout fd s).1 ≡ t
  pub support_limit : (fd : ℕ) (s : K) → limit (k.ioctl_support fd s).1 ≡ limit s

pub record LinuxWatchdogDevice (K : Type 0) : Type 0 where
  pub path : String
  pub support_cache : Option ℕ
  pub fd : Option ℕ
  pub kernel : K

module _ {K : Type 0} (k : Kernel K) where
  abbrev pub Linux : Type 0
  Linux = LinuxWatchdogDevice K

  -- A failed call becomes a `WatchdogError`.
  abbrev pub checked : {A : Type 0} → (d : Linux) → Option A × K → Result Fault A × Linux
  checked d (none, s) = (threw watchdog_error, record d { kernel = s })
  checked d (some a, s) = (done a, record d { kernel = s })

  abbrev pub checked_flag : (d : Linux) → Bool × K → Result Fault (Unit {0}) × Linux
  checked_flag d (false, s) = (threw watchdog_error, record d { kernel = s })
  checked_flag d (true, s) = (done tt, record d { kernel = s })

  abbrev pub opened : (d : Linux) → Option ℕ × K → Result Fault (Unit {0}) × Linux
  opened d (none, s) = (threw watchdog_error, record d { kernel = s })
  opened d (some n, s) = (done tt, record d { fd = some n; kernel = s })

  unfoldable pub open_device : Method Linux Fault (Unit {0})
  open_device d = opened d (k.os_open d.path d.kernel)

  abbrev pub closed : (d : Linux) → Bool × K → Result Fault (Unit {0}) × Linux
  closed d (false, s) = (threw watchdog_error, record d { kernel = s })
  closed d (true, s) = (done tt, record d { fd = none; kernel = s })

  abbrev pub close_after : ℕ → (d : Linux) → Bool × K → Result Fault (Unit {0}) × Linux
  close_after n d (false, s) = (threw watchdog_error, record d { kernel = s })
  close_after n d (true, s) = closed d (k.os_close n s)

  abbrev pub close_fd : Option ℕ → Method Linux Fault (Unit {0})
  close_fd none d = (done tt, d)
  close_fd (some n) d = close_after n d (k.os_write n "V" d.kernel)

  unfoldable pub close : Method Linux Fault (Unit {0})
  close d = close_fd d.fd d

  abbrev pub cache_support : (d : Linux) → Option ℕ × K → Result Fault ℕ × Linux
  cache_support d (none, s) = (threw watchdog_error, record d { kernel = s })
  cache_support d (some o, s) = (done o, record d { support_cache = some o; kernel = s })

  abbrev pub support_of : Option ℕ → Option ℕ → Method Linux Fault ℕ
  support_of (some o) fd d = (done o, d)
  support_of none none d = (threw watchdog_error, d)
  support_of none (some n) d = cache_support d (k.ioctl_support n d.kernel)

  -- The options of the driver, which are asked for once.
  unfoldable pub get_support : Method Linux Fault ℕ
  get_support d = support_of d.support_cache d.fd d

  abbrev pub flag : ℕ → Result Fault ℕ × Linux → Result Fault Bool × Linux
  flag bit (done o, d) = (done (eqb ((o / bit) % 2) 1), d)
  flag bit (threw e, d) = (threw e, d)

  -- `MAGICCLOSE`
  unfoldable pub can_be_disabled : Method Linux Fault Bool
  can_be_disabled d = flag 256 (get_support d)

  -- `SETTIMEOUT`
  unfoldable pub has_set_timeout : Method Linux Fault Bool
  has_set_timeout d = flag 128 (get_support d)

  abbrev write_to : Option ℕ → Method Linux Fault (Unit {0})
  write_to none d = (threw type_error, d)
  write_to (some n) d = checked_flag d (k.os_write n "1" d.kernel)

  -- `os.write(None, ...)` is a `TypeError`.
  unfoldable pub keepalive : Method Linux Fault (Unit {0})
  keepalive d = write_to d.fd d

  abbrev pub send_timeout : Option ℕ → ℤ → Method Linux Fault (Unit {0})
  send_timeout none t d = (threw watchdog_error, d)
  send_timeout (some n) t d = checked_flag d (k.ioctl_set_timeout n t d.kernel)

  unfoldable pub set_timeout : ℤ → Method Linux Fault (Unit {0})
  set_timeout t d =
      if ltb_ℤ (pos 0) t && ltb_ℤ t (pos 65535)
      then send_timeout d.fd t d
      else (threw watchdog_error, d)

  abbrev pub ask_timeout : Option ℕ → Method Linux Fault ℤ
  ask_timeout none d = (threw watchdog_error, d)
  ask_timeout (some n) d = checked d (k.ioctl_get_timeout n d.kernel)

  unfoldable pub get_timeout : Method Linux Fault ℤ
  get_timeout d = ask_timeout d.fd d

  unfoldable pub is_running : Linux → Bool
  is_running d = is_some d.fd

  unfoldable pub is_healthy : Linux → Bool
  is_healthy d = k.is_writable d.path d.kernel

  abbrev pub linux_api : Device Linux
  linux_api = record {
    open_device = open_device;
    close = close;
    keepalive = keepalive;
    get_timeout = get_timeout;
    set_timeout = set_timeout;
    has_set_timeout = has_set_timeout;
    can_be_disabled = can_be_disabled;
    is_running = is_running;
    is_healthy = is_healthy;
  }

-- `from_config`
unfoldable pub from_config : {K : Type 0} → K → Option String → LinuxWatchdogDevice K
from_config s none = record { path = "/dev/watchdog"; support_cache = none; fd = none; kernel = s }
from_config s (some d) = record { path = d; support_cache = none; fd = none; kernel = s }
