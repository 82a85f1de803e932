-- ===== src/Watchdog/LinuxLaws.antt =====
-- The Linux device keeps the laws on which the facade relies (patroni/watchdog/linux.py).
use pennsignals_postgres.Base.{
  ℕ, Bool, true, false, ◌&&◌, Option, none, some, ◌≡◌, refl, Bool-cases, inl, inr,
}
use pennsignals_postgres.Base.Int.{ℤ, pos, ltb_ℤ}
use pennsignals_postgres.Base.Fallible.{done}
use pennsignals_postgres.Watchdog.Device.{Laws, is_typed}
use pennsignals_postgres.Watchdog.Linux.{
  LinuxWatchdogDevice, Kernel, KernelLaws, Linux, checked, checked_flag, opened, closed,
  close_after, close_fd, cache_support, support_of, flag, send_timeout, ask_timeout, open_device,
  close, get_support, can_be_disabled, has_set_timeout, set_timeout, get_timeout, linux_api,
}

module _ {K : Type 0} (k : Kernel K) where
  checked-is_typed :
      {A : Type 0} (d : Linux k) (r : Option A × K) → is_typed (checked k d r).0 ≡ true
  checked-is_typed d (none, s) = refl
  checked-is_typed d (some a, s) = refl

  flag-is_typed : (d : Linux k) (r : Bool × K) → is_typed (checked_flag k d r).0 ≡ true
  flag-is_typed d (false, s) = refl
  flag-is_typed d (true, s) = refl

  opened-is_typed : (d : Linux k) (r : Option ℕ × K) → is_typed (opened k d r).0 ≡ true
  opened-is_typed d (none, s) = refl
  opened-is_typed d (some n, s) = refl

  closed-is_typed : (d : Linux k) (r : Bool × K) → is_typed (closed k d r).0 ≡ true
  closed-is_typed d (false, s) = refl
  closed-is_typed d (true, s) = refl

  close_after-is_typed :
      (n : ℕ) (d : Linux k) (r : Bool × K) → is_typed (close_after k n d r).0 ≡ true
  close_after-is_typed n d (false, s) = refl
  close_after-is_typed n d (true, s) = closed-is_typed d (k.os_close n s)

  close_fd-is_typed : (o : Option ℕ) (d : Linux k) → is_typed (close_fd k o d).0 ≡ true
  close_fd-is_typed none d = refl
  close_fd-is_typed (some n) d = close_after-is_typed n d (k.os_write n "V" d.kernel)

  cached-is_typed :
      (bit : ℕ) (d : Linux k) (r : Option ℕ × K)
      → is_typed (flag k bit (cache_support k d r)).0 ≡ true
  cached-is_typed bit d (none, s) = refl
  cached-is_typed bit d (some o, s) = refl

  support-is_typed :
      (bit : ℕ) (c fd : Option ℕ) (d : Linux k)
      → is_typed (flag k bit (support_of k c fd d)).0 ≡ true
  support-is_typed bit (some o) fd d = refl
  support-is_typed bit none none d = refl
  support-is_typed bit none (some n) d = cached-is_typed bit d (k.ioctl_support n d.kernel)

  ask-is_typed : (o : Option ℕ) (d : Linux k) → is_typed (ask_timeout k o d).0 ≡ true
  ask-is_typed none d = refl
  ask-is_typed (some n) d = checked-is_typed d (k.ioctl_get_timeout n d.kernel)

  send-is_typed : (o : Option ℕ) (t : ℤ) (d : Linux k) → is_typed (send_timeout k o t d).0 ≡ true
  send-is_typed none t d = refl
  send-is_typed (some n) t d = flag-is_typed d (k.ioctl_set_timeout n t d.kernel)

  set_timeout-is_typed : (t : ℤ) (d : Linux k) → is_typed (set_timeout k t d).0 ≡ true
  unfolding set_timeout
  set_timeout-is_typed t d = elim (Bool-cases (ltb_ℤ (pos 0) t && ltb_ℤ t (pos 65535))) [
    | inl h ↦ rw h (send-is_typed d.fd t d)
    | inr h ↦ rw h refl
  ]

module _ {K : Type 0} (k : Kernel K) (laws : KernelLaws k) where
  checked-limit :
      (d : Linux k) (t : ℤ) (r : Option ℤ × K)
      → ((u : ℤ) → r.0 ≡ some u → laws.limit r.1 ≡ u)
      → (checked k d r).0 ≡ done t
      → laws.limit (checked k d r).1.kernel ≡ t
  checked-limit d t (none, s) h e = cc
  checked-limit d t (some a, s) h e = h t cc

  ask-limit :
      (o : Option ℕ) (d : Linux k) (t : ℤ)
      → (ask_timeout k o d).0 ≡ done t
      → laws.limit (ask_timeout k o d).1.kernel ≡ t
  ask-limit none d t e = cc
  ask-limit (some n) d t e = checked-limit d t _ (laws.told n d.kernel) e

  cached-limit :
      (bit : ℕ) (d : Linux k) (r : Option ℕ × K)
      → laws.limit r.1 ≡ laws.limit d.kernel
      → laws.limit (flag k bit (cache_support k d r)).1.kernel ≡ laws.limit d.kernel
  cached-limit bit d (none, s) h = h
  cached-limit bit d (some o, s) h = h

  support-limit :
      (bit : ℕ) (c fd : Option ℕ) (d : Linux k)
      → laws.limit (flag k bit (support_of k c fd d)).1.kernel ≡ laws.limit d.kernel
  support-limit bit (some o) fd d = refl
  support-limit bit none none d = refl
  support-limit bit none (some n) d = cached-limit bit d _ (laws.support_limit n d.kernel)

  pub linux_api-Laws :
      (l : Laws (linux_api k)) × ((d : LinuxWatchdogDevice K) → l.limit d ≡ laws.limit d.kernel)
  unfolding open_device close get_timeout can_be_disabled has_set_timeout get_support
  linux_api-Laws = (
    record {
      limit = λ d. laws.limit d.kernel;
      timeout_limit = λ d t e. ask-limit d.fd d t e;
      disabled_limit = λ d. support-limit 256 d.support_cache d.fd d;
      open_typed = λ d. opened-is_typed k d (k.os_open d.path d.kernel);
      close_typed = λ d. close_fd-is_typed k d.fd d;
      get_typed = λ d. ask-is_typed k d.fd d;
      set_typed = set_timeout-is_typed k;
      settable_typed = λ d. support-is_typed k 128 d.support_cache d.fd d;
      disabled_typed = λ d. support-is_typed k 256 d.support_cache d.fd d;
    },
    λ d. refl,
  )
