-- ===== src/Watchdog/Activation.antt =====
-- What an activation leaves behind (patroni/watchdog/base.py: `activate`).
use pennsignals_postgres.Base.{Bool, true, false, Option, none, some, ◌≡◌, refl, sym, ◌∙◌}
use pennsignals_postgres.Base.Int.{ℤ, pos, ltb_ℤ}
use pennsignals_postgres.Base.Fallible.{
  Result, Method, done, threw, give, throw, read, branch, guarded, ◌>>=◌,
}
use pennsignals_postgres.Base.Hoare.{
  Ended, Ensures, give-Ensures, throw-Ensures, read-Ensures, change-Ensures, branch-Ensures,
  then-Ensures, weaken_Ensures, guarded-Ensures, weaken_Ensures,
}
use pennsignals_postgres.Watchdog.Config.{WatchdogConfig, is_required, timeout}
use pennsignals_postgres.Watchdog.Device.{
  Laws, Fault, watchdog_error, type_error, is_typed, is_expected,
}
use pennsignals_postgres.Watchdog.Facade.{
  Watchdog, Impl, null_watchdog, device, Platform, asking, set_impl, runs, cannot_stop, set_timeout,
  replace_failed, open_and_set, is_unsafe, judge, activate_configured, activate,
}

module _ {D : Type 0} (p : Platform D) (laws : Laws p.api) where
  abbrev Same : WatchdogConfig → Watchdog D → Type 0
  Same c w = w.config ≡ c

  abbrev Kept : WatchdogConfig → {A : Type 0} → A → Watchdog D → Type 0
  Kept c a w = w.config ≡ c

  -- An exception is a `WatchdogError`, and leaves the configuration.
  abbrev Typed : WatchdogConfig → Fault → Watchdog D → Type 0
  Typed c e w = (is_expected e ≡ true) × (w.config ≡ c)

  -- A device that is still there is one whose time is what was read.
  abbrev Agrees : Option ℤ → Impl D → Type 0
  Agrees o null_watchdog = Unit
  Agrees none (device d) = true ≡ false
  Agrees (some t) (device d) = laws.limit d ≡ t

  abbrev Told : WatchdogConfig → Option ℤ → Watchdog D → Type 0
  Told c o w = (w.config ≡ c) × Agrees o w.impl

  expects_Typed :
      {A : Type 0} (c : WatchdogConfig) (r : Result Fault A) (w : Watchdog D)
      → is_typed r ≡ true
      → w.config ≡ c
      → Ended (Kept c) (Typed c) (r, w)
  expects_Typed c (done a) w t k = k
  expects_Typed c (threw watchdog_error) w t k = (refl, k)
  expects_Typed c (threw type_error) w t k = cc

  asked_Typed :
      {A : Type 0} (c : WatchdogConfig) (r : Result Fault A) (f : Method D Fault A)
      → is_typed r ≡ true
      → ((d : D) → is_typed (f d).0 ≡ true)
      → (i : Impl D) (w : Watchdog D) → w.config ≡ c
      → Ended (Kept c) (Typed c) (asking r f (record w { impl = i }))
  unfolding asking
  asked_Typed c r f h k null_watchdog w e =
      expects_Typed c r (record w { impl = null_watchdog }) h e
  asked_Typed c r f h k (device d) w e =
      expects_Typed c (f d).0 (record w { impl = device (f d).1 }) (k d) e

  asking-Ensures :
      {A : Type 0} (c : WatchdogConfig) (r : Result Fault A) (f : Method D Fault A)
      → is_typed r ≡ true
      → ((d : D) → is_typed (f d).0 ≡ true)
      → Ensures (Same c) (asking r f) (Kept c) (Typed c)
  asking-Ensures c r f h k = record { at = λ w e. asked_Typed c r f h k w.impl w e }

  read_timeout-Ended :
      (c : WatchdogConfig) (i : Impl D) (w : Watchdog D)
      → w.config ≡ c
      → Ended
          (λ t. Told c (some t))
          (Typed c)
          (asking (done (pos 1000000000)) p.api.get_timeout (record w { impl = i }))
  unfolding asking
  read_timeout-Ended c null_watchdog w e = (e, tt)
  read_timeout-Ended c (device d) w e =
      rest (p.api.get_timeout d).0 (p.api.get_timeout d).1 (laws.get_typed d) (laws.timeout_limit d)
    where
      rest :
          (r : Result Fault ℤ) (d' : D)
          → is_typed r ≡ true
          → ((t : ℤ) → r ≡ done t → laws.limit d' ≡ t)
          → Ended (λ t. Told c (some t)) (Typed c) (r, record w { impl = device d' })
      rest (done t) d' h k = (e, k t refl)
      rest (threw watchdog_error) d' h k = (refl, e)
      rest (threw type_error) d' h k = cc

  disables-Ended :
      (c : WatchdogConfig) (o : Option ℤ) (i : Impl D) (w : Watchdog D)
      → w.config ≡ c
      → Agrees o i
      → Ended
          (λ b. Told c o)
          (Typed c)
          (asking (done true) p.api.can_be_disabled (record w { impl = i }))
  unfolding asking
  disables-Ended c o null_watchdog w e a = (e, tt)
  disables-Ended c none (device d) w e a = cc
  disables-Ended c (some t) (device d) w e a =
      rest (p.api.can_be_disabled d).0 (p.api.can_be_disabled d).1 (laws.disabled_typed d)
        (laws.disabled_limit d)
    where
      rest :
          (r : Result Fault Bool) (d' : D)
          → is_typed r ≡ true
          → laws.limit d' ≡ laws.limit d
          → Ended (λ b. Told c (some t)) (Typed c) (r, record w { impl = device d' })
      rest (done b) d' h k = (e, k ∙ a)
      rest (threw watchdog_error) d' h k = (refl, e)
      rest (threw type_error) d' h k = cc

  disables-Ensures :
      (c : WatchdogConfig) (o : Option ℤ)
      → Ensures (Told c o) (asking (done true) p.api.can_be_disabled) (λ b. Told c o) (Typed c)
  disables-Ensures c o = record { at = λ w k. disables-Ended c o w.impl w k.0 k.1 }

  closed-Ensures :
      (c : WatchdogConfig)
      → Ensures
          (Same c)
          (asking (done tt) p.api.close >>= λ u. set_impl null_watchdog >>= λ v. give none)
          (Told c)
          (Typed c)
  unfolding set_impl
  closed-Ensures c = then-Ensures (asking-Ensures c _ _ refl laws.close_typed) (λ u.
      then-Ensures {R = λ v w. Told c none w} (change-Ensures _ (λ w e. (e, tt)))
        (λ v. give-Ensures none (λ w e. e)))

  set_timeout-Ensures : (c : WatchdogConfig) → Ensures (Same c) (set_timeout p) (Told c) (Typed c)
  unfolding set_timeout
  set_timeout-Ensures c = then-Ensures (asking-Ensures c _ _ refl laws.settable_typed) (λ s.
      then-Ensures {R = Kept c} (read-Ensures _ (λ w e. e)) (λ d.
        then-Ensures {R = Kept c}
          (branch-Ensures s (asking-Ensures c _ _ refl (laws.set_typed _))
            (give-Ensures tt (λ w e. e)))
          (λ u.
            then-Ensures (record { at = λ w e. read_timeout-Ended c w.impl w e })
              (λ t. then-Ensures {R = λ b. Told c (some t)} (read-Ensures _ (λ w e. e)) (λ r.
                branch-Ensures _
                  (then-Ensures (disables-Ensures c (some t)) (λ b.
                    branch-Ensures b (weaken_Ensures (λ w k. k.0) (closed-Ensures c))
                      (give-Ensures (some t) (λ w e. e))))
                  (give-Ensures (some t) (λ w e. e)))))))

  replace_failed-Ensures :
      (c : WatchdogConfig) (e : Fault) → Ensures (Typed c e) (replace_failed p e) (Told c) (Typed c)
  unfolding set_impl
  replace_failed-Ensures c watchdog_error =
      then-Ensures {R = λ v. Told c none} (change-Ensures _ (λ w k. (k.1, tt)))
        (λ v. give-Ensures none (λ w k. k))
  replace_failed-Ensures c type_error = throw-Ensures type_error (λ w k. k)

  prepare-Ensures :
      (c : WatchdogConfig)
      → Ensures (Same c) (guarded (open_and_set p) (replace_failed p)) (Told c) (Typed c)
  prepare-Ensures c =
      guarded-Ensures
        (then-Ensures (asking-Ensures c _ _ refl laws.open_typed) (λ u. set_timeout-Ensures c))
        (replace_failed-Ensures c)

  cannot_stop-Ensures :
      (c : WatchdogConfig) (o : Option ℤ)
      → Ensures (Told c o) (cannot_stop p) (λ b. Told c o) (Typed c)
  unfolding cannot_stop
  cannot_stop-Ensures c o = then-Ensures {R = λ b. Told c o} (read-Ensures _ (λ w k. k)) (λ r.
      branch-Ensures r (then-Ensures (disables-Ensures c o) (λ b. give-Ensures _ (λ w k. k)))
        (give-Ensures false (λ w k. k)))

  -- A device that runs and that resets the machine within the time of the configuration.
  abbrev pub IsGuard : WatchdogConfig → Impl D → Type 0
  IsGuard c null_watchdog = true ≡ false
  IsGuard c (device d) = (p.api.is_running d ≡ true) × (ltb_ℤ (timeout c) (laws.limit d) ≡ false)

  abbrev Judged : WatchdogConfig → Bool → Watchdog D → Type 0
  Judged c b w = b ≡ true → is_required c.mode ≡ true → IsGuard c w.impl

  -- The decision, split on whether a watchdog is required, runs and is fast enough.
  without_any :
      (o : Option ℤ) (b : Bool) (w : Watchdog D)
      → is_required w.config.mode ≡ b
      → Ended (Judged w.config) (Typed w.config) (judge p o (record w { impl = null_watchdog }))
  unfolding judge is_unsafe runs read give branch throw ◌>>=◌
  without_any o true w h = rw h (λ q r. cc)
  without_any o false w h = rw h (λ q r. cc)

  with_one :
      (req run late : Bool) (t : ℤ) (d : D) (w : Watchdog D)
      → is_required w.config.mode ≡ req
      → p.api.is_running d ≡ run
      → ltb_ℤ (timeout w.config) t ≡ late
      → laws.limit d ≡ t
      → Ended (Judged w.config) (Typed w.config) (judge p (some t) (record w { impl = device d }))
  unfolding judge is_unsafe runs read give branch throw ◌>>=◌
  with_one true true true t d w q r l a = rw (r, l, q) (λ x y. cc)
  with_one true true false t d w q r l a = rw (r, l, q) (λ x y. (r, rw a l))
  with_one true false late t d w q r l a = rw (r, q) (λ x y. cc)
  with_one false true true t d w q r l a = rw (r, l, q) (λ x y. cc)
  with_one false true false t d w q r l a = rw (r, l, q) (λ x y. cc)
  with_one false false late t d w q r l a = rw (r, q) (λ x y. cc)

  judged :
      (c : WatchdogConfig) (o : Option ℤ) (i : Impl D) (w : Watchdog D)
      → c ≡ w.config
      → Agrees o i
      → Ended (Judged c) (Typed c) (judge p o (record w { impl = i }))
  judged c o null_watchdog w e a = rw e (without_any o _ w refl)
  judged c none (device d) w e a = cc
  judged c (some t) (device d) w e a = rw e (with_one _ _ _ t d w refl refl refl a)

  judge-Ensures :
      (c : WatchdogConfig) (o : Option ℤ) → Ensures (Told c o) (judge p o) (Judged c) (Typed c)
  judge-Ensures c o = record { at = λ w k. judged c o w.impl w (sym k.0) k.1 }

  activate_configured-Ensures :
      (c : WatchdogConfig) → Ensures (Same c) (activate_configured p) (Judged c) (Typed c)
  unfolding activate_configured set_impl
  activate_configured-Ensures c = then-Ensures {R = Kept c} (change-Ensures _ (λ w e. e)) (λ u.
      then-Ensures {R = Kept c} (read-Ensures _ (λ w e. e)) (λ d.
        then-Ensures {R = Kept c}
          (branch-Ensures _ (change-Ensures _ (λ w e. e)) (give-Ensures tt (λ w e. e)))
          (λ v.
            then-Ensures (prepare-Ensures c)
              (λ o. then-Ensures (cannot_stop-Ensures c o) (λ b. judge-Ensures c o)))))

  activate-Ensures : (c : WatchdogConfig) → Ensures (Same c) (activate p) (Judged c) (Typed c)
  unfolding activate
  activate-Ensures c =
      then-Ensures {R = Kept c} (change-Ensures _ (λ w e. e)) (λ u. activate_configured-Ensures c)

  told_IsGuard :
      (c : WatchdogConfig) (r : Result Fault Bool) (w : Watchdog D)
      → Ended (Judged c) (Typed c) (r, w)
      → r ≡ done true
      → is_required c.mode ≡ true
      → IsGuard c w.impl
  told_IsGuard c (done true) w h e q = h refl q
  told_IsGuard c (done false) w h e q = cc
  told_IsGuard c (threw x) w h e q = cc

  -- Where a watchdog is required and its activation succeeds, a device runs, and it resets the
  -- machine no later than the configuration allows. It is supposed that the device keeps its laws.
  pub activate-IsGuard :
      (w : Watchdog D)
      → (activate p w).0 ≡ done true
      → is_required w.config.mode ≡ true
      → IsGuard w.config (activate p w).1.impl
  activate-IsGuard w =
      told_IsGuard w.config (activate p w).0 (activate p w).1
        ((activate-Ensures w.config).at w refl)

  expected :
      (c : WatchdogConfig) (r : Result Fault Bool) (w : Watchdog D)
      → Ended (Judged c) (Typed c) (r, w)
      → is_typed r ≡ true
  expected c (done b) w h = refl
  expected c (threw e) w h = h.0

  -- An activation never compares a timeout that was not read, whatever the device answers, and
  -- raises nothing but a `WatchdogError`. It is supposed that the device keeps its laws.
  pub activate-is_typed : (w : Watchdog D) → is_typed (activate p w).0 ≡ true
  activate-is_typed w =
      expected w.config (activate p w).0 (activate p w).1 ((activate-Ensures w.config).at w refl)
