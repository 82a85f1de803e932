-- ===== src/Ha/Safety/Window.antt =====
-- When a scheduled action runs (patroni/ha.py: `should_run_scheduled_action`).
use pennsignals_postgres.Base.{
  ℕ, ◌+◌, ◌*◌, ◌/◌, ◌-◌, ◌≤◌, Bool, true, false, not, ◌≡◌, ◌≢◌, refl, some, ◌∷◌, none, arith, ltb,
  if◌then◌else◌,
}
use pennsignals_postgres.Dcs.{Schedule}
use pennsignals_postgres.Ha.World.{Outcome, ok, raised, now, sleep}
use pennsignals_postgres.Ha.Program.{
  State, Program, pure, gets, setting, invoke, ◌>>=◌, ◌>>◌, when, given,
}
use pennsignals_postgres.Ha.Mode.{check_mode, is_paused}
use pennsignals_postgres.Ha.Manual.{run_when_due, should_run_scheduled_action}

-- What is known of a schedule that is due, by the clock that was read.
abbrev pub Due : Schedule → ℕ → ℕ → Type 0
Due at t loop_wait =
    (at.aware ≡ true) × ((at.instant ≤ t + loop_wait) × (t ≤ at.instant + loop_wait * 3 / 2))

-- A program that never returns `true`.
abbrev Never : Program Bool → Type 0
Never m = (s : State) → (m s).0 ≢ ok true

cleaned-Never : (cleanup_fn : Program (Unit {0})) → Never (cleanup_fn >> pure false)
unfolding pure ◌>>=◌
cleaned-Never cleanup_fn s = ended (cleanup_fn s).0 (cleanup_fn s).1
  where
    ended :
        (o : Outcome (Unit {0})) (t : State) → (◌>>=◌ (λ _. (o, t)) (λ u. pure false) t).0 ≢ ok true
    ended (ok u) t h = cc
    ended (raised e) t h = cc

pure-Never : Never (pure false)
unfolding pure
pure-Never s h = cc

-- Only the last of the guarded branches can return `true`.
last_branch :
    (a b c : Bool) (k l m n : Program Bool) (s : State)
    → Never k
    → Never l
    → Never m
    → (when a k (when b l (when c m n)) s).0 ≡ ok true
    → (a ≡ false) × ((b ≡ false) × (c ≡ false))
unfolding when
last_branch true b c k l m n s nk nl nm h = elim (nk s h) [ ]
last_branch false true c k l m n s nk nl nm h = elim (nl s h) [ ]
last_branch false false true k l m n s nk nl nm h = elim (nm s h) [ ]
last_branch false false false k l m n s nk nl nm h = (refl, (refl, refl))

zoned : (b : Bool) → not b ≡ false → b ≡ true
zoned true h = refl
zoned false h = cc

ltb-le : (a b : ℕ) → ltb a b ≡ false → b ≤ a
ltb-le a b h = ground arith

run_when_due-Due :
    (at : Schedule) (cleanup_fn : Program (Unit {0})) (s : State) (t : ℕ)
    → s.world.answer s.trace now ≡ ok t
    → (run_when_due at cleanup_fn s).0 ≡ ok true
    → Due at t s.world.settings.loop_wait
unfolding run_when_due setting invoke when ◌>>=◌ pure
run_when_due-Due at cleanup_fn s t e h =
    let g = rw e at h in
    let (a, (b, c)) =
      last_branch (not at.aware) (ltb (t + s.world.settings.loop_wait) at.instant)
        (ltb (at.instant + s.world.settings.loop_wait * 3 / 2) t) (cleanup_fn >> pure false)
        (pure false) (cleanup_fn >> pure false) (invoke (sleep (at.instant - t)) >> pure true)
        (record s { trace = record { call = now; answer = ok t } ∷ s.trace })
        (cleaned-Never cleanup_fn) pure-Never (cleaned-Never cleanup_fn) g in
    (zoned at.aware a, (ltb-le _ _ b, ltb-le _ _ c))

-- A scheduled action that is run carries a time zone and is due by the clock that was read: it is at
-- most one loop_wait ahead, and at most one and a half late.
pub should_run_scheduled_action-Due :
    (at : Schedule) (cleanup_fn : Program (Unit {0})) (s : State) (t : ℕ)
    → s.world.answer s.trace now ≡ ok t
    → (should_run_scheduled_action (some at) cleanup_fn s).0 ≡ ok true
    → Due at t s.world.settings.loop_wait
unfolding should_run_scheduled_action is_paused check_mode gets setting pure given ◌>>=◌
should_run_scheduled_action-Due at cleanup_fn s t e h = unpaused _ h
  where
    unpaused :
        (paused : Bool)
        → (given
            (if paused then none else some at)
            (λ w. run_when_due w cleanup_fn)
            (pure false)
            s).0
          ≡ ok true
        → Due at t s.world.settings.loop_wait
    unpaused true g = cc
    unpaused false g = run_when_due-Due at cleanup_fn s t e g
