-- ===== src/Ha/Safety/Key.antt =====
-- The store's answers about the key (patroni/ha.py: `acquire_lock` and `update_lock`).
use pennsignals_postgres.Base.{inl, refl, String, Bool, false, Option, ◌∷◌}
use pennsignals_postgres.Ha.World.{
  Outcome, ok, raised, exit_request, Call, Reply, attempt_to_acquire_leader, update_leader,
}
use pennsignals_postgres.Ha.Program.{State, pure, raise, when, is_exit, invoke, catch, rescue}
use pennsignals_postgres.Ha.Emits.{emits_rules}
use pennsignals_postgres.Ha.Lock.{acquire_lock, update_lock}
use pennsignals_postgres.Ha.Safety.Calls.{
  plain_of_quiet, noted, is_granted, is_promotion, Justified,
}
use pennsignals_postgres.Ha.Safety.Triple.{
  Ends, Safe, Safe-plain, Safe-quiet, Safe-when, Safe-bind, Safe-pure,
}
use pennsignals_postgres.Ha.Safety.Mode.{set_is_leader-Emits}
use pennsignals_postgres.Ha.Safety.Lock.{operation_to_write-Emits, restrict_for_logical_slots-Emits}

-- What a reply makes of the state.
abbrev answered : State → (c : Call) → Outcome (Reply c) → Outcome (Reply c) × State
answered s c r = (r, record s { trace = record { call = c; answer = r } ∷ s.trace })

acquired :
    (s : State)
    → Justified s.trace
    → (r : Outcome Bool) → Ends (λ got. got) (answered s attempt_to_acquire_leader r)
unfolding is_granted noted is_promotion
acquired s j (ok got) = ((inl refl, j), λ p. p)
acquired s j (raised e) = (inl refl, j)

pub acquire_lock-Safe : (held : Bool) → Safe held acquire_lock (λ got. got)
unfolding acquire_lock invoke
acquire_lock-Safe held =
    Safe-bind _ _ (Safe-plain held _ (plain_of_quiet _ restrict_for_logical_slots-Emits)) (λ u.
      Safe-bind _ _
        (record { at = λ s l. acquired s l.0 (s.world.answer s.trace attempt_to_acquire_leader) })
        (λ got.
          Safe-bind _ _ (Safe-quiet got _ (set_is_leader-Emits got)) (λ v. Safe-pure (λ b. b) got)))

updated :
    (op : Option String) (access : Bool) (s : State)
    → Justified s.trace
    → (r : Outcome Bool)
    → Ends (λ kept. kept) (rescue (λ _. answered s (update_leader op access) r) (pure false) s)
unfolding is_granted noted is_promotion catch pure raise when is_exit
updated op access s j (ok kept) = ((inl refl, j), λ p. p)
updated op access s j (raised exit_request) = (inl refl, j)
updated op access s j (raised _) = ((inl refl, j), λ p. cc)

update_key :
    (op : Option String) (access : Bool)
    → Safe false (rescue (invoke (update_leader op access)) (pure false)) (λ kept. kept)
unfolding invoke catch pure raise when
update_key op access = record {
  at = λ s l. updated op access s l.0 (s.world.answer s.trace (update_leader op access));
}

pub update_lock-Safe : (held optime : Bool) → Safe held (update_lock optime) (λ kept. kept)
unfolding update_lock
update_lock-Safe held optime =
    Safe-bind _ _ (Safe-plain held _ (plain_of_quiet _ (operation_to_write-Emits optime))) (λ op.
      Safe-bind _ _ (Safe-plain false _ (search (emits_rules))) (λ access.
        Safe-bind _ _ (update_key op access) (λ kept.
          Safe-bind _ _ (Safe-quiet kept _ (set_is_leader-Emits kept)) (λ v.
            Safe-when kept _ _
              (Safe-bind _ _ (Safe-quiet kept _ (search (emits_rules)))
                (λ w. Safe-pure (λ b. b) kept))
              (Safe-pure (λ b. b) kept)))))
