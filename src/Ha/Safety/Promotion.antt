-- ===== src/Ha/Safety/Promotion.antt =====
-- The request for a promotion, which needs the key (patroni/ha.py: `enforce_master_role`).
use pennsignals_postgres.Base.{
  inr, String, Bool, true, false, not, is_some, none, some, ◌∷◌, ◌≡◌, refl,
}
use pennsignals_postgres.Ha.World.{Outcome, ok, raised, promote_task, start_task}
use pennsignals_postgres.Ha.Program.{State, invoke}
use pennsignals_postgres.Ha.Emits.{emits_rules}
use pennsignals_postgres.Ha.Demote.{immediate}
use pennsignals_postgres.Ha.Lock.{try_run_async}
use pennsignals_postgres.Ha.Master.{
  request_promotion, require_pre_promote, require_watchdog, take_master_role, enforce_master_role,
}
use pennsignals_postgres.Ha.Safety.Calls.{plain_of_quiet, is_granted, is_promotion, Justified}
use pennsignals_postgres.Ha.Safety.Triple.{
  Ends, Safe, Safe-plain, Safe-quiet, Safe-weaken, Safe-when, Safe-weaken, Safe-bind, Safe-given,
  Safe-given_none, Safe-pure,
}
use pennsignals_postgres.Ha.Safety.Mode.{is_paused-Emits}
use pennsignals_postgres.Ha.Safety.Lock.{
  restrict_for_logical_slots-Emits, release_leader_key_voluntarily-Emits,
}
use pennsignals_postgres.Ha.Safety.Demote.{demote-Emits}
use pennsignals_postgres.Ha.Safety.History.{update_cluster_history-Emits}
use pennsignals_postgres.Ha.Safety.Sync.{process_sync_replication-Emits}
use pennsignals_postgres.Ha.Safety.Master.{claim_sync_state-Emits}
use pennsignals_postgres.Ha.Safety.Invoke.{Emits-postgres_is_leader, Emits-watchdog_activate}

started :
    (access : Bool) (s : State)
    → Justified s.trace
    → is_granted s.trace ≡ true
    → (r : Outcome (Unit {0}))
    → Ends {A = Unit {0}}
        (λ _. false)
        (
          r,
          record s {
            trace = record { call = start_task (promote_task access); answer = r } ∷ s.trace;
          },
        )
unfolding is_promotion
started access s j k (ok u) = ((inr k, j), λ p. cc)
started access s j k (raised e) = (inr k, j)

start_promotion-Safe :
    (access : Bool) → Safe true (invoke (start_task (promote_task access))) (λ _. false)
unfolding invoke
start_promotion-Safe access = record {
  at = λ s l.
      started access s l.0 (l.1 refl) (s.world.answer s.trace (start_task (promote_task access)));
}

try_promotion-Safe :
    (access : Bool) → Safe true (try_run_async "promote" (promote_task access)) (λ _. false)
unfolding try_run_async
try_promotion-Safe access = Safe-bind _ _ (Safe-quiet true _ (search (emits_rules))) (λ prev.
    Safe-given prev _ _ (λ p. Safe-plain true _ (search (emits_rules)))
      (Safe-bind _ _ (start_promotion-Safe access) (λ u. Safe-pure (λ _. false) none)))

request_promotion-Safe : Safe true request_promotion (λ _. false)
unfolding request_promotion
request_promotion-Safe = Safe-bind _ _ (Safe-quiet true _ (search (emits_rules))) (λ role.
    Safe-when _ _ _ (Safe-weaken true _ (Safe-pure (λ _. false) tt)) (
      Safe-bind _ _ (Safe-quiet true _ restrict_for_logical_slots-Emits) (λ u.
        Safe-bind _ _ (Safe-quiet true _ (search (emits_rules))) (λ v.
          Safe-bind _ _ (Safe-quiet true _ (search (emits_rules))) (λ access.
            Safe-bind _ _ (try_promotion-Safe access) (λ w. Safe-pure (λ _. false) tt))))))

take_master_role-Safe :
    (message promote_message : String)
    → Safe true (take_master_role message promote_message) (λ _. false)
unfolding take_master_role
take_master_role-Safe message promote_message =
    Safe-bind _ _ (Safe-quiet true _ (search (emits_rules, Emits-postgres_is_leader))) (λ leads.
      Safe-when leads _ _
        (Safe-plain true _ (
          search (
            emits_rules, plain_of_quiet, process_sync_replication-Emits,
            update_cluster_history-Emits,
          )))
        (Safe-bind _ _ (Safe-quiet true _ (search (emits_rules))) (λ role.
          Safe-when _ _ _
            (Safe-plain true _
              (search (emits_rules, plain_of_quiet, process_sync_replication-Emits)))
            (Safe-bind _ _ (Safe-quiet true _ claim_sync_state-Emits) (λ ours.
              Safe-when ours _ _
                (Safe-bind _ _ request_promotion-Safe (λ u. Safe-pure (λ _. false) promote_message))
                (Safe-plain true _ (search (emits_rules))))))))

-- The refusals of `require_watchdog` and `require_pre_promote`.
require_watchdog-Safe : Safe true require_watchdog (λ m. not (is_some m))
unfolding require_watchdog
require_watchdog-Safe = Safe-bind _ _ (Safe-quiet true _ (search (emits_rules))) (λ running.
    Safe-bind _ _ (Safe-quiet true _ (search (emits_rules, Emits-watchdog_activate))) (λ safe.
      Safe-when safe _ _ (Safe-pure (λ m. not (is_some m)) none) (
        Safe-bind _ _ (Safe-plain true _ (search (emits_rules))) (λ leads.
          Safe-when leads _ _
            (Safe-bind _ _ (Safe-plain false _ (demote-Emits immediate))
              (λ u. Safe-pure (λ m. not (is_some m)) (some _)))
            (Safe-bind _ _ (Safe-plain false _ (release_leader_key_voluntarily-Emits none))
              (λ u. Safe-pure (λ m. not (is_some m)) (some _)))))))

require_pre_promote-Safe : Safe true require_pre_promote (λ m. not (is_some m))
unfolding require_pre_promote
require_pre_promote-Safe = Safe-bind _ _ (Safe-quiet true _ (search (emits_rules))) (λ result.
    Safe-when _ _ _
      (Safe-bind _ _ (Safe-plain true _ (search (emits_rules))) (λ t.
        Safe-bind _ _ (Safe-plain false _ (search (emits_rules))) (λ u.
          Safe-bind _ _ (Safe-plain false _ (release_leader_key_voluntarily-Emits none)) (λ v.
            Safe-bind _ _ (Safe-plain false _ (search (emits_rules)))
              (λ w. Safe-pure (λ m. not (is_some m)) (some _))))))
      (Safe-pure (λ m. not (is_some m)) none))

pub enforce_master_role-Safe :
    (message promote_message : String)
    → Safe true (enforce_master_role message promote_message) (λ _. false)
unfolding enforce_master_role
enforce_master_role-Safe message promote_message =
    Safe-bind _ _ (Safe-quiet true _ is_paused-Emits) (λ paused.
      Safe-bind _ _
        (Safe-when paused _ _ (Safe-pure (λ m. not (is_some m)) none) (
          Safe-bind _ _ require_watchdog-Safe (λ unsafe.
            Safe-given_none unsafe _ _ (λ m. Safe-pure (λ n. not (is_some n)) (some m))
              require_pre_promote-Safe)))
        (λ stop.
          Safe-given_none stop _ _ (λ m. Safe-pure (λ _. false) m)
            (take_master_role-Safe message promote_message)))
