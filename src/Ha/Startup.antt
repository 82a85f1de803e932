-- ===== src/Ha/Startup.antt =====
-- patroni/ha.py: a node whose PostgreSQL starts up or is busy with a long action.
use pennsignals_postgres.Base.{
  ℕ, ◌+◌, ◌-◌, String, ◌<>◌, true, false, not, ◌||◌, Option, none, some, ◌==◌, eqb, leb,
  if◌then◌else◌,
}
use pennsignals_postgres.Base.Text.{decimal_onto}
use pennsignals_postgres.Ha.World.{
  now, postgres_is_running, check_for_startup, time_in_state, get_role, set_state, is_bootstrapping,
  cancel_process, terminate_starting_postmaster, scheduled_action, response_cancel,
  critical_task_cancel,
}
use pennsignals_postgres.Ha.Program.{
  Program, pure, gets, setting, modify, invoke, ◌>>=◌, ◌>>◌, when, given, cluster,
}
use pennsignals_postgres.Ha.Demote.{demote, immediate, immediate_nolock}
use pennsignals_postgres.Ha.Mode.{has_lock, is_paused}
use pennsignals_postgres.Ha.Election.{is_failover_possible}
use pennsignals_postgres.Ha.Manual.{process_manual_failover_from_leader}
use pennsignals_postgres.Ha.Lock.{update_lock}

-- The text of `'{0:.0f}'` for a whole number.
abbrev pub decimal : ℕ → String
decimal n = if eqb n 0 then "0" else decimal_onto 20 n ""

-- A leader that starts up: it keeps the key, and gives up after the timeout.
unfoldable pub starting_leader : Program String
starting_leader = do
  updated ← update_lock false
  when (not updated)
      (do
        demote immediate_nolock
        pure "stopped PostgreSQL while starting up because leader key was lost")
      (do
        own ← gets (λ h. h.start_timeout)
        master_start_timeout ← setting (λ k. k.master_start_timeout)
        spent ← invoke time_in_state
        let timeout : ℕ = elim own [
          | none ↦ master_start_timeout
          | some t ↦ if eqb t 0 then master_start_timeout else t
        ]
        when (leb timeout spent)
            (do
              c ← cluster
              possible ← is_failover_possible c.members
              when possible
                  (do demote immediate; pure "stopped PostgreSQL because of startup timeout")
                  (pure
                    "master start has timed out, but continuing to wait because failover is not possible"))
            (do
              msg ← process_manual_failover_from_leader
              given msg pure (
                  pure (
                    "PostgreSQL is still starting up, "
                    <> (decimal (timeout - spent) <> " seconds until timeout")))))

-- `handle_starting_instance`: a message while a leader starts up.
unfoldable pub handle_starting_instance : Program (Option String)
handle_starting_instance = do
  startup ← invoke check_for_startup
  paused ← is_paused
  when (not startup || paused)
      (do
        modify (λ h. record h { start_timeout = none })
        when paused
            (do
              running ← invoke postgres_is_running
              invoke (set_state (if running then "running" else "stopped")))
            (pure tt)
        pure none)
      (do mine ← has_lock; when mine (do msg ← starting_leader; pure (some msg)) (pure none))

abbrev pub action_text : Option String → String
action_text none = ""
action_text (some a) = a

-- The leader during a long action: crash recovery must not take too long.
unfoldable pub long_action_of_leader : String → Program String
long_action_of_leader action = do
  timeout ← setting (λ k. k.master_start_timeout)
  started ← gets (λ h. h.crash_recovery_started)
  expired ←
      when (action == "doing crash recovery in a single user mode")
        (do t ← invoke now; pure (leb (started + timeout) t)) (pure false)
  c ← cluster
  possible ← when expired (is_failover_possible c.members) (pure false)
  when possible
      (do
        invoke (cancel_process true)
        demote immediate
        pure "terminated crash recovery because of startup timeout")
      (pure ("updated leader lock during " <> action))

-- Without the key no promotion or start of a master goes on in the background.
unfoldable pub stop_long_action : String → Program (Option String)
stop_long_action action = do
  cancelled ← when (action == "promote") (invoke response_cancel) (pure false)
  when cancelled (do invoke (cancel_process false); pure (some "lost leader before promote"))
      (do
        role ← invoke get_role
        when (role == "master")
            (do
              when (action == "restart")
                  (do
                    free ← invoke critical_task_cancel
                    when free (pure tt) (invoke terminate_starting_postmaster))
                  (pure tt)
              demote immediate_nolock
              pure (some ("lost leader lock during " <> action)))
            (pure none))

unfoldable pub handle_long_action_in_progress : Program String
handle_long_action_in_progress = do
  mine ← has_lock
  updated ← when mine (update_lock false) (pure false)
  found ← invoke scheduled_action
  when updated (long_action_of_leader (action_text found)) (do
    bootstrapping ← invoke is_bootstrapping
    paused ← is_paused
    msg ← when (bootstrapping || paused) (pure none) (stop_long_action (action_text found))
    given msg pure (pure (action_text found <> " in progress")))
