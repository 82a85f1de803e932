-- ===== src/Tests/Cancelling.antt =====
-- A process that is started and cancelled.
use pennsignals_postgres.Base.{true, false, some, [], ◌∷◌, ◌≡◌, refl}
use pennsignals_postgres.Postgresql.Cancellable.{
  Cancellable, new_cancellable, begin_call, begin_cancel, kill_process, begins, cancels, kills, Run,
  here, next,
}
use pennsignals_postgres.Postgresql.CancelLaws.{openings, IsHeeded, Run-openings}

abbrev running_one : Cancellable
running_one = (begin_call (some 7) new_cancellable).1

abbrev cancelled_one : Cancellable
cancelled_one = (begin_cancel true running_one).1

abbrev refused_one : Cancellable
refused_one = (begin_call (some 8) cancelled_one).1

cancelled : Run true new_cancellable cancelled_one
cancelled =
    next (next here (λ e. refl) (begins new_cancellable (some 7))) (λ e. refl)
      (cancels running_one true)

killed_later : Run false cancelled_one (kill_process true (some (9 ∷ [])) refused_one)
killed_later =
    next (next here (λ e. e) (begins cancelled_one (some 8))) (λ e. e)
      (kills refused_one true (some (9 ∷ [])))

in_effect : cancelled_one.is_cancelled ≡ true
unfolding begin_call begin_cancel
in_effect = refl

Run-openings_example :
    (openings (kill_process true (some (9 ∷ [])) refused_one).acts ≡ openings cancelled_one.acts)
    × IsHeeded
        (kill_process true (some (9 ∷ [])) refused_one).process
        true
        (kill_process true (some (9 ∷ [])) refused_one).acts
Run-openings_example = Run-openings cancelled in_effect killed_later
