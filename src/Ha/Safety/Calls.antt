-- ===== src/Ha/Safety/Calls.antt =====
-- Which calls request a promotion, and which take, renew or give up the leader key.
use pennsignals_postgres.Base.{◌⊎◌, ◌≡◌, refl, Bool, true, false, List, [], ◌∷◌}
use pennsignals_postgres.Ha.World.{
  Outcome, ok, raised, promote_task, Call, attempt_to_acquire_leader, update_leader, delete_leader,
  take_leader, reset_cluster_info_state, start_task, run_task, Reply, Event,
}
use pennsignals_postgres.Ha.Emits.{Grown, same, more, Emits}
use pennsignals_postgres.Ha.Program.{Program}

unfoldable pub is_promotion : Call → Bool
is_promotion (start_task (promote_task _)) = true
is_promotion (run_task (promote_task _)) = true
is_promotion _ = false

-- Whether the key is granted to this node: what the answer to a request for it says. A view of the
-- cluster, which may name another leader, does not count. Every cycle begins without a grant.
unfoldable pub noted : (c : Call) → Outcome (Reply c) → Bool → Bool
noted attempt_to_acquire_leader (ok got) held = got
noted attempt_to_acquire_leader (raised e) held = false
noted (update_leader _ _) (ok kept) held = kept
noted (update_leader _ _) (raised e) held = false
noted (delete_leader _) r held = false
noted take_leader r held = false
noted reset_cluster_info_state r held = false
noted _ r held = held

unfoldable pub is_granted : List Event → Bool
is_granted [] = false
is_granted (e ∷ t) = noted e.call e.answer (is_granted t)

-- Before every request for a promotion in the trace, the newest request about the key was granted.
abbrev pub Justified : List Event → Type 0
Justified [] = Unit
Justified (e ∷ t) = ((is_promotion e.call ≡ false) ⊎ (is_granted t ≡ true)) × Justified t

abbrev pub plain : Call → Bool
plain (start_task (promote_task _)) = false
plain (run_task (promote_task _)) = false
plain _ = true

abbrev pub quiet : Call → Bool
quiet (start_task (promote_task _)) = false
quiet (run_task (promote_task _)) = false
quiet attempt_to_acquire_leader = false
quiet (update_leader _ _) = false
quiet (delete_leader _) = false
quiet take_leader = false
quiet reset_cluster_info_state = false
quiet _ = true

plain_call : (c : Call) → quiet c ≡ true → plain c ≡ true
plain_call (start_task (promote_task _)) q = q
plain_call (run_task (promote_task _)) q = q
plain_call _ q = refl

plain-Grown : {t u : List Event} → Grown quiet t u → Grown plain t u
plain-Grown same = same
plain-Grown (more e h g) = more e (plain_call e.call h) (plain-Grown g)

pub plain_of_quiet : {A : Type 0} (m : Program A) → Emits quiet m → Emits plain m
plain_of_quiet m h = record { at = λ s. plain-Grown (h.at s) }

-- A call that requests no promotion keeps a trace justified.
pub plain-is_promotion : (c : Call) → plain c ≡ true → is_promotion c ≡ false
unfolding is_promotion
plain-is_promotion (start_task (promote_task _)) q = cc
plain-is_promotion (run_task (promote_task _)) q = cc
plain-is_promotion _ q = refl

pub noted-quiet :
    (c : Call) (r : Outcome (Reply c)) (held : Bool) → quiet c ≡ true → noted c r held ≡ held
unfolding noted
noted-quiet attempt_to_acquire_leader r held q = cc
noted-quiet (update_leader _ _) r held q = cc
noted-quiet (delete_leader _) r held q = cc
noted-quiet take_leader r held q = cc
noted-quiet reset_cluster_info_state r held q = cc
noted-quiet _ r held q = refl
