-- ===== src/Ha/Safety/Belief.antt =====
-- The time-bound belief to be the leader, and the lock (patroni/ha.py: `acquire_lock`, `update_lock`,
-- `load_cluster_from_dcs`).
use pennsignals_postgres.Base.{
  sym, subst, String, Option, none, some, List, ◌≡◌, refl, Bool, true, false,
}
use pennsignals_postgres.Ha.World.{
  Outcome, ok, raised, exit_request, Event, last_operation, update_leader, watchdog_keepalive,
}
use pennsignals_postgres.Ha.Program.{
  State, Program, pure, gets, modify, raise, invoke, ◌>>=◌, when, catch, rescue, is_exit,
}
use pennsignals_postgres.Ha.Mode.{set_is_leader}
use pennsignals_postgres.Ha.Lock.{acquire_lock, update_lock, operation_to_write}

-- What holds of a result that is returned.
abbrev Returned : {A : Type 0} → (A → State → Type 0) → Outcome A × State → Type 0
Returned q (ok a, t) = q a t
Returned q (raised e, t) = Unit

record Leaves {A : Type 0} (m : Program A) (q : A → State → Type 0) : Type 0 where
  pub at : (s : State) → Returned q (m s)

Leaves-after :
    {A B : Type 0} {q : B → State → Type 0} (m : Program A) (f : A → Program B)
    → ((a : A) → Leaves (f a) q)
    → Leaves (m >>= f) q
unfolding ◌>>=◌
Leaves-after {A} {B} {q} m f h = record { at = λ s. ended (m s).0 (m s).1 }
  where
    ended : (o : Outcome A) (t : State) → Returned q (◌>>=◌ (λ _. (o, t)) f t)
    ended (ok a) t = (h a).at t
    ended (raised e) t = tt

-- Without the lock, the node no longer believes to be the leader.
abbrev Humble : Bool → State → Type 0
Humble got t = got ≡ false → t.ha.is_leader_until ≡ 0

-- A program that returns `true` says nothing about the belief.
true_Leaves : Leaves (pure true) Humble
unfolding pure
true_Leaves = record { at = λ s p. cc }

acquired_Leaves : (got : Bool) → Leaves (set_is_leader got >>= λ u. pure got) Humble
unfolding set_is_leader pure modify when ◌>>=◌
acquired_Leaves false = record { at = λ s p. refl }
acquired_Leaves true = Leaves-after _ _ (λ u. true_Leaves)

acquire_lock-Leaves : Leaves acquire_lock Humble
unfolding acquire_lock
acquire_lock-Leaves = Leaves-after _ _ (λ u. Leaves-after _ _ acquired_Leaves)

renewed_Leaves :
    Leaves
      (set_is_leader true >>= λ u.
        when true (invoke watchdog_keepalive >>= λ v. pure true) (pure true))
      Humble
unfolding when
renewed_Leaves = Leaves-after _ _ (λ u. Leaves-after _ _ (λ v. true_Leaves))

updated_Leaves :
    (kept : Bool)
    → Leaves
        (set_is_leader kept >>= λ u.
          when kept (invoke watchdog_keepalive >>= λ v. pure kept) (pure kept))
        Humble
unfolding set_is_leader pure modify when ◌>>=◌
updated_Leaves false = record { at = λ s p. refl }
updated_Leaves true = renewed_Leaves

update_lock-Leaves : (optime : Bool) → Leaves (update_lock optime) Humble
unfolding update_lock
update_lock-Leaves optime =
    Leaves-after _ _ (λ op. Leaves-after _ _ (λ restricted. Leaves-after _ _ updated_Leaves))

told :
    (r : Outcome Bool) (t : State)
    → Returned Humble (r, t)
    → r ≡ ok false
    → t.ha.is_leader_until ≡ 0
told (ok false) t h e = h refl
told (ok true) t h e = cc
told (raised x) t h e = cc

-- A node that is told that it did not get the leader key no longer believes to be the leader.
pub acquire_lock-is_leader_until :
    (s : State) → (acquire_lock s).0 ≡ ok false → (acquire_lock s).1.ha.is_leader_until ≡ 0
acquire_lock-is_leader_until s =
    told (acquire_lock s).0 (acquire_lock s).1 (acquire_lock-Leaves.at s)

-- The store does not renew the key: it says so, or an exception is raised that is no request to exit.
abbrev pub IsRefusal : Outcome Bool → Type 0
IsRefusal (ok kept) = kept ≡ false
IsRefusal (raised e) = is_exit e ≡ false

-- A value, or an exception that is no request to exit.
abbrev pub GoesOn : {A : Type 0} → Outcome A → Type 0
GoesOn (ok a) = Unit
GoesOn (raised e) = is_exit e ≡ false

-- The answer is that the key is lost, and the belief is gone.
abbrev Lost : Outcome Bool × State → Type 0
Lost (r, t) = (r ≡ ok false) × (t.ha.is_leader_until ≡ 0)

-- What follows a reply about the key.
abbrev after_reply : Outcome Bool → Program Bool
after_reply r = rescue (λ t. (r, t)) (pure false) >>= λ ret.
    set_is_leader ret >>= λ u. when ret (invoke watchdog_keepalive >>= λ v. pure ret) (pure ret)

refused_Lost : (r : Outcome Bool) (s : State) → IsRefusal r → Lost (after_reply r s)
unfolding set_is_leader pure modify raise when catch is_exit ◌>>=◌
refused_Lost (ok false) s h = (refl, refl)
refused_Lost (ok true) s h = cc
refused_Lost (raised exit_request) s h = cc
refused_Lost (raised _) s h = (refl, refl)

-- The state in which the program ends, with a value.
abbrev Returns : {A : Type 0} → State → Outcome A × State → Type 0
Returns {A} s x = (a : A) × ((t : List Event) × (x ≡ (ok a, record s { trace = t })))

read_operation :
    (r : Outcome String) (s : State) (t : List Event)
    → GoesOn r
    → Returns s (rescue ((λ u. (r, record s { trace = t })) >>= λ op. pure (some op)) (pure none) s)
unfolding pure raise when catch is_exit ◌>>=◌
read_operation (ok op) s t h = (some op, (t, refl))
read_operation (raised exit_request) s t h = cc
read_operation (raised _) s t h = (none, (t, refl))

operation_to_write-Returns :
    (optime : Bool) (s : State)
    → GoesOn (s.world.answer s.trace last_operation)
    → Returns s (operation_to_write optime s)
unfolding operation_to_write when invoke pure ◌>>=◌ catch
operation_to_write-Returns false s h = (none, (s.trace, refl))
operation_to_write-Returns true s h = read_operation (s.world.answer s.trace last_operation) s _ h

renew : Option String → Program Bool
renew op = gets (λ h. h.leader_access_is_restricted) >>= λ restricted.
    rescue (invoke (update_leader op restricted)) (pure false) >>= λ ret.
    set_is_leader ret >>= λ u. when ret (invoke watchdog_keepalive >>= λ v. pure ret) (pure ret)

renew-Lost :
    (op : Option String) (s : State)
    → IsRefusal (s.world.answer s.trace (update_leader op s.ha.leader_access_is_restricted))
    → Lost (renew op s)
unfolding renew gets invoke catch ◌>>=◌
renew-Lost op s h =
    refused_Lost (s.world.answer s.trace (update_leader op s.ha.leader_access_is_restricted)) _ h

-- A node that could not renew the leader key, because the store refuses it or because any exception but a
-- request to exit is raised, is told so, and no longer believes to be the leader. This is so whether or
-- not the last operation could be read, unless reading it raises a request to exit.
pub update_lock-refused :
    (optime : Bool) (s : State)
    → GoesOn (s.world.answer s.trace last_operation)
    → ((t : List Event) (op : Option String) (restricted : Bool)
        → IsRefusal (s.world.answer t (update_leader op restricted)))
    → ((update_lock optime s).0 ≡ ok false) × ((update_lock optime s).1.ha.is_leader_until ≡ 0)
unfolding update_lock renew ◌>>=◌
update_lock-refused optime s g h =
    let (op, (t, e)) = operation_to_write-Returns optime s g in
    subst (λ x. Lost (◌>>=◌ (λ _. x) renew s)) (sym e)
      (renew-Lost op (record s { trace = t }) (h t op _))
