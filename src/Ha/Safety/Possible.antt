-- ===== src/Ha/Safety/Possible.antt =====
-- When a failover is held to be possible (patroni/ha.py: `is_failover_possible`).
use mathlib.Core.List.{Memᴰ}
use pennsignals_postgres.Base.{
  ◌==◌, not, ◌&&◌, ap, ◌∙◌, arith, ℕ, ◌+◌, ◌≤◌, String, Bool, true, false, Option, some, List, [],
  ◌∷◌, ◌++◌, ◌≡◌, refl, ◌⊎◌, inl, inr, keep, subst, if◌then◌else◌,
}
use pennsignals_postgres.Base.Int.{ltb_ℤ}
use pennsignals_postgres.Json.{Fields, get, num, truthy, is_on}
use pennsignals_postgres.Dcs.{Member, Cluster, nofailover, api_url}
use pennsignals_postgres.Dcs.View
use pennsignals_postgres.Ha.World.{Outcome, ok, raised, other_error, Event, request_status}
use pennsignals_postgres.Ha.Program.{
  State, Program, pure, raise, gets, setting, invoke, ◌>>=◌, given, cluster,
}
use pennsignals_postgres.Ha.Status.{
  MemberStatus, status_of, failover_limitation, is_lagging, to_ask, is_candidate, any_candidate,
}
use pennsignals_postgres.Ha.Mode.{my_name, check_timeline, check_mode, effective_configuration}
use pennsignals_postgres.Ha.Election.{fetch_node_status, fetch_nodes_statuses, is_failover_possible}

-- A member that can be promoted, lags no more than is allowed, and, where timelines are checked, is not on
-- an older one than the cluster.
abbrev pub IsFit : Cluster → ℕ → Bool → MemberStatus → Type 0
IsFit c maximum_lag checks st =
    (st.reachable ≡ true)
    × ((truthy (get "nofailover" st.tags) ≡ false)
        × ((st.watchdog_failed ≡ false)
            × ((c.last_leader_operation ≤ st.wal_position + maximum_lag)
                × (checks ≡ true
                    → (truthy (num st.timeline) ≡ true)
                      × (ltb_ℤ st.timeline (View.timeline c) ≡ false)))))

is_candidate-IsFit :
    (c : Cluster) (lag : ℕ) (checks : Bool) (st : MemberStatus)
    → is_candidate c lag checks st ≡ true
    → IsFit c lag checks st
unfolding is_candidate failover_limitation is_lagging
is_candidate-IsFit c lag checks st h = (
  ground arith,
  (ground arith, (ground arith, (ground arith, λ e. (ground arith, ground arith)))),
)

-- A status of the list that is fit.
abbrev AnyFit : Cluster → ℕ → Bool → List MemberStatus → Type 0
AnyFit c lag checks sts = (st : MemberStatus) × (Memᴰ st sts × IsFit c lag checks st)

any_candidate-AnyFit :
    (c : Cluster) (lag : ℕ) (checks ret : Bool) (sts : List MemberStatus)
    → any_candidate c lag checks ret sts ≡ true
    → (ret ≡ true) ⊎ AnyFit c lag checks sts
unfolding any_candidate
any_candidate-AnyFit c lag checks ret [] h = inl h
any_candidate-AnyFit c lag checks ret (st ∷ sts) h =
    judged (is_candidate c lag checks st) refl
      (any_candidate-AnyFit c lag checks (if is_candidate c lag checks st then true else ret) sts h)
  where
    judged :
        (b : Bool)
        → is_candidate c lag checks st ≡ b
        → ((if b then true else ret) ≡ true) ⊎ AnyFit c lag checks sts
        → (ret ≡ true) ⊎ AnyFit c lag checks (st ∷ sts)
    judged true e k = inr (st, (Memᴰ.head refl, is_candidate-IsFit c lag checks st e))
    judged false e (inl k) = inl k
    judged false e (inr (x, (m, f))) = inr (x, (Memᴰ.tail m, f))

abbrev Asks : Member → Option Fields → Event
Asks m body = record { call = request_status m; answer = ok body }

-- A status is what a member of the list answered.
abbrev Answered : List Member → List Event → MemberStatus → Type 0
Answered ms events st =
    (m : Member) × (Memᴰ m ms
      × ((body : Option Fields) × (Memᴰ (Asks m body) events × (st ≡ status_of m body))))

-- The statuses are answers to the calls by which the trace has grown.
abbrev Fetched : List Member → State → Outcome (List MemberStatus) × State → Type 0
Fetched ms s (ok sts, u) =
    (added : List Event) × ((u.trace ≡ added ++ s.trace)
      × ((st : MemberStatus) → Memᴰ st sts → Answered ms added st))
Fetched ms s (raised e, u) = Unit

abbrev asked : State → Member → Outcome (Option Fields) → State
asked s m r = record s { trace = record { call = request_status m; answer = r } ∷ s.trace }

move_over :
    (e : Event) (added trace : List Event) → added ++ (e ∷ trace) ≡ (added ++ (e ∷ [])) ++ trace
move_over e [] trace = refl
move_over e (x ∷ added) trace = ap (λ l. x ∷ l) (move_over e added trace)

Memᴰ-first : (x e : Event) (added : List Event) → Memᴰ x added → Memᴰ x (added ++ (e ∷ []))
Memᴰ-first x e (y ∷ added) (Memᴰ.head q) = Memᴰ.head q
Memᴰ-first x e (y ∷ added) (Memᴰ.tail k) = Memᴰ.tail (Memᴰ-first x e added k)
Memᴰ-first x e [] k = elim k [ ]

Memᴰ-last : (e : Event) (added : List Event) → Memᴰ e (added ++ (e ∷ []))
Memᴰ-last e [] = Memᴰ.head refl
Memᴰ-last e (y ∷ added) = Memᴰ.tail (Memᴰ-last e added)

gathered :
    (m : Member) (ms : List Member) (s : State) (body : Option Fields)
    (x : Outcome (List MemberStatus) × State)
    → Fetched ms (asked s m (ok body)) x
    → Fetched (m ∷ ms) s (◌>>=◌ (λ _. x) (λ sts. pure (status_of m body ∷ sts)) s)
unfolding pure ◌>>=◌
gathered m ms s body (raised e, u) h = tt
gathered m ms s body (ok sts, u) h =
    (h.0 ++ (Asks m body ∷ []), (h.1.0 ∙ move_over (Asks m body) h.0 s.trace, each))
  where
    each :
        (st : MemberStatus)
        → Memᴰ st (status_of m body ∷ sts)
        → Answered (m ∷ ms) (h.0 ++ (Asks m body ∷ [])) st
    each st (Memᴰ.head e) = (m, (Memᴰ.head refl, (body, (Memᴰ-last (Asks m body) h.0, e))))
    each st (Memᴰ.tail k) =
        let (n, (i, (b, (a, q)))) = h.1.1 st k in
        (n, (Memᴰ.tail i, (b, (Memᴰ-first (Asks n b) (Asks m body) h.0 a, q))))

fetch_nodes_statuses-Fetched :
    (ms : List Member) (s : State) → Fetched ms s (fetch_nodes_statuses ms s)
unfolding fetch_nodes_statuses fetch_node_status invoke pure ◌>>=◌
fetch_nodes_statuses-Fetched [] s = ([], (refl, λ st k. elim k [ ]))
fetch_nodes_statuses-Fetched (m ∷ ms) s =
    replied (λ t. fetch_nodes_statuses-Fetched ms t) (s.world.answer s.trace (request_status m))
  where
    replied :
        ((t : State) → Fetched ms t (fetch_nodes_statuses ms t))
        → (r : Outcome (Option Fields))
        → Fetched (m ∷ ms) s (
            ◌>>=◌
              (◌>>=◌ (λ _. (r, asked s m r)) (λ body. pure (status_of m body)))
              (λ st. fetch_nodes_statuses ms >>= λ sts. pure (st ∷ sts))
              s)
    replied f (raised e) = tt
    replied f (ok body) = gathered m ms s body _ (f (asked s m (ok body)))

keep-Memᴰ :
    (p : Member → Bool) (ms : List Member) (m : Member)
    → Memᴰ m (keep p ms)
    → Memᴰ m ms × (p m ≡ true)
keep-Memᴰ p [] m k = elim k [ ]
keep-Memᴰ p (x ∷ xs) m k = by_test (p x) refl (λ q. keep-Memᴰ p xs m q) k
  where
    by_test :
        (b : Bool)
        → p x ≡ b
        → (Memᴰ m (keep p xs) → Memᴰ m xs × (p m ≡ true))
        → Memᴰ m (if b then x ∷ keep p xs else keep p xs)
        → Memᴰ m (x ∷ xs) × (p m ≡ true)
    by_test true e rest (Memᴰ.head q) = (Memᴰ.head q, ap p q ∙ e)
    by_test true e rest (Memᴰ.tail q) = let (i, t) = rest q in (Memᴰ.tail i, t)
    by_test false e rest q = let (i, t) = rest q in (Memᴰ.tail i, t)

-- Among the calls, another member of a list, one that may be promoted, answered that it is fit.
abbrev pub HasFit : List Member → String → Cluster → ℕ → Bool → List Event → Type 0
HasFit ms me c lag checks trace =
    (m : Member) × (Memᴰ m ms
      × (((m.name == me) ≡ false)
          × ((nofailover m ≡ false)
              × ((body : Option Fields) × (Memᴰ (Asks m body) trace
                    × IsFit c lag checks (status_of m body))))))

-- The calls by which a trace has grown, and what is among them.
abbrev pub HasFitSince :
    List Member → String → Cluster → ℕ → Bool → List Event → List Event → Type 0
HasFitSince ms me c lag checks before trace =
    (added : List Event) × ((trace ≡ added ++ before) × HasFit ms me c lag checks added)

found :
    (ms : List Member) (me : String) (c : Cluster) (lag : ℕ) (checks : Bool) (s t : State)
    (x : Outcome (List MemberStatus) × State)
    → Fetched (to_ask me ms) s x
    → ◌>>=◌ (λ _. x) (λ sts. pure (any_candidate c lag checks false sts)) s ≡ (ok true, t)
    → HasFitSince ms me c lag checks s.trace t.trace
unfolding to_ask pure ◌>>=◌
found ms me c lag checks s t (raised e, u) f h = let q = ap outcome_of h in cc
  where
    outcome_of : Outcome Bool × State → Outcome Bool
    outcome_of y = y.0
found ms me c lag checks s t (ok sts, u) f h =
    subst (HasFitSince ms me c lag checks s.trace) (ap (λ y. y.1.trace) h) (
      f.0,
      (f.1.0, from_fit (any_candidate-AnyFit c lag checks false sts (told (ap (λ y. y.0) h)))),
    )
  where
    told :
        ok (any_candidate c lag checks false sts) ≡ ok true
        → any_candidate c lag checks false sts ≡ true
    told e = cc

    from_fit : (false ≡ true) ⊎ AnyFit c lag checks sts → HasFit ms me c lag checks f.0
    from_fit (inl e) = cc
    from_fit (inr (st, (k, fit))) =
        let (m, (i, (body, (a, e)))) = f.1.1 st k in
        let (j, p) =
          keep-Memᴰ (λ m. not (m.name == me) && (not (nofailover m) && truthy (api_url m))) ms m
            i in
        (m, (j, (ground arith, (ground arith, (body, (a, subst (IsFit c lag checks) e fit))))))

abbrev judge_members : List Member → Cluster → Program Bool
judge_members ms c = my_name >>= λ me. setting (λ k. k.maximum_lag_on_failover) >>= λ lag.
    check_timeline >>= λ checks. fetch_nodes_statuses (to_ask me ms) >>= λ statuses.
    pure (any_candidate c lag checks false statuses)

-- A failover is held to be possible only if another member of the list, which may be promoted, answered
-- in this very check that it can be: it is reached, has no tag against it and no failed watchdog, lags no
-- more than is allowed behind the last position of the leader, and, if timelines are to be checked, tells
-- its own, which is not older than that of the cluster.
pub is_failover_possible-HasFit :
    (ms : List Member) (c : Cluster) (s t : State)
    → s.ha.cluster ≡ some c
    → is_failover_possible ms s ≡ (ok true, t)
    → HasFitSince ms s.world.settings.name c s.world.settings.maximum_lag_on_failover
        (is_on (get "check_timeline" (effective_configuration s.ha.cluster s.world.settings)))
        s.trace
        t.trace
unfolding is_failover_possible cluster my_name check_timeline check_mode gets setting given pure
    raise ◌>>=◌
is_failover_possible-HasFit ms c s t e h =
    found ms s.world.settings.name c s.world.settings.maximum_lag_on_failover
      (is_on (get "check_timeline" (effective_configuration s.ha.cluster s.world.settings))) s t
      (fetch_nodes_statuses (to_ask s.world.settings.name ms) s)
      (fetch_nodes_statuses-Fetched (to_ask s.world.settings.name ms) s)
      (subst (λ o. (given o pure (raise other_error) >>= judge_members ms) s ≡ (ok true, t)) e h)
