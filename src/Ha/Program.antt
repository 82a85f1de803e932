-- ===== src/Ha/Program.antt =====
-- The attributes of an `Ha` object, and its methods as programs: they change the attributes, call
-- outside, return a value or raise. What was changed before an exception stays changed.
use pennsignals_postgres.Base.{ℕ, Bool, true, false, Option, none, some, List, ◌∷◌}
use pennsignals_postgres.Json.{Value}
use pennsignals_postgres.Dcs.{Cluster}
use pennsignals_postgres.Ha.World.{
  Exception, exit_request, other_error, Outcome, ok, raised, Call, Reply, Event, RestartData,
  Settings, World,
}

unfoldable pub is_exit : Exception → Bool
is_exit exit_request = true
is_exit _ = false

pub record Ha : Type 0 where
  pub cluster : Option Cluster
  pub old_cluster : Option Cluster
  -- The instant up to which the node may consider itself the leader; 0 is `False`.
  pub is_leader_until : ℕ
  pub leader_access_is_restricted : Bool
  pub was_paused : Bool
  pub leader_timeline : Value
  pub recovering : Bool
  pub crash_recovery_executed : Bool
  pub crash_recovery_started : ℕ
  pub start_timeout : Option ℕ
  pub disable_sync : ℕ
  pub join_aborted : Bool
  pub released_leader_key_timestamp : ℕ
  -- `patroni.scheduled_restart`
  pub scheduled_restart : Option RestartData

pub record State : Type 0 where
  pub world : World
  pub ha : Ha
  pub trace : List Event

abbrev pub Program : Type 0 → Type 0
Program A = State → Outcome A × State

module _ {A : Type 0} where
  unfoldable pub pure : A → Program A
  pure a s = (ok a, s)

  unfoldable pub raise : Exception → Program A
  raise e s = (raised e, s)

  unfoldable pub gets : (Ha → A) → Program A
  gets f s = (ok (f s.ha), s)

  unfoldable pub setting : (Settings → A) → Program A
  setting f s = (ok (f s.world.settings), s)

unfoldable pub modify : (Ha → Ha) → Program (Unit {0})
modify f s = (ok tt, record s { ha = f s.ha })

-- A call, with its reply or exception noted in the trace.
unfoldable pub invoke : (c : Call) → Program (Reply c)
invoke c s =
    let r = s.world.answer s.trace c in
    (r, record s { trace = record { call = c; answer = r } ∷ s.trace })

module _ {A B : Type 0} where
  abbrev continue : Outcome A → (A → Program B) → Program B
  continue (ok a) f s = f a s
  continue (raised e) f s = (raised e, s)

  infixl 5 ◌>>=◌
  unfoldable pub ◌>>=◌ : Program A → (A → Program B) → Program B
  ◌>>=◌ m f s = let (r, t) = m s in continue r f t

  infixl 5 ◌>>◌
  abbrev pub ◌>>◌ : Program A → Program B → Program B
  m >> n = m >>= λ _. n

module _ {A : Type 0} where
  -- A test inside a program.
  unfoldable pub when : Bool → Program A → Program A → Program A
  when b m n s = elim b [ true ↦ m s | false ↦ n s ]

  abbrev recover_by : Outcome A → (Exception → Program A) → Program A
  recover_by (ok a) h s = (ok a, s)
  recover_by (raised e) h s = h e s

  -- `try: m except ...: h`; a handler raises again what it does not handle.
  unfoldable pub catch : Program A → (Exception → Program A) → Program A
  catch m h s = let (r, t) = m s in recover_by r h t

  -- `try: m except Exception: n`, which a request to exit passes.
  abbrev pub rescue : Program A → Program A → Program A
  rescue m n = catch m (λ e. when (is_exit e) (raise e) n)

  -- The outcome of a program as a value.
  unfoldable pub attempt : Program A → Program (Outcome A)
  attempt m s = let (r, t) = m s in (ok r, t)

  -- What stands after a `finally` replaces the outcome only by an exception of its own.
  abbrev resume : Outcome A → Outcome (Unit {0}) × State → Outcome A × State
  resume r (ok _, t) = (r, t)
  resume r (raised e, t) = (raised e, t)

  -- `try: m finally: k`
  unfoldable pub finally : Program A → Program (Unit {0}) → Program A
  finally m k s = let (r, t) = m s in resume r (k t)

  -- A match on an optional value inside a program.
  unfoldable pub given : {B : Type 0} → Option B → (B → Program A) → Program A → Program A
  given none f n s = n s
  given (some b) f n s = f b s

-- `self.cluster`, where `None` has none of the attributes that the caller reads.
unfoldable pub cluster : Program Cluster
unfolding gets raise pure ◌>>=◌ given
cluster = do c ← gets (λ h. h.cluster); given c pure (raise other_error)
