-- ===== src/Ha/Safety/Triple.antt =====
-- What a program keeps of the knowledge about the key: every promotion is justified, and which
-- results leave the node with the key.
use pennsignals_postgres.Base.{
  inl, ◌≡◌, refl, Bool, true, false, not, is_some, Option, none, some, List,
}
use pennsignals_postgres.Ha.World.{Exception, Outcome, ok, raised, Event}
use pennsignals_postgres.Ha.Program.{
  State, Program, pure, ◌>>=◌, when, catch, finally, given, attempt,
}
use pennsignals_postgres.Ha.Emits.{Grown, same, more, Emits}
use pennsignals_postgres.Ha.Safety.Calls.{
  is_granted, Justified, plain, quiet, plain_of_quiet, plain-is_promotion, noted-quiet,
}

-- The promotions so far are justified, and the node has the key if the mark says so.
abbrev pub Leads : Bool → State → Type 0
Leads held s = Justified s.trace × (held ≡ true → is_granted s.trace ≡ true)

abbrev pub Ends : {A : Type 0} → (A → Bool) → Outcome A × State → Type 0
Ends q (ok a, t) = Leads (q a) t
Ends q (raised e, t) = Justified t.trace

-- From a state with that mark, the program ends with the mark that its result tells.
pub record Safe {A : Type 0} (held : Bool) (m : Program A) (q : A → Bool) : Type 0 where
  pub at : (s : State) → Leads held s → Ends q (m s)

pub Grown-Justified : {t u : List Event} → Grown plain t u → Justified t → Justified u
Grown-Justified same j = j
Grown-Justified (more e h g) j = (inl (plain-is_promotion e.call h), Grown-Justified g j)

pub Grown-is_granted : {t u : List Event} → Grown quiet t u → is_granted u ≡ is_granted t
unfolding is_granted
Grown-is_granted same = refl
Grown-is_granted (more {u} e h g) =
    let i = Grown-is_granted g in let n = noted-quiet e.call e.answer (is_granted u) h in cc

module _ {A : Type 0} where
  -- No promotion is requested, and nothing is claimed of the end.
  pub Safe-plain : (held : Bool) (m : Program A) → Emits plain m → Safe held m (λ _. false)
  Safe-plain held m em = record {
    at = λ s l. ended (m s).0 (m s).1 (Grown-Justified (em.at s) l.0);
  }
    where
      ended : (r : Outcome A) (t : State) → Justified t.trace → Ends (λ _. false) (r, t)
      ended (ok a) t j = (j, λ p. cc)
      ended (raised e) t j = j

  -- Nothing is said about the key, so what was known of it is still known.
  pub Safe-quiet : (held : Bool) (m : Program A) → Emits quiet m → Safe held m (λ _. held)
  Safe-quiet held m em = record {
    at = λ s l.
        ended s l.1 (m s).0 (m s).1 (em.at s) (Grown-Justified ((plain_of_quiet m em).at s) l.0);
  }
    where
      ended :
          (s : State)
          → (held ≡ true → is_granted s.trace ≡ true)
          → (r : Outcome A) (t : State) → Grown quiet s.trace t.trace
          → Justified t.trace
          → Ends (λ _. held) (r, t)
      ended s k (ok a) t g j = (j, λ p. let n = k p in let i = Grown-is_granted g in cc)
      ended s k (raised e) t g j = j

  pub Safe-weaken : {q : A → Bool} (held : Bool) (m : Program A) → Safe false m q → Safe held m q
  Safe-weaken held m sm = record { at = λ s l. sm.at s (l.0, λ p. cc) }

  pub Safe-forget :
      {q : A → Bool} {held : Bool} (m : Program A) → Safe held m q → Safe held m (λ _. false)
  Safe-forget {q} m sm = record { at = λ s l. ended (m s).0 (m s).1 (sm.at s l) }
    where
      ended : (r : Outcome A) (t : State) → Ends q (r, t) → Ends (λ _. false) (r, t)
      ended (ok a) t l = (l.0, λ p. cc)
      ended (raised e) t j = j

  pub Safe-when :
      {q : A → Bool} {held : Bool} (b : Bool) (m n : Program A)
      → Safe held m q
      → Safe held n q
      → Safe held (when b m n) q
  unfolding when
  Safe-when true m n sm sn = sm
  Safe-when false m n sm sn = sn

  -- A branch that has the key, on the mark itself.
  pub Safe-when_held :
      {q : A → Bool} (held : Bool) (m n : Program A)
      → Safe true m q
      → Safe false n q
      → Safe held (when held m n) q
  unfolding when
  Safe-when_held true m n sm sn = sm
  Safe-when_held false m n sm sn = sn

  pub Safe-catch :
      {q : A → Bool} {held : Bool} (m : Program A) (h : Exception → Program A)
      → Safe held m q
      → ((e : Exception) → Safe false (h e) (λ _. false))
      → Safe held (catch m h) (λ _. false)
  unfolding catch
  Safe-catch {q} m h sm sh = record { at = λ s l. ended (m s).0 (m s).1 (sm.at s l) }
    where
      ended :
          (r : Outcome A) (t : State) → Ends q (r, t) → Ends (λ _. false) (catch (λ _. (r, t)) h t)
      ended (ok a) t l = (l.0, λ p. cc)
      ended (raised e) t j = (sh e).at t (j, λ p. cc)

  pub Safe-finally :
      {q : A → Bool} {held : Bool} (m : Program A) (k : Program (Unit {0}))
      → Safe held m q
      → Emits plain k
      → Safe held (finally m k) (λ _. false)
  unfolding finally
  Safe-finally {q} m k sm ek = record {
    at = λ s l.
        ended (m s).0 (k (m s).1).0 (k (m s).1).1
          (Grown-Justified (ek.at (m s).1) (kept (m s).0 (m s).1 (sm.at s l)));
  }
    where
      kept : (r : Outcome A) (t : State) → Ends q (r, t) → Justified t.trace
      kept (ok a) t l = l.0
      kept (raised e) t j = j

      ended :
          (r : Outcome A) (o : Outcome (Unit {0})) (t : State)
          → Justified t.trace
          → Ends (λ _. false) (finally (λ _. (r, t)) (λ _. (o, t)) t)
      ended (ok a) (ok _) t j = (j, λ p. cc)
      ended (raised e) (ok _) t j = j
      ended r (raised e) t j = j

  pub Safe-attempt :
      {q : A → Bool} {held : Bool} (m : Program A)
      → Safe held m q
      → Safe held (attempt m) (λ _. false)
  unfolding attempt
  Safe-attempt {q} m sm = record { at = λ s l. ((kept (m s).0 (m s).1 (sm.at s l)), λ p. cc) }
    where
      kept : (r : Outcome A) (t : State) → Ends q (r, t) → Justified t.trace
      kept (ok a) t l = l.0
      kept (raised e) t j = j

pub Safe-pure : {A : Type 0} (q : A → Bool) (a : A) → Safe (q a) (pure a) q
unfolding pure
Safe-pure q a = record { at = λ s l. l }

module _ {A B : Type 0} where
  pub Safe-bind :
      {held : Bool} {q : A → Bool} {r : B → Bool} (m : Program A) (f : A → Program B)
      → Safe held m q
      → ((a : A) → Safe (q a) (f a) r)
      → Safe held (m >>= f) r
  unfolding ◌>>=◌
  Safe-bind {q} {r} m f sm sf = record { at = λ s l. ended (m s).0 (m s).1 (sm.at s l) }
    where
      ended : (o : Outcome A) (t : State) → Ends q (o, t) → Ends r (◌>>=◌ (λ _. (o, t)) f t)
      ended (ok a) t l = (sf a).at t l
      ended (raised e) t j = j

  -- A refusal ends the method without the key; without one the key is still there.
  pub Safe-given_none :
      {q : A → Bool} (o : Option B) (f : B → Program A) (n : Program A)
      → ((b : B) → Safe false (f b) q)
      → Safe true n q
      → Safe (not (is_some o)) (given o f n) q
  unfolding given
  Safe-given_none none f n sf sn = sn
  Safe-given_none (some b) f n sf sn = sf b

  pub Safe-given :
      {q : A → Bool} {held : Bool} (o : Option B) (f : B → Program A) (n : Program A)
      → ((b : B) → Safe held (f b) q)
      → Safe held n q
      → Safe held (given o f n) q
  unfolding given
  Safe-given none f n sf sn = sn
  Safe-given (some b) f n sf sn = sf b
