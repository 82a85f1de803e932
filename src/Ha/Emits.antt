-- ===== src/Ha/Emits.antt =====
-- Which calls a program can make: one rule for each way to build a program, so that a method's
-- calls are found by search, and what a method cannot call it cannot change.
use pennsignals_postgres.Base.{◌≡◌, refl, Bool, true, false, Option, none, some, List, ◌∷◌}
use pennsignals_postgres.Ha.World.{Exception, Outcome, ok, raised, Call, Event, Settings}
use pennsignals_postgres.Ha.Program.{
  Ha, State, Program, pure, raise, gets, setting, modify, invoke, ◌>>=◌, when, catch, finally,
  given, attempt,
}

-- The trace grew by calls that the test allows.
pub data Grown (allowed : Call → Bool) (t : List Event) : List Event → Type 0 where
  same : Grown allowed t t
  more :
      {u : List Event} (e : Event)
      → allowed e.call ≡ true
      → Grown allowed t u
      → Grown allowed t (e ∷ u)

pub Grown-trans :
    {allowed : Call → Bool} {t u v : List Event}
    → Grown allowed t u
    → Grown allowed u v
    → Grown allowed t v
Grown-trans g same = g
Grown-trans g (more e h r) = more e h (Grown-trans g r)

pub record Emits {A : Type 0} (allowed : Call → Bool) (m : Program A) : Type 0 where
  pub at : (s : State) → Grown allowed s.trace (m s).1.trace

module _ {allowed : Call → Bool} {A : Type 0} where
  pub Emits-pure : (a : A) → Emits allowed (pure a)
  unfolding pure
  Emits-pure a = record { at = λ s. same }

  pub Emits-raise : (e : Exception) → Emits allowed (raise {A = A} e)
  unfolding raise
  Emits-raise e = record { at = λ s. same }

  pub Emits-gets : (f : Ha → A) → Emits allowed (gets f)
  unfolding gets
  Emits-gets f = record { at = λ s. same }

  pub Emits-setting : (f : Settings → A) → Emits allowed (setting f)
  unfolding setting
  Emits-setting f = record { at = λ s. same }

  pub Emits-when :
      (b : Bool) (m n : Program A) → Emits allowed m → Emits allowed n → Emits allowed (when b m n)
  unfolding when
  Emits-when true m n em en = em
  Emits-when false m n em en = en

  catch-Grown :
      (t : List Event) (h : Exception → Program A)
      → ((e : Exception) → Emits allowed (h e))
      → (r : Outcome A) (s : State) → Grown allowed t s.trace
      → Grown allowed t (catch (λ _. (r, s)) h s).1.trace
  unfolding catch
  catch-Grown t h eh (ok a) s g = g
  catch-Grown t h eh (raised e) s g = Grown-trans g ((eh e).at s)

  pub Emits-catch :
      (m : Program A) (h : Exception → Program A)
      → Emits allowed m
      → ((e : Exception) → Emits allowed (h e))
      → Emits allowed (catch m h)
  unfolding catch
  Emits-catch m h em eh = record { at = λ s. catch-Grown s.trace h eh (m s).0 (m s).1 (em.at s) }

  pub Emits-attempt : (m : Program A) → Emits allowed m → Emits allowed (attempt m)
  unfolding attempt
  Emits-attempt m em = record { at = λ s. em.at s }

  finally-Grown :
      (t : List Event) (r : Outcome A) (q : Outcome (Unit {0})) (u : State)
      → Grown allowed t u.trace
      → Grown allowed t (finally (λ _. (r, u)) (λ _. (q, u)) u).1.trace
  unfolding finally
  finally-Grown t r (ok _) u g = g
  finally-Grown t r (raised e) u g = g

  pub Emits-finally :
      (m : Program A) (k : Program (Unit {0}))
      → Emits allowed m
      → Emits allowed k
      → Emits allowed (finally m k)
  unfolding finally
  Emits-finally m k em ek = record {
    at = λ s.
        finally-Grown s.trace (m s).0 (k (m s).1).0 (k (m s).1).1
          (Grown-trans (em.at s) (ek.at (m s).1));
  }

module _ {allowed : Call → Bool} {A B : Type 0} where
  pub Emits-given :
      (o : Option B) (f : B → Program A) (n : Program A)
      → ((b : B) → Emits allowed (f b))
      → Emits allowed n
      → Emits allowed (given o f n)
  unfolding given
  Emits-given none f n ef en = en
  Emits-given (some b) f n ef en = ef b

  bind-Grown :
      (t : List Event) (f : A → Program B)
      → ((a : A) → Emits allowed (f a))
      → (r : Outcome A) (s : State) → Grown allowed t s.trace
      → Grown allowed t (◌>>=◌ (λ _. (r, s)) f s).1.trace
  unfolding ◌>>=◌
  bind-Grown t f ef (ok a) s g = Grown-trans g ((ef a).at s)
  bind-Grown t f ef (raised e) s g = g

  pub Emits-bind :
      (m : Program A) (f : A → Program B)
      → Emits allowed m
      → ((a : A) → Emits allowed (f a))
      → Emits allowed (m >>= f)
  unfolding ◌>>=◌
  Emits-bind m f em ef = record { at = λ s. bind-Grown s.trace f ef (m s).0 (m s).1 (em.at s) }

module _ {allowed : Call → Bool} where
  pub Emits-modify : (f : Ha → Ha) → Emits allowed (modify f)
  unfolding modify
  Emits-modify f = record { at = λ s. same }

  pub Emits-invoke : (c : Call) → allowed c ≡ true → Emits allowed (invoke c)
  unfolding invoke
  Emits-invoke c h = record {
    at = λ s. more (record { call = c; answer = s.world.answer s.trace c }) h same;
  }

pub ruleset emits_rules = (
  Emits-pure, Emits-raise, Emits-gets, Emits-setting, Emits-when, Emits-catch, Emits-finally,
  Emits-attempt, Emits-given, Emits-bind, Emits-modify, Emits-invoke, refl,
)
