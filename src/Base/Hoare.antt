-- ===== src/Base/Hoare.antt =====
-- What a method ensures: from a state of which `P` holds it returns in one of which `Q` holds, or
-- raises in one of which `X` holds.
use mathlib.Core.Path.{◌≡◌, refl}
use mathlib.Core.Bool.{Bool, true, false}
use pennsignals_postgres.Base.Fallible.{
  Result, Method, done, threw, give, throw, read, change, branch, guarded, ◌>>=◌,
}

module _ {S E : Type 0} where
  abbrev pub Ended : {A : Type 0} → (A → S → Type 0) → (E → S → Type 0) → Result E A × S → Type 0
  Ended Q X (done a, s) = Q a s
  Ended Q X (threw e, s) = X e s

  pub record Ensures {A : Type 0} (P : S → Type 0) (m : Method S E A) (Q : A → S → Type 0)
      (X : E → S → Type 0) : Type 0 where
    pub at : (s : S) → P s → Ended Q X (m s)

module _ {S E : Type 0} {X : E → S → Type 0} {P : S → Type 0} where
  pub weaken_Ensures :
      {A : Type 0} {Q : A → S → Type 0} {P' : S → Type 0} {m : Method S E A}
      → ((s : S) → P s → P' s)
      → Ensures P' m Q X
      → Ensures P m Q X
  weaken_Ensures w h = record { at = λ s p. h.at s (w s p) }

  pub give-Ensures :
      {A : Type 0} {Q : A → S → Type 0} (a : A) → ((s : S) → P s → Q a s) → Ensures P (give a) Q X
  unfolding give
  give-Ensures a h = record { at = h }

  pub throw-Ensures :
      {A : Type 0} {Q : A → S → Type 0} (e : E) → ((s : S) → P s → X e s) → Ensures P (throw e) Q X
  unfolding throw
  throw-Ensures e h = record { at = h }

  pub read-Ensures :
      {A : Type 0} {Q : A → S → Type 0} (f : S → A)
      → ((s : S) → P s → Q (f s) s)
      → Ensures P (read f) Q X
  unfolding read
  read-Ensures f h = record { at = h }

  pub change-Ensures :
      {Q : Unit {0} → S → Type 0} (f : S → S)
      → ((s : S) → P s → Q tt (f s))
      → Ensures P (change f) Q X
  unfolding change
  change-Ensures f h = record { at = h }

  pub branch-Ensures :
      {A : Type 0} {Q : A → S → Type 0} (b : Bool) {m n : Method S E A}
      → Ensures P m Q X
      → Ensures P n Q X
      → Ensures P (branch b m n) Q X
  unfolding branch
  branch-Ensures true h k = record { at = h.at }
  branch-Ensures false h k = record { at = k.at }

module _ {S E : Type 0} {X : E → S → Type 0} {P : S → Type 0} where
  pub cases_Ensures :
      {A : Type 0} {Q : A → S → Type 0} (b : Bool) {m n : Method S E A}
      → (b ≡ true → Ensures P m Q X)
      → (b ≡ false → Ensures P n Q X)
      → Ensures P (branch b m n) Q X
  unfolding branch
  cases_Ensures true h k = record { at = (h refl).at }
  cases_Ensures false h k = record { at = (k refl).at }

module _ {S E A B : Type 0} {P : S → Type 0} {R : A → S → Type 0} {Q : B → S → Type 0}
    {X : E → S → Type 0} where
  pub then-Ensures :
      {m : Method S E A} {f : A → Method S E B}
      → Ensures P m R X
      → ((a : A) → Ensures (R a) (f a) Q X)
      → Ensures P (m >>= f) Q X
  unfolding ◌>>=◌
  then-Ensures {m} {f} h k = record { at = λ s p. rest (m s).0 (m s).1 (h.at s p) }
    where
      rest : (r : Result E A) (t : S) → Ended R X (r, t) → Ended Q X (◌>>=◌ (λ _. (r, t)) f t)
      rest (done a) t e = (k a).at t e
      rest (threw x) t e = e

module _ {S E A : Type 0} {P : S → Type 0} {Q : A → S → Type 0} {X Y : E → S → Type 0} where
  pub guarded-Ensures :
      {m : Method S E A} {h : E → Method S E A}
      → Ensures P m Q Y
      → ((e : E) → Ensures (Y e) (h e) Q X)
      → Ensures P (guarded m h) Q X
  unfolding guarded
  guarded-Ensures {m} {h} j k = record { at = λ s p. rest (m s).0 (m s).1 (j.at s p) }
    where
      rest : (r : Result E A) (t : S) → Ended Q Y (r, t) → Ended Q X (guarded (λ _. (r, t)) h t)
      rest (done a) t e = e
      rest (threw x) t e = (k x).at t e

module _ {S E A : Type 0} {P : S → Type 0} {Q R : A → S → Type 0} {X Y : E → S → Type 0} where
  pub follow_Ensures :
      {m : Method S E A}
      → ((a : A) (s : S) → Q a s → R a s)
      → ((e : E) (s : S) → X e s → Y e s)
      → Ensures P m Q X
      → Ensures P m R Y
  follow_Ensures {m} f g h = record { at = λ s p. rest (m s).0 (m s).1 (h.at s p) }
    where
      rest : (r : Result E A) (t : S) → Ended Q X (r, t) → Ended R Y (r, t)
      rest (done a) t e = f a t e
      rest (threw x) t e = g x t e
