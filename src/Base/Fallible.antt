-- ===== src/Base/Fallible.antt =====
-- Methods that change the state of an object and may raise: what was changed before an exception
-- stays changed.
use mathlib.Core.Bool.{Bool, true, false}

pub data Result (E A : Type 0) : Type 0 where
  done : A → Result E A
  threw : E → Result E A

abbrev pub Method : Type 0 → Type 0 → Type 0 → Type 0
Method S E A = S → Result E A × S

module _ {S E A : Type 0} where
  unfoldable pub give : A → Method S E A
  give a s = (done a, s)

  unfoldable pub throw : E → Method S E A
  throw e s = (threw e, s)

  unfoldable pub read : (S → A) → Method S E A
  read f s = (done (f s), s)

  unfoldable pub branch : Bool → Method S E A → Method S E A → Method S E A
  branch b m n s = elim b [ true ↦ m s | false ↦ n s ]

  abbrev recover : (E → Method S E A) → Result E A × S → Result E A × S
  recover h (done a, s) = (done a, s)
  recover h (threw e, s) = h e s

  -- `try: m except ...: h`
  unfoldable pub guarded : Method S E A → (E → Method S E A) → Method S E A
  guarded m h s = recover h (m s)

module _ {S E : Type 0} where
  unfoldable pub change : (S → S) → Method S E (Unit {0})
  change f s = (done tt, f s)

module _ {S E A B : Type 0} where
  abbrev pass_on : (A → Method S E B) → Result E A × S → Result E B × S
  pass_on f (done a, s) = f a s
  pass_on f (threw e, s) = (threw e, s)

  infixl 5 ◌>>=◌
  unfoldable pub ◌>>=◌ : Method S E A → (A → Method S E B) → Method S E B
  ◌>>=◌ m f s = pass_on f (m s)

  infixl 5 ◌>>◌
  abbrev pub ◌>>◌ : Method S E A → Method S E B → Method S E B
  m >> n = m >>= λ _. n
