-- ===== src/Base/TextLaws.antt =====
-- Texts that are joined and split again.
use Prim.Native.Char.{Char, code}
use Prim.Native.String.append
use Prim.Native.String.{String, ◌++◌ as ◌<>◌}
use mathlib.Core.Path.{subst, sym, ◌≡◌, refl, ap}
use mathlib.Core.Bool.{false, Bool, true, not}
use mathlib.Core.List.{[], ◌∷◌}
use native.Mathlib.Omega.{arith}
use text.Mathlib.Text.{◌==◌}
use text.Mathlib.TextEquality.{eq_iff}
use pennsignals_postgres.Base.Tests.{eqb, choose, first, second}
use pennsignals_postgres.Base.Text.{every, split_at, extend}

-- A character that is not the separator.
abbrev pub differs : Char → Char → Bool
differs c d = not (eqb (code d) (code c))

pub split_at-append :
    (c : Char) (s t : String)
    → every (differs c) s ≡ true
    → split_at (code c) (s <> String.◌∷◌ c t) ≡ s ∷ split_at (code c) t
unfolding split_at
split_at-append c String.[] t h = rw append.nil (
    choose (λ x. x ≡ "" ∷ split_at (code c) t) (eqb (code c) (code c)) _ _ (λ e. refl)
      (λ e. absurd (ground arith)))
split_at-append c (String.◌∷◌ d s) t h = rw append.cons (
    choose (λ x. x ≡ String.◌∷◌ d s ∷ split_at (code c) t) (eqb (code d) (code c)) _ _
      (λ e. absurd (let k = first (differs c d) (every (differs c) s) h in ground arith))
      (λ e. ap (extend d) (split_at-append c s t (second (differs c d) (every (differs c) s) h))))

pub split_at-whole :
    (c : Char) (s : String) → every (differs c) s ≡ true → split_at (code c) s ≡ s ∷ []
unfolding split_at
split_at-whole c String.[] h = refl
split_at-whole c (String.◌∷◌ d s) h =
    choose (λ x. x ≡ String.◌∷◌ d s ∷ []) (eqb (code d) (code c)) _ _
      (λ e. absurd (let k = first (differs c d) (every (differs c) s) h in ground arith))
      (λ e. ap (extend d) (split_at-whole c s (second (differs c d) (every (differs c) s) h)))

-- What equals a text differs from what that text differs from.
pub other_key :
    (k name other : String) → (k == name) ≡ true → (name == other) ≡ false → (k == other) ≡ false
other_key k name other e n = subst (λ x. (x == other) ≡ false) (sym ((eq_iff k name).0 e)) n
