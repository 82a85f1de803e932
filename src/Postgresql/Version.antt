-- ===== src/Postgresql/Version.antt =====
-- patroni/postgresql/misc.py: version numbers. A component is digits alone; the signs and spaces
-- that `int` would also take do not occur in a version.
use pennsignals_postgres.Base.{
  ℕ, zero, suc, ◌+◌, ◌*◌, ◌/◌, String, ◌<>◌, Option, none, some, List, [], ◌∷◌, ltb, if◌then◌else◌,
}
use pennsignals_postgres.Base.Text.{split_at, digits_only}

-- `list(map(int, pieces))`; `none` is the `ValueError`.
all_numbers : List String → Option (List ℕ)
all_numbers [] = some []
all_numbers (w ∷ ws) = elim (digits_only w) [
  | none ↦ none
  | some n ↦ elim (all_numbers ws) [ none ↦ none | some ns ↦ some (n ∷ ns) ]
]

-- The power of ten that makes room for a number of at least two digits.
abbrev shift_for : ℕ → ℕ → ℕ
shift_for zero n = 100
shift_for (suc places) n = if ltb n 100 then 100 else 10 * shift_for places (n / 10)

-- `int(''.join('{0:02d}'.format(c) for c in components))`
unfoldable pub join_02d : ℕ → List ℕ → ℕ
join_02d acc [] = acc
join_02d acc (c ∷ cs) = join_02d (acc * shift_for 9 c + c) cs

-- Two components get a zero between them; `none` is a `PostgresException`.
version_of : List ℕ → Option ℕ
unfolding join_02d
version_of (major ∷ minor ∷ []) =
    if ltb major 10 then none else some (join_02d 0 (major ∷ 0 ∷ minor ∷ []))
version_of (a ∷ b ∷ c ∷ []) = some (join_02d 0 (a ∷ b ∷ c ∷ []))
version_of _ = none

unfoldable pub postgres_version_to_int : String → Option ℕ
unfolding version_of all_numbers split_at
postgres_version_to_int pg_version = elim (all_numbers (split_at b'.' pg_version)) [
  | none ↦ none
  | some components ↦ version_of components
]

unfoldable pub postgres_major_version_to_int : String → Option ℕ
unfolding postgres_version_to_int
postgres_major_version_to_int pg_version = postgres_version_to_int (pg_version <> ".0")
