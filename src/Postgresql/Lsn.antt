-- ===== src/Postgresql/Lsn.antt =====
-- patroni/postgresql/misc.py and rewind.py: positions in the WAL and the history of timelines, as
-- texts. A hexadecimal number is digits alone: the signs, prefixes and spaces that `int` would also take
-- do not occur in what PostgreSQL writes.
use Prim.Native.Char.{Char, code}
use pennsignals_postgres.Base.{
  ℕ, zero, suc, ◌+◌, ◌-◌, ◌*◌, ◌/◌, ◌%◌, String, ◌<>◌, Bool, ◌&&◌, Option, none, some, List, ◌∷◌,
  leb, eqb, if◌then◌else◌,
}
use pennsignals_postgres.Base.Text.{nth_char, count, split_at}

unfoldable pub hex_value : Char → Option ℕ
hex_value c =
    if leb b'0' (code c) && leb (code c) b'9'
    then some (code c - b'0')
    else if leb b'A' (code c) && leb (code c) b'F'
    then some (code c - b'A' + 10)
    else if leb b'a' (code c) && leb (code c) b'f'
    then some (code c - b'a' + 10)
    else none

abbrev pub read_digit : Option ℕ → (ℕ → Option ℕ) → Option ℕ
read_digit none rest = none
read_digit (some v) rest = rest v

-- The number that the digits spell after those already read.
unfoldable pub read_hex : ℕ → String → Option ℕ
read_hex n String.[] = some n
read_hex n (String.◌∷◌ c s) = read_digit (hex_value c) (λ v. read_hex (n * 16 + v) s)

-- `int(text, 16)`; `none` is the `ValueError`.
unfoldable pub parse_hex : String → Option ℕ
parse_hex String.[] = none
parse_hex (String.◌∷◌ c s) = read_hex 0 (String.◌∷◌ c s)

abbrev both : Option ℕ → Option ℕ → Option ℕ
both (some high) (some low) = some (high * 4294967296 + low)
both _ _ = none

abbrev pub lsn_of : List String → Option ℕ
lsn_of (high ∷ low ∷ rest) = both (parse_hex high) (parse_hex low)
lsn_of _ = none

-- `none` is the `ValueError` or `IndexError`.
unfoldable pub parse_lsn : String → Option ℕ
parse_lsn lsn = lsn_of (split_at b'/' lsn)

abbrev pub hex_digit : ℕ → Char
hex_digit n = nth_char "0123456789ABCDEF" "0" n

-- The hexadecimal digits of a number in front of a text, for a number of at most that many digits.
unfoldable pub hex_onto : ℕ → ℕ → String → String
hex_onto zero n rest = rest
hex_onto (suc places) n rest =
    let more = hex_onto places (n / 16) (String.◌∷◌ (hex_digit (n % 16)) rest) in
    if eqb n 0 then rest else more

-- `'{0:X}'.format(n)` for n < 2 ^ 64
unfoldable pub format_hex : ℕ → String
format_hex n = if eqb n 0 then "0" else hex_onto 16 n ""

unfoldable pub zeros : ℕ → String
zeros zero = ""
zeros (suc n) = String.◌∷◌ "0" (zeros n)

-- `'{0:08X}'.format(n)`
unfoldable pub format_hex_8 : ℕ → String
format_hex_8 n = zeros (8 - count (format_hex n)) <> format_hex n

unfoldable pub format_lsn : ℕ → Bool → String
format_lsn lsn full =
    format_hex (lsn / 4294967296)
    <> ("/" <> (if full then format_hex_8 (lsn % 4294967296) else format_hex (lsn % 4294967296)))
