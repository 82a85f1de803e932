-- ===== src/Base/Text.antt =====
-- Python's operations on texts that the program uses, over the native `String`, a list of
-- characters. Letters outside ASCII have no upper case here.
use Prim.Native.Char.{Char, code}
use Prim.Native.Nat.{ℕ, zero, suc, ◌+◌, ◌-◌, ◌*◌, ◌/◌, ◌%◌}
use Prim.Native.String.{String, ◌++◌ as ◌<>◌}
use mathlib.Core.Bool.{Bool, true, ◌&&◌, ◌||◌}
use text.Mathlib.Text.{◌==◌}
use mathlib.Core.List.{List, [], ◌∷◌}
use mathlib.Core.Option.{Option, none, some}
use pennsignals_postgres.Base.Int.{ℤ, pos, sub_ℕ}
use pennsignals_postgres.Base.Tests.{eqb, leb, if◌then◌else◌}

-- The character at an index, or the second argument where there is none.
abbrev pub nth_char : String → Char → ℕ → Char
nth_char String.[] d n = d
nth_char (String.◌∷◌ c s) d zero = c
nth_char (String.◌∷◌ c s) d (suc n) = nth_char s d n

abbrev pub is_digit : Char → Bool
is_digit c = leb b'0' (code c) && leb (code c) b'9'

abbrev pub is_upper : Char → Bool
is_upper c = leb b'A' (code c) && leb (code c) b'Z'

abbrev pub is_lower : Char → Bool
is_lower c = leb b'a' (code c) && leb (code c) b'z'

abbrev pub lower_char : Char → Char
lower_char c = if is_upper c then nth_char "abcdefghijklmnopqrstuvwxyz" c (code c - b'A') else c

abbrev pub every : (Char → Bool) → String → Bool
every p String.[] = true
every p (String.◌∷◌ c s) = p c && every p s

-- `len(s)`, in characters.
abbrev pub count : String → ℕ
count String.[] = 0
count (String.◌∷◌ c s) = suc (count s)

-- `s[:n]`
abbrev pub first_chars : ℕ → String → String
first_chars zero s = ""
first_chars (suc n) String.[] = ""
first_chars (suc n) (String.◌∷◌ c s) = String.◌∷◌ c (first_chars n s)

abbrev pub digit_char : ℕ → Char
digit_char n = nth_char "0123456789" "9" n

-- The decimal digits of a number in front of a text, for a number of at most that many digits.
abbrev pub decimal_onto : ℕ → ℕ → String → String
decimal_onto zero n rest = rest
decimal_onto (suc places) n rest =
    let more = decimal_onto places (n / 10) (String.◌∷◌ (digit_char (n % 10)) rest) in
    if eqb n 0 then rest else more

-- The pieces of a text between its separators: never an empty list.
abbrev pub extend : Char → List String → List String
extend c [] = String.◌∷◌ c "" ∷ []
extend c (w ∷ ws) = String.◌∷◌ c w ∷ ws

unfoldable pub split_at : ℕ → String → List String
split_at sep String.[] = "" ∷ []
split_at sep (String.◌∷◌ c s) =
    let rest = split_at sep s in if eqb (code c) sep then "" ∷ rest else extend c rest

-- `sep.join(words)`
unfoldable pub join : String → List String → String
join sep [] = ""
join sep (w ∷ []) = w
join sep (w ∷ v ∷ ws) = w <> (sep <> join sep (v ∷ ws))

abbrev pub is_space : Char → Bool
is_space c = eqb (code c) 32 || (leb 9 (code c) && leb (code c) 13)

-- `s.lstrip()`
unfoldable pub lstrip : String → String
lstrip String.[] = ""
lstrip (String.◌∷◌ c s) = let rest = lstrip s in if is_space c then rest else String.◌∷◌ c s

abbrev keep_char : Char → String → String
keep_char c String.[] = if is_space c then "" else String.◌∷◌ c ""
keep_char c (String.◌∷◌ d s) = String.◌∷◌ c (String.◌∷◌ d s)

-- `s.rstrip()`
unfoldable pub rstrip : String → String
rstrip String.[] = ""
rstrip (String.◌∷◌ c s) = keep_char c (rstrip s)

unfoldable pub strip : String → String
strip s = rstrip (lstrip s)

-- What follows a prefix, if the text has it.
unfoldable pub after_prefix : String → String → Option String
after_prefix String.[] s = some s
after_prefix (String.◌∷◌ p ps) String.[] = none
after_prefix (String.◌∷◌ p ps) (String.◌∷◌ c s) =
    let rest = after_prefix ps s in if eqb (code p) (code c) then rest else none

abbrev put_before : Char → Option (String × String) → Option (String × String)
put_before c none = none
put_before c (some (a, b)) = some (String.◌∷◌ c a, b)

abbrev found_or : Option String → Option (String × String) → Option (String × String)
found_or (some rest) later = some ("", rest)
found_or none later = later

-- What stands before the first occurrence of a pattern, and after it: `s.find(pattern)`.
unfoldable pub cut : String → String → Option (String × String)
cut pattern String.[] = found_or (after_prefix pattern "") none
cut pattern (String.◌∷◌ c s) =
    let later = cut pattern s in
    found_or (after_prefix pattern (String.◌∷◌ c s)) (put_before c later)

-- `text.endswith(suffix)`
unfoldable pub ends_with : String → String → Bool
ends_with suffix String.[] = suffix == ""
ends_with suffix (String.◌∷◌ c s) = suffix == String.◌∷◌ c s || ends_with suffix s

-- `text.rsplit(separator, 1)` of a text that has the separator.
unfoldable pub cut_last : ℕ → String → Option (String × String)
cut_last sep String.[] = none
cut_last sep (String.◌∷◌ c s) = elim (cut_last sep s) [
  | some (a, b) ↦ some (String.◌∷◌ c a, b)
  | none ↦ if eqb (code c) sep then some ("", s) else none
]

-- The number that the digits spell after those already read.
abbrev read_digits : ℕ → String → Option ℕ
read_digits n String.[] = some n
read_digits n (String.◌∷◌ c s) =
    let rest = read_digits (n * 10 + (code c - b'0')) s in if is_digit c then rest else none

abbrev pub digits_only : String → Option ℕ
digits_only String.[] = none
digits_only (String.◌∷◌ c s) = read_digits 0 (String.◌∷◌ c s)

-- `int(text)` for digits after an optional sign; `none` is the `ValueError`.
unfoldable pub int_of_text : String → Option ℤ
int_of_text String.[] = none
int_of_text (String.◌∷◌ c s) =
    if eqb (code c) b'-'
    then elim (digits_only s) [ none ↦ none | some n ↦ some (sub_ℕ 0 n) ]
    else if eqb (code c) b'+'
    then elim (digits_only s) [ none ↦ none | some n ↦ some (pos n) ]
    else elim (digits_only (String.◌∷◌ c s)) [ none ↦ none | some n ↦ some (pos n) ]
