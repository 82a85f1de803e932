-- ===== src/Dcs/SlotName.antt =====
-- `slot_name_from_member_name` and `slot_name_re` of patroni/dcs/__init__.py.
use Prim.Native.Char.{Char, code}
use pennsignals_postgres.Base.{ℕ, String, ◌<>◌, Bool, ◌&&◌, ◌||◌, eqb, leb, ltb, if◌then◌else◌}
use pennsignals_postgres.Base.Text.{
  is_digit, is_lower, lower_char, every, count, first_chars, decimal_onto,
}

-- A character of a slot name.
abbrev pub slot_char : Char → Bool
slot_char c = is_lower c || (is_digit c || eqb (code c) b'_')

-- `"{:04d}".format(n)` in front of a text; a code point has at most seven digits.
unfoldable pub format_04d : ℕ → String → String
format_04d n rest =
    if ltb n 10
    then "000" <> decimal_or_zero n rest
    else if ltb n 100
    then "00" <> decimal_or_zero n rest
    else if ltb n 1000
    then "0" <> decimal_or_zero n rest
    else decimal_or_zero n rest
  where
    decimal_or_zero : ℕ → String → String
    decimal_or_zero k r = if eqb k 0 then "0" <> r else decimal_onto 7 k r

-- `re.sub('[^a-z0-9_]', replace_char, member_name.lower())`
unfoldable pub replace_chars : String → String
unfolding format_04d
replace_chars String.[] = ""
replace_chars (String.◌∷◌ c s) =
    let d = lower_char c in
    let rest = replace_chars s in
    if slot_char d
    then String.◌∷◌ d rest
    else if eqb (code d) b'-' || eqb (code d) b'.'
    then "_" <> rest
    else "u" <> format_04d (code d) rest

unfoldable pub slot_name_from_member_name : String → String
unfolding replace_chars
slot_name_from_member_name member_name = first_chars 63 (replace_chars member_name)

-- The text without the newline that `$` lets stand at its end.
abbrev pub chop_newline : String → String
chop_newline String.[] = ""
chop_newline (String.◌∷◌ c String.[]) = if eqb (code c) 10 then "" else String.◌∷◌ c String.[]
chop_newline (String.◌∷◌ c (String.◌∷◌ d s)) = String.◌∷◌ c (chop_newline (String.◌∷◌ d s))

-- `slot_name_re.match(name)`
unfoldable pub slot_name_matches : String → Bool
slot_name_matches name =
    let text = chop_newline name in
    every slot_char text && (leb 1 (count text) && leb (count text) 63)
