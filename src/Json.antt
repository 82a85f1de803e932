-- ===== src/Json.antt =====
-- The values of `json.loads`, and Python's reading of them: `dict.get`, truth, `parse_bool`
-- (patroni/utils.py).
use Prim.Native.Char.{code}
use pennsignals_postgres.Base.{
  ℕ, ◌+◌, String, Bool, true, false, not, ◌&&◌, ◌||◌, Option, none, some, List, [], ◌∷◌, map, ◌==◌,
  eqb, leb, if◌then◌else◌,
}
use pennsignals_postgres.Base.Int.{ℤ, pos, negsuc}

mutual
  -- An object, as the list of its entries.
  pub data Fields : Type 0 where
    end : Fields
    field : String → Value → Fields → Fields

  pub data Value : Type 0 where
    str : String → Value
    num : ℤ → Value
    bool : Bool → Value
    null : Value
    obj : Fields → Value
    arr : Items → Value

  pub data Items : Type 0 where
    nil : Items
    cons : Value → Items → Items

-- `d.get(key)`: the first entry of the key, or `None`.
unfoldable pub get : String → Fields → Value
get key end = null
get key (field k v d) = if k == key then v else get key d

-- `key in d`
unfoldable pub has_key : String → Fields → Bool
has_key key end = false
has_key key (field k v d) = k == key || has_key key d

-- `bool(value)`
unfoldable pub truthy : Value → Bool
truthy null = false
truthy (bool b) = b
truthy (num (pos n)) = not (eqb n 0)
truthy (num (negsuc n)) = true
truthy (str s) = not (s == "")
truthy (arr nil) = false
truthy (arr (cons v vs)) = true
truthy (obj end) = false
truthy (obj (field k v d)) = true

-- The dictionary in a value; the source reads `.get` of it only where it is one.
unfoldable pub fields : Value → Fields
fields (obj d) = d
fields _ = end

-- `len(d)`
abbrev pub size : Fields → ℕ
size end = 0
size (field k v d) = 1 + size d

abbrev as_num : Bool → ℤ
as_num b = pos (if b then 1 else 0)

abbrev pub same_num : ℤ → ℤ → Bool
same_num (pos a) (pos b) = eqb a b
same_num (negsuc a) (negsuc b) = eqb a b
same_num _ _ = false

-- The code points of a text. `String` has its own `[]` and `∷`.
abbrev pub codes : String → List ℕ
codes String.[] = []
codes (String.◌∷◌ c s) = code c ∷ codes s

-- `str.lower` on the ASCII letters.
abbrev pub lower : List ℕ → List ℕ
lower = map (λ c. if leb b'A' c && leb c b'Z' then c + 32 else c)

abbrev pub same_codes : List ℕ → List ℕ → Bool
same_codes [] [] = true
same_codes (a ∷ as') (b ∷ bs) = eqb a b && same_codes as' bs
same_codes _ _ = false

abbrev one_of : List ℕ → List String → Bool
one_of text [] = false
one_of text (word ∷ words) = same_codes text (codes word) || one_of text words

parse_bool_text : List ℕ → Option Bool
parse_bool_text text =
    if one_of text ("on" ∷ "true" ∷ "yes" ∷ "1" ∷ [])
    then some true
    else if one_of text ("off" ∷ "false" ∷ "no" ∷ "0" ∷ [])
    then some false
    else none

-- `parse_bool`: the text of `None`, of a list and of a dictionary is none of the words.
unfoldable pub parse_bool : Value → Option Bool
unfolding parse_bool_text
parse_bool null = none
parse_bool (bool b) = some b
parse_bool (num (pos n)) = if eqb n 1 then some true else if eqb n 0 then some false else none
parse_bool (num (negsuc n)) = none
parse_bool (str s) = parse_bool_text (lower (codes s))
parse_bool (arr vs) = none
parse_bool (obj d) = none

-- `bool(parse_bool(value))`
unfoldable pub is_on : Value → Bool
unfolding parse_bool
is_on v = elim (parse_bool v) [ some true ↦ true | _ ↦ false ]

-- `d[key] = value`
unfoldable pub put : String → Value → Fields → Fields
put key v end = field key v end
put key v (field k w d) = if k == key then field k v d else field k w (put key v d)

-- `d.pop(key, None)`
unfoldable pub remove : String → Fields → Fields
remove key end = end
remove key (field k v d) = let rest = remove key d in if k == key then rest else field k v rest

unfoldable mutual
  -- `a == b` of two values: a truth value equals the number that it counts as, and the order of a
  -- dictionary's entries does not matter.
  pub same_value : Value → Value → Bool
  same_value (str a) (str b) = a == b
  same_value (num a) (num b) = same_num a b
  same_value (bool a) (bool b) = same_num (as_num a) (as_num b)
  same_value (num a) (bool b) = same_num a (as_num b)
  same_value (bool a) (num b) = same_num (as_num a) b
  same_value null null = true
  same_value (obj a) (obj b) = eqb (size a) (size b) && covered a b
  same_value (arr a) (arr b) = same_items a b
  same_value _ _ = false

  -- Each entry of the first is in the second, with an equal value.
  pub covered : Fields → Fields → Bool
  covered end b = true
  covered (field k v a) b = has_key k b && (same_value v (get k b) && covered a b)

  same_items : Items → Items → Bool
  same_items nil nil = true
  same_items (cons v vs) (cons w ws) = same_value v w && same_items vs ws
  same_items _ _ = false

-- `a == b` of two dictionaries
unfoldable pub same_fields : Fields → Fields → Bool
unfolding covered
same_fields a b = eqb (size a) (size b) && covered a b
