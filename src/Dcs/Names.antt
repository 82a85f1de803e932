-- ===== src/Dcs/Names.antt =====
-- The slot names that member names become (patroni/dcs/__init__.py: `slot_name_from_member_name`).
use Prim.Native.Char.{Char, code}
use Prim.Native.String.append
use pennsignals_postgres.Base.{
  choose, first, second, both, ℕ, zero, suc, ◌≤◌, ◌%◌, ◌/◌, String, true, ◌&&◌, ◌||◌, ◌≡◌, ◌≢◌,
  refl, ◌<>◌, eqb, ltb, leb, if◌then◌else◌, arith, ap,
}
use pennsignals_postgres.Base.Text.{
  nth_char, every, count, first_chars, digit_char, decimal_onto, lower_char,
}
use pennsignals_postgres.Dcs.SlotName.{
  slot_char, format_04d, replace_chars, slot_name_from_member_name, chop_newline, slot_name_matches,
}

every-first_chars :
    (n : ℕ) (s : String) → every slot_char s ≡ true → every slot_char (first_chars n s) ≡ true
every-first_chars zero s h = refl
every-first_chars (suc n) String.[] h = refl
every-first_chars (suc n) (String.◌∷◌ c s) h =
    let i = every-first_chars n s (second _ _ h) in both _ _ (first _ _ h) i

count-first_chars : (n : ℕ) (s : String) → count (first_chars n s) ≤ n
count-first_chars zero s = omega arith
count-first_chars (suc n) String.[] = omega arith
count-first_chars (suc n) (String.◌∷◌ c s) = let i = count-first_chars n s in omega arith

every-nth_char :
    (s : String) (d : Char) (k : ℕ)
    → every slot_char s ≡ true
    → slot_char d ≡ true
    → slot_char (nth_char s d k) ≡ true
every-nth_char String.[] d k h p = p
every-nth_char (String.◌∷◌ c s) d zero h p = first _ _ h
every-nth_char (String.◌∷◌ c s) d (suc k) h p = every-nth_char s d k (second _ _ h) p

digit_char-slot_char : (n : ℕ) → slot_char (digit_char n) ≡ true
digit_char-slot_char n = every-nth_char "0123456789" "9" n refl refl

every-decimal_onto :
    (places n : ℕ) (rest : String)
    → every slot_char rest ≡ true
    → every slot_char (decimal_onto places n rest) ≡ true
every-decimal_onto zero n rest h = h
every-decimal_onto (suc places) n rest h =
    choose (λ w. every slot_char w ≡ true) (eqb n 0) _ _ (λ _. h)
      (λ _. every-decimal_onto places (n / 10) _ (both _ _ (digit_char-slot_char (n % 10)) h))

every-append :
    (a b : String)
    → every slot_char a ≡ true
    → every slot_char b ≡ true
    → every slot_char (a <> b) ≡ true
every-append String.[] b h k = rw append.nil k
every-append (String.◌∷◌ c s) b h k =
    rw append.cons (both _ _ (first _ _ h) (every-append s b (second _ _ h) k))

every-format_04d :
    (n : ℕ) (rest : String)
    → every slot_char rest ≡ true
    → every slot_char (format_04d n rest) ≡ true
unfolding format_04d
every-format_04d n rest h =
    let P = λ (w : String). every slot_char w ≡ true in
    let body : String = if eqb n 0 then "0" <> rest else decimal_onto 7 n rest in
    let d =
      choose P (eqb n 0) _ _ (λ _. every-append "0" rest refl h)
        (λ _. every-decimal_onto 7 n rest h) in
    choose P (ltb n 10) _ _ (λ _. every-append "000" body refl d)
      (λ _.
        choose P (ltb n 100) _ _ (λ _. every-append "00" body refl d)
          (λ _. choose P (ltb n 1000) _ _ (λ _. every-append "0" body refl d) (λ _. d)))

every-replace_chars : (s : String) → every slot_char (replace_chars s) ≡ true
unfolding replace_chars
every-replace_chars String.[] = refl
every-replace_chars (String.◌∷◌ c s) =
    let i = every-replace_chars s in
    let P = λ (w : String). every slot_char w ≡ true in
    choose P (slot_char (lower_char c)) _ _ (λ p. both _ _ p i)
      (λ _.
        choose P (eqb (code (lower_char c)) b'-' || eqb (code (lower_char c)) b'.')
          ("_" <> replace_chars s) ("u" <> format_04d (code (lower_char c)) (replace_chars s))
          (λ _. every-append "_" (replace_chars s) refl i)
          (λ _.
            every-append "u" (format_04d (code (lower_char c)) (replace_chars s)) refl
              (every-format_04d (code (lower_char c)) (replace_chars s) i)))

chop_newline-every : (s : String) → every slot_char s ≡ true → chop_newline s ≡ s
chop_newline-every String.[] h = refl
chop_newline-every (String.◌∷◌ c String.[]) h = ground arith
chop_newline-every (String.◌∷◌ c (String.◌∷◌ d s)) h =
    ap (String.◌∷◌ c) (chop_newline-every (String.◌∷◌ d s) (second (slot_char c) _ h))

-- No character is replaced by nothing.
count-replace_chars : (s : String) → s ≢ "" → 1 ≤ count (replace_chars s)
unfolding replace_chars
count-replace_chars String.[] h = elim (h refl) [ ]
count-replace_chars (String.◌∷◌ c s) h =
    let P = λ (w : String). 1 ≤ count w in
    choose P (slot_char (lower_char c)) _ _ (λ _. omega arith)
      (λ _.
        choose P (eqb (code (lower_char c)) b'-' || eqb (code (lower_char c)) b'.')
          ("_" <> replace_chars s) ("u" <> format_04d (code (lower_char c)) (replace_chars s))
          (λ _. rw append.cons (omega arith)) (λ _. rw append.cons (omega arith)))

first_chars-not_empty : (n : ℕ) (s : String) → 1 ≤ count s → 1 ≤ count (first_chars (suc n) s)
first_chars-not_empty n String.[] h = h
first_chars-not_empty n (String.◌∷◌ c s) h = omega arith

accepted :
    (s t : String)
    → t ≡ s
    → every slot_char s ≡ true
    → 1 ≤ count s
    → count s ≤ 63
    → (every slot_char t && (leb 1 (count t) && leb (count t) 63)) ≡ true
accepted s t e h a b = rw e (
    both (every slot_char s) (leb 1 (count s) && leb (count s) 63) h
      (both (leb 1 (count s)) (leb (count s) 63) (ground arith) (ground arith)))

-- PostgreSQL accepts the slot name that is made of a member's name, if that is not empty.
pub slot_name_from_member_name-matches :
    (name : String) → name ≢ "" → slot_name_matches (slot_name_from_member_name name) ≡ true
unfolding slot_name_matches slot_name_from_member_name
slot_name_from_member_name-matches name h =
    let e = every-first_chars 63 (replace_chars name) (every-replace_chars name) in
    accepted (first_chars 63 (replace_chars name)) _ (chop_newline-every _ e) e
      (first_chars-not_empty 62 (replace_chars name) (count-replace_chars name h))
      (count-first_chars 63 (replace_chars name))
