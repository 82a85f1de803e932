-- ===== src/Postgresql/LsnText.antt =====
-- A position that is written and read again (patroni/postgresql/rewind.py: `format_lsn`, misc.py:
-- `parse_lsn`).
use Prim.Native.Char.{Char, code}
use Prim.Native.String.append
use pennsignals_postgres.Base.{
  ℕ, zero, suc, ◌+◌, ◌*◌, ◌/◌, ◌%◌, ◌<◌, String, ◌<>◌, Bool, true, false, not, ◌&&◌, Option, none,
  some, ◌∷◌, eqb, eqb→eq, if◌then◌else◌, ◌≡◌, ◌≢◌, refl, sym, ◌∙◌, ap, subst, arith, Bool-cases,
  inl, inr, choose, both,
}
use pennsignals_postgres.Base.TextLaws.{split_at-append, split_at-whole}
use pennsignals_postgres.Base.Text.{every, split_at}
use pennsignals_postgres.Postgresql.Lsn.{
  hex_value, read_digit, read_hex, parse_hex, parse_lsn, hex_digit, hex_onto, format_hex, zeros,
  format_hex_8, format_lsn,
}

abbrev limit : ℕ → ℕ
limit zero = 1
limit (suc n) = 16 * limit n

-- A test that all numbers below a bound pass.
abbrev below : ℕ → (ℕ → Bool) → Bool
below zero p = true
below (suc k) p = p k && below k p

below_all : (k : ℕ) (p : ℕ → Bool) (n : ℕ) → below k p ≡ true → n < k → p n ≡ true
below_all zero p n h l = absurd (omega arith)
below_all (suc k) p n h l = elim (Bool-cases (eqb n k)) [
  | inl e ↦ subst (λ x. p x ≡ true) (sym (eqb→eq n k e)) (ground arith)
  | inr e ↦ below_all k p n (ground arith) (ground arith)
]

abbrev is_value : Option ℕ → ℕ → Bool
is_value none n = false
is_value (some v) n = eqb v n

valued : (o : Option ℕ) (n : ℕ) → is_value o n ≡ true → o ≡ some n
valued none n h = cc
valued (some v) n h = ap some (eqb→eq v n h)

hex_value-hex_digit : (n : ℕ) → n < 16 → hex_value (hex_digit n) ≡ some n
unfolding hex_value
hex_value-hex_digit n h =
    valued _ n (below_all 16 (λ k. is_value (hex_value (hex_digit k)) k) n refl h)

abbrev no_slash : Char → Bool
no_slash c = not (eqb (code c) b'/')

no_slash-hex_digit : (n : ℕ) → n < 16 → no_slash (hex_digit n) ≡ true
no_slash-hex_digit n h = below_all 16 (λ k. no_slash (hex_digit k)) n refl h

read_one :
    (n : ℕ) (rest : String)
    → read_hex (n / 16) (String.◌∷◌ (hex_digit (n % 16)) rest) ≡ read_hex n rest
unfolding read_hex
read_one n rest =
    ap (λ o. read_digit o (λ v. read_hex (n / 16 * 16 + v) rest))
      (hex_value-hex_digit (n % 16) (omega arith))
    ∙ ap (λ k. read_hex k rest) (omega arith)

read_hex-hex_onto :
    (p n : ℕ) (rest : String) → n < limit p → read_hex 0 (hex_onto p n rest) ≡ read_hex n rest
unfolding hex_onto
read_hex-hex_onto zero n rest h = ap (λ k. read_hex k rest) (omega arith)
read_hex-hex_onto (suc p) n rest h =
    choose (λ w. read_hex 0 w ≡ read_hex n rest) (eqb n 0) _ _
      (λ e. ap (λ k. read_hex k rest) (sym (eqb→eq n 0 e)))
      (λ e.
        read_hex-hex_onto p (n / 16) (String.◌∷◌ (hex_digit (n % 16)) rest) (omega arith)
        ∙ read_one n rest)

every-hex_onto :
    (p n : ℕ) (rest : String)
    → every no_slash rest ≡ true
    → every no_slash (hex_onto p n rest) ≡ true
unfolding hex_onto
every-hex_onto zero n rest h = h
every-hex_onto (suc p) n rest h =
    choose (λ w. every no_slash w ≡ true) (eqb n 0) _ _ (λ e. h)
      (λ e. every-hex_onto p (n / 16) _ (both _ _ (no_slash-hex_digit (n % 16) (omega arith)) h))

parsed : (s : String) (n : ℕ) → n ≢ 0 → read_hex 0 s ≡ some n → parse_hex s ≡ some n
unfolding parse_hex read_hex
parsed String.[] n z h = absurd (z cc)
parsed (String.◌∷◌ c s) n z h = h

zero_text : (n : ℕ) → n ≡ 0 → parse_hex "0" ≡ some n
unfolding parse_hex read_hex hex_value
zero_text n e = ap some (sym e)

spelled : (n : ℕ) → read_hex n "" ≡ some n
unfolding read_hex
spelled n = refl

parse_hex-format_hex : (n : ℕ) → n < limit 16 → parse_hex (format_hex n) ≡ some n
unfolding format_hex
parse_hex-format_hex n h =
    choose (λ w. parse_hex w ≡ some n) (eqb n 0) _ _ (λ e. zero_text n (eqb→eq n 0 e))
      (λ e.
        parsed (hex_onto 16 n "") n (λ q. ground arith) (read_hex-hex_onto 16 n "" h ∙ spelled n))

every-format_hex : (n : ℕ) → every no_slash (format_hex n) ≡ true
unfolding format_hex
every-format_hex n =
    choose (λ w. every no_slash w ≡ true) (eqb n 0) _ _ (λ e. refl)
      (λ e. every-hex_onto 16 n "" refl)

-- Leading zeros add nothing.
read_hex-zeros : (k : ℕ) (s : String) → read_hex 0 (zeros k <> s) ≡ read_hex 0 s
unfolding zeros read_hex hex_value
read_hex-zeros zero s = rw append.nil refl
read_hex-zeros (suc k) s = rw append.cons (read_hex-zeros k s)

read_of_parse : (s : String) (n : ℕ) → parse_hex s ≡ some n → read_hex 0 s ≡ some n
unfolding parse_hex
read_of_parse String.[] n h = cc
read_of_parse (String.◌∷◌ c s) n h = h

parse_hex-zeros : (k n : ℕ) (s : String) → parse_hex s ≡ some n → parse_hex (zeros k <> s) ≡ some n
unfolding zeros parse_hex read_hex hex_value
parse_hex-zeros zero n s h = rw append.nil h
parse_hex-zeros (suc k) n s h = rw append.cons (read_hex-zeros k s ∙ read_of_parse s n h)

every-zeros : (k : ℕ) (s : String) → every no_slash s ≡ true → every no_slash (zeros k <> s) ≡ true
unfolding zeros
every-zeros zero s h = rw append.nil h
every-zeros (suc k) s h = rw append.cons (both _ _ refl (every-zeros k s h))

split_at-slash :
    (s t : String) → every no_slash s ≡ true → split_at b'/' (s <> ("/" <> t)) ≡ s ∷ split_at b'/' t
split_at-slash s t h = rw (append.cons, append.nil) (split_at-append "/" s t h)

parse_low :
    (low : ℕ) (full : Bool)
    → low < limit 16
    → (parse_hex (if full then format_hex_8 low else format_hex low) ≡ some low)
      × (every no_slash (if full then format_hex_8 low else format_hex low) ≡ true)
unfolding format_hex_8
parse_low low true h = (
  parse_hex-zeros _ low (format_hex low) (parse_hex-format_hex low h),
  every-zeros _ _ (every-format_hex low),
)
parse_low low false h = (parse_hex-format_hex low h, every-format_hex low)

-- A position in the WAL, as a number of 64 bits, is the same after it was written, in full or not, and
-- read again.
pub parse_lsn-format_lsn :
    (lsn : ℕ) (full : Bool)
    → lsn < 18446744073709551616
    → parse_lsn (format_lsn lsn full) ≡ some lsn
unfolding parse_lsn format_lsn
parse_lsn-format_lsn lsn full h =
    let (low, text) = parse_low (lsn % 4294967296) full (omega arith) in
    let high = parse_hex-format_hex (lsn / 4294967296) (omega arith) in
    rw
      (
        split_at-slash (format_hex (lsn / 4294967296)) _ (every-format_hex _),
        split_at-whole "/" _ text,
        high,
        low,
      )
      (ap some (omega arith))
