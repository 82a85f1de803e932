-- ===== src/Dcs/SyncLaws.antt =====
-- The synchronous standbys as they are written and read again (patroni/dcs/__init__.py: `sync_state`,
-- `SyncState.from_node`, `SyncState.matches`).
use Prim.Native.Char.{Char}
use Prim.Native.String.append
use pennsignals_postgres.Base.{
  ℕ, String, Bool, true, false, not, ◌&&◌, ◌||◌, Option, some, List, [], ◌∷◌, ◌==◌, eq_iff,
  contains, all, is_empty, ◌≡◌, refl, ◌∙◌, ap, arith, Bool-cases, inl, inr, choose, first, second,
}
use pennsignals_postgres.Base.Text.{every, split_at, join}
use pennsignals_postgres.Base.TextLaws.{differs, split_at-append, split_at-whole}
use pennsignals_postgres.Json.{str, obj, get}
use pennsignals_postgres.Dcs.{read_standbys, is_name, sync_members, matches}
use pennsignals_postgres.Dcs.Codec.{Codec, sync_from_node}
use pennsignals_postgres.Dcs.Store.{text_or_none, before, insert, sorted, sync_state}

swap_or : (a b c : Bool) → (a || (b || c)) ≡ (b || (a || c))
swap_or a b c = ground arith

contains-insert :
    (x : String) (xs : List String) (n : String)
    → contains (insert x xs) n ≡ (n == x || contains xs n)
unfolding insert
contains-insert x [] n = refl
contains-insert x (y ∷ ys) n =
    choose (λ l. contains l n ≡ (n == x || (n == y || contains ys n))) (before x y) (x ∷ y ∷ ys)
      (y ∷ insert x ys) (λ e. refl)
      (λ e.
        ap (λ b. n == y || b) (contains-insert x ys n) ∙ swap_or (n == y) (n == x) (contains ys n))

contains-sorted : (xs : List String) (n : String) → contains (sorted xs) n ≡ contains xs n
unfolding sorted
contains-sorted [] n = refl
contains-sorted (x ∷ xs) n =
    contains-insert x (sorted xs) n ∙ ap (λ b. n == x || b) (contains-sorted xs n)

swap_and : (a b c : Bool) → (a && (b && c)) ≡ (b && (a && c))
swap_and a b c = ground arith

all-insert :
    (p : String → Bool) (x : String) (xs : List String) → all p (insert x xs) ≡ (p x && all p xs)
unfolding insert
all-insert p x [] = refl
all-insert p x (y ∷ ys) =
    choose (λ l. all p l ≡ (p x && (p y && all p ys))) (before x y) (x ∷ y ∷ ys) (y ∷ insert x ys)
      (λ e. refl) (λ e. ap (λ b. p y && b) (all-insert p x ys) ∙ swap_and (p y) (p x) (all p ys))

all-sorted : (p : String → Bool) (xs : List String) → all p (sorted xs) ≡ all p xs
unfolding sorted
all-sorted p [] = refl
all-sorted p (x ∷ xs) = all-insert p x (sorted xs) ∙ ap (λ b. p x && b) (all-sorted p xs)

-- A name that is not empty and has no comma.
abbrev pub is_plain : String → Bool
is_plain n = not (n == "") && every (differs ",") n

split_at-join :
    (w : String) (ws : List String)
    → all is_plain (w ∷ ws) ≡ true
    → split_at b',' (join "," (w ∷ ws)) ≡ w ∷ ws
unfolding join
split_at-join w [] h = split_at-whole "," w (second _ _ (first (is_plain w) true h))
split_at-join w (v ∷ ws) h =
    rw (append.cons, append.nil)
      (split_at-append "," w (join "," (v ∷ ws))
          (second _ _ (first (is_plain w) (all is_plain (v ∷ ws)) h))
        ∙ ap (λ l. w ∷ l) (split_at-join v ws (second (is_plain w) (all is_plain (v ∷ ws)) h)))

cons_not_empty : (c : Char) (s : String) → (String.◌∷◌ c s == "") ≡ false
cons_not_empty c s = elim (Bool-cases (String.◌∷◌ c s == "")) [
  | inl e ↦ let q = (eq_iff (String.◌∷◌ c s) "").0 e in cc
  | inr e ↦ e
]

join_not_empty :
    (w : String) (ws : List String) → is_plain w ≡ true → (join "," (w ∷ ws) == "") ≡ false
unfolding join
join_not_empty String.[] ws h = cc
join_not_empty (String.◌∷◌ c s) [] h = cons_not_empty c s
join_not_empty (String.◌∷◌ c s) (v ∷ ws) h = rw append.cons (cons_not_empty c _)

-- What is read of the standbys that were written.
read_back :
    (ws : List String)
    → is_empty ws ≡ false
    → all is_plain ws ≡ true
    → read_standbys (text_or_none (join "," ws)) ≡ ws
read_back [] e h = cc
read_back (w ∷ ws) e h =
    choose (λ v. read_standbys v ≡ w ∷ ws) (join "," (w ∷ ws) == "") _ _
      (λ q. let n = join_not_empty w ws (first (is_plain w) (all is_plain ws) h) in cc)
      (λ q. rw q (split_at-join w ws h))

inserted : (x : String) (ys : List String) → is_empty (insert x ys) ≡ false
unfolding insert
inserted x [] = refl
inserted x (y ∷ ys) =
    choose (λ l. is_empty l ≡ false) (before x y) (x ∷ y ∷ ys) (y ∷ insert x ys) (λ e. refl)
      (λ e. refl)

sorted-is_empty : (xs : List String) → is_empty (sorted xs) ≡ is_empty xs
unfolding sorted
sorted-is_empty [] = refl
sorted-is_empty (x ∷ xs) = inserted x (sorted xs)

-- The standbys that were written for a leader, in whatever order, match afterwards as they were given:
-- a node matches exactly if it is the leader or one of them. The names are not empty and have no
-- comma, at least one is written, and the module `json` reads what it wrote, which is not empty.
pub matches-sync_state :
    (j : Codec) (index : Option ℕ) (leader name : String) (standbys : List String)
    → j.loads (j.dumps (obj (sync_state (str leader) standbys)))
      ≡ some (obj (sync_state (str leader) standbys))
    → (j.dumps (obj (sync_state (str leader) standbys)) == "") ≡ false
    → is_empty standbys ≡ false
    → all is_plain standbys ≡ true
    → matches (sync_from_node j index (str (j.dumps (obj (sync_state (str leader) standbys))))) name
      ≡ (leader == name || contains standbys name)
unfolding matches sync_from_node sync_members sync_state is_name get
matches-sync_state j index leader name standbys round not_empty e h =
    let b =
      read_back (sorted standbys) (sorted-is_empty standbys ∙ e)
        (all-sorted is_plain standbys ∙ h) in
    rw (not_empty, round)
      (ap (λ b. leader == name || b) (ap (λ l. contains l name) b ∙ contains-sorted standbys name))
