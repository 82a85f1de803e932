-- ===== src/Postgresql/SlotDrops.antt =====
-- Which slots of a server are dropped (patroni/postgresql/slots.py: `sync_replication_slots`).
use mathlib.Core.List.{Memᴰ, reverse}
use pennsignals_postgres.Base.{
  String, false, Option, none, some, List, [], ◌∷◌, ◌==◌, eq_iff, is_some, All, ◌≡◌, refl, sym, ap,
  ◌∙◌, subst, ◌⊎◌, inl, inr, choose, arith, Bool-cases, if◌then◌else◌,
}
use pennsignals_postgres.Base.Fallible.{
  throw, Result, done, threw, Method, give, read, change, guarded, ◌>>=◌,
}
use pennsignals_postgres.Base.Hoare.{
  Ended, Ensures, give-Ensures, throw-Ensures, read-Ensures, change-Ensures, branch-Ensures,
  cases_Ensures, then-Ensures, follow_Ensures,
}
use pennsignals_postgres.Base.TextLaws.{other_key}
use pennsignals_postgres.Json.{Fields}
use pennsignals_postgres.Dcs.Slots.{Slots, find_slot}
use pennsignals_postgres.Postgresql.SlotSync.{
  Request, drop_slot, create_physical_slot, create_logical_slot, Server, Handler, reschedule,
  answer, drop_replication_slot, remove_slot, compare_slots, ignore_replication_slot,
  load_replication_slots, drop_unwanted, create, sync_present, sync_slot, sync_wanted, create_in,
  create_logical_slots, databases, sync_loaded, sync_all, sync_replication_slots,
}

find_removed : (n : String) (slots : Slots) → find_slot n (remove_slot n slots) ≡ none
unfolding find_slot remove_slot
find_removed n [] = refl
find_removed n ((k, v) ∷ slots) =
    choose (λ (x : Slots). find_slot n x ≡ none) (k == n) _ _ (λ e. find_removed n slots)
      (λ e. rw e (find_removed n slots))

find_other :
    (n name : String) (slots : Slots)
    → (name == n) ≡ false
    → find_slot n (remove_slot name slots) ≡ find_slot n slots
unfolding find_slot remove_slot
find_other n name [] e = refl
find_other n name ((k, v) ∷ slots) e =
    choose (λ (x : Slots). find_slot n x ≡ find_slot n ((k, v) ∷ slots)) (k == name) _ _
      (λ q. rw (other_key k name n q e) (find_other n name slots e))
      (λ q. ap (λ o. if k == n then some v else o) (find_other n name slots e))

find_slot-remove_slot :
    (n name : String) (w : Fields) (slots : Slots)
    → find_slot n (remove_slot name slots) ≡ some w
    → find_slot n slots ≡ some w
find_slot-remove_slot n name w slots h = elim (Bool-cases (name == n)) [
  | inl e ↦
      let none_left = find_removed n slots in
      let q = subst (λ x. find_slot n (remove_slot x slots) ≡ some w) ((eq_iff name n).0 e) h in cc
  | inr e ↦ sym (find_other n name slots e) ∙ h
]

All-Memᴰ :
    {A : Type 0} (xs ys : List A) → ((x : A) → Memᴰ x xs → Memᴰ x ys) → All (λ x. Memᴰ x ys) xs
All-Memᴰ [] ys h = tt
All-Memᴰ (x ∷ xs) ys h = (h x (Memᴰ.head refl), All-Memᴰ xs ys (λ y m. h y (Memᴰ.tail m)))

module _ (server : Server) (wanted : Slots) (matchers : List Fields) (present : Slots) where
  -- A slot that is dropped is not wanted and not to be ignored, or is wanted with another value than it has.
  abbrev pub IsJustified : Request → Type 0
  IsJustified (drop_slot n) =
      ((slot : Fields) × (Memᴰ (n, slot) present
          × ((is_some (find_slot n wanted) ≡ false)
              × (ignore_replication_slot matchers n slot ≡ false))))
      ⊎ ((v : Fields) × ((w : Fields) × (Memᴰ (n, v) wanted
              × ((find_slot n present ≡ some w) × (compare_slots v w ≡ false)))))
  IsJustified (create_physical_slot n) = Unit
  IsJustified (create_logical_slot n) = Unit

  abbrev Inv : Handler → Type 0
  Inv h =
      All IsJustified h.requests
      × ((n : String) (w : Fields) → find_slot n h.known ≡ some w → find_slot n present ≡ some w)

  -- A method that keeps the invariant, whether it returns or raises.
  abbrev Keeps : {A : Type 0} → Method Handler (Unit {0}) A → Type 0
  Keeps m = Ensures Inv m (λ a. Inv) (λ e. Inv)

  reschedule-Keeps : Keeps reschedule
  reschedule-Keeps = change-Ensures _ (λ h k. k)

  nothing_Keeps : Keeps (give tt)
  nothing_Keeps = give-Ensures tt (λ h k. k)

  answer-Keeps : {A : Type 0} (o : Option A) → Keeps (answer server o)
  answer-Keeps none = throw-Ensures tt (λ h k. k)
  answer-Keeps (some a) = give-Ensures a (λ h k. k)

  drop-Keeps : (n : String) → IsJustified (drop_slot n) → Keeps (drop_replication_slot server n)
  unfolding drop_replication_slot
  drop-Keeps n j =
      then-Ensures {R = λ u. Inv} (change-Ensures _ (λ h k. ((j, k.0), k.1)))
        (λ u. answer-Keeps (server.drop n))

  drop_unwanted-Keeps :
      (xs : Slots) → All (λ x. Memᴰ x present) xs → Keeps (drop_unwanted server wanted matchers xs)
  drop_unwanted-Keeps [] a = nothing_Keeps
  drop_unwanted-Keeps ((n, slot) ∷ xs) a =
      then-Ensures {R = λ u. Inv}
        (cases_Ensures _ (λ e. nothing_Keeps)
          (λ e.
            then-Ensures {R = λ u. Inv}
              (drop-Keeps n (inl (slot, (a.0, (ground arith, ground arith)))))
              (λ d. branch-Ensures d nothing_Keeps reschedule-Keeps)))
        (λ u. drop_unwanted-Keeps xs a.1)

  create-Keeps : (n : String) (v : Fields) → Keeps (create server n v)
  create-Keeps n v =
      branch-Ensures _
        (then-Ensures {R = λ u. Inv} (change-Ensures _ (λ h k. ((tt, k.0), k.1)))
          (λ u. branch-Ensures _ nothing_Keeps reschedule-Keeps))
        (branch-Ensures _ (change-Ensures _ (λ h k. k)) nothing_Keeps)

  sync_present-Keeps :
      (n : String) (v : Fields) (o : Option Fields)
      → Memᴰ (n, v) wanted
      → ((w : Fields) → o ≡ some w → find_slot n present ≡ some w)
      → Keeps (sync_present server n v o)
  sync_present-Keeps n v none m f = create-Keeps n v
  sync_present-Keeps n v (some old) m f =
      cases_Ensures _ (λ e. nothing_Keeps)
        (λ e.
          then-Ensures {R = λ d. Inv} (drop-Keeps n (inr (v, (old, (m, (f old refl, e)))))) (λ d.
            branch-Ensures d
              (then-Ensures {R = λ u. Inv}
                (change-Ensures _
                  (λ h k. (k.0, λ x w q. k.1 x w (find_slot-remove_slot x n w h.known q))))
                (λ u. create-Keeps n v))
              reschedule-Keeps))

  sync_slot-Keeps : (n : String) (v : Fields) → Memᴰ (n, v) wanted → Keeps (sync_slot server n v)
  sync_slot-Keeps n v m =
      then-Ensures {R = λ o h. (o ≡ find_slot n h.known) × Inv h}
        (read-Ensures _ (λ h k. (refl, k)))
        (λ o. record {
          at = λ h k. (sync_present-Keeps n v o m (λ w e. k.1.1 n w (sym k.0 ∙ e))).at h k.1;
        })

  sync_wanted-Keeps : (xs : Slots) → All (λ x. Memᴰ x wanted) xs → Keeps (sync_wanted server xs)
  sync_wanted-Keeps [] a = nothing_Keeps
  sync_wanted-Keeps ((n, v) ∷ xs) a =
      then-Ensures {R = λ u. Inv} (sync_slot-Keeps n v a.0) (λ u. sync_wanted-Keeps xs a.1)

  create_in-Keeps : (database : String) (xs : Slots) → Keeps (create_in server database xs)
  create_in-Keeps database [] = nothing_Keeps
  create_in-Keeps database ((n, v) ∷ xs) =
      then-Ensures {R = λ u. Inv}
        (branch-Ensures _
          (then-Ensures {R = λ u. Inv} (change-Ensures _ (λ h k. ((tt, k.0), k.1)))
            (λ u. branch-Ensures _ nothing_Keeps reschedule-Keeps))
          nothing_Keeps)
        (λ u. create_in-Keeps database xs)

  create_logical_slots-Keeps :
      (ds : List String) (xs : Slots) → Keeps (create_logical_slots server ds xs)
  create_logical_slots-Keeps [] xs = nothing_Keeps
  create_logical_slots-Keeps (d ∷ ds) xs =
      then-Ensures {R = λ u. Inv}
        (branch-Ensures _ (create_in-Keeps d xs) (throw-Ensures tt (λ h k. k)))
        (λ u. create_logical_slots-Keeps ds xs)

  abbrev Justified : {A : Type 0} → A → Handler → Type 0
  Justified a h = All IsJustified h.requests

  loaded_rest-Justified :
      (xs : Slots)
      → All (λ x. Memᴰ x present) xs
      → Ensures Inv
          (drop_unwanted server wanted matchers xs >>= λ u.
            change (λ h. record h { logical = [] }) >>= λ u. sync_wanted server wanted >>= λ u.
            read (λ h. h.logical) >>= λ logical.
            create_logical_slots server (reverse (databases server logical)) (reverse logical)
            >>= λ u. change (λ h. record h { known = wanted }))
          Justified
          Justified
  loaded_rest-Justified xs a =
      follow_Ensures {Q = Justified} {X = λ e. Inv} (λ u h k. k) (λ e h k. k.0)
        (then-Ensures (drop_unwanted-Keeps xs a) (λ u.
          then-Ensures {R = λ u. Inv} (change-Ensures _ (λ h k. k)) (λ u.
            then-Ensures (sync_wanted-Keeps wanted (All-Memᴰ wanted wanted (λ x m. m))) (λ u.
              then-Ensures {R = λ l. Inv} (read-Ensures _ (λ h k. k)) (λ l.
                then-Ensures (create_logical_slots-Keeps _ (reverse l))
                  (λ u. change-Ensures _ (λ h k. k.0)))))))

  -- From the slots that were loaded.
  sync_loaded-Justified :
      Ensures
        (λ h. (h.known ≡ present) × All IsJustified h.requests)
        (sync_loaded server wanted matchers)
        Justified
        Justified
  unfolding sync_loaded
  sync_loaded-Justified =
      then-Ensures {R = λ x h. (x ≡ present) × Inv h}
        (read-Ensures _ (λ h k. (k.0, (k.1, λ n w q. subst (λ s. find_slot n s ≡ some w) k.0 q))))
        (λ x. record {
          at = λ h k.
              (loaded_rest-Justified x (
                  subst (All (λ y. Memᴰ y present)) (sym k.0)
                    (All-Memᴰ present present (λ y m. m)))).at
                h k.1;
        })

-- The slots that are wanted; where they cannot be told, there are none.
abbrev pub wanted_slots : Option Slots → Slots
wanted_slots none = []
wanted_slots (some slots) = slots

module _ (server : Server) (wanted : Option Slots) (matchers : List Fields) where
  abbrev pub NoRequest : {A : Type 0} → A → Handler → Type 0
  NoRequest a h = h.requests ≡ []

  pub load-NoRequest : Ensures (NoRequest tt) (load_replication_slots server) NoRequest NoRequest
  unfolding load_replication_slots
  load-NoRequest = then-Ensures {R = NoRequest} (read-Ensures _ (λ h k. k)) (λ s.
      branch-Ensures s
        (then-Ensures {R = NoRequest} (asked server.load) (λ l. change-Ensures _ (λ h k. k)))
        (give-Ensures tt (λ h k. k)))
    where
      asked :
          {A : Type 0} (o : Option A) → Ensures (NoRequest tt) (answer server o) NoRequest NoRequest
      asked none = throw-Ensures tt (λ h k. k)
      asked (some a) = give-Ensures a (λ h k. k)

  abbrev JustifiedBy : Slots → Handler → Type 0
  JustifiedBy present h = All (IsJustified server (wanted_slots wanted) matchers present) h.requests

  no_request-JustifiedBy : (t : Handler) → t.requests ≡ [] → JustifiedBy t.known t
  no_request-JustifiedBy t e =
      subst (All (IsJustified server (wanted_slots wanted) matchers t.known)) (sym e) tt

module _ (server : Server) (matchers : List Fields) where
  told_slots :
      (o : Option Slots) (t : Handler)
      → t.requests ≡ []
      → Ended
          (λ u. JustifiedBy server o matchers t.known)
          (λ e. JustifiedBy server o matchers t.known)
          ((answer server o >>= λ slots. sync_loaded server slots matchers) t)
  unfolding give throw ◌>>=◌
  told_slots none t e = no_request-JustifiedBy server none matchers t e
  told_slots (some wanted) t e =
      (sync_loaded-Justified server wanted matchers t.known).at t
        (refl, no_request-JustifiedBy server (some wanted) matchers t e)

module _ (server : Server) (wanted : Option Slots) (matchers : List Fields) where
  after_load :
      (r : Result (Unit {0}) (Unit {0})) (t : Handler)
      → Ended (λ u h. h.requests ≡ []) (λ e h. h.requests ≡ []) (r, t)
      → Ended
          (λ u. JustifiedBy server wanted matchers t.known)
          (λ e. JustifiedBy server wanted matchers t.known)
          (◌>>=◌
            (λ _. (r, t))
            (λ u. answer server wanted >>= λ slots. sync_loaded server slots matchers)
            t)
  unfolding ◌>>=◌
  after_load (done u) t e = told_slots server matchers wanted t e
  after_load (threw x) t e = no_request-JustifiedBy server wanted matchers t e

  recovered :
      (present : Slots) (r : Result (Unit {0}) (Unit {0})) (t : Handler)
      → Ended
          (λ u. JustifiedBy server wanted matchers present)
          (λ e. JustifiedBy server wanted matchers present)
          (r, t)
      → JustifiedBy server wanted matchers present (guarded (λ _. (r, t)) (λ e. reschedule) t).1
  unfolding guarded change
  recovered present (done u) t k = k
  recovered present (threw e) t k = k

  -- Whatever the server answers and whatever fails, each slot that is dropped is one of the server that
  -- is neither wanted nor to be ignored, or one that is wanted with another value than it has.
  pub sync_replication_slots-IsJustified :
      (h : Handler)
      → h.requests ≡ []
      → All
          (IsJustified server
            (wanted_slots wanted)
            matchers
            (load_replication_slots server h).1.known)
          (sync_replication_slots server wanted matchers h).1.requests
  unfolding sync_replication_slots sync_all guarded ◌>>=◌
  sync_replication_slots-IsJustified h e =
      recovered (load_replication_slots server h).1.known (sync_all server wanted matchers h).0
        (sync_all server wanted matchers h).1
        (after_load (load_replication_slots server h).0 (load_replication_slots server h).1
          ((load-NoRequest server wanted matchers).at h e))
