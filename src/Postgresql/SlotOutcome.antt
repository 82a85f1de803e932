-- ===== src/Postgresql/SlotOutcome.antt =====
-- What the handler of slots knows after a synchronization (patroni/postgresql/slots.py:
-- `sync_replication_slots`).
use mathlib.Core.List.{reverse}
use pennsignals_postgres.Base.{
  String, true, Option, none, some, List, [], ◌∷◌, Bool, All, ◌≡◌, refl, sym, subst, ap, ◌∙◌, ◌⊎◌,
  inl, inr,
}
use pennsignals_postgres.Base.Fallible.{Result, done, threw, Method, give, change, branch, ◌>>=◌}
use pennsignals_postgres.Base.Hoare.{
  Ended, Ensures, weaken_Ensures, give-Ensures, throw-Ensures, read-Ensures, change-Ensures,
  branch-Ensures, cases_Ensures, then-Ensures, guarded-Ensures, follow_Ensures,
}
use pennsignals_postgres.Json.{Fields}
use pennsignals_postgres.Dcs.Slots.{Slots}
use pennsignals_postgres.Postgresql.SlotSync.{
  Request, drop_slot, create_physical_slot, create_logical_slot, Server, Handler, reschedule, note,
  answer, drop_replication_slot, drop_unwanted, create, sync_present, sync_wanted, create_in,
  create_logical_slots, sync_loaded, sync_all, sync_replication_slots,
}
use pennsignals_postgres.Postgresql.SlotDrops.{load-NoRequest}

module _ (server : Server) where
  -- The server did what was asked.
  abbrev pub Succeeded : Request → Type 0
  Succeeded (drop_slot n) = server.drop n ≡ some true
  Succeeded (create_physical_slot n) = server.create_physical n ≡ true
  Succeeded (create_logical_slot n) = server.create_logical n ≡ true

  -- No request failed, or the slots will be loaded again.
  abbrev Noted : Handler → Type 0
  Noted h = All Succeeded h.requests ⊎ (h.scheduled ≡ true)

  -- A method that keeps this if it returns.
  abbrev Keeps : {A : Type 0} → Method Handler (Unit {0}) A → Type 0
  Keeps m = Ensures Noted m (λ a. Noted) (λ e h. Unit {0})

  nothing_Keeps : Keeps (give tt)
  nothing_Keeps = give-Ensures tt (λ h k. k)

  asked : (r : Request) (h : Handler) → Noted h → Succeeded r → Noted (note r h)
  asked r h (inl a) s = inl (s, a)
  asked r h (inr e) s = inr e

  -- The change that a failed request leaves.
  failed_Noted : {P : Handler → Type 0} → Ensures P reschedule (λ a. Noted) (λ e h. Unit {0})
  failed_Noted = change-Ensures _ (λ h k. inr refl)

  ask-Keeps :
      (r : Request) (works : Bool)
      → (works ≡ true → Succeeded r)
      → Keeps (change (note r) >>= λ u. branch works (give tt) reschedule)
  ask-Keeps r works f =
      then-Ensures {R = λ u h. Succeeded r → Noted h} (change-Ensures _ (λ h k. asked r h k))
        (λ u. cases_Ensures works (λ e. give-Ensures tt (λ h k. k (f e))) (λ e. failed_Noted))

  answer-Noted :
      (n : String) (o : Option Bool)
      → server.drop n ≡ o
      → Ensures
          (λ h. Succeeded (drop_slot n) → Noted h)
          (answer server o)
          (λ d h. d ≡ true → Noted h)
          (λ e h. Unit {0})
  answer-Noted n none e = throw-Ensures tt (λ h k. tt)
  answer-Noted n (some d) e = give-Ensures d (λ h k t. k (e ∙ ap (λ x. some x) t))

  -- A slot that is dropped, and what is done after.
  drop-Keeps :
      (n : String) (m : Method Handler (Unit {0}) (Unit {0}))
      → Keeps m
      → Keeps (drop_replication_slot server n >>= λ d. branch d m reschedule)
  unfolding drop_replication_slot
  drop-Keeps n m k =
      then-Ensures {R = λ d h. d ≡ true → Noted h}
        (then-Ensures {R = λ u h. Succeeded (drop_slot n) → Noted h}
          (change-Ensures _ (λ h k. asked (drop_slot n) h k))
          (λ u. answer-Noted n (server.drop n) refl))
        (λ d. cases_Ensures d (λ e. weaken_Ensures (λ h f. f e) k) (λ e. failed_Noted))

  drop_unwanted-Keeps :
      (wanted : Slots) (matchers : List Fields) (xs : Slots)
      → Keeps (drop_unwanted server wanted matchers xs)
  drop_unwanted-Keeps wanted matchers [] = nothing_Keeps
  drop_unwanted-Keeps wanted matchers ((n, slot) ∷ xs) =
      then-Ensures {R = λ u. Noted}
        (branch-Ensures _ nothing_Keeps (drop-Keeps n (give tt) nothing_Keeps))
        (λ u. drop_unwanted-Keeps wanted matchers xs)

  create-Keeps : (n : String) (v : Fields) → Keeps (create server n v)
  create-Keeps n v =
      branch-Ensures _ (ask-Keeps (create_physical_slot n) (server.create_physical n) (λ e. e))
        (branch-Ensures _ (change-Ensures _ (λ h k. k)) nothing_Keeps)

  sync_present-Keeps :
      (n : String) (v : Fields) (o : Option Fields) → Keeps (sync_present server n v o)
  sync_present-Keeps n v none = create-Keeps n v
  sync_present-Keeps n v (some old) = branch-Ensures _ nothing_Keeps (
      drop-Keeps n _
        (then-Ensures {R = λ u. Noted} (change-Ensures _ (λ h k. k)) (λ u. create-Keeps n v)))

  sync_wanted-Keeps : (xs : Slots) → Keeps (sync_wanted server xs)
  sync_wanted-Keeps [] = nothing_Keeps
  sync_wanted-Keeps ((n, v) ∷ xs) =
      then-Ensures {R = λ u. Noted}
        (then-Ensures {R = λ o. Noted} (read-Ensures _ (λ h k. k)) (λ o. sync_present-Keeps n v o))
        (λ u. sync_wanted-Keeps xs)

  create_in-Keeps : (database : String) (xs : Slots) → Keeps (create_in server database xs)
  create_in-Keeps database [] = nothing_Keeps
  create_in-Keeps database ((n, v) ∷ xs) =
      then-Ensures {R = λ u. Noted}
        (branch-Ensures _ (ask-Keeps (create_logical_slot n) (server.create_logical n) (λ e. e))
          nothing_Keeps)
        (λ u. create_in-Keeps database xs)

  create_logical_slots-Keeps :
      (ds : List String) (xs : Slots) → Keeps (create_logical_slots server ds xs)
  create_logical_slots-Keeps [] xs = nothing_Keeps
  create_logical_slots-Keeps (d ∷ ds) xs =
      then-Ensures {R = λ u. Noted}
        (branch-Ensures _ (create_in-Keeps d xs) (throw-Ensures tt (λ h k. tt)))
        (λ u. create_logical_slots-Keeps ds xs)

  -- The slots are known and no request failed, or they will be loaded again.
  abbrev pub IsSettled : Option Slots → Handler → Type 0
  IsSettled none h = h.scheduled ≡ true
  IsSettled (some wanted) h = (All Succeeded h.requests × (h.known ≡ wanted)) ⊎ (h.scheduled ≡ true)

  settle :
      (wanted : Slots) (h : Handler)
      → Noted h
      → IsSettled (some wanted) (record h { known = wanted })
  settle wanted h (inl a) = inl (a, refl)
  settle wanted h (inr e) = inr e

  sync_loaded-IsSettled :
      (wanted : Slots) (matchers : List Fields)
      → Ensures Noted
          (sync_loaded server wanted matchers)
          (λ u. IsSettled (some wanted))
          (λ e h. Unit {0})
  unfolding sync_loaded
  sync_loaded-IsSettled wanted matchers =
      then-Ensures {R = λ l. Noted} (read-Ensures _ (λ h k. k)) (λ present.
        then-Ensures (drop_unwanted-Keeps wanted matchers present) (λ u.
          then-Ensures {R = λ u. Noted} (change-Ensures _ (λ h k. k)) (λ u.
            then-Ensures (sync_wanted-Keeps wanted) (λ u.
              then-Ensures {R = λ l. Noted} (read-Ensures _ (λ h k. k)) (λ l.
                then-Ensures (create_logical_slots-Keeps _ (reverse l))
                  (λ u. change-Ensures _ (λ h k. settle wanted h k)))))))

  told_slots :
      (o : Option Slots) (matchers : List Fields)
      → Ensures Noted
          (answer server o >>= λ slots. sync_loaded server slots matchers)
          (λ u. IsSettled o)
          (λ e h. Unit {0})
  told_slots none matchers =
      then-Ensures {R = λ s h. ⊥} (throw-Ensures tt (λ h k. tt))
        (λ s. record { at = λ h k. absurd k })
  told_slots (some wanted) matchers =
      then-Ensures {R = λ s h. (s ≡ wanted) × Noted h} (give-Ensures wanted (λ h k. (refl, k)))
        (λ s. record {
          at = λ h k.
              subst
                (λ x.
                  Ended (λ u. IsSettled (some wanted)) (λ e h. Unit {0})
                    (sync_loaded server x matchers h))
                (sym k.0) ((sync_loaded-IsSettled wanted matchers).at h k.1);
        })

  failed : (o : Option Slots) → Ensures (λ h. Unit {0}) reschedule (λ u. IsSettled o) (λ e h. ⊥)
  failed none = change-Ensures _ (λ h k. refl)
  failed (some wanted) = change-Ensures _ (λ h k. inr refl)

  sync-IsSettled :
      (wanted : Option Slots) (matchers : List Fields)
      → Ensures
          (λ h. h.requests ≡ [])
          (sync_replication_slots server wanted matchers)
          (λ u. IsSettled wanted)
          (λ e h. ⊥)
  unfolding sync_replication_slots sync_all
  sync-IsSettled wanted matchers =
      guarded-Ensures {Y = λ e h. Unit {0}}
        (then-Ensures
          (follow_Ensures {Q = λ u h. h.requests ≡ []} {X = λ e h. h.requests ≡ []}
            (λ u h k. inl (subst (All Succeeded) (sym k) tt)) (λ e h k. tt)
            (load-NoRequest server wanted matchers))
          (λ u. told_slots wanted matchers))
        (λ e. failed wanted)

  returned :
      (wanted : Option Slots) (r : Result (Unit {0}) (Unit {0})) (t : Handler)
      → Ended (λ u. IsSettled wanted) (λ e h. ⊥) (r, t)
      → (r ≡ done tt) × IsSettled wanted t
  returned wanted (done u) t k = (refl, k)
  returned wanted (threw e) t k = elim k [ ]

  -- A synchronization raises no exception, and after it either the slots will be loaded from the server
  -- again, or the handler takes the wanted slots for those of the server and none of its requests failed.
  pub sync_replication_slots-IsSettled :
      (wanted : Option Slots) (matchers : List Fields) (h : Handler)
      → h.requests ≡ []
      → ((sync_replication_slots server wanted matchers h).0 ≡ done tt)
        × IsSettled wanted (sync_replication_slots server wanted matchers h).1
  sync_replication_slots-IsSettled wanted matchers h e =
      returned wanted (sync_replication_slots server wanted matchers h).0
        (sync_replication_slots server wanted matchers h).1
        ((sync-IsSettled wanted matchers).at h e)
