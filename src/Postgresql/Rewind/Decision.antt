-- ===== src/Postgresql/Rewind/Decision.antt =====
-- When a rewind is held to be unnecessary (patroni/postgresql/rewind.py: `_check_timeline_and_lsn`).
use mathlib.Core.List.{Memᴰ}
use pennsignals_postgres.Base.{
  Bool-cases, ltb→lt, sym, ap, ◌∙◌, ◌<◌, ℕ, ◌≤◌, String, Bool, true, false, Option, none, some,
  List, [], ◌∷◌, eqb, ltb, eqb→eq, if◌then◌else◌, ◌≡◌, ◌≢◌, refl, ◌⊎◌, inl, inr, arith, choose, All,
  is_empty, refl,
}
use pennsignals_postgres.Postgresql.Timelines.{Switch, Local, parse_history, is_beyond, need_rewind}
use pennsignals_postgres.Postgresql.Rewind.{
  status_for, not_need, need, check_lines, Checked, check_history, check_master, becomes,
  check_timeline_and_lsn, Master,
}

-- The local node did not go beyond a position: a replica did not replay more, and a former primary ended
-- with a shutdown checkpoint, whose record ends just there.
abbrev pub StaysWithin : Local → ℕ → Type 0
StaysWithin l p =
    ((l.in_recovery ≡ true) × (l.lsn ≤ p))
    ⊎ ((l.in_recovery ≡ false) × ((l.lsn < p) × (l.checkpoint_end ≡ p)))

-- The local node did not go beyond a switch of its own timeline in the history.
abbrev pub Shares : Local → List Switch → Type 0
Shares l history =
    (s : Switch) × (Memᴰ s history
      × ((s.parent_timeline ≡ l.timeline) × StaysWithin l s.switchpoint))

-- No switch of the local timeline stands in the history before one of a later timeline.
abbrev pub Misses : Local → List Switch → Type 0
Misses l [] = Unit
Misses l (s ∷ history) =
    (s.parent_timeline ≢ l.timeline) × ((l.timeline < s.parent_timeline) ⊎ Misses l history)

not_beyond : (l : Local) (p : ℕ) → is_beyond l p ≡ false → StaysWithin l p
unfolding is_beyond
not_beyond l p h = elim (Bool-cases l.in_recovery) [
  | inl r ↦ inl (r, within_recovery (first_case r))
  | inr r ↦ inr (r, outside r)
]
  where
    first_case : l.in_recovery ≡ true → ltb p l.lsn ≡ false
    first_case r = ground arith

    within_recovery : ltb p l.lsn ≡ false → l.lsn ≤ p
    within_recovery e = ground arith

    outside : l.in_recovery ≡ false → (l.lsn < p) × (l.checkpoint_end ≡ p)
    outside r = (ground arith, ground arith)

chosen :
    (b c x : Bool) (r : Option Bool)
    → (if b then some x else if c then none else r) ≡ some false
    → ((b ≡ true) × (x ≡ false)) ⊎ (r ≡ some false)
chosen true c x r h = inl (refl, cc)
chosen false true x r h = cc
chosen false false x r h = inr h

need_rewind-Shares :
    (l : Local) (history : List Switch) → need_rewind l history ≡ some false → Shares l history
unfolding need_rewind
need_rewind-Shares l [] h = cc
need_rewind-Shares l (s ∷ history) h =
    elim (chosen (eqb s.parent_timeline l.timeline) (ltb l.timeline s.parent_timeline) _ _ h) [
      | inl (e, b) ↦ (
        s,
        (Memᴰ.head refl, (eqb→eq s.parent_timeline l.timeline e, not_beyond l s.switchpoint b)),
      )
      | inr r ↦ let (t, (m, q)) = need_rewind-Shares l history r in (t, (Memᴰ.tail m, q))
    ]

unchosen :
    (b c x : Bool) (r : Option Bool)
    → (if b then some x else if c then none else r) ≡ none
    → (b ≡ false) × ((c ≡ true) ⊎ (r ≡ none))
unchosen true c x r h = cc
unchosen false true x r h = (refl, inl refl)
unchosen false false x r h = (refl, inr h)

need_rewind-Misses :
    (l : Local) (history : List Switch) → need_rewind l history ≡ none → Misses l history
unfolding need_rewind
need_rewind-Misses l [] h = tt
need_rewind-Misses l (s ∷ history) h =
    let (e, q) =
      unchosen (eqb s.parent_timeline l.timeline) (ltb l.timeline s.parent_timeline) _ _ h in
    (
      λ t. other e t,
      elim q [
        | inl k ↦ inl (ltb→lt l.timeline s.parent_timeline k)
        | inr r ↦ inr (need_rewind-Misses l history r)
      ],
    )
  where
    other : eqb s.parent_timeline l.timeline ≡ false → s.parent_timeline ≡ l.timeline → ⊥
    other e t = ground arith

-- The history says nothing of a timeline that it does not have.
need_rewind-none :
    (l : Local) (history : List Switch)
    → All (λ s. s.parent_timeline ≢ l.timeline) history
    → need_rewind l history ≡ none
unfolding need_rewind
need_rewind-none l [] h = refl
need_rewind-none l (s ∷ history) h =
    choose (λ x. x ≡ none) (eqb s.parent_timeline l.timeline) _ _
      (λ e. absurd (h.0 (eqb→eq s.parent_timeline l.timeline e)))
      (λ e.
        choose (λ x. x ≡ none) (ltb l.timeline s.parent_timeline) _ _ (λ t. refl)
          (λ t. need_rewind-none l history h.1))

-- What is so when a check comes to the state `not_need`. Which case it is does not show in the state.
abbrev pub IsHarmless : Local → Master → Type 0
IsHarmless l m =
    (m.identify_system ≡ some l.timeline)
    ⊎ ((t : ℕ) × ((m.identify_system ≡ some t)
          × ((t ≤ 1)
              ⊎ ((text : String) × ((m.timeline_history t ≡ some text)
                    × (Misses l (parse_history text) ⊎ Shares l (parse_history text)))))))

decided :
    (o : Option Bool) → becomes (status_for o) ≡ becomes not_need → (o ≡ none) ⊎ (o ≡ some false)
decided none h = inl refl
decided (some true) h = cc
decided (some false) h = inr refl

check_lines-Shares :
    (l : Local) (history : List Switch)
    → check_lines l history ≡ becomes not_need
    → Misses l history ⊎ Shares l history
check_lines-Shares l [] h = cc
check_lines-Shares l (s ∷ history) h = elim (decided (need_rewind l (s ∷ history)) h) [
  | inl n ↦ inl (need_rewind-Misses l (s ∷ history) n)
  | inr f ↦ inr (need_rewind-Shares l (s ∷ history) f)
]

abbrev Reads : Local → Option String → Type 0
Reads l o =
    (text : String) × ((o ≡ some text)
      × (Misses l (parse_history text) ⊎ Shares l (parse_history text)))

check_history-Shares :
    (l : Local) (o : Option String) → check_history l o ≡ becomes not_need → Reads l o
check_history-Shares l none h = cc
check_history-Shares l (some text) h = (text, (refl, check_lines-Shares l (parse_history text) h))

-- The comparison of the two timelines, by its tests.
compared :
    (ahead same later : Bool) (history : Checked)
    → (if ahead
        then becomes need
        else if same
        then becomes not_need
        else if later
        then history
        else becomes not_need)
      ≡ becomes not_need
    → (same ≡ true) ⊎ ((later ≡ false) ⊎ (history ≡ becomes not_need))
compared true same later history h = cc
compared false true later history h = inl refl
compared false false true history h = inr (inr h)
compared false false false history h = inr (inl refl)

check_master-IsHarmless :
    (l : Local) (m : Master) (o : Option ℕ)
    → m.identify_system ≡ o
    → check_master l m o ≡ becomes not_need
    → IsHarmless l m
check_master-IsHarmless l m none e h = cc
check_master-IsHarmless l m (some t) e h =
    elim (compared (ltb t l.timeline) (eqb l.timeline t) (ltb 1 t)
      (check_history l (m.timeline_history t)) h) [
        | inl q ↦ inl (e ∙ ap some (sym (eqb→eq l.timeline t q)))
        | inr (inl k) ↦ inr (t, (e, inl (ground arith)))
        | inr (inr c) ↦ inr (t, (e, inr (check_history-Shares l (m.timeline_history t) c)))
      ]

-- Where a check holds a rewind to be unnecessary, the local timeline is the master's, or the master is on
-- the first timeline, or a switch of the local timeline stands in the master's history that a replica did
-- not replay beyond, and where the shutdown checkpoint of a former primary ends, or no such switch stands
-- there before one of a later timeline.
pub check_timeline_and_lsn-IsHarmless :
    (l : Local) (is_master : Bool) (m : Master)
    → check_timeline_and_lsn (some l) is_master m ≡ becomes not_need
    → IsHarmless l m
unfolding check_timeline_and_lsn
check_timeline_and_lsn-IsHarmless l false m h = cc
check_timeline_and_lsn-IsHarmless l true m h = check_master-IsHarmless l m m.identify_system refl h

unlisted :
    (l : Local) (history : List Switch)
    → is_empty history ≡ false
    → All (λ s. s.parent_timeline ≢ l.timeline) history
    → check_lines l history ≡ becomes not_need
unlisted l [] e h = cc
unlisted l (s ∷ history) e h = ap (λ o. becomes (status_for o)) (need_rewind-none l (s ∷ history) h)

-- A node whose timeline is no ancestor of the master's, and so has diverged, is held not to need a
-- rewind, however far it went: the loop over the history ends without a verdict, which counts as a
-- negative one.
pub check_timeline_and_lsn-absent :
    (l : Local) (m : Master) (t : ℕ) (text : String)
    → m.identify_system ≡ some t
    → m.timeline_history t ≡ some text
    → l.timeline < t
    → is_empty (parse_history text) ≡ false
    → All (λ s. s.parent_timeline ≢ l.timeline) (parse_history text)
    → check_timeline_and_lsn (some l) true m ≡ becomes not_need
unfolding check_timeline_and_lsn
check_timeline_and_lsn-absent l m t text i h k e a =
    rw (i, h)
      (choose (λ x. x ≡ becomes not_need) (ltb t l.timeline) _ _ (λ c. absurd (ground arith))
        (λ c.
          choose (λ x. x ≡ becomes not_need) (eqb l.timeline t) _ _ (λ d. refl)
            (λ d.
              choose (λ x. x ≡ becomes not_need) (ltb 1 t) _ _
                (λ b. unlisted l (parse_history text) e a) (λ b. refl))))
