-- ===== src/Dcs/Clone.antt =====
-- `Cluster.get_clone_member` (patroni/dcs/__init__.py): where a new replica is copied from.
use mathlib.Core.List.{Memᴰ}
use mathlib.Core.Option.{some-injective}
use pennsignals_postgres.Base.{
  ap, choose, Option, not, ◌&&◌, subst, arith, ℕ, zero, suc, String, Bool, true, false, none, some,
  List, [], ◌∷◌, ◌≡◌, refl, keep, contains, is_empty, if◌then◌else◌,
}
use pennsignals_postgres.Dcs.{Member, Leader, Cluster, clonefrom, is_running}
use pennsignals_postgres.Dcs.View.{
  Node, a_remote, the_leader, a_member, get_clone_member, clone_candidates, nth,
}

nth-keep :
    (p : Member → Bool) (ms : List Member) (i : ℕ) (m : Member)
    → nth (keep p ms) i ≡ some m
    → p m ≡ true
nth-keep p [] i m h = cc
nth-keep p (x ∷ xs) i m h = by_test (λ j q. nth-keep p xs j m q) (p x) i refl h
  where
    by_test :
        ((j : ℕ) → nth (keep p xs) j ≡ some m → p m ≡ true)
        → (b : Bool) (j : ℕ) → p x ≡ b
        → nth (if b then x ∷ keep p xs else keep p xs) j ≡ some m
        → p m ≡ true
    by_test rest true zero e q = cc
    by_test rest true (suc j) e q = rest j q
    by_test rest false j e q = rest j q

all_three : (a b c : Bool) → (a && b && not c) ≡ true → (a ≡ true) × ((b ≡ true) × (c ≡ false))
all_three a b c h = ground arith

-- A running member that offers itself and is neither the node nor the leader.
abbrev pub is_suitable : String → Leader → Member → Bool
is_suitable me l m = clonefrom m && is_running m && not (contains (me ∷ l.member.name ∷ []) m.name)

abbrev pub IsChosen : Cluster → String → Leader → Node → Type 0
IsChosen c me l (a_member m) = Memᴰ m c.members × (is_suitable me l m ≡ true)
IsChosen c me l (the_leader d) =
    (d ≡ l) × ((m : Member) → Memᴰ m c.members → is_suitable me l m ≡ false)
IsChosen c me l (a_remote m) = ⊥

Memᴰ-keep :
    (p : Member → Bool) (ms : List Member) (m : Member)
    → Memᴰ m ms
    → p m ≡ true
    → Memᴰ m (keep p ms)
Memᴰ-keep p [] m k h = elim k [ ]
Memᴰ-keep p (x ∷ xs) m (Memᴰ.head e) h =
    choose (Memᴰ m) (p x) (x ∷ keep p xs) (keep p xs) (λ t. Memᴰ.head e) (λ t. let q = ap p e in cc)
Memᴰ-keep p (x ∷ xs) m (Memᴰ.tail k) h =
    choose (Memᴰ m) (p x) (x ∷ keep p xs) (keep p xs) (λ t. Memᴰ.tail (Memᴰ-keep p xs m k h))
      (λ t. Memᴰ-keep p xs m k h)

keep-Memᴰ :
    (p : Member → Bool) (ms : List Member) (i : ℕ) (m : Member)
    → nth (keep p ms) i ≡ some m
    → Memᴰ m ms
keep-Memᴰ p [] i m h = cc
keep-Memᴰ p (x ∷ xs) i m h = by_test (λ j q. keep-Memᴰ p xs j m q) (p x) i h
  where
    by_test :
        ((j : ℕ) → nth (keep p xs) j ≡ some m → Memᴰ m xs)
        → (b : Bool) (j : ℕ) → nth (if b then x ∷ keep p xs else keep p xs) j ≡ some m
        → Memᴰ m (x ∷ xs)
    by_test rest true zero q = Memᴰ.head cc
    by_test rest true (suc j) q = Memᴰ.tail (rest j q)
    by_test rest false j q = Memᴰ.tail (rest j q)

none_kept :
    (p : Member → Bool) (ms : List Member) (m : Member)
    → is_empty (keep p ms) ≡ true
    → Memᴰ m ms
    → (b : Bool) → p m ≡ b
    → b ≡ false
none_kept p ms m e k false q = refl
none_kept p ms m e k true q = absurd (nothing (keep p ms) e (Memᴰ-keep p ms m k q))
  where
    nothing : (xs : List Member) → is_empty xs ≡ true → Memᴰ m xs → ⊥
    nothing [] e k = elim k [ ]
    nothing (x ∷ xs) e k = cc

chosen :
    (c : Cluster) (me : String) (l : Leader) (pick : ℕ) (n : Node)
    → (b : Bool) → is_empty (keep (is_suitable me l) c.members) ≡ b
    → (if b then some (the_leader l) else elim (nth (keep (is_suitable me l) c.members) pick) [
      | none ↦ none
      | some m ↦ some (a_member m)
    ])
      ≡ some n
    → IsChosen c me l n
chosen c me l pick n true e h =
    subst (IsChosen c me l) (some-injective _ _ h)
      (refl, λ m k. none_kept (is_suitable me l) c.members m e k _ refl)
chosen c me l pick n false e h = picked (nth (keep (is_suitable me l) c.members) pick) refl h
  where
    picked :
        (o : Option Member)
        → nth (keep (is_suitable me l) c.members) pick ≡ o
        → elim o [ none ↦ none | some m ↦ some (a_member m) ] ≡ some n
        → IsChosen c me l n
    picked none q h = cc
    picked (some m) q h = subst (IsChosen c me l) (some-injective _ _ h) (
      keep-Memᴰ (is_suitable me l) c.members pick m q,
      nth-keep (is_suitable me l) c.members pick m q,
    )

-- What is chosen, by what is known of the leader.
abbrev choice_for : Cluster → String → ℕ → Option Leader → Option Node
choice_for c me pick o =
    let exclude : List String = elim o [ none ↦ [] | some l ↦ me ∷ l.member.name ∷ [] ] in
    let candidates =
      keep (λ m. clonefrom m && is_running m && not (contains exclude m.name)) c.members in
    if is_empty candidates
    then elim o [ none ↦ none | some l ↦ some (the_leader l) ]
    else elim (nth candidates pick) [ none ↦ none | some m ↦ some (a_member m) ]

-- While the leader is known, a replica is copied from a member of the cluster that runs, offers itself and
-- is neither the node nor the leader, or from the leader, if there is no such member.
pub get_clone_member-IsChosen :
    (c : Cluster) (me : String) (pick : ℕ) (l : Leader) (n : Node)
    → c.leader ≡ some l
    → get_clone_member c me pick ≡ some n
    → IsChosen c me l n
unfolding get_clone_member clone_candidates
get_clone_member-IsChosen c me pick l n e h =
    chosen c me l pick n _ refl (subst (λ o. choice_for c me pick o ≡ some n) e h)
