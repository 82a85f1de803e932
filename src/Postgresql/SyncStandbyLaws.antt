-- ===== src/Postgresql/SyncStandbyLaws.antt =====
-- How many synchronous standbys are picked, and which (patroni/postgresql/__init__.py:
-- `pick_synchronous_standby`).
use mathlib.Core.List.{◌∷◌, List, Memᴰ}
use pennsignals_postgres.Base.{
  sym, ap, subst, ◌⊎◌, arith, suc, max, ◌+◌, Bool, ℕ, length, ◌≤◌, choose, true, false, suc, max,
  Bool, ℕ, List, [], ◌∷◌, String, All, ◌≡◌, refl, arith, leb, ltb, if◌then◌else◌, ◌+◌, Option, none,
  some, inl, inr,
}
use pennsignals_postgres.Base.Int.{ℤ}
use pennsignals_postgres.Json.{get, truthy, lower, codes, same_codes}
use pennsignals_postgres.Dcs.{Member, tags}
use pennsignals_postgres.Postgresql.SyncStandby.{
  later_or, find_member, replica_of, find_member, Replica, Row, collect, pick_synchronous_standby,
  replica_list, is_near, max_lsn,
}

length-collect :
    (count : ℕ) (near : Replica → Bool) (found : ℕ) (rs : List Replica)
    → found + length (collect count near found rs).0 ≤ max (suc found) count
unfolding collect
length-collect count near found [] = omega arith
length-collect count near found (r ∷ rs) =
    choose (λ (x : List String × List String). found + length x.0 ≤ max (suc found) count) (near r)
      _ _
      (λ n.
        choose (λ (x : List String × List String). found + length x.0 ≤ max (suc found) count)
          (leb count (suc found)) _ _ (λ e. omega arith)
          (λ e. let i = length-collect count near (suc found) rs in ground arith))
      (λ n.
        choose (λ (x : List String × List String). found + length x.0 ≤ max (suc found) count)
          (leb count found) _ _ (λ e. omega arith) (λ e. length-collect count near found rs))

-- At most as many standbys are picked as are asked for, or one, and one alone before version 9.6.
pub length-pick_synchronous_standby :
    (version : ℕ) (ms : List Member) (rows : List Row) (last count : ℕ) (maxlag : ℤ)
    → length (pick_synchronous_standby version ms rows last count maxlag).0
      ≤ max 1 (if ltb version 90600 then 1 else count)
unfolding pick_synchronous_standby
length-pick_synchronous_standby version ms rows last count maxlag = omega (
  arith,
  length-collect (if ltb version 90600 then 1 else count)
      (is_near maxlag (max_lsn (replica_list ms rows) last)) 0 (replica_list ms rows),
)

-- A replica of the list that passes the test.
abbrev Passes : (Replica → Bool) → List Replica → String → Type 0
Passes near rs n = (r : Replica) × (Memᴰ r rs × ((r.name ≡ n) × (near r ≡ true)))

All-weaken :
    (near : Replica → Bool) (r : Replica) (rs : List Replica) (names : List String)
    → All (Passes near rs) names
    → All (Passes near (r ∷ rs)) names
All-weaken near r rs [] h = tt
All-weaken near r rs (n ∷ names) h =
    let (q, (m, e)) = h.0 in ((q, (Memᴰ.tail m, e)), All-weaken near r rs names h.1)

collect-Passes :
    (count : ℕ) (near : Replica → Bool) (found : ℕ) (rs : List Replica)
    → All (Passes near rs) (collect count near found rs).0
unfolding collect
collect-Passes count near found [] = tt
collect-Passes count near found (r ∷ rs) =
    choose (λ (x : List String × List String). All (Passes near (r ∷ rs)) x.0) (near r) _ _
      (λ n.
        choose (λ (x : List String × List String). All (Passes near (r ∷ rs)) x.0)
          (leb count (suc found)) _ _ (λ e. ((r, (Memᴰ.head refl, (refl, n))), tt))
          (λ e. (
            (r, (Memᴰ.head refl, (refl, n))),
            All-weaken near r rs _ (collect-Passes count near (suc found) rs),
          )))
      (λ n.
        choose (λ (x : List String × List String). All (Passes near (r ∷ rs)) x.0) (leb count found)
          _ _ (λ e. tt) (λ e. All-weaken near r rs _ (collect-Passes count near found rs)))

-- A member that may be a synchronous standby.
abbrev pub IsEligible : List Member → String → Type 0
IsEligible ms n =
    (m : Member) × (Memᴰ m ms × ((m.name ≡ n) × (truthy (get "nosync" (tags m)) ≡ false)))

later_or-some :
    (o : Option Member) (b : Bool) (x m : Member) → later_or o b x ≡ some m → (o ≡ some m) ⊎ (m ≡ x)
later_or-some (some n) b x m h = inl h
later_or-some none true x m h = inr cc
later_or-some none false x m h = cc

found_member :
    (name : String) (ms : List Member) (m : Member) → find_member name ms ≡ some m → Memᴰ m ms
unfolding find_member
found_member name [] m h = cc
found_member name (x ∷ ms) m h =
    elim (later_or-some (find_member name ms) (same_codes (lower (codes x.name)) (codes name)) x m
      h) [ inl e ↦ Memᴰ.tail (found_member name ms m e) | inr e ↦ Memᴰ.head e ]

unless_nosync :
    (b : Bool) (r x : Replica) (rest : List Replica)
    → Memᴰ r (if b then rest else x ∷ rest)
    → ((b ≡ false) × (r ≡ x)) ⊎ Memᴰ r rest
unless_nosync true r x rest q = inr q
unless_nosync false r x rest (Memᴰ.head e) = inl (refl, e)
unless_nosync false r x rest (Memᴰ.tail q) = inr q

replica_of-Memᴰ :
    (ms : List Member) (o : Option Member) (row : Row) (r : Replica) (rest : List Replica)
    → ((m : Member) → o ≡ some m → Memᴰ m ms)
    → Memᴰ r (replica_of o row rest)
    → IsEligible ms r.name ⊎ Memᴰ r rest
replica_of-Memᴰ ms none row r rest h q = inr q
replica_of-Memᴰ ms (some m) row r rest h q =
    elim (unless_nosync (truthy (get "nosync" (tags m))) r _ rest q) [
      | inl (b, e) ↦ inl (m, (h m refl, (ap (λ x. x.name) (sym e), b)))
      | inr k ↦ inr k
    ]

listed_IsEligible :
    (ms : List Member) (rows : List Row) (r : Replica)
    → Memᴰ r (replica_list ms rows)
    → IsEligible ms r.name
unfolding replica_list
listed_IsEligible ms [] r q = elim q [ ]
listed_IsEligible ms (row ∷ rows) r q =
    elim (replica_of-Memᴰ ms (find_member row.application_name ms) row r (replica_list ms rows)
      (λ m e. found_member row.application_name ms m e) q) [
        | inl e ↦ e
        | inr k ↦ listed_IsEligible ms rows r k
      ]

Passes-IsEligible :
    (near : Replica → Bool) (ms : List Member) (rows : List Row) (names : List String)
    → All (Passes near (replica_list ms rows)) names
    → All (IsEligible ms) names
Passes-IsEligible near ms rows [] h = tt
Passes-IsEligible near ms rows (n ∷ names) h =
    let (r, (m, e)) = h.0 in
    (
      subst (IsEligible ms) e.0 (listed_IsEligible ms rows r m),
      Passes-IsEligible near ms rows names h.1,
    )

-- Only members are picked that do not ask to be left out, whatever streams from this node.
pub pick_synchronous_standby-IsEligible :
    (version : ℕ) (ms : List Member) (rows : List Row) (last count : ℕ) (maxlag : ℤ)
    → All (IsEligible ms) (pick_synchronous_standby version ms rows last count maxlag).0
unfolding pick_synchronous_standby
pick_synchronous_standby-IsEligible version ms rows last count maxlag =
    Passes-IsEligible (is_near maxlag (max_lsn (replica_list ms rows) last)) ms rows _
      (collect-Passes (if ltb version 90600 then 1 else count) _ 0 (replica_list ms rows))
