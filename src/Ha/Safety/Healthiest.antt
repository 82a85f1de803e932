-- ===== src/Ha/Safety/Healthiest.antt =====
-- The verdicts of the leader race (patroni/ha.py: `_is_healthiest_node`, `is_failover_possible`).
use pennsignals_postgres.Base.{
  is_some, inl, inr, Option-cases, ℕ, ◌≤◌, Bool, true, false, if◌then◌else◌, none, List, [], ◌∷◌,
  ◌≡◌, refl, ◌⊎◌, All, ltb, arith,
}
use pennsignals_postgres.Dcs.{SyncState, is_name}
use pennsignals_postgres.Ha.Status.{MemberStatus, failover_limitation, disqualifies, wins_against}

-- A replica that is not ahead, unless its lead does not count in synchronous mode.
abbrev pub NotAhead : ℕ → Bool → SyncState → MemberStatus → Type 0
NotAhead wal sync_mode sync st =
    (st.in_recovery ≡ true)
    × ((st.wal_position ≤ wal) ⊎ ((sync_mode ≡ true) × (is_name sync.leader st.member.name ≡ true)))

-- A status that does not stop this node: of a member that cannot be promoted, or that is not ahead.
abbrev pub Beaten : ℕ → Bool → SyncState → MemberStatus → Type 0
Beaten wal sync_mode sync st =
    (is_some (failover_limitation st) ≡ true) ⊎ NotAhead wal sync_mode sync st

ltb-le : (a b : ℕ) → ltb a b ≡ false → b ≤ a
ltb-le a b h = ground arith

disqualifies-NotAhead :
    (wal : ℕ) (sync_mode : Bool) (sync : SyncState) (st : MemberStatus)
    → disqualifies wal sync_mode sync st ≡ false
    → failover_limitation st ≡ none
    → NotAhead wal sync_mode sync st
unfolding disqualifies
disqualifies-NotAhead wal sync_mode sync st h k = ground arith

disqualifies-Beaten :
    (wal : ℕ) (sync_mode : Bool) (sync : SyncState) (st : MemberStatus)
    → disqualifies wal sync_mode sync st ≡ false
    → Beaten wal sync_mode sync st
disqualifies-Beaten wal sync_mode sync st h = elim (Option-cases (failover_limitation st)) [
  | inl k ↦ inr (disqualifies-NotAhead wal sync_mode sync st h k)
  | inr (reason, k) ↦ inl (rw k)
]

-- A node that wins against all statuses has been told by no eligible member that it is a master,
-- and by none that it is ahead, but for the old leader of a synchronous cluster.
pub wins_against-Beaten :
    (wal : ℕ) (sync_mode : Bool) (sync : SyncState) (sts : List MemberStatus)
    → wins_against wal sync_mode sync sts ≡ true
    → All (Beaten wal sync_mode sync) sts
unfolding wins_against
wins_against-Beaten wal sync_mode sync [] h = tt
wins_against-Beaten wal sync_mode sync (st ∷ sts) h =
    let (d, rest) = split (disqualifies wal sync_mode sync st) h in
    (disqualifies-Beaten wal sync_mode sync st d, wins_against-Beaten wal sync_mode sync sts rest)
  where
    split : (d : Bool) {w : Bool} → (if d then false else w) ≡ true → (d ≡ false) × (w ≡ true)
    split true p = cc
    split false p = (refl, p)
