-- ===== src/Executor/Ending.antt =====
-- The threads of an executor come to an end (patroni/async_executor.py).
use pennsignals_postgres.Base.{
  ℕ, Bool, zero, suc, ◌+◌, ◌*◌, ◌≤◌, true, false, ◌≡◌, refl, ◌⊎◌, inl, inr, arith, Bool-cases,
}
use pennsignals_postgres.Executor.{busy, begin_run, end_run, reset_scheduled_action}
use pennsignals_postgres.Executor.System.{
  System, Label, Step, begin, skip, returned, leave, Run, here, next, finishing,
}
use pennsignals_postgres.Executor.Threads.{threads}

ℕ-cases : (n : ℕ) → (n ≡ 0) ⊎ ((m : ℕ) × (n ≡ suc m))
ℕ-cases zero = inl refl
ℕ-cases (suc m) = inr (m, refl)

pub joined : {p : Label → Bool} {s t u : System} → Run p s t → Run p t u → Run p s u
joined r here = r
joined r (next q e st) = next (joined r q) e st

-- No thread is left, nothing is in progress, and whoever waits is woken.
abbrev pub IsFinished : System → Type 0
IsFinished t = (threads t ≡ 0) × ((busy t.executor ≡ false) × (t.executor.finish_event ≡ true))

abbrev Finishes : System → Type 0
Finishes s = (t : System) × (Run finishing s t × IsFinished t)

first : {l : Label} {s t : System} → Step l s t → finishing l ≡ true → Finishes t → Finishes s
first st e (u, (r, d)) = (u, (joined (next here e st) r, d))

-- The blocks that the threads still have to run.
abbrev blocks : System → ℕ
blocks s = 3 * s.waiting + 2 * s.working + s.leaving

left : (s : System) (n : ℕ) → s.leaving ≡ suc n → s.waiting + s.working + n ≡ 0 → Finishes s
unfolding busy end_run reset_scheduled_action
left s n e z = first (leave s n e) refl (_, (here, (z, (refl, refl))))

finish : (m : ℕ) (s : System) → blocks s ≤ m → 1 ≤ threads s → Finishes s
finish zero s b k = absurd (omega arith)
finish (suc m) s b k = elim (ℕ-cases s.leaving) [
  | inr (n, e) ↦ elim (ℕ-cases (s.waiting + s.working + n)) [
    | inl z ↦ left s n e z
    | inr (j, q) ↦ first (leave s n e) refl (finish m _ (omega arith) (omega arith))
  ]
  | inl z ↦ elim (ℕ-cases s.working) [
    | inr (n, e) ↦ first (returned s n e) refl (finish m _ (omega arith) (omega arith))
    | inl y ↦ elim (ℕ-cases s.waiting) [
      | inr (n, e) ↦ elim (Bool-cases (begin_run s.executor).0) [
        | inl c ↦ first (begin s n e c) refl (finish m _ (omega arith) (omega arith))
        | inr c ↦ first (skip s n e c) refl (finish m _ (omega arith) (omega arith))
      ]
      | inl x ↦ absurd (omega arith)
    ]
  ]
]

-- Where an executor has threads, and their functions return or raise, they can all leave by steps of
-- their own: then nothing is in progress any more, and whoever waits in `cancel` is woken.
pub run-IsFinished :
    (s : System) → 1 ≤ threads s → (t : System) × (Run finishing s t × IsFinished t)
run-IsFinished s k = finish (blocks s) s (omega arith) k
