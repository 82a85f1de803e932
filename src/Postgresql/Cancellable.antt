-- ===== src/Postgresql/Cancellable.antt =====
-- patroni/postgresql/cancellable.py: one process that another thread may cancel. Each function is a
-- block of a method under the lock; what the system answers (whether a process runs, could be started or
-- has children) is an argument of it.
use pennsignals_postgres.Base.{
  ◌≡◌, ℕ, Bool, true, false, Option, none, some, List, [], ◌∷◌, ◌&&◌, is_empty, if◌then◌else◌,
}

-- What was done to a process, or found of it.
pub data Act : Type 0 where
  opened : ℕ → Act
  found_ended : ℕ → Act
  terminated : ℕ → Act
  suspended : ℕ → Act
  killed : ℕ → Act

-- `acts` are in reverse order.
pub record Cancellable : Type 0 where
  pub process : Option ℕ
  pub children : List ℕ
  pub is_cancelled : Bool
  pub acts : List Act

abbrev pub new_cancellable : Cancellable
new_cancellable = record { process = none; children = []; is_cancelled = false; acts = [] }

pub data Begun : Type 0 where
  -- `PostgresException('cancelled')`
  refused : Begun
  not_started : Begun
  started : Begun

-- `none` is a process that could not be executed.
abbrev pub start_process : Option ℕ → Cancellable → Begun × Cancellable
start_process none c = (not_started, record c { children = [] })
start_process (some p) c =
    (started, record c { process = some p; children = []; acts = opened p ∷ c.acts })

-- The first block of `call`.
unfoldable pub begin_call : Option ℕ → Cancellable → Begun × Cancellable
begin_call answer c =
    if c.is_cancelled
    then (refused, c)
    else start_process answer (record c { is_cancelled = false })

-- The block that ends `call`, whatever it did.
unfoldable pub end_call : Cancellable → Cancellable
end_call c = record c { process = none }

abbrev pub kill_all : List ℕ → List Act → List Act
kill_all [] acts = acts
kill_all (p ∷ ps) acts = kill_all ps (killed p ∷ acts)

unfoldable pub kill_children : Cancellable → Cancellable
kill_children c = record c { acts = kill_all c.children c.acts }

unfoldable pub reset_is_cancelled : Cancellable → Cancellable
reset_is_cancelled c = record c { is_cancelled = false }

abbrev terminate : Bool → Option ℕ → Cancellable → Bool × Cancellable
terminate running none c = (false, c)
terminate running (some p) c =
    if running
    then (true, record c { acts = terminated p ∷ c.acts })
    else (false, record c { acts = found_ended p ∷ c.acts })

-- The first block of `cancel`, and whether it goes on.
unfoldable pub begin_cancel : Bool → Cancellable → Bool × Cancellable
begin_cancel running c = terminate running c.process (record c { is_cancelled = true })

abbrev pub stop : Bool → Option (List ℕ) → Option ℕ → Cancellable → Cancellable
stop running found none c = c
stop running found (some p) c =
    if running && is_empty c.children
    then record c {
      children = elim found [ some ps ↦ ps | none ↦ c.children ];
      acts = killed p ∷ suspended p ∷ c.acts;
    }
    else c

-- `found` are the children, if the system tells them.
unfoldable pub kill_process : Bool → Option (List ℕ) → Cancellable → Cancellable
kill_process running found c = stop running found c.process c

-- A block of any thread, and whether it takes a cancellation back.
pub data Step : Bool → Cancellable → Cancellable → Type 0 where
  begins : (c : Cancellable) (answer : Option ℕ) → Step false c (begin_call answer c).1
  ends : (c : Cancellable) → Step false c (end_call c)
  kills_children : (c : Cancellable) → Step false c (kill_children c)
  cancels : (c : Cancellable) (running : Bool) → Step false c (begin_cancel running c).1
  kills :
      (c : Cancellable) (running : Bool) (found : Option (List ℕ))
      → Step false c (kill_process running found c)
  resets : (c : Cancellable) → Step true c (reset_is_cancelled c)

-- Blocks in any order; without `resetting`, none of them takes a cancellation back.
pub data Run (resetting : Bool) (c : Cancellable) : Cancellable → Type 0 where
  here : Run resetting c c
  next :
      {b : Bool} {d e : Cancellable}
      → Run resetting c d
      → (b ≡ true → resetting ≡ true)
      → Step b d e
      → Run resetting c e
