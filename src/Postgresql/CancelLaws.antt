-- ===== src/Postgresql/CancelLaws.antt =====
-- What becomes of a process that is cancelled (patroni/postgresql/cancellable.py).
use mathlib.Core.List.{Memᴰ}
use pennsignals_postgres.Base.{
  ◌≡◌, ◌∙◌, subst, choose, ℕ, Bool, true, false, Option, none, some, List, [], ◌∷◌, refl, ◌⊎◌, inl,
  inr, ◌&&◌, is_empty,
}
use pennsignals_postgres.Postgresql.Cancellable.{
  Act, opened, found_ended, terminated, suspended, killed, Cancellable, new_cancellable, begin_call,
  end_call, kill_all, kill_children, reset_is_cancelled, begin_cancel, stop, kill_process, Step,
  begins, ends, kills_children, cancels, kills, resets, Run, here, next,
}

abbrev IsTold : ℕ → List Act → Type 0
IsTold p acts = Memᴰ (terminated p) acts ⊎ Memᴰ (found_ended p) acts

IsTold-before : (p : ℕ) (a : Act) (acts : List Act) → IsTold p acts → IsTold p (a ∷ acts)
IsTold-before p a acts (inl m) = inl (Memᴰ.tail m)
IsTold-before p a acts (inr m) = inr (Memᴰ.tail m)

-- After a cancellation the process, if there is one, was told to terminate or found to have ended.
abbrev pub IsHeeded : Option ℕ → Bool → List Act → Type 0
IsHeeded none cancelled acts = Unit {0}
IsHeeded (some p) false acts = Unit {0}
IsHeeded (some p) true acts = IsTold p acts

abbrev pub Heeds : Cancellable → Type 0
Heeds c = IsHeeded c.process c.is_cancelled c.acts

not_cancelled : (o : Option ℕ) (acts : List Act) → IsHeeded o false acts
not_cancelled none acts = tt
not_cancelled (some p) acts = tt

begin_call-Heeds :
    (answer : Option ℕ) (process : Option ℕ) (children : List ℕ) (cancelled : Bool)
    (acts : List Act)
    → IsHeeded process cancelled acts
    → Heeds
        (begin_call answer (record {
          process = process;
          children = children;
          is_cancelled = cancelled;
          acts = acts;
        })).1
unfolding begin_call
begin_call-Heeds answer o cs true acts h = h
begin_call-Heeds none o cs false acts h = not_cancelled o acts
begin_call-Heeds (some p) o cs false acts h = tt

begin_cancel-Heeds :
    (running : Bool) (process : Option ℕ) (children : List ℕ) (cancelled : Bool) (acts : List Act)
    → Heeds
        (begin_cancel running (record {
          process = process;
          children = children;
          is_cancelled = cancelled;
          acts = acts;
        })).1
unfolding begin_cancel
begin_cancel-Heeds running none cs b acts = tt
begin_cancel-Heeds true (some p) cs b acts = inl (Memᴰ.head refl)
begin_cancel-Heeds false (some p) cs b acts = inr (Memᴰ.head refl)

-- More acts change nothing of it.
IsHeeded-before :
    (o : Option ℕ) (b : Bool) (a : Act) (acts : List Act)
    → IsHeeded o b acts
    → IsHeeded o b (a ∷ acts)
IsHeeded-before none b a acts h = tt
IsHeeded-before (some p) false a acts h = tt
IsHeeded-before (some p) true a acts h = IsTold-before p a acts h

kill_children-Heeds :
    (o : Option ℕ) (b : Bool) (ps : List ℕ) (acts : List Act)
    → IsHeeded o b acts
    → IsHeeded o b (kill_all ps acts)
kill_children-Heeds o b [] acts h = h
kill_children-Heeds o b (p ∷ ps) acts h =
    kill_children-Heeds o b ps (killed p ∷ acts) (IsHeeded-before o b (killed p) acts h)

stop-Heeds :
    (running : Bool) (found : Option (List ℕ)) (o : Option ℕ) (c : Cancellable)
    → Heeds c
    → Heeds (stop running found o c)
stop-Heeds running found none c h = h
stop-Heeds running found (some p) c h =
    choose Heeds (running && is_empty c.children) _ _
      (λ e.
        IsHeeded-before c.process c.is_cancelled (killed p) _
          (IsHeeded-before c.process c.is_cancelled (suspended p) _ h))
      (λ e. h)

Step-Heeds : {b : Bool} {c d : Cancellable} → Heeds c → Step b c d → Heeds d
unfolding end_call kill_children kill_process reset_is_cancelled
Step-Heeds h (begins c answer) =
    begin_call-Heeds answer c.process c.children c.is_cancelled c.acts h
Step-Heeds h (ends c) = tt
Step-Heeds h (kills_children c) = kill_children-Heeds c.process c.is_cancelled c.children c.acts h
Step-Heeds h (cancels c running) =
    begin_cancel-Heeds running c.process c.children c.is_cancelled c.acts
Step-Heeds h (kills c running found) = stop-Heeds running found c.process c h
Step-Heeds h (resets c) = not_cancelled c.process c.acts

Run-Heeds : {b : Bool} {c d : Cancellable} → Heeds c → Run b c d → Heeds d
Run-Heeds h here = h
Run-Heeds h (next r e s) = Step-Heeds (Run-Heeds h r) s

-- The processes that were started, the latest first.
abbrev pub openings : List Act → List ℕ
openings [] = []
openings (opened p ∷ acts) = p ∷ openings acts
openings (_ ∷ acts) = openings acts

openings-kill_all : (ps : List ℕ) (acts : List Act) → openings (kill_all ps acts) ≡ openings acts
openings-kill_all [] acts = refl
openings-kill_all (p ∷ ps) acts = openings-kill_all ps (killed p ∷ acts)

-- A cancellation is in effect, and these processes were started.
abbrev IsHeld : List ℕ → Cancellable → Type 0
IsHeld ps c = (c.is_cancelled ≡ true) × (openings c.acts ≡ ps)

begin_call-IsHeld :
    (ps : List ℕ) (answer : Option ℕ) (c : Cancellable)
    → IsHeld ps c
    → IsHeld ps (begin_call answer c).1
unfolding begin_call
begin_call-IsHeld ps answer c h = rw h.0 (refl, h.1)

begin_cancel-IsHeld :
    (ps : List ℕ) (running : Bool) (o : Option ℕ) (cs : List ℕ) (b : Bool) (acts : List Act)
    → openings acts ≡ ps
    → IsHeld ps
        (begin_cancel running
          (record { process = o; children = cs; is_cancelled = b; acts = acts })).1
unfolding begin_cancel
begin_cancel-IsHeld ps running none cs b acts h = (refl, h)
begin_cancel-IsHeld ps true (some p) cs b acts h = (refl, h)
begin_cancel-IsHeld ps false (some p) cs b acts h = (refl, h)

stop-IsHeld :
    (ps : List ℕ) (running : Bool) (found : Option (List ℕ)) (o : Option ℕ) (c : Cancellable)
    → IsHeld ps c
    → IsHeld ps (stop running found o c)
stop-IsHeld ps running found none c h = h
stop-IsHeld ps running found (some p) c h =
    choose (IsHeld ps) (running && is_empty c.children) _ _ (λ e. h) (λ e. h)

Step-IsHeld :
    {b : Bool} {c d : Cancellable} (ps : List ℕ)
    → (b ≡ true → false ≡ true)
    → IsHeld ps c
    → Step b c d
    → IsHeld ps d
unfolding end_call kill_children kill_process
Step-IsHeld ps q h (begins c answer) = begin_call-IsHeld ps answer c h
Step-IsHeld ps q h (ends c) = h
Step-IsHeld ps q h (kills_children c) = (h.0, openings-kill_all c.children c.acts ∙ h.1)
Step-IsHeld ps q h (cancels c running) =
    begin_cancel-IsHeld ps running c.process c.children c.is_cancelled c.acts h.1
Step-IsHeld ps q h (kills c running found) = stop-IsHeld ps running found c.process c h
Step-IsHeld ps q h (resets c) = let e = q refl in cc

Run-IsHeld : {c d : Cancellable} (ps : List ℕ) → IsHeld ps c → Run false c d → IsHeld ps d
Run-IsHeld ps h here = h
Run-IsHeld ps h (next r q s) = Step-IsHeld ps q (Run-IsHeld ps h r) s

-- From a cancellation on, in any order of the blocks of any threads, no process is started until the
-- cancellation is taken back, and the one that is there, if any, was told to terminate or was found to
-- have ended.
pub Run-openings :
    {c d : Cancellable}
    → Run true new_cancellable c
    → c.is_cancelled ≡ true
    → Run false c d
    → (openings d.acts ≡ openings c.acts) × IsHeeded d.process true d.acts
Run-openings {c} {d} r e s =
    let h = Run-IsHeld (openings c.acts) (e, refl) s in
    (h.1, subst (λ b. IsHeeded d.process b d.acts) h.0 (Run-Heeds (Run-Heeds tt r) s))
