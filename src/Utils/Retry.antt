-- ===== src/Utils/Retry.antt =====
-- patroni/utils.py: the class `Retry`. Times are in hundredths of a second. The function that is
-- called, the clock, the sleep and the random numbers are a parameter over a state `W` of the outside.
use pennsignals_postgres.Base.{
  ℕ, zero, suc, ◌+◌, ◌*◌, Bool, true, false, Option, none, some, min, leb, eqb,
}
use pennsignals_postgres.Base.Int.{ℤ, pos, negsuc}

-- What the function does: it returns, raises one of `retry_exceptions`, with its own time to sleep or
-- without, or raises another exception.
pub data Answer (A : Type 0) : Type 0 where
  returned : A → Answer A
  retryable : Option ℕ → Answer A
  raised : Answer A

pub record Outside (W A : Type 0) : Type 0 where
  pub call : W → Answer A × W
  pub time : W → ℕ × W
  pub jitter : ℕ → W → ℕ × W
  pub sleep : ℕ → W → W

pub data Outcome (A : Type 0) : Type 0 where
  value : A → Outcome A
  other_exception : Outcome A
  too_many_attempts : Outcome A
  deadline_exceeded : Outcome A

-- `max_tries` is -1 for infinitely many.
pub record Retry : Type 0 where
  pub max_tries : ℤ
  pub delay : ℕ
  pub backoff : ℕ
  pub max_jitter : ℕ
  pub max_delay : ℕ
  pub deadline : Option ℕ
  pub attempts : ℕ
  pub cur_delay : ℕ
  pub cur_stoptime : Option ℕ

unfoldable pub reset : Retry → Retry
reset r = record r { attempts = 0; cur_delay = r.delay; cur_stoptime = none }

unfoldable pub copy : Retry → Retry
copy r = record r { attempts = 0; cur_delay = r.delay; cur_stoptime = none }

unfoldable pub update_delay : Retry → Retry
update_delay r = record r { cur_delay = min (r.cur_delay * r.backoff) r.max_delay }

unfoldable pub is_last : ℤ → ℕ → Bool
is_last (pos n) attempts = eqb attempts n
is_last (negsuc n) attempts = false

-- A call ends, or is to be repeated by a manager that has counted it.
pub data Attempt (A : Type 0) : Type 0 where
  ends : Outcome A → Attempt A
  again : Retry → Attempt A

module _ {W A : Type 0} (o : Outside W A) where
  abbrev pub start_deadline : Option ℕ → Option ℕ → Retry → W → Retry × W
  start_deadline (some d) none r w =
      let (t, v) = o.time w in (record r { cur_stoptime = some (t + d) }, v)
  start_deadline _ _ r w = (r, w)

  -- The exception's own `sleeptime` counts where it is not 0.
  unfoldable pub sleep_time : Option ℕ → Retry → W → ℕ × W
  sleep_time (some (suc n)) r w = (suc n, w)
  sleep_time _ r w = let (j, v) = o.jitter r.max_jitter w in (r.cur_delay + j, v)

  abbrev pause : ℕ → Retry → W → Attempt A × W
  pause t r w = (again (update_delay r), o.sleep t w)

  abbrev pub pause_until : Option ℕ → ℕ → Retry → W → Attempt A × W
  pause_until none t r w = pause t r w
  pause_until (some stop) t r w =
      let (now, v) = o.time w in
      elim (leb stop (now + t)) [ true ↦ (ends deadline_exceeded, v) | false ↦ pause t r v ]

  abbrev pub wait : ℕ × W → Retry → Attempt A × W
  wait (t, w) r = pause_until r.cur_stoptime t r w

  abbrev pub count_failure : Bool → Option ℕ → Retry → W → Attempt A × W
  count_failure true s r w = (ends too_many_attempts, w)
  count_failure false s r w =
      let counted = record r { attempts = suc r.attempts } in wait (sleep_time s counted w) counted

  abbrev pub judge : Answer A × W → Retry → Attempt A × W
  judge (returned a, w) r = (ends (value a), w)
  judge (raised, w) r = (ends other_exception, w)
  judge (retryable s, w) r = count_failure (is_last r.max_tries r.attempts) s r w

  -- One turn of the loop.
  unfoldable pub attempt : Retry → W → Attempt A × W
  attempt r w = let (s, v) = start_deadline r.deadline r.cur_stoptime r w in judge (o.call v) s

  -- The number counts the calls of the function.
  abbrev pub one_more : Option (Outcome A × ℕ) × W → Option (Outcome A × ℕ) × W
  one_more (none, w) = (none, w)
  one_more (some (x, n), w) = (some (x, suc n), w)

  abbrev pub resume :
      (Retry → W → Option (Outcome A × ℕ) × W) → Attempt A × W → Option (Outcome A × ℕ) × W
  resume rest (ends x, w) = (some (x, 1), w)
  resume rest (again r, w) = one_more (rest r w)

  -- `none` is a loop that goes on after the turns that `fuel` allows.
  unfoldable pub loop : ℕ → Retry → W → Option (Outcome A × ℕ) × W
  loop zero r w = (none, w)
  loop (suc fuel) r w = resume (loop fuel) (attempt r w)

  -- `__call__`
  unfoldable pub call_retrying : ℕ → Retry → W → Option (Outcome A × ℕ) × W
  call_retrying fuel r w = loop fuel (reset r) w
