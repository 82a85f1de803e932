-- ===== src/Utils/RetryLaws.antt =====
-- A call that is retried comes to an end (patroni/utils.py: `Retry.__call__`).
use pennsignals_postgres.Base.{
  ℕ, zero, suc, ◌+◌, ◌≤◌, Bool, true, false, Option, none, some, leb, ◌≡◌, refl, ◌∙◌, arith,
}
use pennsignals_postgres.Base.Int.{ℤ, pos}
use pennsignals_postgres.Utils.Retry.{
  Answer, returned, retryable, raised, Outside, Outcome, Retry, reset, update_delay, is_last,
  Attempt, ends, again, start_deadline, pause_until, count_failure, judge, attempt, one_more,
  resume, loop, call_retrying,
}

module _ {W A : Type 0} (o : Outside W A) where
  -- A turn that is to be repeated has counted itself, and was not the last.
  abbrev Counts : Retry → Attempt A → Type 0
  Counts r (ends x) = Unit
  Counts r (again s) =
      (is_last r.max_tries r.attempts ≡ false)
      × ((s.max_tries ≡ r.max_tries) × (s.attempts ≡ suc r.attempts))

  waited_Counts :
      (r : Retry) (b : Bool) (t : ℕ) (s : Retry) (v : W)
      → Counts r (again s)
      → Counts r (
          (elim b as (λ x. Attempt A × W) [
            | true ↦ (ends Outcome.deadline_exceeded, v)
            | false ↦ (again (update_delay s), o.sleep t v)
          ]).0)
  unfolding update_delay
  waited_Counts r true t s v h = tt
  waited_Counts r false t s v h = h

  pause_Counts :
      (r : Retry) (stop : Option ℕ) (t : ℕ) (s : Retry) (w : W)
      → Counts r (again s)
      → Counts r (pause_until o stop t s w).0
  unfolding update_delay
  pause_Counts r none t s w h = h
  pause_Counts r (some stop) t s w h =
      waited_Counts r (leb stop ((o.time w).0 + t)) t s (o.time w).1 h

  failed_Counts :
      (b : Bool) (x : Option ℕ) (r : Retry) (w : W)
      → is_last r.max_tries r.attempts ≡ b
      → Counts r (count_failure o b x r w).0
  failed_Counts true x r w e = tt
  failed_Counts false x r w e = pause_Counts r r.cur_stoptime _ _ _ (e, (refl, refl))

  judge-Counts : (a : Answer A × W) (r : Retry) → Counts r (judge o a r).0
  judge-Counts (returned a, w) r = tt
  judge-Counts (raised, w) r = tt
  judge-Counts (retryable x, w) r = failed_Counts _ x r w refl

  turn_Counts :
      (d stop : Option ℕ) (r : Retry) (w : W)
      → Counts r
          (judge o (o.call (start_deadline o d stop r w).1) (start_deadline o d stop r w).0).0
  turn_Counts none stop r w = judge-Counts _ r
  turn_Counts (some d) (some stop) r w = judge-Counts _ r
  turn_Counts (some d) none r w =
      judge-Counts (o.call (o.time w).1) (record r { cur_stoptime = some ((o.time w).0 + d) })

  attempt-Counts : (r : Retry) (w : W) → Counts r (attempt o r w).0
  unfolding attempt
  attempt-Counts r w = turn_Counts r.deadline r.cur_stoptime r w

  -- A result that is there, with at most so many calls of the function.
  abbrev pub IsWithin : ℕ → Option (Outcome A × ℕ) → Type 0
  IsWithin n none = true ≡ false
  IsWithin n (some (x, calls)) = calls ≤ n

  one_more-IsWithin :
      (n : ℕ) (r : Option (Outcome A × ℕ) × W) → IsWithin n r.0 → IsWithin (suc n) (one_more o r).0
  one_more-IsWithin n (none, w) h = h
  one_more-IsWithin n (some (x, m), w) h = omega arith

  last_turn : (t : ℤ) (a n : ℕ) → t ≡ pos n → a + 0 ≡ n → is_last t a ≡ true
  unfolding is_last
  last_turn t a n m e = rw m (ground arith)

  -- A turn, from what is known of the turns after it.
  resume-IsWithin :
      (left : ℕ) (rest : Retry → W → Option (Outcome A × ℕ) × W) (r : Retry) (a : Attempt A × W)
      → Counts r a.0
      → ((s : Retry) (v : W) → Counts r (again s) → IsWithin left (rest s v).0)
      → IsWithin (suc left) (resume o rest a).0
  resume-IsWithin left rest r (ends x, w) h k = omega arith
  resume-IsWithin left rest r (again s, w) h k = one_more-IsWithin left (rest s w) (k s w h)

  -- `left` is how many attempts are still free.
  loop-IsWithin :
      (left n : ℕ) (r : Retry) (w : W)
      → r.max_tries ≡ pos n
      → r.attempts + left ≡ n
      → IsWithin (suc left) (loop o (suc left) r w).0
  unfolding loop
  loop-IsWithin zero n r w m e =
      resume-IsWithin 0 (loop o zero) r (attempt o r w) (attempt-Counts r w)
        (λ s v h. let l = last_turn r.max_tries r.attempts n m e in let f = h.0 in cc)
  loop-IsWithin (suc left) n r w m e =
      resume-IsWithin (suc left) (loop o (suc left)) r (attempt o r w) (attempt-Counts r w)
        (λ s v h. loop-IsWithin left n s v (h.1.0 ∙ m) (omega (arith, h.1.1)))

  -- Where `max_tries` is a number, a call that is retried ends with a value, with an exception of its
  -- own or with `RetryFailedError`, whatever the function, the clock and the random numbers do: it calls
  -- the function at most once more than that number says.
  pub call_retrying-IsWithin :
      (n : ℕ) (r : Retry) (w : W)
      → r.max_tries ≡ pos n
      → IsWithin (suc n) (call_retrying o (suc n) r w).0
  unfolding call_retrying reset
  call_retrying-IsWithin n r w m = loop-IsWithin n n _ w m (omega arith)
