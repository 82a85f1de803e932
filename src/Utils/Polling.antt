-- ===== src/Utils/Polling.antt =====
-- patroni/utils.py: `polling_loop`, with what the caller does in each turn.
use pennsignals_postgres.Base.{
  ◌∙◌, refl, arith, ltb→lt, ◌≤◌, ◌≡◌, ℕ, zero, suc, ◌+◌, ◌≤◌, Bool, true, false, ◌*◌, Option, none,
  some, ltb,
}

-- The clock, and the caller, who may leave the loop: `true` tells that it does.
pub record Caller (W : Type 0) : Type 0 where
  pub time : W → ℕ
  pub sleep : ℕ → W → W
  pub body : ℕ → W → Bool × W

-- The clock does not run backwards, and a sleep takes its time.
pub record ClockLaws {W : Type 0} (c : Caller W) : Type 0 where
  pub sleeps : (i : ℕ) (w : W) → c.time w + i ≤ c.time (c.sleep i w)
  pub forward : (n : ℕ) (w : W) → c.time w ≤ c.time (c.body n w).1

module _ {W : Type 0} (c : Caller W) where
  -- What follows the body of the caller's loop.
  abbrev pub poll_on : (ℕ → W → Option (ℕ × W)) → ℕ → ℕ → Bool × W → Option (ℕ × W)
  poll_on rest interval iteration (true, w) = some (suc iteration, w)
  poll_on rest interval iteration (false, w) = rest (suc iteration) (c.sleep interval w)

  unfoldable pub poll : ℕ → ℕ → ℕ → ℕ → W → Option (ℕ × W)
  poll zero end_time interval iteration w = none
  poll (suc fuel) end_time interval iteration w = elim (ltb (c.time w) end_time) [
    | true ↦ poll_on (poll fuel end_time interval) interval iteration (c.body iteration w)
    | false ↦ some (iteration, w)
  ]

  -- How many values the iterator gave, and the state after the loop.
  unfoldable pub polling_loop : ℕ → ℕ → ℕ → W → Option (ℕ × W)
  polling_loop fuel timeout interval w = poll fuel (c.time w + timeout) interval 0 w

-- What a caller counts: one more in each turn, and none in a sleep.
pub record Meter {W : Type 0} (c : Caller W) : Type 0 where
  pub count : W → ℕ
  pub counts : (n : ℕ) (w : W) → count (c.body n w).1 ≡ suc (count w)
  pub idle : (i : ℕ) (w : W) → count (c.sleep i w) ≡ count w

module _ {W : Type 0} (c : Caller W) (m : Meter c) where
  -- The loop ended; the caller, who had counted to `base`, had as many turns as there were values, and
  -- these are at most `bound`.
  abbrev pub IsEnded : ℕ → ℕ → Option (ℕ × W) → Type 0
  IsEnded base bound none = ⊥
  IsEnded base bound (some (n, w)) = (n ≤ bound) × (m.count w ≡ base + n)

module _ {W : Type 0} (c : Caller W) (m : Meter c) (laws : ClockLaws c) where
  poll_on-IsEnded :
      (rest : ℕ → W → Option (ℕ × W)) (base bound i n : ℕ) (r : Bool × W)
      → suc n ≤ bound
      → m.count r.1 ≡ base + suc n
      → ((v : W)
          → c.time r.1 + i ≤ c.time v
          → m.count v ≡ base + suc n
          → IsEnded c m base bound (rest (suc n) v))
      → IsEnded c m base bound (poll_on c rest i n r)
  poll_on-IsEnded rest base bound i n (true, w) b e h = (b, e)
  poll_on-IsEnded rest base bound i n (false, w) b e h =
      h (c.sleep i w) (laws.sleeps i w) (m.idle i w ∙ e)

  tested :
      (base bound : ℕ) (b : Bool) (x y : Option (ℕ × W))
      → (b ≡ true → IsEnded c m base bound x)
      → (b ≡ false → IsEnded c m base bound y)
      → IsEnded c m base bound (elim b [ true ↦ x | false ↦ y ])
  tested base bound true x y h k = h refl
  tested base bound false x y h k = k refl

  poll-IsEnded :
      (fuel base bound end_time interval n : ℕ) (w : W)
      → end_time ≤ c.time w + fuel * interval
      → n + fuel ≤ bound
      → m.count w ≡ base + n
      → IsEnded c m base bound (poll c (suc fuel) end_time interval n w)
  unfolding poll
  poll-IsEnded zero base bound end_time i n w h b e =
      tested base bound (ltb (c.time w) end_time) _ _
        (λ q. absurd (omega (arith, ltb→lt (c.time w) end_time q))) (λ q. (omega arith, e))
  poll-IsEnded (suc fuel) base bound end_time i n w h b e =
      tested base bound (ltb (c.time w) end_time) _ _
        (λ q.
          poll_on-IsEnded (poll c (suc fuel) end_time i) base bound i n (c.body n w) (omega arith)
            (m.counts n w ∙ omega (arith, e))
            (λ v k t.
              poll-IsEnded fuel base bound end_time i (suc n) v (omega (arith, laws.forward n w))
                (omega arith) t))
        (λ q. (omega arith, e))

  -- A polling loop ends whatever its caller does, and gives at most as many values as its timeout has
  -- begun intervals; the caller has one turn for each value. It is supposed that the interval is not 0
  -- unless the timeout is, that the clock does not run backwards and that a sleep takes its time.
  pub polling_loop-IsEnded :
      (fuel timeout interval : ℕ) (w : W)
      → timeout ≤ fuel * interval
      → IsEnded c m (m.count w) fuel (polling_loop c (suc fuel) timeout interval w)
  unfolding polling_loop
  polling_loop-IsEnded fuel t i w h =
      poll-IsEnded fuel (m.count w) fuel (c.time w + t) i 0 w (omega arith) (omega arith)
        (omega arith)
