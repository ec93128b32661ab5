-- ===== src/Mqtt/Timed.antt =====
-- A loop that ends when its timer has expired. Each round reads the clock before it goes on, so the
-- readings that are left bound the rounds that are left.
use esp_qcloud.Prelude.{ℕ, zero, suc, ◌≤◌, ◌<◌, ◌≡◌, arith, length, Outcome, fault}
use esp_qcloud.Mqtt.Client.{Client, Action}

abbrev pub readings : Client → ℕ
readings c = length c.world.clock

-- The body gets what comes after it, which it calls with a state of the loop.
abbrev pub Body : Type 0 → Type 0 → Type 0
Body S A = (S → Action A) → S → Action A

-- As many rounds as the number says may follow the first one.
unfoldable pub rounds : {S A : Type 0} → Body S A → ℕ → S → Action A
rounds body zero s = body (λ s d. (fault, d)) s
rounds body (suc n) s = body (rounds body n) s

unfoldable pub timed_loop : {S A : Type 0} → Body S A → S → Action A
timed_loop body s c = rounds body (readings c) s c

module _ {S A : Type 0} (body : Body S A) where
  -- The body goes on with fewer readings only.
  abbrev pub Ticks : Type 0
  Ticks =
      (k k' : S → Action A) (s : S) (c : Client)
      → ((s' : S) (d : Client) → readings d < readings c → k s' d ≡ k' s' d)
      → body k s c ≡ body k' s c

  rounds_enough :
      Ticks
      → (m n : ℕ) (s : S) (c : Client) → readings c ≤ m
      → readings c ≤ n
      → rounds body m s c ≡ rounds body n s c
  unfolding rounds
  rounds_enough ticks zero zero s c hm hn = ticks _ _ s c (λ s' d lt. absurd (omega arith))
  rounds_enough ticks zero (suc n) s c hm hn = ticks _ _ s c (λ s' d lt. absurd (omega arith))
  rounds_enough ticks (suc m) zero s c hm hn = ticks _ _ s c (λ s' d lt. absurd (omega arith))
  rounds_enough ticks (suc m) (suc n) s c hm hn =
      ticks (rounds body m) (rounds body n) s c
        (λ s' d lt. rounds_enough ticks m n s' d (omega arith) (omega arith))

  one_round :
      Ticks
      → (n : ℕ) (s : S) (c : Client) → readings c ≤ n
      → rounds body n s c ≡ body (timed_loop body) s c
  unfolding rounds timed_loop
  one_round ticks zero s c h = ticks _ _ s c (λ s' d lt. absurd (omega arith))
  one_round ticks (suc n) s c h =
      ticks (rounds body n) (timed_loop body) s c
        (λ s' d lt. rounds_enough ticks n (readings d) s' d (omega arith) (omega arith))

  -- The loop is its body, followed by the loop.
  pub timed_loop-eq :
      Ticks → (s : S) (c : Client) → timed_loop body s c ≡ body (timed_loop body) s c
  unfolding timed_loop
  timed_loop-eq ticks s c = one_round ticks (readings c) s c (omega arith)

  module _ (P : S → Client → Outcome A × Client → Type 0)
      (dead : (s : S) (c : Client) → P s c (fault, c))
      (next : (k : S → Action A)
        → ((s : S) (c : Client) → P s c (k s c))
        → (s : S) (c : Client) → P s c (body k s c)) where
    rounds_keep : (n : ℕ) (s : S) (c : Client) → P s c (rounds body n s c)
    unfolding rounds
    rounds_keep zero s c = next (λ s d. (fault, d)) dead s c
    rounds_keep (suc n) s c = next (rounds body n) (rounds_keep n) s c

    -- What the body keeps if what comes after it does, the loop keeps.
    pub timed_loop_keeps : (s : S) (c : Client) → P s c (timed_loop body s c)
    unfolding timed_loop
    timed_loop_keeps s c = rounds_keep (readings c) s c
