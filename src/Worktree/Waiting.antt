-- ===== src/Worktree/Waiting.antt =====
-- How long `acquireMutexContext` in internal/host/worktreelock.go waits.
use claude_contained.Worktree.Mutex.{
  Acquisition, acquired, timed_out, unfinished, took, gave_up, reclaimed, waited_once, mutex_round,
  reclaiming_line, acquire_loop, acquire_mutex,
}
use claude_contained.Base.{ℕ, zero, suc, ◌+◌, ◌*◌, ◌≤◌, ◌<◌, ◌≡◌, refl, subst, ◌⊎◌, inl, inr}
use claude_contained.Base.{Bool, true, false, ◌&&◌, arith, leb, if◌then◌else◌, Bool-cases}
use claude_contained.Base.{List, [], ◌∷◌, ◌++◌}
use claude_contained.Base.{Bytes}

abbrev pub is_over : Acquisition → Bool
is_over acquired = true
is_over timed_out = true
is_over unfinished = false

-- How often the holder is seen to be stale in so many rounds from one on.
unfoldable pub stale_rounds : (ℕ → Bool) → ℕ → ℕ → ℕ
stale_rounds stale zero n = 0
stale_rounds stale (suc k) n =
    let more = stale_rounds stale k (suc n) in if stale n then suc more else more

-- What is needed of the cases that a round comes to.
mutex_round-cases :
    (makes stale : Bool) (waited : ℕ)
    → ((makes ≡ true) × (mutex_round makes stale waited ≡ took))
      ⊎ ((makes ≡ false)
          × (5 ≤ waited)
          × (stale ≡ true)
          × (mutex_round makes stale waited ≡ reclaimed 0))
      ⊎ ((makes ≡ false)
          × (50 ≤ waited)
          × (stale ≡ false)
          × (mutex_round makes stale waited ≡ gave_up))
      ⊎ ((makes ≡ false)
          × (waited < 50)
          × ((leb 5 waited && stale) ≡ false)
          × (mutex_round makes stale waited ≡ waited_once (waited + 1)))
unfolding mutex_round
mutex_round-cases makes stale waited = elim (Bool-cases makes) [
  | inl m ↦ inl (m, ground arith)
  | inr m ↦ elim (Bool-cases (leb 5 waited && stale)) [
    | inl r ↦ inr (inl (m, ground arith, ground arith, ground arith))
    | inr r ↦ elim (Bool-cases (leb 50 waited)) [
      | inl g ↦ inr (inr (inl (m, ground arith, ground arith, ground arith)))
      | inr g ↦ inr (inr (inr (m, ground arith, r, ground arith)))
    ]
  ]
]

module _ (makes stale : ℕ → Bool) where
  acquire_loop-is_over :
      (fuel n waited : ℕ) (lines : List Bytes)
      → waited ≤ 50
      → 51 * stale_rounds stale fuel n + 51 ≤ fuel + waited
      → is_over (acquire_loop makes stale fuel n waited lines).0 ≡ true
  unfolding acquire_loop stale_rounds
  acquire_loop-is_over zero n waited lines w h = absurd (omega (arith, w, h))
  acquire_loop-is_over (suc fuel) n waited lines w h =
      elim (mutex_round-cases (makes n) (stale n) waited) [
        | inl (m, e) ↦ rw (e, acquire_loop) refl
        | inr (inl (m, l, s, e)) ↦
            rw (e, acquire_loop)
              (acquire_loop-is_over fuel (suc n) 0 (lines ++ reclaiming_line ∷ []) (omega arith)
                (ground arith))
        | inr (inr (inl (m, l, s, e))) ↦ rw (e, acquire_loop) refl
        | inr (inr (inr (m, l, q, e))) ↦
            rw (e, acquire_loop)
              (acquire_loop-is_over fuel (suc n) (waited + 1) lines (omega arith) (ground arith))
      ]

  acquire_loop-acquired :
      (fuel n waited k : ℕ) (lines : List Bytes)
      → makes (n + k) ≡ true
      → waited + k ≤ 50
      → k < fuel
      → (acquire_loop makes stale fuel n waited lines).0 ≡ acquired
  unfolding acquire_loop mutex_round
  acquire_loop-acquired zero n waited k lines m w f = absurd (omega (arith, f))
  acquire_loop-acquired (suc fuel) n waited zero lines m w f =
      let here : n + 0 ≡ n = omega arith in
      rw (subst (λ x. makes x ≡ true) here m, mutex_round, acquire_loop) refl
  acquire_loop-acquired (suc fuel) n waited (suc k) lines m w f =
      let next : n + suc k ≡ suc n + k = omega arith in
      let later = subst (λ x. makes x ≡ true) next m in
      elim (mutex_round-cases (makes n) (stale n) waited) [
        | inl (m, e) ↦ rw (e, acquire_loop) refl
        | inr (inl (m, l, s, e)) ↦
            rw (e, acquire_loop)
              (acquire_loop-acquired fuel (suc n) 0 k (lines ++ reclaiming_line ∷ []) later
                (omega arith) (omega arith))
        | inr (inr (inl (m, l, s, e))) ↦ absurd (omega (arith, l, w))
        | inr (inr (inr (m, l, q, e))) ↦
            rw (e, acquire_loop)
              (acquire_loop-acquired fuel (suc n) (waited + 1) k lines later (omega arith)
                (omega arith))
      ]

  acquire_loop-unfinished :
      (fuel n waited : ℕ) (lines : List Bytes)
      → ((m : ℕ) → makes m ≡ false)
      → ((m : ℕ) → stale m ≡ true)
      → waited ≤ 5
      → (acquire_loop makes stale fuel n waited lines).0 ≡ unfinished
  unfolding acquire_loop
  acquire_loop-unfinished zero n waited lines never always w = refl
  acquire_loop-unfinished (suc fuel) n waited lines never always w =
      elim (mutex_round-cases (makes n) (stale n) waited) [
        | inl (m, e) ↦ ground (arith, never n)
        | inr (inl (m, l, s, e)) ↦
            rw (e, acquire_loop)
              (acquire_loop-unfinished fuel (suc n) 0 (lines ++ reclaiming_line ∷ []) never always
                (omega arith))
        | inr (inr (inl (m, l, s, e))) ↦ ground (arith, always n)
        | inr (inr (inr (m, l, q, e))) ↦
            rw (e, acquire_loop)
              (acquire_loop-unfinished fuel (suc n) (waited + 1) lines never always
                (ground (arith, always n)))
      ]

  acquire_loop-made :
      (fuel n waited : ℕ) (lines : List Bytes)
      → (acquire_loop makes stale fuel n waited lines).0 ≡ acquired
      → (m : ℕ) × (makes m ≡ true)
  unfolding acquire_loop
  acquire_loop-made zero n waited lines h = cc
  acquire_loop-made (suc fuel) n waited lines h =
      elim (mutex_round-cases (makes n) (stale n) waited) [
        | inl (m, e) ↦ (n, m)
        | inr (inl (m, l, s, e)) ↦
            acquire_loop-made fuel (suc n) 0 (lines ++ reclaiming_line ∷ [])
              (rw (e, acquire_loop) at h)
        | inr (inr (inl (m, l, s, e))) ↦ let out = rw (e, acquire_loop) at h in cc
        | inr (inr (inr (m, l, q, e))) ↦
            acquire_loop-made fuel (suc n) (waited + 1) lines (rw (e, acquire_loop) at h)
      ]

  -- The loop ends, by acquiring the mutex or by giving up, within 51 rounds and another 51 for each round
  -- in which the holder is seen to be stale.
  pub acquire_mutex-is_over :
      (fuel : ℕ)
      → 51 * stale_rounds stale fuel 0 + 51 ≤ fuel
      → is_over (acquire_mutex makes stale fuel).0 ≡ true
  unfolding acquire_mutex
  acquire_mutex-is_over fuel h = acquire_loop-is_over fuel 0 0 [] (omega arith) (omega (arith, h))

  -- The mutex is acquired when the directory can be made in one of the rounds up to the fifty-first,
  -- whether or not the holder is seen to be stale before.
  pub acquire_mutex-acquired :
      (fuel k : ℕ)
      → makes k ≡ true
      → k ≤ 50
      → k < fuel
      → (acquire_mutex makes stale fuel).0 ≡ acquired
  unfolding acquire_mutex
  acquire_mutex-acquired fuel k m w f =
      let start : k ≡ 0 + k = omega arith in
      acquire_loop-acquired fuel 0 0 k [] (subst (λ x. makes x ≡ true) start m) (omega (arith, w)) f

  -- The mutex is acquired only when the directory was made in some round.
  pub acquire_mutex-made :
      (fuel : ℕ) → (acquire_mutex makes stale fuel).0 ≡ acquired → (m : ℕ) × (makes m ≡ true)
  unfolding acquire_mutex
  acquire_mutex-made fuel h = acquire_loop-made fuel 0 0 [] h

  -- When the directory can never be made and the holder always looks stale, as where the owner file cannot
  -- be read, the loop is not over after any number of rounds: it never gives up.
  pub acquire_mutex-unfinished :
      (fuel : ℕ)
      → ((m : ℕ) → makes m ≡ false)
      → ((m : ℕ) → stale m ≡ true)
      → (acquire_mutex makes stale fuel).0 ≡ unfinished
  unfolding acquire_mutex
  acquire_mutex-unfinished fuel never always =
      acquire_loop-unfinished fuel 0 0 [] never always (omega arith)
