-- ===== src/Worktree/Mutex.antt =====
-- `acquireMutexContext` in internal/host/worktreelock.go. What the host answers in each round is a
-- parameter: whether `os.Mkdir` makes the directory, and whether the holder is seen to be stale.
use claude_contained.Base.{ℕ, zero, suc, ◌+◌}
use claude_contained.Base.{Bool, ◌&&◌, leb, if◌then◌else◌}
use claude_contained.Base.{List, [], ◌∷◌, ◌++◌}
use claude_contained.Base.{Bytes, bytes}

abbrev pub stale_grace : ℕ
stale_grace = 5

abbrev pub max_waits : ℕ
max_waits = 50

pub data Acquisition : Type 0 where
  acquired timed_out unfinished : Acquisition

-- What one round comes to, with the count of the waits to go on with.
pub data MutexRound : Type 0 where
  took gave_up : MutexRound
  reclaimed waited_once : ℕ → MutexRound

unfoldable pub mutex_round : Bool → Bool → ℕ → MutexRound
mutex_round makes stale waited =
    if makes
    then took
    else if leb stale_grace waited && stale
    then reclaimed 0
    else if leb max_waits waited
    then gave_up
    else waited_once (waited + 1)

abbrev pub reclaiming_line : Bytes
reclaiming_line = bytes "Note: reclaiming stale worktree auto-lock mutex from a defunct launcher"

abbrev pub timed_out_line : Bytes
timed_out_line = bytes "Warning: timed out waiting for worktree auto-lock mutex"

module _ (makes stale : ℕ → Bool) where
  -- The loop, with the number of rounds it is run for, the number of this round, the count of the waits
  -- and the lines on standard error.
  unfoldable pub acquire_loop : ℕ → ℕ → ℕ → List Bytes → Acquisition × List Bytes
  unfolding mutex_round
  acquire_loop zero n waited lines = (unfinished, lines)
  acquire_loop (suc fuel) n waited lines = elim (mutex_round (makes n) (stale n) waited) [
    | took ↦ (acquired, lines)
    | gave_up ↦ (timed_out, lines ++ timed_out_line ∷ [])
    | reclaimed w ↦ acquire_loop fuel (suc n) w (lines ++ reclaiming_line ∷ [])
    | waited_once w ↦ acquire_loop fuel (suc n) w lines
  ]

  unfoldable pub acquire_mutex : ℕ → Acquisition × List Bytes
  unfolding acquire_loop
  acquire_mutex fuel = acquire_loop fuel 0 0 []
