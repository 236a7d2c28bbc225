-- ===== src/Commands/Shutdown.antt =====
-- How the servers stop: the loop that accepts connections and the wait for a signal, as
-- cmd/fstorex-metadata/main.go and cmd/fstorex-datanode/main.go have them. The two goroutines read
-- the same channel of signals, which holds one; the language leaves open which of them gets a
-- signal.
use file_storage.Base.{◌+◌, ◌≤◌, ℕ, suc, Bool, true, false, ◌≡◌, refl, arith}

-- The program runs, with whether its loop still accepts connections and whether a signal is in the
-- channel; or it has ended. `sent` counts the signals.
pub data Process : Type 0 where
  running : (accepts pending : Bool) (sent : ℕ) → Process
  ended : (sent : ℕ) → Process

-- A signal comes and is dropped if the channel is full; a connection is accepted; `Accept` fails,
-- and the loop takes the signal and returns, or goes on; the main goroutine takes the signal, and
-- the program ends.
pub data Step : Process → Process → Type 0 where
  signal :
      (accepts pending : Bool) (sent : ℕ)
      → Step (running accepts pending sent) (running accepts true (suc sent))
  accepted :
      (pending : Bool) (sent : ℕ) → Step (running true pending sent) (running true pending sent)
  accept_failed : (sent : ℕ) → Step (running true false sent) (running true false sent)
  loop_returns : (sent : ℕ) → Step (running true true sent) (running false false sent)
  main_returns : (accepts : Bool) (sent : ℕ) → Step (running accepts true sent) (ended sent)

pub data Steps : Process → Process → Type 0 where
  here : (p : Process) → Steps p p
  step : (p q r : Process) → Step p q → Steps q r → Steps p r

abbrev to_nat : Bool → ℕ
to_nat true = 1
to_nat false = 0

-- Every signal was taken by one of the two at most: one that is in the channel, one that the loop
-- returned for, and one that ended the program are signals that were sent, and are not the same.
abbrev pub IsSignalled : Process → Type 0
IsSignalled (running true pending sent) = to_nat pending ≤ sent
IsSignalled (running false pending sent) = 1 + to_nat pending ≤ sent
IsSignalled (ended sent) = 1 ≤ sent

Step-IsSignalled : (p q : Process) → Step p q → IsSignalled p → IsSignalled q
Step-IsSignalled _ _ (signal true true sent) good = omega arith
Step-IsSignalled _ _ (signal true false sent) good = omega arith
Step-IsSignalled _ _ (signal false true sent) good = omega arith
Step-IsSignalled _ _ (signal false false sent) good = omega arith
Step-IsSignalled _ _ (accepted pending sent) good = good
Step-IsSignalled _ _ (accept_failed sent) good = good
Step-IsSignalled _ _ (loop_returns sent) good = good
Step-IsSignalled _ _ (main_returns true sent) good = good
Step-IsSignalled _ _ (main_returns false sent) good = omega arith

Steps-keep : (p q : Process) → Steps p q → IsSignalled p → IsSignalled q
Steps-keep _ _ (here p) good = good
Steps-keep _ _ (step p q r s rest) good = Steps-keep q r rest (Step-IsSignalled p q s good)

-- A server neither ends nor stops accepting connections without a signal, and one that has stopped
-- accepting and has a signal in the channel was sent two, in every order in which its two goroutines
-- take their steps.
pub Steps-IsSignalled : (q : Process) → Steps (running true false 0) q → IsSignalled q
Steps-IsSignalled q steps = Steps-keep (running true false 0) q steps (omega arith)

-- The loop can take the one signal.
pub signal_lost : Steps (running true false 0) (running false false 1)
signal_lost =
    step _ (running true true 1) _ (signal true false 0)
      (step _ (running false false 1) _ (loop_returns 1) (here _))

-- Then the program neither accepts connections nor ends, until another signal comes.
stopped_waits :
    (sent : ℕ) (q : Process) → Step (running false false sent) q → q ≡ running false true (suc sent)
stopped_waits sent _ (signal _ _ _) = refl
