-- ===== src/Local/Process.antt =====
-- `nodeProcess` of local/node_process.go: its status, the goroutine that waits for the process to
-- exit, and the calls of Stop, as steps in any order. A step is what runs under `p.lock`, or one
-- blocking operation.
pub mod Stopping
use cnr_sandbox.Base.{ℕ, suc, ◌+◌, Bool, true, false, List, [], ◌∷◌, ◌++◌, ◌≡◌}

-- network/node/status/status.go
pub data Status : Type 0 where
  running stopping stopped : Status

-- Where a call of Stop is: about to interrupt the process, in the select, waiting for the channel
-- to close, or back with the exit code.
pub data Caller : Type 0 where
  interrupting selecting awaiting returned : Caller

-- `closes` counts how often `closedOnStop` was closed, `interrupts` how often the process was sent
-- an interrupt by Stop; `watched` is whether the goroutine `awaitExit` has still to finish.
pub record NodeProcess : Type 0 where
  pub status : Status
  pub exited : Bool
  pub watched : Bool
  pub closes : ℕ
  pub interrupts : ℕ
  pub callers : List Caller

-- `start`: the process runs, or it could not be started.
unfoldable pub started : Bool → NodeProcess
started true = record {
  status = running;
  exited = false;
  watched = true;
  closes = 0;
  interrupts = 0;
  callers = [];
}
started false = record {
  status = stopped;
  exited = true;
  watched = false;
  closes = 1;
  interrupts = 0;
  callers = [];
}

-- The entry of Stop, by the status.
unfoldable pub enter_at : Status → NodeProcess → NodeProcess
enter_at running p = record p { status = stopping; callers = interrupting ∷ p.callers }
enter_at stopping p = record p { callers = awaiting ∷ p.callers }
enter_at stopped p = record p { callers = returned ∷ p.callers }

unfoldable pub enter : NodeProcess → NodeProcess
unfolding enter_at
enter p = enter_at p.status p

-- The end of `awaitExit`.
unfoldable pub finish : NodeProcess → NodeProcess
finish p = record p { status = stopped; watched = false; closes = suc p.closes }

pub data Step : NodeProcess → NodeProcess → Type 0 where
  exit : (p : NodeProcess) → Step p (record p { exited = true })
  notice : (p : NodeProcess) → p.watched ≡ true → p.exited ≡ true → Step p (finish p)
  call : (p : NodeProcess) → Step p (enter p)
  interrupt :
      (p : NodeProcess) (before after : List Caller)
      → p.callers ≡ before ++ interrupting ∷ after
      → Step p (record p { interrupts = suc p.interrupts; callers = before ++ selecting ∷ after })
  -- The deadline of Stop has passed: the process is killed, which is not an exit yet.
  kill :
      (p : NodeProcess) (before after : List Caller)
      → p.callers ≡ before ++ selecting ∷ after
      → Step p (record p { callers = before ++ awaiting ∷ after })
  closed :
      (p : NodeProcess) (before after : List Caller)
      → p.callers ≡ before ++ selecting ∷ after
      → p.closes ≡ 1
      → Step p (record p { callers = before ++ awaiting ∷ after })
  return :
      (p : NodeProcess) (before after : List Caller)
      → p.callers ≡ before ++ awaiting ∷ after
      → p.closes ≡ 1
      → Step p (record p { callers = before ++ returned ∷ after })

pub data Steps (p : NodeProcess) : NodeProcess → Type 0 where
  here : Steps p p
  then : (q r : NodeProcess) → Steps p q → Step q r → Steps p r
