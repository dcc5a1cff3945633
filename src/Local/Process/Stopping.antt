-- ===== src/Local/Process/Stopping.antt =====
-- What every state of local/node_process.go has in common.
use cnr_sandbox.Base.{
  ℕ, suc, ◌+◌, ◌≤◌, Bool, true, false, List, [], ◌∷◌, ◌++◌, ◌≡◌, refl, ap, ◌∙◌, ◌≢◌, arith,
}
use cnr_sandbox.Local.Process
use cnr_sandbox.Local.Process.{
  Status, running, stopping, stopped, Caller, interrupting, selecting, awaiting, returned,
  NodeProcess, started, enter_at, enter, finish, Step, Steps,
}

-- How many callers are about to interrupt, and how many are back.
unfoldable pub to_interrupt : List Caller → ℕ
to_interrupt [] = 0
to_interrupt (interrupting ∷ cs) = suc (to_interrupt cs)
to_interrupt (_ ∷ cs) = to_interrupt cs

unfoldable back : List Caller → ℕ
back [] = 0
back (returned ∷ cs) = suc (back cs)
back (_ ∷ cs) = back cs

to_interrupt_append :
    (cs ds : List Caller) → to_interrupt (cs ++ ds) ≡ to_interrupt cs + to_interrupt ds
unfolding to_interrupt
to_interrupt_append [] ds = omega arith
to_interrupt_append (c ∷ cs) ds = ground (arith, to_interrupt_append cs ds)

back_append : (cs ds : List Caller) → back (cs ++ ds) ≡ back cs + back ds
unfolding back
back_append [] ds = omega arith
back_append (c ∷ cs) ds = ground (arith, back_append cs ds)

unfoldable pub closes_of : Status → ℕ
closes_of running = 0
closes_of stopping = 0
closes_of stopped = 1

unfoldable pub interrupts_at_most : Status → ℕ
interrupts_at_most running = 0
interrupts_at_most stopping = 1
interrupts_at_most stopped = 1

unfoldable pub watched_at : Status → Bool
watched_at running = true
watched_at stopping = true
watched_at stopped = false

-- The channel is closed once, and exactly when the process is stopped; the goroutine waits until then; at most one call of Stop interrupts the process; no call is back before the process is stopped, and it is stopped only after it exited.
pub record IsOrderly (p : NodeProcess) : Type 0 where
  pub closes : p.closes ≡ closes_of p.status
  pub watched : p.watched ≡ watched_at p.status
  pub interrupts : p.interrupts + to_interrupt p.callers ≤ interrupts_at_most p.status
  back : p.status ≢ stopped → back p.callers ≡ 0
  pub exited : p.status ≡ stopped → p.exited ≡ true

started-IsOrderly : (b : Bool) → IsOrderly (started b)
unfolding started closes_of watched_at interrupts_at_most to_interrupt back
started-IsOrderly true = record {
  closes = refl;
  watched = refl;
  interrupts = omega arith;
  back = λ _. refl;
  exited = λ e. cc;
}
started-IsOrderly false = record {
  closes = refl;
  watched = refl;
  interrupts = omega arith;
  back = λ _. refl;
  exited = λ _. refl;
}

-- A caller that goes on from `c` to `d`.
moved_interrupts :
    (c d : Caller) (before after cs : List Caller)
    → cs ≡ before ++ c ∷ after
    → to_interrupt (before ++ d ∷ after) + to_interrupt (c ∷ [])
      ≡ to_interrupt cs + to_interrupt (d ∷ [])
unfolding to_interrupt
moved_interrupts c d before after cs e = rw e (
    ground (
      arith,
      to_interrupt_append before (c ∷ after),
      to_interrupt_append before (d ∷ after),
      to_interrupt_append (c ∷ []) after,
      to_interrupt_append (d ∷ []) after,
    ))

moved_back :
    (c d : Caller) (before after cs : List Caller)
    → cs ≡ before ++ c ∷ after
    → back (before ++ d ∷ after) + back (c ∷ []) ≡ back cs + back (d ∷ [])
unfolding back
moved_back c d before after cs e = rw e (
    ground (
      arith,
      back_append before (c ∷ after),
      back_append before (d ∷ after),
      back_append (c ∷ []) after,
      back_append (d ∷ []) after,
    ))

-- A caller waits for the channel.
waits-IsOrderly :
    (p : NodeProcess) (before after : List Caller)
    → p.callers ≡ before ++ selecting ∷ after
    → IsOrderly p
    → IsOrderly (record p { callers = before ++ awaiting ∷ after })
unfolding to_interrupt back
waits-IsOrderly p before after e o = record {
  closes = o.closes;
  watched = o.watched;
  interrupts =
      ground (arith, o.interrupts, moved_interrupts selecting awaiting before after p.callers e);
  back = λ n. ground (arith, o.back n, moved_back selecting awaiting before after p.callers e);
  exited = o.exited;
}

enter_at-IsOrderly :
    (x : Status) (p : NodeProcess) → p.status ≡ x → IsOrderly p → IsOrderly (enter_at x p)
unfolding enter_at to_interrupt back closes_of watched_at interrupts_at_most
enter_at-IsOrderly running p e o = record {
  closes = o.closes ∙ ap closes_of e;
  watched = o.watched ∙ ap watched_at e;
  interrupts = ground (arith, o.interrupts, ap interrupts_at_most e);
  back = λ n. o.back (λ x. cc);
  exited = λ x. cc;
}
enter_at-IsOrderly stopping p e o = record {
  closes = o.closes;
  watched = o.watched;
  interrupts = o.interrupts;
  back = λ n. o.back n;
  exited = o.exited;
}
enter_at-IsOrderly stopped p e o = record {
  closes = o.closes;
  watched = o.watched;
  interrupts = o.interrupts;
  back = λ n. absurd (n e);
  exited = o.exited;
}

enter-IsOrderly : (p : NodeProcess) → IsOrderly p → IsOrderly (enter p)
unfolding enter
enter-IsOrderly p o = enter_at-IsOrderly p.status p refl o

finish-IsOrderly :
    (p : NodeProcess) → p.watched ≡ true → p.exited ≡ true → IsOrderly p → IsOrderly (finish p)
unfolding finish closes_of watched_at interrupts_at_most
finish-IsOrderly p w x o = record {
  closes = ground (arith, o.closes, o.watched);
  watched = refl;
  interrupts = ground (arith, o.interrupts, o.watched);
  back = λ n. absurd (n refl);
  exited = λ _. x;
}

Step-IsOrderly : (p q : NodeProcess) → Step p q → IsOrderly p → IsOrderly q
unfolding closes_of to_interrupt back
Step-IsOrderly p q (Process.exit _) o = record {
  closes = o.closes;
  watched = o.watched;
  interrupts = o.interrupts;
  back = o.back;
  exited = λ _. refl;
}
Step-IsOrderly p q (Process.notice _ w x) o = finish-IsOrderly p w x o
Step-IsOrderly p q (Process.call _) o = enter-IsOrderly p o
Step-IsOrderly p q (Process.interrupt _ before after e) o = record {
  closes = o.closes;
  watched = o.watched;
  interrupts =
      ground
        (arith, o.interrupts, moved_interrupts interrupting selecting before after p.callers e);
  back = λ n. ground (arith, o.back n, moved_back interrupting selecting before after p.callers e);
  exited = o.exited;
}
Step-IsOrderly p q (Process.kill _ before after e) o = waits-IsOrderly p before after e o
Step-IsOrderly p q (Process.closed _ before after e x) o = waits-IsOrderly p before after e o
Step-IsOrderly p q (Process.return _ before after e x) o = record {
  closes = o.closes;
  watched = o.watched;
  interrupts =
      ground (arith, o.interrupts, moved_interrupts awaiting returned before after p.callers e);
  back = λ n. ground (arith, o.closes);
  exited = o.exited;
}

-- However the calls of Stop, the goroutine and the process itself take turns, from the start of a process, failed or not, every state is orderly: the channel is never closed twice, the process is interrupted at most once, and no call of Stop returns before the process has exited.
pub Steps-IsOrderly : (b : Bool) (p : NodeProcess) → Steps (started b) p → IsOrderly p
Steps-IsOrderly b p Process.here = started-IsOrderly b
Steps-IsOrderly b p (Process.then q _ h s) = Step-IsOrderly q p s (Steps-IsOrderly b q h)
