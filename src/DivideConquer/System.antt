-- ===== src/DivideConquer/System.antt =====
-- taskvent.cpp, the processes of taskwork.cpp and tasksink.cpp with the messages under way. Each task goes to some
-- worker; what comes to the sink may come in any order.
pub mod Kept
pub mod Finished
use mathlib.Core.Path.{subst}
use zguide_examples.Prelude.{
  ℕ, zero, suc, ◌+◌, ◌*◌, ◌^◌, ◌%◌, ◌≤◌, ◌<◌, ◌≡◌, ◌⊎◌, inl, inr, refl, ap, sym, ◌∙◌, Bool, true,
  false, List, [], ◌∷◌, ◌++◌, arith, Option, none, some,
}
use zguide_examples.Prelude.Lists.{length, length-append, All}
use zguide_examples.Prelude.Bytes.{Bytes, codes}
use zguide_examples.Prelude.Result.{Result, ok, fault, starved, ok_injective}
use zguide_examples.Freelance.Sequence.{strtol}
use zguide_examples.DivideConquer.{
  tasks, task_message, ventilate, Action, sleeps, sends, work, collect, sum, task_message-read,
  collect-all, ventilate_task,
}

-- A task that a worker has not done yet.
pub record Task : Type 0 where
  pub worker : ℕ
  pub message : Bytes

-- `unsent` are the workloads that the ventilator has still to draw, `total` its cost so far; `under_way`
-- is on its way to the sink; `began` says whether the sink has read its first message, `received` are
-- those of its loop, `control` is what it has sent to the workers; `slept` is the time that they slept.
pub record System : Type 0 where
  pub unsent : List ℕ
  pub total : ℕ
  pub waiting : List Task
  pub slept : ℕ
  pub under_way : List Bytes
  pub began : Bool
  pub received : List Bytes
  pub control : Option Bytes
  pub ended : ℕ

-- The ventilator has sent "0", in a message of two bytes, to the sink.
abbrev pub at_start : List ℕ → ℕ → System
at_start workloads second = record {
  unsent = workloads;
  total = 0;
  waiting = [];
  slept = 0;
  under_way = (48 ∷ second ∷ []) ∷ [];
  began = false;
  received = [];
  control = none;
  ended = 0;
}

-- Whatever happens next.
pub data Moves : System → System → Type 0 where
  ventilates :
      (s : System) (worker workload total : ℕ) (workloads : List ℕ) (message : Bytes)
      → s.unsent ≡ workload ∷ workloads
      → ventilate (workload ∷ []) s.total ≡ ok (total, message ∷ [])
      → Moves s (record s {
        unsent = workloads;
        total = total;
        waiting = s.waiting ++ record { worker = worker; message = message } ∷ [];
      })
  works :
      (s : System) (before after : List Task) (t : Task) (ms : ℕ) (result : Bytes)
      → s.waiting ≡ before ++ t ∷ after
      → work ((some t.message, false) ∷ []) ≡ sleeps ms ∷ sends result ∷ []
      → Moves s (record s {
        waiting = before ++ after;
        slept = s.slept + ms;
        under_way = s.under_way ++ result ∷ [];
      })
  begins :
      (s : System) (before after : List Bytes) (m : Bytes)
      → s.began ≡ false
      → s.under_way ≡ before ++ m ∷ after
      → Moves s (record s { under_way = before ++ after; began = true })
  receives :
      (s : System) (before after : List Bytes) (m : Bytes)
      → s.began ≡ true
      → length s.received < tasks
      → s.under_way ≡ before ++ m ∷ after
      → Moves s (record s { under_way = before ++ after; received = s.received ++ m ∷ [] })
  controls :
      (s : System) (m : Bytes)
      → s.began ≡ true
      → s.control ≡ none
      → collect tasks s.received ≡ ok m
      → Moves s (record s { control = some m })
  ends : (s : System) (m : Bytes) → s.control ≡ some m → Moves s (record s { ended = s.ended + 1 })

pub data Reaches (s : System) : System → Type 0 where
  start : Reaches s s
  then_moves : {t u : System} → Reaches s t → Moves t u → Reaches s u
