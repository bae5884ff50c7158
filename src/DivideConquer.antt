-- ===== src/DivideConquer.antt =====
-- The ventilator, the workers and the sink: divide-and-conquer/taskvent.cpp, taskwork.cpp and
-- tasksink.cpp. The workloads drawn are an argument.
pub mod System
use zguide_examples.Prelude.{
  ℕ, zero, suc, ◌+◌, ◌-◌, ◌*◌, ◌%◌, ◌^◌, ◌≤◌, ◌<◌, ◌≡◌, refl, ap, sym, ◌∙◌, Bool, true, false, List,
  [], ◌∷◌, ◌++◌, arith, Option, none, some,
}
use mathlib.Core.Path.{subst}
use zguide_examples.Prelude.Tests.{leb, if◌then◌else◌}
use zguide_examples.Prelude.Lists.{length, replicate, All}
use zguide_examples.Prelude.Bytes.{Bytes, codes}
use zguide_examples.Prelude.Result.{Result, ok, fault, starved, overflow, ◌>>=◌}
use zguide_examples.Freelance.Sequence.{to_string, strtol}
use zguide_examples.Freelance.Sequence.RoundTrip.{strtol-padded}
use zguide_examples.Freelance.Sequence.Text.{to_string-length}

-- The results that the sink waits for.
abbrev pub tasks : ℕ
tasks = 100

-- The message of a task: ten bytes, the number in front and zero bytes behind it, one at least.
unfoldable pub task_message : ℕ → Result Bytes
task_message workload =
    let text = to_string workload in
    if leb (length text + 1) 10 then ok (text ++ replicate (10 - length text) 0) else fault overflow

-- The loop of the ventilator: the total cost, an unsigned number, and what is sent.
unfoldable pub ventilate : List ℕ → ℕ → Result (ℕ × List Bytes)
unfolding task_message
ventilate [] total_ms = ok (total_ms, [])
ventilate (workload ∷ workloads) total_ms = do
  message ← task_message workload
  (total, sent) ← ventilate workloads ((total_ms + workload) % 2 ^ 32)
  ok (total, message ∷ sent)

pub data Action : Type 0 where
  sleeps : ℕ → Action
  sends : Bytes → Action

-- The loop of a worker, by what `poll` finds: a task perhaps, and whether the sink has sent
-- something. `is >> workload` reads a number as `strtol` does.
unfoldable pub work : List (Option Bytes × Bool) → List Action
work [] = []
work ((none, false) ∷ rounds) = work rounds
work ((none, true) ∷ rounds) = []
work ((some message, false) ∷ rounds) = sleeps (strtol message).0 ∷ sends [] ∷ work rounds
work ((some message, true) ∷ rounds) = sleeps (strtol message).0 ∷ sends [] ∷ []

-- The loop of the sink, and what it sends to the workers.
unfoldable pub collect : ℕ → List Bytes → Result Bytes
collect zero results = ok (codes "KILL")
collect (suc left) [] = fault starved
collect (suc left) (result ∷ results) = collect left results

abbrev pub tasks_of : List Bytes → List (Option Bytes × Bool)
tasks_of [] = []
tasks_of (message ∷ messages) = (some message, false) ∷ tasks_of messages

-- How long the worker sleeps, and the results that it sends.
abbrev pub slept : List Action → ℕ
slept [] = 0
slept (sleeps ms ∷ actions) = ms + slept actions
slept (sends _ ∷ actions) = slept actions

abbrev pub results_of : List Action → List Bytes
results_of [] = []
results_of (sleeps _ ∷ actions) = results_of actions
results_of (sends result ∷ actions) = result ∷ results_of actions

abbrev pub sum : List ℕ → ℕ
sum [] = 0
sum (n ∷ ns) = n + sum ns

pub task_message-read :
    (n : ℕ) → n ≤ 100 → (m : Bytes) × (task_message n ≡ ok m) × ((strtol m).0 ≡ n)
unfolding task_message
task_message-read n h =
    let short = to_string-length n (omega arith) in
    let fits : leb (length (to_string n) + 1) 10 ≡ true = ground (arith, short) in
    (
      to_string n ++ replicate (10 - length (to_string n)) 0,
      rw fits,
      strtol-padded n _ (omega arith),
    )

pub ventilate_task :
    (n total t : ℕ) (workloads : List ℕ) (m : Bytes) (messages : List Bytes)
    → task_message n ≡ ok m
    → total + n < 2 ^ 32
    → ventilate workloads (total + n) ≡ ok (t, messages)
    → ventilate (n ∷ workloads) total ≡ ok (t, m ∷ messages)
unfolding ventilate
ventilate_task n total t workloads m messages e h sent =
    let small : (total + n) % 2 ^ 32 ≡ total + n = omega arith in rw e (rw small (rw sent))

ventilate-work :
    (workloads : List ℕ) (total : ℕ)
    → All (λ n. n ≤ 100) workloads
    → total + sum workloads < 2 ^ 32
    → (messages : List Bytes) × (ventilate workloads total ≡ ok (total + sum workloads, messages))
      × (slept (work (tasks_of messages)) ≡ sum workloads)
      × (length (results_of (work (tasks_of messages))) ≡ length workloads)
unfolding ventilate work
ventilate-work [] total a h =
    let nothing : total + 0 ≡ total = omega arith in ([], rw nothing, refl, refl)
ventilate-work (n ∷ workloads) total a h =
    let room : total + n < 2 ^ 32 = omega arith in
    let assoc : total + n + sum workloads ≡ total + (n + sum workloads) = omega arith in
    let (messages, sent, cost, count) = ventilate-work workloads (total + n) a.1 (omega arith) in
    let (m, e, value) = task_message-read n a.0 in
    (
      m ∷ messages,
      ventilate_task n total (total + n + sum workloads) workloads m messages e room sent
          ∙ ap (λ t. ok (t, m ∷ messages)) assoc,
      rw value (ap (λ s. n + s) cost),
      ap suc count,
    )

pub sum-bound : (ns : List ℕ) → All (λ n. n ≤ 100) ns → sum ns ≤ length ns * 100
sum-bound [] a = omega arith
sum-bound (n ∷ ns) a = omega (arith, a.0, sum-bound ns a.1)

pub collect-all : (results : List Bytes) → collect (length results) results ≡ ok (codes "KILL")
unfolding collect
collect-all [] = refl
collect-all (r ∷ results) = collect-all results

-- When a hundred workloads of up to 100 are drawn, the cost that the ventilator prints is the time
-- that workers sleep for its messages, and the results that they send are those that the sink waits
-- for before it ends them.
pub work_done :
    (workloads : List ℕ)
    → All (λ n. n ≤ 100) workloads
    → length workloads ≡ tasks
    → (messages : List Bytes) × (ventilate workloads 0
        ≡ ok (slept (work (tasks_of messages)), messages))
      × (collect tasks (results_of (work (tasks_of messages))) ≡ ok (codes "KILL"))
work_done workloads a h =
    let bound = sum-bound workloads a in
    let from_none : 0 + sum workloads ≡ sum workloads = omega arith in
    let (messages, sent, cost, count) = ventilate-work workloads 0 a (omega (arith, bound)) in
    (
      messages,
      sent ∙ ap (λ t. ok (t, messages)) (from_none ∙ sym cost),
      subst (λ n. collect n (results_of (work (tasks_of messages))) ≡ ok (codes "KILL")) (count ∙ h)
          (collect-all (results_of (work (tasks_of messages)))),
    )
