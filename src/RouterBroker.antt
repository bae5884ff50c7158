-- ===== src/RouterBroker.antt =====
-- A broker that gives work to whoever asks for it, and at the end dismisses each worker:
-- router-broker-and-req-workers/rtreq.cpp, whose workers are REQ sockets, and
-- router-broker-and-dealer-workers/rtdealer.cpp, whose workers write the envelope themselves. What
-- they have in common is a function of the two texts.
use zguide_examples.Prelude.{
  ℕ, zero, suc, ◌+◌, ◌<◌, ◌≤◌, ◌≡◌, refl, ap, ◌∙◌, false, List, [], ◌∷◌, ◌++◌, map, arith,
}
use zguide_examples.Prelude.Tests.{ltb, if◌then◌else◌, lt→ltb, ltb-false}
use zguide_examples.Prelude.Lists.{length, replicate, All}
use zguide_examples.Prelude.Bytes.{Bytes, codes, same, same_refl}
use zguide_examples.Prelude.Result.{Result, ok, fault, starved, ◌>>=◌}
use zguide_examples.Zmq.Frames.{Message}

abbrev pub total_workers : ℕ
total_workers = 10

pub record Texts : Type 0 where
  pub harder : Bytes
  pub fired : Bytes

-- A message that asks for work, of three frames, and the time when it is answered.
pub record Ask : Type 0 where
  pub message : Message
  pub now : ℕ

-- One `recv` of the next frame of the message.
abbrev pub recv : Message → Result (Bytes × Message)
recv [] = fault starved
recv (f ∷ rest) = ok (f, rest)

-- The answer, and the workers fired.
unfoldable pub answer : Texts → ℕ → Ask → ℕ → Result (ℕ × Message)
answer t end_time ask workers_fired = do
  (key, m₁) ← recv ask.message
  (_, m₂) ← recv m₁
  (_, _) ← recv m₂
  ok (
      if ltb ask.now end_time
      then (workers_fired, key ∷ [] ∷ t.harder ∷ [])
      else (suc workers_fired, key ∷ [] ∷ t.fired ∷ []))

-- The loop: the workers fired, the answers, and the messages that are left.
unfoldable pub run : Texts → ℕ → List Ask → ℕ → Result (ℕ × List Message × List Ask)
unfolding answer
run t end_time [] workers_fired = ok (workers_fired, [], [])
run t end_time (ask ∷ asks) workers_fired =
    let served = (do
      (fired, sent) ← answer t end_time ask workers_fired
      (fired', later, left) ← run t end_time asks fired
      ok (fired', sent ∷ later, left)) in
    if ltb workers_fired total_workers then served else ok (workers_fired, [], ask ∷ asks)

-- The loop of a worker: the tasks done by the time it is fired, by the texts that it is sent.
unfoldable pub task_count : Texts → List Bytes → ℕ → Result ℕ
task_count t [] count = fault starved
task_count t (text ∷ texts) count =
    let further = task_count t texts (suc count) in if same text t.fired then ok count else further

abbrev pub req_texts : Texts
req_texts = record { harder = codes "Work harder!"; fired = codes "You're fired!" }

abbrev pub dealer_texts : Texts
dealer_texts = record { harder = codes "Work harder"; fired = codes "Fired!" }

-- What a REQ socket sends, and what a DEALER worker does, behind the identity that the ROUTER adds.
abbrev pub hi_boss : Bytes
hi_boss = codes "Hi Boss"

unfoldable pub req_run : ℕ → List Ask → ℕ → Result (ℕ × List Message × List Ask)
unfolding run
req_run end_time asks workers_fired = run req_texts end_time asks workers_fired

unfoldable pub dealer_run : ℕ → List Ask → ℕ → Result (ℕ × List Message × List Ask)
unfolding run
dealer_run end_time asks workers_fired = run dealer_texts end_time asks workers_fired

unfoldable pub req_worker : List Bytes → Result ℕ
unfolding task_count
req_worker texts = task_count req_texts texts 0

unfoldable pub dealer_worker : List Bytes → Result ℕ
unfolding task_count
dealer_worker texts = task_count dealer_texts texts 0

abbrev pub asks_at : Bytes × ℕ → Ask
asks_at (key, now) = record { message = key ∷ [] ∷ hi_boss ∷ []; now = now }

abbrev pub told : Bytes → Bytes × ℕ → Message
told text (key, now) = key ∷ [] ∷ text ∷ []

run_late :
    (t : Texts) (end_time n : ℕ) (late : List (Bytes × ℕ)) (left : List Ask)
    → All (λ p. end_time ≤ p.1) late
    → n + length late ≡ total_workers
    → run t end_time (map asks_at late ++ left) n
      ≡ ok (total_workers, map (told t.fired) late, left)
unfolding run answer
run_late t end_time n [] [] a h = let all_fired : n ≡ total_workers = omega arith in rw all_fired
run_late t end_time n [] (ask ∷ left) a h =
    let all_fired : n ≡ total_workers = omega arith in rw all_fired
run_late t end_time n ((key, now) ∷ late) left a h =
    rw (lt→ltb n total_workers (omega arith)) (
      rw (ltb-false now end_time a.0)
        (rw (run_late t end_time (suc n) late left a.1 (omega arith))))

run_shifts :
    (t : Texts) (end_time n : ℕ) (early late : List (Bytes × ℕ)) (left : List Ask)
    → All (λ p. p.1 < end_time) early
    → All (λ p. end_time ≤ p.1) late
    → n < total_workers
    → n + length late ≡ total_workers
    → run t end_time (map asks_at early ++ (map asks_at late ++ left)) n
      ≡ ok (total_workers, map (told t.harder) early ++ map (told t.fired) late, left)
unfolding run answer
run_shifts t end_time n [] late left a b h k = run_late t end_time n late left b k
run_shifts t end_time n ((key, now) ∷ early) late left a b h k =
    rw (lt→ltb n total_workers h)
      (rw (lt→ltb now end_time a.0) (rw (run_shifts t end_time n early late left a.1 b h k)))

task_count-replicate :
    (t : Texts) (n count : ℕ) (later : List Bytes)
    → same t.harder t.fired ≡ false
    → task_count t (replicate n t.harder ++ t.fired ∷ later) count ≡ ok (count + n)
unfolding task_count
task_count-replicate t zero count later h =
    let none_more : count + 0 ≡ count = omega arith in rw (same_refl t.fired) (rw none_more)
task_count-replicate t (suc n) count later h =
    let one_more : count + suc n ≡ suc count + n = omega arith in
    rw h (rw one_more (task_count-replicate t n (suc count) later h))

-- In both programs, who asks before the time is up is told to work harder, and the ten who ask
-- after it are fired, each in the order in which they ask; the broker stops behind the tenth and
-- leaves what comes later.
pub req_run_shifts :
    (end_time : ℕ) (early late : List (Bytes × ℕ)) (left : List Ask)
    → All (λ p. p.1 < end_time) early
    → All (λ p. end_time ≤ p.1) late
    → length late ≡ total_workers
    → (req_run end_time (map asks_at early ++ (map asks_at late ++ left)) 0
        ≡ ok (
          total_workers,
          map (told req_texts.harder) early ++ map (told req_texts.fired) late,
          left,
        ))
      × (dealer_run end_time (map asks_at early ++ (map asks_at late ++ left)) 0
          ≡ ok (
            total_workers,
            map (told dealer_texts.harder) early ++ map (told dealer_texts.fired) late,
            left,
          ))
unfolding req_run dealer_run
req_run_shifts end_time early late left a b h = (
  run_shifts req_texts end_time 0 early late left a b (omega arith) (omega arith),
  run_shifts dealer_texts end_time 0 early late left a b (omega arith) (omega arith),
)

-- A worker that is told to work harder n times and then fired has done n tasks.
pub req_worker-replicate :
    (n : ℕ) (later : List Bytes)
    → (req_worker (replicate n req_texts.harder ++ req_texts.fired ∷ later) ≡ ok n)
      × (dealer_worker (replicate n dealer_texts.harder ++ dealer_texts.fired ∷ later) ≡ ok n)
unfolding req_worker dealer_worker same
req_worker-replicate n later =
    let from_none : 0 + n ≡ n = omega arith in
    (
      task_count-replicate req_texts n 0 later refl ∙ ap ok from_none,
      task_count-replicate dealer_texts n 0 later refl ∙ ap ok from_none,
    )
