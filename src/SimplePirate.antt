-- ===== src/SimplePirate.antt =====
-- The Simple Pirate pattern: basic-reliable-queuing/spqueue.cpp and spworker.cpp. A step of the queue
-- is one round of the loop of `main`.
pub mod Order
pub mod System
use zguide_examples.Prelude.{
  ℕ, ◌+◌, Bool, Option, none, some, List, [], ◌∷◌, ◌++◌, ◌&&◌, true, false,
}
use zguide_examples.Prelude.Tests.{ltb, ◌==◌, if◌then◌else◌}
use zguide_examples.Prelude.Lists.{length}
use zguide_examples.Prelude.Bytes.{Bytes, codes, same}
use zguide_examples.Prelude.Result.{
  Result, ok, stop, fault, empty_front, empty_send, ◌>>=◌, ◌>>◌, assert, take_front,
}
use zguide_examples.Zmq.Frames.{Message}

abbrev pub max_workers : ℕ
max_workers = 100

abbrev pub ready : Bytes
ready = codes "READY"

pub data Sent : Type 0 where
  to_frontend to_backend : Message → Sent

pub record Input : Type 0 where
  pub backend : Option Message
  pub frontend : Option Message

abbrev pub is_empty : Bytes → Bool
is_empty [] = true
is_empty (_ ∷ _) = false

abbrev pub send : (Message → Sent) → Message → Result (List Sent)
send to [] = fault empty_send
send to (f ∷ fs) = ok (to (f ∷ fs) ∷ [])

-- A message of a worker: its identity, an empty frame, and READY or a reply.
unfoldable pub on_backend : Message → List Bytes → Result (List Bytes × List Sent)
on_backend frames queue = do
  assert (ltb (length queue) max_workers)
  (worker, rest) ← take_front frames
  (delimiter, body) ← take_front rest
  assert (is_empty delimiter)
  (first, _) ← take_front body
  if same first ready
      then ok (queue ++ worker ∷ [], [])
      else (do sent ← send to_frontend body; ok (queue ++ worker ∷ [], sent))

unfoldable pub on_frontend : Message → List Bytes → Result (List Bytes × List Sent)
on_frontend frames queue = do
  (worker, rest) ← take_front queue
  ok (rest, to_backend (worker ∷ [] ∷ frames) ∷ [])

abbrev pub polled :
    (Message → List Bytes → Result (List Bytes × List Sent))
    → Option Message
    → List Bytes
    → Result (List Bytes × List Sent)
polled handler none queue = ok (queue, [])
polled handler (some frames) queue = handler frames queue

unfoldable pub step : Input → List Bytes → Result (List Bytes × List Sent)
unfolding on_backend on_frontend
step input queue = do
  (queue₁, replies) ← polled on_backend input.backend queue
  (queue₂, requests) ← polled on_frontend input.frontend queue₁
  ok (queue₂, replies ++ requests)

unfoldable pub run : List Input → List Bytes → Result (List Bytes × List Sent)
run [] queue = ok (queue, [])
run (i ∷ is) queue = do
  (queue₁, sent) ← step i queue
  (queue₂, later) ← run is queue₁
  ok (queue₂, sent ++ later)

-- What the worker does with a request: it may crash or be slow, and then sends the frames back.
pub data WorkerAction : Type 0 where
  sleeps : ℕ → WorkerAction
  sends : Message → WorkerAction

-- `frames.back()`, which wants a frame: an interrupted `recv` gives none.
abbrev pub last_frame : Message → Result Bytes
last_frame [] = fault empty_front
last_frame (f ∷ []) = ok f
last_frame (f ∷ g ∷ frames) = last_frame (g ∷ frames)

unfoldable pub work : ℕ → ℕ → Message → ℕ → Result (ℕ × List WorkerAction)
work crash_draw overload_draw frames cycles =
    let cycles' = cycles + 1 in
    if ltb 6 cycles' && crash_draw == 0 then stop else (do
      _ ← last_frame frames
      ok (
        cycles',
        (if ltb 3 cycles' && overload_draw == 0 then sleeps 5 ∷ [] else [])
            ++ sleeps 1 ∷ sends frames ∷ [],
      ))
