-- ===== src/SimplePirate/Order.antt =====
-- spqueue.cpp: workers get requests in the order in which they became ready.
use zguide_examples.Prelude.{
  ◌+◌, ◌≤◌, ◌<◌, ◌≡◌, refl, none, some, List, [], ◌∷◌, ◌++◌, map, arith, append_assoc, append-nil,
  false,
}
use zguide_examples.Prelude.Tests.{lt→ltb}
use zguide_examples.Prelude.Lists.{length, length-append}
use zguide_examples.Prelude.Bytes.{Bytes, same}
use zguide_examples.Prelude.Result.{Result, ok, ◌>>=◌}
use zguide_examples.Zmq.Frames.{Message}
use zguide_examples.SimplePirate.{
  Input, Sent, to_backend, to_frontend, on_backend, on_frontend, step, run, ready, max_workers,
}

-- A round in which a worker says that it is ready, and one in which a client asks.
abbrev pub readies : Bytes → Input
readies worker = record { backend = some (worker ∷ [] ∷ ready ∷ []); frontend = none }

abbrev pub asks : Message → Input
asks frames = record { backend = none; frontend = some frames }

-- The requests, each for the worker in its place.
unfoldable pub assigned : List Bytes → List Message → List Sent
assigned (worker ∷ workers) (frames ∷ requests) =
    to_backend (worker ∷ [] ∷ frames) ∷ assigned workers requests
assigned _ _ = []

run-readies :
    (workers queue : List Bytes)
    → length queue + length workers ≤ max_workers
    → run (map readies workers) queue ≡ ok (queue ++ workers, [])
unfolding run step same
run-readies [] queue h = rw (append-nil queue)
run-readies (worker ∷ workers) queue h = rw (lt→ltb (length queue) max_workers (omega arith)) (
    rw
      (run-readies workers (queue ++ worker ∷ [])
        (omega (arith, length-append queue (worker ∷ []))))
      (rw (append_assoc queue (worker ∷ []) workers)))

run-asks :
    (workers : List Bytes) (requests : List Message) (rest : List Bytes)
    → length requests ≡ length workers
    → run (map asks requests) (workers ++ rest) ≡ ok (rest, assigned workers requests)
unfolding run step assigned
run-asks [] [] rest h = refl
run-asks [] (r ∷ rs) rest h = absurd (omega arith)
run-asks (w ∷ ws) [] rest h = absurd (omega arith)
run-asks (w ∷ ws) (r ∷ rs) rest h = rw (run-asks ws rs rest (omega arith))

-- Workers that become ready one after the other, and then requests.
abbrev pub session : List Bytes → List Message → Result (List Bytes × List Sent)
session workers requests = do
  (queue, greetings) ← run (map readies workers) []
  (left, sent) ← run (map asks requests) queue
  ok (left, greetings ++ sent)

-- If workers become ready one after the other, a hundred at most, and as many requests come after
-- that, the first goes to the first worker, the second to the second, and so on, and the queue is
-- empty again.
pub session-assigned :
    (workers : List Bytes) (requests : List Message)
    → length workers ≤ max_workers
    → length requests ≡ length workers
    → session workers requests ≡ ok ([], assigned workers requests)
session-assigned workers requests h k =
    let asked : run (map asks requests) workers ≡ ok ([], assigned workers requests) =
      rw (append-nil workers) at (run-asks workers requests [] k) in
    rw (run-readies workers [] (omega arith)) (rw asked)

-- A request and, later, the worker's reply to it.
abbrev pub exchange : Message → Message → Bytes → List Bytes → Result (List Bytes × List Sent)
exchange frames reply worker queue = do
  (queue₁, sent) ← on_frontend frames (worker ∷ queue)
  (queue₂, replied) ← on_backend (worker ∷ [] ∷ reply) queue₁
  ok (queue₂, sent ++ replied)

-- A request goes to the worker at the front, and what that worker sends back goes to the clients as
-- it is, without the worker's identity; the worker stands at the back.
pub exchange-replied :
    (worker f : Bytes) (queue : List Bytes) (frames reply : Message)
    → same f ready ≡ false
    → length queue < max_workers
    → exchange frames (f ∷ reply) worker queue
      ≡ ok (queue ++ worker ∷ [], to_backend (worker ∷ [] ∷ frames) ∷ to_frontend (f ∷ reply) ∷ [])
unfolding on_frontend on_backend
exchange-replied worker f queue frames reply h k = rw (lt→ltb (length queue) max_workers k) (rw h)
