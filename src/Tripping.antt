-- ===== src/Tripping.antt =====
-- The round-trip demonstrator: round-trip-demonstrator/tripping.cpp.
pub mod Measures
use zguide_examples.Prelude.{
  ℕ, zero, suc, ◌*◌, ◌/◌, ◌≡◌, refl, Option, none, some, List, [], ◌∷◌, ◌++◌, map,
}
use zguide_examples.Prelude.Tests.{◌==◌, if◌then◌else◌}
use zguide_examples.Prelude.Bytes.{Bytes, codes, same}
use zguide_examples.Prelude.Result.{Result, ok, fault, zero_division, ◌>>=◌, take_front}
use zguide_examples.Zmq.Frames.{Message}
use zguide_examples.Freelance.Sequence.{to_string}

abbrev pub client_id : Bytes
client_id = codes "Client"

abbrev pub worker_id : Bytes
worker_id = codes "Worker"

pub data Sent : Type 0 where
  to_frontend to_backend : Message → Sent

-- The broker swaps the identity in front.
unfoldable pub on_frontend : Message → Result Sent
on_frontend frames = do (_, rest) ← take_front frames; ok (to_backend (worker_id ∷ rest))

unfoldable pub on_backend : Message → Result Sent
on_backend frames = do (_, rest) ← take_front frames; ok (to_frontend (client_id ∷ rest))

abbrev polled : (Message → Result Sent) → Option Message → Result (List Sent)
polled handler none = ok []
polled handler (some frames) = do sent ← handler frames; ok (sent ∷ [])

-- A round of `broker_task`.
unfoldable pub step : Option Message → Option Message → Result (List Sent)
unfolding on_frontend on_backend
step frontend backend = do
  requests ← polled on_frontend frontend
  replies ← polled on_backend backend
  ok (requests ++ replies)

unfoldable pub run : List (Option Message × Option Message) → Result (List Sent)
unfolding step
run [] = ok []
run ((frontend, backend) ∷ rounds) = do
  sent ← step frontend backend
  later ← run rounds
  ok (sent ++ later)

-- What `worker_task` makes of a message: it reads one frame at a time and sends it back by itself.
unfoldable pub echo : Message → List Message
echo frames = map (λ f. f ∷ []) frames

-- The numbers that the client sends in a test.
unfoldable pub payloads : ℕ → ℕ → List Bytes
payloads first zero = []
payloads first (suc count) = to_string first ∷ payloads (suc first) count

-- The calls per second that `end_test` prints.
unfoldable pub end_test : ℕ → ℕ → Result ℕ
end_test ms call_count = if ms == 0 then fault zero_division else ok (call_count * 1000 / ms)

abbrev pub asked : Bytes → Option Message × Option Message
asked payload = (some (client_id ∷ payload ∷ []), none)

abbrev pub echoed : Message → Option Message × Option Message
echoed reply = (none, some (worker_id ∷ reply))

-- What the worker makes of all that the ROUTER sockets deliver to it: a message with another identity in
-- front is dropped, for there is no such peer on the backend.
abbrev pub echoes : List Sent → List Message
echoes [] = []
echoes (to_backend [] ∷ sent) = echoes sent
echoes (to_backend (identity ∷ frames) ∷ sent) =
    let later = echoes sent in if same identity worker_id then echo frames ++ later else later
echoes (to_frontend _ ∷ sent) = echoes sent

run-asked :
    (vs : List Bytes) → run (map asked vs) ≡ ok (map (λ v. to_backend (worker_id ∷ v ∷ [])) vs)
unfolding run step on_frontend
run-asked [] = refl
run-asked (v ∷ vs) = rw (run-asked vs)

run-echoed :
    (vs : List Bytes)
    → run (map echoed (echoes (map (λ v. to_backend (worker_id ∷ v ∷ [])) vs)))
      ≡ ok (map (λ v. to_frontend (client_id ∷ v ∷ [])) vs)
unfolding run step on_backend echo same
run-echoed [] = refl
run-echoed (v ∷ vs) = rw (run-echoed vs)

-- Whatever texts the client sends, one a message, without waiting: when the broker has passed them
-- to the worker, and what the worker sends back to the client, the client has been sent each text
-- once, in the order in which it sent them.
pub trip-answered :
    (vs : List Bytes)
    → (run (map asked vs) >>= λ sent. run (map echoed (echoes sent)))
      ≡ ok (map (λ v. to_frontend (client_id ∷ v ∷ [])) vs)
trip-answered vs = rw (run-asked vs) (run-echoed vs)
