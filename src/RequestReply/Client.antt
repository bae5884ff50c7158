-- ===== src/RequestReply/Client.antt =====
-- extended-request-reply/rrclient.cpp and rrworker.cpp, joined by the broker.
use zguide_examples.Prelude.{
  ℕ, zero, suc, ◌≡◌, refl, true, false, Option, none, some, List, [], ◌∷◌, ◌++◌, map,
}
use zguide_examples.Prelude.Bytes.{Bytes, codes}
use zguide_examples.Prelude.Result.{Result, ok, fault, starved, ◌>>=◌, or_fault}
use zguide_examples.Zmq.Frames.{Part, Message, send_loop, got, recv_frames, recv_loop}
use zguide_examples.Freelance.Sequence.{to_string}
use zguide_examples.RequestReply.{step, relay}

abbrev pub hello : Bytes
hello = codes "Hello"

abbrev pub world : Bytes
world = codes "World"

-- What a REQ socket of an identity makes of a request, as the ROUTER socket of the broker reads it.
abbrev pub requested : Bytes → Bytes → List Part
requested identity request = send_loop identity ([] ∷ request ∷ [])

-- A REP socket keeps the frames up to the empty one for the reply.
abbrev pub envelope : Message → Option (Message × Message)
envelope [] = none
envelope ([] ∷ body) = some ([] ∷ [], body)
envelope ((c ∷ s) ∷ frames) = elim (envelope frames) as (λ _. Option (Message × Message)) [
  | some (kept, body) ↦ some ((c ∷ s) ∷ kept, body)
  | none ↦ none
]

-- The message in some parts, read whole.
abbrev pub whole : List Part → Result Message
whole parts = elim (recv_frames (map got parts)) as (λ _. Result Message) [
  | some (message, rest) ↦ ok message
  | none ↦ fault starved
]

abbrev pub parts_of : Message → Result (List Part)
parts_of [] = fault starved
parts_of (f ∷ fs) = ok (send_loop f fs)

-- A round of the worker, whatever the request is.
unfoldable pub worker : List Part → Result (List Part)
worker parts = do
  request ← whole parts
  (kept, body) ← or_fault starved (envelope request)
  parts_of (kept ++ world ∷ [])

abbrev pub reply_text : ℕ → Bytes → Bytes
reply_text req_no str =
    codes "client: Received reply " ++ to_string req_no ++ codes " [" ++ str ++ codes "]"

-- The body of a reply that the broker sends to a client.
abbrev pub reply_body : Message → Result Bytes
reply_body (identity ∷ [] ∷ str ∷ []) = ok str
reply_body _ = fault starved

-- A request of the client: the broker passes it on, a worker answers, and the broker passes the reply
-- on; the line that the client prints.
unfoldable pub request : Bytes → ℕ → Result Bytes
unfolding step worker
request identity req_no = do
  (s₁, sent) ← step true false (record { frontend = requested identity hello; backend = [] })
  reply ← worker sent.backend
  (s₂, back) ← step false true (record s₁ { backend = reply })
  message ← whole back.frontend
  str ← reply_body message
  ok (reply_text req_no str)

-- The loop of the client, from a number on.
unfoldable pub client : Bytes → ℕ → ℕ → Result (List Bytes)
unfolding request
client identity req_no zero = ok []
client identity req_no (suc left) = do
  line ← request identity req_no
  lines ← client identity (suc req_no) left
  ok (line ∷ lines)

abbrev pub reply_texts : ℕ → ℕ → List Bytes
reply_texts req_no zero = []
reply_texts req_no (suc left) = reply_text req_no world ∷ reply_texts (suc req_no) left

request_answered :
    (c : ℕ) (s : Bytes) (req_no : ℕ) → request (c ∷ s) req_no ≡ ok (reply_text req_no world)
unfolding request step worker relay recv_frames recv_loop send_loop
request_answered c s req_no = refl

-- Every request of the client is answered, through the broker and a worker, before the next is sent,
-- as many as it was told to send, if its identity is not empty.
pub client_answered :
    (c : ℕ) (s : Bytes) (req_no left : ℕ)
    → client (c ∷ s) req_no left ≡ ok (reply_texts req_no left)
unfolding client
client_answered c s req_no zero = refl
client_answered c s req_no (suc left) =
    rw (request_answered c s req_no) (rw (client_answered c s (suc req_no) left) refl)
