-- ===== src/AsyncServer.antt =====
-- The asynchronous client and server: async-client-server-pattern/asyncsrv.cpp. The proxy between
-- them is that of the messaging library.
pub mod Identity
pub mod System
use zguide_examples.Prelude.{
  ℕ, zero, suc, ◌+◌, ◌<◌, ◌≡◌, refl, inl, inr, List, [], ◌∷◌, ◌++◌, arith, true, false,
}
use zguide_examples.Prelude.Tests.{
  leb, if◌then◌else◌, Bool-cases, ltb, lt→ltb, ltb→lt, ltb-false→le,
}
use zguide_examples.Prelude.Lists.{length, replicate}
use zguide_examples.Prelude.Bytes.{Bytes, codes}
use zguide_examples.Prelude.Result.{Result, ok, fault, overflow, starved, ◌>>=◌}
use zguide_examples.Zmq.Frames.{Message}
use zguide_examples.Freelance.Sequence.{to_string}
use zguide_examples.Freelance.Sequence.Text.{to_string-length_iff}

-- `char request[16]`
abbrev pub request_size : ℕ
request_size = 16

-- `sprintf(request, "request #%d", ...)`, which writes a zero byte behind the text.
unfoldable pub request_text : ℕ → Result Bytes
request_text request_nbr =
    let text = codes "request #" ++ to_string request_nbr in
    if leb (length text + 1) request_size then ok text else fault overflow

-- What a worker sends for a request, of the identity of the client and a text: the draw says how
-- many replies.
unfoldable pub server_work : ℕ → Message → Result (List Message)
server_work replies [] = fault starved
server_work replies (id ∷ []) = fault starved
server_work replies (id ∷ msg ∷ _) = ok (replicate replies (id ∷ msg ∷ []))

-- The requests that a client sends, from a number on.
unfoldable pub client_task : ℕ → ℕ → Result (List Bytes)
unfolding request_text
client_task request_nbr zero = ok []
client_task request_nbr (suc rounds) = do
  text ← request_text (suc request_nbr)
  later ← client_task (suc request_nbr) rounds
  ok (text ∷ later)

-- The texts of numbered requests.
abbrev pub texts : ℕ → ℕ → List Bytes
texts first zero = []
texts first (suc count) = (codes "request #" ++ to_string first) ∷ texts (suc first) count

-- A request is written with its number and fits its array as long as that has at most six digits;
-- the first of seven digits is written past the end.
pub request_text-fits :
    (n : ℕ)
    → request_text n
      ≡ (if ltb n 1000000 then ok (codes "request #" ++ to_string n) else fault overflow)
unfolding request_text
request_text-fits n = elim (Bool-cases (ltb n 1000000)) [
  | inl e ↦
      let short = (to_string-length_iff n).0 (ltb→lt n 1000000 e) in
      let fits : leb (length (codes "request #" ++ to_string n) + 1) request_size ≡ true =
        ground (arith, short) in
      rw e (rw fits)
  | inr e ↦
      let long = (to_string-length_iff n).1 (ltb-false→le n 1000000 e) in
      let past : leb (length (codes "request #" ++ to_string n) + 1) request_size ≡ false =
        ground (arith, long) in
      rw e (rw past)
]

client_task-texts :
    (rounds request_nbr : ℕ)
    → request_nbr + rounds < 1000000
    → client_task request_nbr rounds ≡ ok (texts (suc request_nbr) rounds)
unfolding client_task
client_task-texts zero request_nbr h = refl
client_task-texts (suc rounds) request_nbr h =
    let short : ltb (suc request_nbr) 1000000 ≡ true =
      lt→ltb (suc request_nbr) 1000000 (omega arith) in
    rw (request_text-fits (suc request_nbr))
      (rw short (rw (client_task-texts rounds (suc request_nbr) (omega arith))))
