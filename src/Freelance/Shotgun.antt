-- ===== src/Freelance/Shotgun.antt =====
-- Model two: model-two-brutal-shotgun-massacre/flclient2.cpp and flserver2.cpp.
pub mod Rounds
use zguide_examples.Prelude.{
  ℕ, zero, suc, ◌+◌, ◌-◌, ◌*◌, ◌/◌, ◌%◌, ◌^◌, Bool, Option, none, some, List, [], ◌∷◌, ◌++◌,
}
use zguide_examples.Prelude.Tests.{ltb, ◌==◌, if◌then◌else◌}
use zguide_examples.Prelude.Lists.{length, replicate}
use zguide_examples.Prelude.Bytes.{Bytes, codes}
use zguide_examples.Prelude.Result.{
  Result, ok, stop, fault, starved, thrown, zero_division, ◌>>=◌, ◌>>◌, assert, take_front,
  or_fault,
}
use zguide_examples.Zmq.Frames.{Message, was_interrupted}
use zguide_examples.Freelance.Sequence.{to_string, stoi}

abbrev pub total_requests : ℕ
total_requests = 10000

-- Milliseconds.
abbrev pub global_timeout : ℕ
global_timeout = 2500

-- `servers_` and `sequence_`, an unsigned number of 32 bits.
pub record Client : Type 0 where
  pub servers : ℕ
  pub sequence : ℕ

pub data Action : Type 0 where
  connects : Bytes → Action
  sends : Message → Action

unfoldable pub init : Client
init = record { servers = 0; sequence = 0 }

unfoldable pub connect : Bytes → Client → Client × List Action
connect endpoint c = (record c { servers = c.servers + 1 }, connects endpoint ∷ [])

-- What a round of the loop in `request` finds, and the time when the round is over.
pub data Poll : Type 0 where
  quiet : ℕ → Poll
  got : Message → ℕ → Poll

-- The reply to keep, and whether it ends the loop.
unfoldable pub on_reply : ℕ → Message → Result (Message × Bool)
unfolding stoi
on_reply sequence frames = do
  assert (length frames == 3)
  (_, reply) ← take_front frames
  (front, _) ← take_front reply
  seq_no ← or_fault thrown (stoi front)
  ok (reply, seq_no == sequence)

unfoldable pub await : ℕ → ℕ → Message → List Poll → Result Message
unfolding on_reply
await sequence end_time reply [] = fault starved
await sequence end_time reply (quiet now ∷ polls) =
    let later = await sequence end_time reply polls in if ltb now end_time then later else ok reply
await sequence end_time reply (got frames now ∷ polls) = do
  (reply', over) ← on_reply sequence frames
  let later = await sequence end_time reply' polls
  if over then ok reply' else if ltb now end_time then later else ok reply'

-- The content of a request is not sent. The reply is the value of the last component.
unfoldable pub request : ℕ → Bytes → List Poll → Client → Client × List Action × Result Message
unfolding await
request start content polls c =
    let sequence = (c.sequence + 1) % 2 ^ 32 in
    (
      record c { sequence = sequence },
      replicate c.servers (sends ([] ∷ to_string sequence ∷ [])),
      await sequence (start + global_timeout) [] polls,
    )

-- The loop of `main`: the requests that are left, by what `request` returns.
unfoldable pub request_loop : ℕ → List Message → ℕ
request_loop zero results = zero
request_loop (suc requests) [] = suc requests
request_loop (suc requests) (result ∷ results) =
    let rest = request_loop requests results in
    if was_interrupted result then suc requests else rest

unfoldable pub report : ℕ → ℕ → ℕ → Result (ℕ × ℕ)
report ms ns requests =
    let received_count = total_requests - requests in
    if received_count == 0
    then fault zero_division
    else ok (ms / received_count, ns / received_count)

-- One round of the server.
unfoldable pub respond : Message → Result Message
respond [] = stop
respond (f ∷ fs) = do assert (length (f ∷ fs) == 1); ok (f ∷ codes "OK" ∷ [])
