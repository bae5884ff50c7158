-- ===== src/Zmq/Frames.antt =====
-- Multi-part messages: `recv_frames`, `send_frames` and `was_interrupted` of
-- robust-reliable-queuing/ppcommon.cpp, and the copies of them in the other programs.
use zguide_examples.Prelude.{
  ◌≡◌, refl, Bool, true, false, Option, none, some, List, [], ◌∷◌, ◌++◌, map, append_assoc, arith,
}
use zguide_examples.Prelude.Tests.{if◌then◌else◌}
use zguide_examples.Prelude.Bytes.{Bytes}
use zguide_examples.Prelude.Result.{Result, ok, fault, empty_send}

-- One frame as it crosses the socket, with its `ZMQ_SNDMORE` or `ZMQ_RCVMORE` flag.
pub record Part : Type 0 where
  pub frame : Bytes
  pub more : Bool

-- What a call of `recv` gives: a frame, or false.
pub data Recv : Type 0 where
  got : Part → Recv
  failed : Recv

abbrev pub Message : Type 0
Message = List Bytes

-- The loop of `recv_frames`; it waits for ever (`none`) if no more frames come.
unfoldable pub recv_loop : Message → List Recv → Option (Message × List Recv)
recv_loop frames [] = none
recv_loop frames (failed ∷ rest) = some ([], rest)
recv_loop frames (got p ∷ rest) =
    let frames' = frames ++ p.frame ∷ [] in
    let further = recv_loop frames' rest in if p.more then further else some (frames', rest)

-- The message read, and what is left on the socket.
unfoldable pub recv_frames : List Recv → Option (Message × List Recv)
unfolding recv_loop
recv_frames arriving = recv_loop [] arriving

-- The frames but the last go out with `ZMQ_SNDMORE`.
unfoldable pub send_loop : Bytes → Message → List Part
send_loop frame [] = record { frame = frame; more = false } ∷ []
send_loop frame (next ∷ frames) = record { frame = frame; more = true } ∷ send_loop next frames

unfoldable pub send_frames : Message → Result (List Part)
unfolding send_loop
send_frames [] = fault empty_send
send_frames (frame ∷ frames) = ok (send_loop frame frames)

unfoldable pub was_interrupted : Message → Bool
was_interrupted [] = true
was_interrupted (_ ∷ _) = false

recv_loop-send_loop :
    (before : Message) (frame : Bytes) (frames : Message) (rest : List Recv)
    → recv_loop before (map got (send_loop frame frames) ++ rest)
      ≡ some (before ++ frame ∷ frames, rest)
unfolding recv_loop send_loop
recv_loop-send_loop before frame [] rest = refl
recv_loop-send_loop before frame (next ∷ frames) rest =
    simp (recv_loop-send_loop (before ++ frame ∷ []) next frames rest, append_assoc)

-- A message that is sent frame by frame is read back whole, and what arrives behind it is left on
-- the socket.
pub recv_frames-send_frames :
    (message : Message) (parts : List Part) (rest : List Recv)
    → send_frames message ≡ ok parts
    → recv_frames (map got parts ++ rest) ≡ some (message, rest)
unfolding recv_frames send_frames
recv_frames-send_frames [] parts rest e = cc
recv_frames-send_frames (frame ∷ frames) parts rest e =
    ground (arith, recv_loop-send_loop [] frame frames rest)
