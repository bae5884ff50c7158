-- ===== src/Zmq/Deque.antt =====
-- `recv_msg` and `send_msg` of model-three-complex-and-nasty/flmsg.hpp, which stand for `recv_frames`
-- and `send_frames` in the third Freelance model.
use zguide_examples.Prelude.{
  ◌≡◌, refl, ap, Bool, true, false, Option, none, some, List, [], ◌∷◌, ◌++◌, map, inl, inr,
}
use zguide_examples.Prelude.Tests.{if◌then◌else◌, Bool-cases}
use zguide_examples.Prelude.Bytes.{Bytes}
use zguide_examples.Prelude.Result.{Result, ok, fault, empty_send}
use zguide_examples.Zmq.Frames.{
  Message, Part, Recv, got, recv_frames, recv_loop, send_frames, send_loop,
}

-- The lambda: it takes a frame, puts it behind the others, and tells whether more follow.
abbrev pub recv_part : Message → Part → Message × Bool
recv_part msg p = (msg ++ p.frame ∷ [], p.more)

-- `while (recv_msg()) ;`; it waits for ever (`none`) if no more frames come.
recv_msg_loop : Message → List Part → Option (Message × List Part)
recv_msg_loop msg [] = none
recv_msg_loop msg (p ∷ rest) =
    let (msg', more) = recv_part msg p in
    let further = recv_msg_loop msg' rest in if more then further else some (msg', rest)

unfoldable pub recv_msg : List Part → Option (Message × List Part)
unfolding recv_msg_loop
recv_msg arriving = recv_msg_loop [] arriving

-- `begin()` up to `end() - 1`, and what is there.
abbrev pub before_last : Bytes → Message → Message
before_last frame [] = []
before_last frame (next ∷ frames) = frame ∷ before_last next frames

abbrev pub last : Bytes → Message → Bytes
last frame [] = frame
last frame (next ∷ frames) = last next frames

-- The loop up to the last frame, with `ZMQ_SNDMORE`, and then the last without.
unfoldable pub send_msg : Message → Result (List Part)
send_msg [] = fault empty_send
send_msg (frame ∷ frames) = ok (
    map (λ f. record { frame = f; more = true }) (before_last frame frames)
    ++ record { frame = last frame frames; more = false } ∷ [])

-- What `recv_frames` makes of what arrives, with the rest in the other form.
abbrev pub as_recv : Option (Message × List Part) → Option (Message × List Recv)
as_recv none = none
as_recv (some (msg, rest)) = some (msg, map got rest)

recv_loop-recv_msg_loop :
    (msg : Message) (parts : List Part)
    → recv_loop msg (map got parts) ≡ as_recv (recv_msg_loop msg parts)
unfolding recv_loop recv_msg_loop
recv_loop-recv_msg_loop msg [] = refl
recv_loop-recv_msg_loop msg (p ∷ parts) = elim (Bool-cases p.more) [
  | inl e ↦ rw e (recv_loop-recv_msg_loop (msg ++ p.frame ∷ []) parts)
  | inr e ↦ rw e refl
]

send_loop-before_last :
    (frame : Bytes) (frames : Message)
    → send_loop frame frames
      ≡ map (λ f. record { frame = f; more = true }) (before_last frame frames)
        ++ record { frame = last frame frames; more = false } ∷ []
unfolding send_loop
send_loop-before_last frame [] = refl
send_loop-before_last frame (next ∷ frames) =
    ap (λ l. record { frame = frame; more = true } ∷ l) (send_loop-before_last next frames)

-- The two pairs of functions are the same: every message goes out in the same frames, or in none if it
-- is empty, and as long as `recv` does not fail, the same message is read from the same frames, with
-- the same frames left behind it, and both wait if the last has not come.
pub send_msg-recv_msg :
    (message : Message) (parts : List Part)
    → (send_msg message ≡ send_frames message)
      × (recv_frames (map got parts) ≡ as_recv (recv_msg parts))
unfolding send_msg send_frames recv_msg recv_frames
send_msg-recv_msg [] parts = (refl, recv_loop-recv_msg_loop [] parts)
send_msg-recv_msg (frame ∷ frames) parts =
    (rw (send_loop-before_last frame frames) refl, recv_loop-recv_msg_loop [] parts)
