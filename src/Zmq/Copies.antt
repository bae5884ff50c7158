-- ===== src/Zmq/Copies.antt =====
-- The other `send_frames` and `recv_frames` of the repository: basic-reliable-queuing/spcommon.h,
-- model-two-brutal-shotgun-massacre (flclient2.cpp, flserver2.cpp),
-- prototyping-the-local-and-cloud-flows/peering2.cpp and round-trip-demonstrator/tripping.cpp. An
-- iterator of a message is the number of frames before it.
pub mod Agree
use zguide_examples.Prelude.{
  ℕ, zero, suc, ◌+◌, ◌-◌, ◌%◌, ◌^◌, Bool, true, false, not, Option, none, some, List, [], ◌∷◌, ◌++◌,
}
use zguide_examples.Prelude.Tests.{ltb, ◌==◌, if◌then◌else◌}
use zguide_examples.Prelude.Lists.{length, get_elem?}
use zguide_examples.Prelude.Bytes.{Bytes}
use zguide_examples.Prelude.Result.{
  Result, ok, fault, empty_send, empty_front, overflow, ◌>>=◌, or_fault,
}
use zguide_examples.Zmq.Frames.{Message, Part, Recv, got, failed}

-- `end() - 1`
abbrev pub before_end : Message → Result ℕ
before_end [] = fault empty_send
before_end (f ∷ fs) = ok (length fs)

-- `back()`
abbrev pub back : Message → Result Bytes
back [] = fault empty_front
back (f ∷ []) = ok f
back (f ∷ g ∷ fs) = back (g ∷ fs)

abbrev pub sent_more : Bytes → Part
sent_more f = record { frame = f; more = true }

abbrev pub sent_last : Bytes → Part
sent_last f = record { frame = f; more = false }

-- A loop from `it` on, as long as it passes its test against `last`: each frame goes out with
-- `ZMQ_SNDMORE`. A read past the end is a fault, so that there are no more rounds than frames.
unfoldable pub send_while : (ℕ → ℕ → Bool) → ℕ → ℕ → ℕ → Message → Result (List Part)
send_while test zero it last frames = if test it last then fault overflow else ok []
send_while test (suc rounds) it last frames =
    let sends = (do
      f ← or_fault overflow (get_elem? frames it)
      rest ← send_while test rounds (suc it) last frames
      ok (sent_more f ∷ rest)) in
    if test it last then sends else ok []

abbrev pub unequal : ℕ → ℕ → Bool
unequal a b = not (a == b)

-- `it != last`
unfoldable pub sp_send_frames : Message → Result (List Part)
sp_send_frames frames = do
  last ← before_end frames
  parts ← send_while unequal (length frames) 0 last frames
  f ← back frames
  ok (parts ++ sent_last f ∷ [])

-- `std::for_each`, which compares by `!=` too.
unfoldable pub for_each : ℕ → Message → Result (List Part)
for_each last frames = send_while unequal (length frames) 0 last frames

unfoldable pub flclient_send_frames : Message → Result (List Part)
flclient_send_frames frames = do
  stop_before_last ← before_end frames
  parts ← for_each stop_before_last frames
  f ← back frames
  ok (parts ++ sent_last f ∷ [])

-- With the result that nothing uses.
unfoldable pub peering_send_frames : Message → Result (List Part × Bool)
peering_send_frames frames = do
  penultimate ← before_end frames
  parts ← for_each penultimate frames
  last_str ← back frames
  ok (parts ++ sent_last last_str ∷ [], true)

-- `it < cend() - 1`
unfoldable pub flserver_send_frames : Message → Result (List Part)
flserver_send_frames frames = do
  last ← before_end frames
  parts ← send_while ltb (length frames) 0 last frames
  f ← back frames
  ok (parts ++ sent_last f ∷ [])

-- A `size_t` of the 32-bit build.
abbrev pub size_mod : ℕ
size_mod = 2 ^ 32

-- `i < frames.size() - 1`, where the difference wraps round.
unfoldable pub tripping_send_frames : Message → Result (List Part)
tripping_send_frames frames = do
  parts ← send_while ltb (length frames) 0 ((length frames + (size_mod - 1)) % size_mod) frames
  f ← back frames
  ok (parts ++ sent_last f ∷ [])

-- `while (more_frames)` of spcommon.h and of peering2.cpp: a `recv` that fails ends it with an empty
-- message. It waits for ever (`none`) if no more frames come.
unfoldable pub while_more : Bool → Message → List Recv → Option (Message × List Recv)
while_more false frames arriving = some (frames, arriving)
while_more true frames [] = none
while_more true frames (failed ∷ arriving) = some ([], arriving)
while_more true frames (got p ∷ arriving) = while_more p.more (frames ++ p.frame ∷ []) arriving

unfoldable pub sp_recv_frames : List Recv → Option (Message × List Recv)
unfolding while_more
sp_recv_frames arriving = while_more true [] arriving

unfoldable pub peering_recv_frames : List Recv → Option (Message × List Recv)
unfolding while_more
peering_recv_frames arriving = while_more true [] arriving

-- `do ... while` of flserver2.cpp.
unfoldable pub do_while_more : Message → List Recv → Option (Message × List Recv)
do_while_more frames [] = none
do_while_more frames (failed ∷ arriving) = some ([], arriving)
do_while_more frames (got p ∷ arriving) =
    let frames' = frames ++ p.frame ∷ [] in
    let again = do_while_more frames' arriving in if p.more then again else some (frames', arriving)

unfoldable pub flserver_recv_frames : List Recv → Option (Message × List Recv)
unfolding do_while_more
flserver_recv_frames arriving = do_while_more [] arriving

-- `while (more)` of flclient2.cpp and of tripping.cpp, which take no notice of what `recv` returns: these
-- are the frames of a `recv` that waits.
unfoldable pub while_unchecked : Bool → Message → List Part → Option (Message × List Part)
while_unchecked false frames arriving = some (frames, arriving)
while_unchecked true frames [] = none
while_unchecked true frames (p ∷ arriving) =
    while_unchecked p.more (frames ++ p.frame ∷ []) arriving

unfoldable pub flclient_recv_frames : List Part → Option (Message × List Part)
unfolding while_unchecked
flclient_recv_frames arriving = while_unchecked true [] arriving

unfoldable pub tripping_recv_frames : List Part → Option (Message × List Part)
unfolding while_unchecked
tripping_recv_frames arriving = while_unchecked true [] arriving
