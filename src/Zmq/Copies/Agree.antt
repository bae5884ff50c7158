-- ===== src/Zmq/Copies/Agree.antt =====
-- The functions of the other programs against those of robust-reliable-queuing/ppcommon.cpp.
use mathlib.Core.List.{map-append}
use zguide_examples.Prelude.{
  ℕ, zero, suc, ◌+◌, ◌-◌, ◌%◌, ◌≤◌, ◌<◌, ◌≡◌, refl, ap, sym, ◌∙◌, Bool, true, false, some, List, [],
  ◌∷◌, ◌++◌, map, inl, inr, arith, append_assoc,
}
use zguide_examples.Prelude.Tests.{ltb, Bool-cases}
use zguide_examples.Prelude.Lists.{length, get_elem?, length-append}
use zguide_examples.Prelude.Bytes.{Bytes}
use zguide_examples.Prelude.Result.{ok, fault, empty_send, overflow, ◌>>=◌}
use zguide_examples.Zmq.Frames.{
  Message, Part, Recv, got, failed, recv_frames, recv_loop, send_frames, send_loop,
  recv_frames-send_frames,
}
use zguide_examples.Zmq.Deque.{before_last, last, as_recv, send_msg, send_msg-recv_msg}
use zguide_examples.Zmq.Copies.{
  back, sent_more, sent_last, send_while, unequal, sp_send_frames, flclient_send_frames,
  peering_send_frames, flserver_send_frames, tripping_send_frames, size_mod, while_more,
  sp_recv_frames, peering_recv_frames, do_while_more, flserver_recv_frames, while_unchecked,
  flclient_recv_frames, tripping_recv_frames, for_each,
}

back-last : (f : Bytes) (fs : Message) → back (f ∷ fs) ≡ ok (last f fs)
back-last f [] = refl
back-last f (g ∷ fs) = back-last g fs

-- A test that tells a place before the last frame from that of the last.
record IsBound (test : ℕ → ℕ → Bool) : Type 0 where
  passes : (a b : ℕ) → a < b → test a b ≡ true
  ends : (a : ℕ) → test a a ≡ false

ltb-IsBound : IsBound ltb
ltb-IsBound = record { passes = λ a b h. ground arith; ends = λ a. ground arith }

unequal-IsBound : IsBound unequal
unequal-IsBound = record { passes = λ a b h. ground arith; ends = λ a. ground arith }

get_elem?-append :
    (before : Message) (f : Bytes) (fs : Message)
    → get_elem? (before ++ f ∷ fs) (length before) ≡ some f
get_elem?-append [] f fs = refl
get_elem?-append (b ∷ before) f fs = get_elem?-append before f fs

-- The loop from a place on, with the frames before it.
send_while-before_last :
    (test : ℕ → ℕ → Bool)
    → IsBound test
    → (before : Message) (f : Bytes) (fs : Message) (rounds it last : ℕ) → length fs ≤ rounds
    → it ≡ length before
    → last ≡ it + length fs
    → send_while test rounds it last (before ++ f ∷ fs) ≡ ok (map sent_more (before_last f fs))
unfolding send_while
send_while-before_last test bound before f [] zero it last h e k =
    let there : last ≡ it = omega (arith, k) in rw there (rw (bound.ends it) refl)
send_while-before_last test bound before f [] (suc rounds) it last h e k =
    let there : last ≡ it = omega (arith, k) in rw there (rw (bound.ends it) refl)
send_while-before_last test bound before f (g ∷ fs) zero it last h e k = absurd (omega arith)
send_while-before_last test bound before f (g ∷ fs) (suc rounds) it last h e k =
    let more : test it last ≡ true = bound.passes it last (omega arith) in
    let found : get_elem? (before ++ f ∷ g ∷ fs) it ≡ some f =
      rw e (get_elem?-append before f (g ∷ fs)) in
    let regroup = append_assoc before (f ∷ []) (g ∷ fs) in
    let behind : suc it ≡ length (before ++ f ∷ []) =
      omega (arith, length-append before (f ∷ [])) in
    let rest =
      send_while-before_last test bound (before ++ f ∷ []) g fs rounds (suc it) last (omega arith)
        behind (omega arith) in
    rw more (rw found (rw (ap (send_while test rounds (suc it) last) (sym regroup) ∙ rest) refl))

sends_before_last :
    (test : ℕ → ℕ → Bool)
    → IsBound test
    → (f : Bytes) (fs : Message) (end : ℕ) → end ≡ length fs
    → send_while test (length (f ∷ fs)) 0 end (f ∷ fs) ≡ ok (map sent_more (before_last f fs))
sends_before_last test bound f fs end e =
    send_while-before_last test bound [] f fs (length (f ∷ fs)) 0 end (omega arith) refl
      (omega arith)

-- A whole message, by whichever of the two tests.
sends_all :
    (test : ℕ → ℕ → Bool)
    → IsBound test
    → (f : Bytes) (fs : Message) (end : ℕ) → end ≡ length fs
    → (do
      parts ← send_while test (length (f ∷ fs)) 0 end (f ∷ fs)
      l ← back (f ∷ fs)
      ok (parts ++ sent_last l ∷ []))
      ≡ send_frames (f ∷ fs)
unfolding send_msg
sends_all test bound f fs end e =
    rw (sends_before_last test bound f fs end e)
      (rw (back-last f fs) (send_msg-recv_msg (f ∷ fs) []).0)

wraps : (n : ℕ) → n < size_mod → (suc n + (size_mod - 1)) % size_mod ≡ n
wraps n h = omega arith

while_more-recv_loop :
    (frames : Message) (arriving : List Recv)
    → while_more true frames arriving ≡ recv_loop frames arriving
unfolding while_more recv_loop
while_more-recv_loop frames [] = refl
while_more-recv_loop frames (failed ∷ arriving) = refl
while_more-recv_loop frames (got p ∷ arriving) = elim (Bool-cases p.more) [
  | inl e ↦ rw e (while_more-recv_loop (frames ++ p.frame ∷ []) arriving)
  | inr e ↦ rw (e, while_more) refl
]

do_while_more-recv_loop :
    (frames : Message) (arriving : List Recv)
    → do_while_more frames arriving ≡ recv_loop frames arriving
unfolding do_while_more recv_loop
do_while_more-recv_loop frames [] = refl
do_while_more-recv_loop frames (failed ∷ arriving) = refl
do_while_more-recv_loop frames (got p ∷ arriving) =
    rw (do_while_more-recv_loop (frames ++ p.frame ∷ []) arriving) refl

while_unchecked-recv_loop :
    (frames : Message) (arriving : List Part)
    → recv_loop frames (map got arriving) ≡ as_recv (while_unchecked true frames arriving)
unfolding while_unchecked recv_loop
while_unchecked-recv_loop frames [] = refl
while_unchecked-recv_loop frames (p ∷ arriving) = elim (Bool-cases p.more) [
  | inl e ↦ rw e (while_unchecked-recv_loop (frames ++ p.frame ∷ []) arriving)
  | inr e ↦ rw (e, while_unchecked) refl
]

-- With no frames: `end() - 1` is before the message, and `tripping` reads the first of 2 ^ 32 - 1 frames.
send_copies_empty :
    (sp_send_frames [] ≡ fault empty_send)
    × (flclient_send_frames [] ≡ fault empty_send)
    × (peering_send_frames [] ≡ fault empty_send)
    × (flserver_send_frames [] ≡ fault empty_send)
    × (tripping_send_frames [] ≡ fault overflow)
unfolding sp_send_frames flclient_send_frames peering_send_frames flserver_send_frames
    tripping_send_frames send_while
send_copies_empty = (refl, refl, refl, refl, refl)

-- A message with frames goes out in the same parts from each of the five programs as from ppcommon.cpp,
-- as long as their number fits the `size_t` of tripping.cpp; one without is a fault in each.
pub send_copies :
    (f : Bytes) (fs : Message)
    → length fs < size_mod
    → (sp_send_frames (f ∷ fs) ≡ send_frames (f ∷ fs))
      × (flclient_send_frames (f ∷ fs) ≡ send_frames (f ∷ fs))
      × (peering_send_frames (f ∷ fs) ≡ (do parts ← send_frames (f ∷ fs); ok (parts, true)))
      × (flserver_send_frames (f ∷ fs) ≡ send_frames (f ∷ fs))
      × (tripping_send_frames (f ∷ fs) ≡ send_frames (f ∷ fs))
unfolding sp_send_frames flclient_send_frames peering_send_frames flserver_send_frames
    tripping_send_frames for_each
send_copies f fs h =
    let by_unequal = sends_all unequal unequal-IsBound f fs (length fs) refl in
    let by_order = sends_all ltb ltb-IsBound f fs in
    (
      by_unequal,
      by_unequal,
      rw (← by_unequal) (
          rw (sends_before_last unequal unequal-IsBound f fs (length fs) refl)
            (rw (back-last f fs) refl)),
      by_order (length fs) refl,
      by_order ((length (f ∷ fs) + (size_mod - 1)) % size_mod) (wraps (length fs) h),
    )

-- What arrives is read as by `recv_frames` of ppcommon.cpp in each of the five programs, in two of them
-- as long as `recv` does not fail.
pub recv_copies :
    (arriving : List Recv) (parts : List Part)
    → (sp_recv_frames arriving ≡ recv_frames arriving)
      × (peering_recv_frames arriving ≡ recv_frames arriving)
      × (flserver_recv_frames arriving ≡ recv_frames arriving)
      × (as_recv (flclient_recv_frames parts) ≡ recv_frames (map got parts))
      × (as_recv (tripping_recv_frames parts) ≡ recv_frames (map got parts))
unfolding sp_recv_frames peering_recv_frames flserver_recv_frames flclient_recv_frames
    tripping_recv_frames recv_frames
recv_copies arriving parts = (
  while_more-recv_loop [] arriving,
  while_more-recv_loop [] arriving,
  do_while_more-recv_loop [] arriving,
  sym (while_unchecked-recv_loop [] parts),
  sym (while_unchecked-recv_loop [] parts),
)

-- Whichever of the six programs sends a message with frames, as long as their number fits the `size_t` of
-- tripping.cpp, the same parts cross the socket, and whichever of them reads these reads the message
-- whole, and leaves what arrives behind it.
pub copies_exchange :
    (f : Bytes) (fs : Message) (rest : List Recv) (behind : List Part)
    → length fs < size_mod
    → (parts : List Part) × (send_frames (f ∷ fs) ≡ ok parts)
      × (sp_send_frames (f ∷ fs) ≡ ok parts)
      × (flclient_send_frames (f ∷ fs) ≡ ok parts)
      × (peering_send_frames (f ∷ fs) ≡ ok (parts, true))
      × (flserver_send_frames (f ∷ fs) ≡ ok parts)
      × (tripping_send_frames (f ∷ fs) ≡ ok parts)
      × (recv_frames (map got parts ++ rest) ≡ some (f ∷ fs, rest))
      × (sp_recv_frames (map got parts ++ rest) ≡ some (f ∷ fs, rest))
      × (peering_recv_frames (map got parts ++ rest) ≡ some (f ∷ fs, rest))
      × (flserver_recv_frames (map got parts ++ rest) ≡ some (f ∷ fs, rest))
      × (as_recv (flclient_recv_frames (parts ++ behind)) ≡ some (f ∷ fs, map got behind))
      × (as_recv (tripping_recv_frames (parts ++ behind)) ≡ some (f ∷ fs, map got behind))
unfolding send_frames
copies_exchange f fs rest behind h =
    let parts = send_loop f fs in
    let (sp, flclient, peering, flserver, tripping) = send_copies f fs h in
    let read = recv_frames-send_frames (f ∷ fs) parts rest refl in
    let read_all = recv_frames-send_frames (f ∷ fs) parts (map got behind) refl in
    let (sp_r, peering_r, flserver_r, flclient_r, tripping_r) =
      recv_copies (map got parts ++ rest) (parts ++ behind) in
    let unchecked : recv_frames (map got (parts ++ behind)) ≡ some (f ∷ fs, map got behind) =
      ap recv_frames (map-append got parts behind) ∙ read_all in
    (
      parts,
      refl,
      sp,
      flclient,
      peering,
      flserver,
      tripping,
      read,
      sp_r ∙ read,
      peering_r ∙ read,
      flserver_r ∙ read,
      flclient_r ∙ unchecked,
      tripping_r ∙ unchecked,
    )
