-- ===== src/AsyncServer/System.antt =====
-- asyncsrv.cpp: the clients, the proxy and the threads of the server, whose steps come in any order.
pub mod Served
use zguide_examples.Prelude.{
  ℕ, zero, suc, ◌+◌, ◌*◌, ◌≤◌, ◌≡◌, refl, Bool, true, false, ◌&&◌, List, [], ◌∷◌, ◌++◌, arith, ap,
  sym, ◌∙◌,
}
use zguide_examples.Prelude.Tests.{if◌then◌else◌}
use zguide_examples.Prelude.Lists.{replicate}
use zguide_examples.Prelude.Bytes.{Bytes, same}
use zguide_examples.Prelude.Result.{ok, ok_injective}
use zguide_examples.Zmq.Frames.{Message}
use zguide_examples.Prelude.{◌<◌}
use zguide_examples.Freelance.Sequence.{to_string}
use zguide_examples.Freelance.Sequence.RoundTrip.{to_string-injective}
use zguide_examples.Prelude.Bytes.{keys, same_iff}
use zguide_examples.AsyncServer.{
  request_text, server_work, Bool-cases, codes, ltb, inl, inr, ltb→lt, request_text-fits, fault,
  overflow,
}

abbrev pub same_frames : Message → Message → Bool
same_frames [] [] = true
same_frames [] (_ ∷ _) = false
same_frames (_ ∷ _) [] = false
same_frames (f ∷ fs) (g ∷ gs) = same f g && same_frames fs gs

-- How often a message is in a list.
unfoldable pub count : Message → List Message → ℕ
count m [] = 0
count m (k ∷ ks) = let rest = count m ks in if same_frames m k then suc rest else rest

-- How often it is in the lists of the threads.
unfoldable pub count_all : Message → List (List Message) → ℕ
count_all m [] = 0
count_all m (ks ∷ rest) = count m ks + count_all m rest

-- How many requests of a client are in a list.
unfoldable pub asked_by : Bytes → List Message → ℕ
asked_by id [] = 0
asked_by id ([] ∷ sent) = asked_by id sent
asked_by id ((f ∷ _) ∷ sent) = let rest = asked_by id sent in if same id f then suc rest else rest

-- All that the clients have sent, behind their identities; what no thread has read yet; what the
-- threads that have read a request have still to send; and what has come back.
pub record System : Type 0 where
  pub sent : List Message
  pub waiting : List Message
  pub working : List (List Message)
  pub returned : List Message

abbrev pub start : System
start = record { sent = []; waiting = []; working = []; returned = [] }

pub data Moves : System → System → Type 0 where
  asks :
      (s : System) (id text : Bytes)
      → request_text (suc (asked_by id s.sent)) ≡ ok text
      → Moves s (record s {
        sent = (id ∷ text ∷ []) ∷ s.sent;
        waiting = s.waiting ++ (id ∷ text ∷ []) ∷ [];
      })
  reads :
      (s : System) (draw : ℕ) (before after replies : List Message) (id text : Bytes)
      → s.waiting ≡ before ++ (id ∷ text ∷ []) ∷ after
      → 1 ≤ draw
      → draw ≤ 5
      → server_work draw (id ∷ text ∷ []) ≡ ok replies
      → Moves s (record s { waiting = before ++ after; working = replies ∷ s.working })
  replies_once :
      (s : System) (before after : List (List Message)) (reply : Message) (replies : List Message)
      → s.working ≡ before ++ (reply ∷ replies) ∷ after
      → Moves s (record s { working = before ++ replies ∷ after; returned = reply ∷ s.returned })
  ends :
      (s : System) (before after : List (List Message))
      → s.working ≡ before ++ [] ∷ after
      → Moves s (record s { working = before ++ after })

pub data Reached : System → Type 0 where
  begins : Reached start
  then_moves : {s t : System} → Reached s → Moves s t → Reached t

-- A message that is read is returned or to be sent from one to five times for each time it was sent.
IsServed : Message → System → Type 0
IsServed m s =
    (count m s.sent ≤ count m s.waiting + count_all m s.working + count m s.returned)
    × (5 * count m s.waiting + count_all m s.working + count m s.returned ≤ 5 * count m s.sent)

count-append : (m : Message) (xs ys : List Message) → count m (xs ++ ys) ≡ count m xs + count m ys
unfolding count
count-append m [] ys = omega arith
count-append m (x ∷ xs) ys = ground (arith, count-append m xs ys)

count_all-append :
    (m : Message) (xs ys : List (List Message))
    → count_all m (xs ++ ys) ≡ count_all m xs + count_all m ys
unfolding count_all
count_all-append m [] ys = omega arith
count_all-append m (x ∷ xs) ys = omega (arith, count_all-append m xs ys)

count-replicate :
    (m k : Message) (n : ℕ) → count m (replicate n k) ≡ (if same_frames m k then n else 0)
unfolding count
count-replicate m k zero = ground arith
count-replicate m k (suc n) = ground (arith, count-replicate m k n)

Moves-IsServed : (m : Message) {s t : System} → Moves s t → IsServed m s → IsServed m t
unfolding IsServed count count_all server_work
Moves-IsServed m (asks s id text e) h =
    ground (arith, count-append m s.waiting ((id ∷ text ∷ []) ∷ []))
Moves-IsServed m (reads s draw before after replies id text e low high w) h =
    let read : count m s.waiting ≡ count m before + count m ((id ∷ text ∷ []) ∷ after) =
      rw e (count-append m before ((id ∷ text ∷ []) ∷ after)) in
    let made : count m replies ≡ (if same_frames m (id ∷ text ∷ []) then draw else 0) =
      ap (count m) (sym (ok_injective w)) ∙ count-replicate m (id ∷ text ∷ []) draw in
    ground (arith, read, made, count-append m before after)
Moves-IsServed m (replies_once s before after reply replies e) h =
    let had : count_all m s.working ≡ count_all m before + count_all m ((reply ∷ replies) ∷ after) =
      rw e (count_all-append m before ((reply ∷ replies) ∷ after)) in
    ground (arith, had, count_all-append m before (replies ∷ after))
Moves-IsServed m (ends s before after e) h =
    let had : count_all m s.working ≡ count_all m before + count_all m ([] ∷ after) =
      rw e (count_all-append m before ([] ∷ after)) in
    ground (arith, had, count_all-append m before after)
