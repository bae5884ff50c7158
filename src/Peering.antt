-- ===== src/Peering.antt =====
-- A broker that shares its work with its peers: prototyping-the-local-and-cloud-flows/peering2.cpp.
-- What the random distributions draw comes with what `poll` finds.
pub mod Routing
pub mod Cloud
pub mod Local
use zguide_examples.Prelude.{
  ℕ, zero, suc, ◌+◌, Bool, true, false, not, ◌&&◌, Option, none, some, List, [], ◌∷◌, ◌++◌,
}
use zguide_examples.Prelude.Tests.{◌==◌, if◌then◌else◌}
use zguide_examples.Prelude.Lists.{get_elem?}
use zguide_examples.Prelude.Bytes.{Bytes, codes, same}
use zguide_examples.Prelude.Result.{
  Result, ok, stop, fault, thrown, ◌>>=◌, ◌>>◌, assert, take_front, or_fault,
}
use zguide_examples.Zmq.Frames.{Message}

abbrev pub worker_ready : Bytes
worker_ready = 1 ∷ []

pub data Sent : Type 0 where
  to_localfe to_localbe to_cloudfe to_cloudbe : Message → Sent

abbrev pub is_nil : List Bytes → Bool
is_nil [] = true
is_nil (_ ∷ _) = false

abbrev pub is_empty : Bytes → Bool
is_empty [] = true
is_empty (_ ∷ _) = false

-- A message of a worker: the ready workers, and the reply to pass on, which is empty behind READY.
unfoldable pub on_localbe : Message → List Bytes → Result (List Bytes × Message)
on_localbe [] ready_workers = stop
on_localbe (id ∷ rest) ready_workers = do
  assert (not (is_empty id))
  (delimiter, body) ← take_front rest
  assert (is_empty delimiter)
  (first, _) ← take_front body
  ok (ready_workers ++ id ∷ [], if same first worker_ready then [] else body)

-- A reply of a peer, without the identity of the peer.
unfoldable pub on_cloudbe : Message → List Bytes → Result (List Bytes × Message)
on_cloudbe [] ready_workers = stop
on_cloudbe (_ ∷ rep_frames) ready_workers = ok (ready_workers, rep_frames)

-- The replies are read from the workers if there are any, else from the peers.
unfoldable pub receive :
    Option Message → Option Message → List Bytes → Result (List Bytes × Message)
unfolding on_localbe on_cloudbe
receive (some frames) cloudbe ready_workers = on_localbe frames ready_workers
receive none (some frames) ready_workers = on_cloudbe frames ready_workers
receive none none ready_workers = ok (ready_workers, [])

abbrev pub is_peer : List Bytes → Bytes → Bool
is_peer [] address = false
is_peer (broker ∷ peers) address = if same address broker then true else is_peer peers address

-- To the peer that a reply names in front, else to the clients.
unfoldable pub forward : List Bytes → Message → List Sent
forward peers [] = []
forward peers (front ∷ rep_frames) =
    if is_peer peers front
    then to_cloudfe (front ∷ rep_frames) ∷ []
    else to_localfe (front ∷ rep_frames) ∷ []

-- A poll of the frontends, and what is drawn for it.
pub record Frontends : Type 0 where
  pub cloudfe : Option Message
  pub localfe : Option Message
  pub route_draw : ℕ
  pub broker_draw : ℕ

-- The request to take, and whether it may be rerouted: the peers' come first.
unfoldable pub choose : Frontends → Option (Message × Bool)
choose p = elim p.cloudfe [
  | some frames ↦ some (frames, false)
  | none ↦ elim p.localfe [ some frames ↦ some (frames, true) | none ↦ none ]
]

-- The inner loop: the workers that stay ready, and what is sent. Behind the last poll of the list
-- `poll` finds nothing.
unfoldable pub route : List Bytes → List Frontends → List Bytes → Result (List Bytes × List Sent)
unfolding choose
route peers polls [] = ok ([], [])
route peers [] (id ∷ ready_workers) = ok (id ∷ ready_workers, [])
route peers (p ∷ polls) (id ∷ ready_workers) = elim (choose p) [
  | none ↦ ok (id ∷ ready_workers, [])
  | some (req_frames, reroutable) ↦
      let away = (do
        broker ← or_fault thrown (get_elem? peers p.broker_draw)
        (left, sent) ← route peers polls (id ∷ ready_workers)
        ok (left, to_cloudbe (broker ∷ req_frames) ∷ sent)) in
      let here = (do
        (left, sent) ← route peers polls ready_workers
        ok (left, to_localbe (id ∷ [] ∷ req_frames) ∷ sent)) in
      if reroutable && not (is_nil peers) && p.route_draw == 0 then away else here
]

pub record Input : Type 0 where
  pub localbe : Option Message
  pub cloudbe : Option Message
  pub frontends : List Frontends

-- One round of the loop of `main`.
unfoldable pub step : List Bytes → Input → List Bytes → Result (List Bytes × List Sent)
unfolding receive forward route
step peers input ready_workers = do
  (ready_workers₁, rep_frames) ← receive input.localbe input.cloudbe ready_workers
  (ready_workers₂, sent) ← route peers input.frontends ready_workers₁
  ok (ready_workers₂, forward peers rep_frames ++ sent)

-- `frames.back().assign(...)`
abbrev pub assign_back : Bytes → Message → Message
assign_back content [] = []
assign_back content (f ∷ []) = content ∷ []
assign_back content (f ∷ g ∷ fs) = f ∷ assign_back content (g ∷ fs)

-- A round of `worker_proc`, behind the REQ socket that takes off and puts back the envelope.
unfoldable pub work : Message → Result Message
work [] = stop
work (f ∷ fs) = ok (assign_back (codes "OK") (f ∷ fs))

-- What `client_proc` asks.
abbrev pub hello : Bytes
hello = codes "HELLO"
