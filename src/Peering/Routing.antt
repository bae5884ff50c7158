-- ===== src/Peering/Routing.antt =====
-- peering2.cpp: which worker gets which request.
use zguide_examples.Prelude.{
  ℕ, zero, suc, ◌<◌, not, ◌&&◌, map, arith, ◌≡◌, refl, ap, Option, some, List, [], ◌∷◌, ◌++◌, inl,
  inr,
}
use zguide_examples.Prelude.Lists.{All, length, get_elem?}
use zguide_examples.Prelude.Bytes.{Bytes}
use zguide_examples.Prelude.Tests.{◌==◌, Option-cases, Bool-cases}
use zguide_examples.Prelude.Result.{ok}
use zguide_examples.Zmq.Frames.{Message}
use zguide_examples.Peering.{
  Sent, to_localbe, to_localfe, to_cloudfe, to_cloudbe, Frontends, choose, route, suc, is_nil,
}

-- The workers that the messages to the local backend name, in order.
pub employed : List Sent → List Bytes
employed [] = []
employed (to_localbe (id ∷ frames) ∷ sent) = id ∷ employed sent
employed (to_localbe [] ∷ sent) = employed sent
employed (to_localfe _ ∷ sent) = employed sent
employed (to_cloudfe _ ∷ sent) = employed sent
employed (to_cloudbe _ ∷ sent) = employed sent

get_elem?-below {ℓ} :
    {A : Type ℓ} (xs : List A) (i : ℕ) → i < length xs → (a : A) × (get_elem? xs i ≡ some a)
get_elem?-below [] i h = absurd (omega arith)
get_elem?-below (x ∷ xs) zero h = (x, refl)
get_elem?-below (x ∷ xs) (suc i) h = get_elem?-below xs i (omega arith)

-- Whatever the frontends bring, as long as the draws name peers, the loop ends well: the requests
-- go to the ready workers in the order in which these became ready, one to each, and who gets none
-- stays ready.
pub route-employed :
    (peers : List Bytes) (polls : List Frontends) (ready_workers : List Bytes)
    → All (λ p. p.broker_draw < length peers) polls
    → (left : List Bytes) × (sent : List Sent) × (route peers polls ready_workers ≡ ok (left, sent))
      × (employed sent ++ left ≡ ready_workers)
unfolding route employed
route-employed peers polls [] a = ([], [], refl, refl)
route-employed peers [] (id ∷ ready_workers) a = (id ∷ ready_workers, [], refl, refl)
route-employed peers (p ∷ polls) (id ∷ ready_workers) a =
    let (broker, drawn) = get_elem?-below peers p.broker_draw a.0 in
    let (left, sent, e, h) = route-employed peers polls (id ∷ ready_workers) a.1 in
    let (left', sent', e', h') = route-employed peers polls ready_workers a.1 in
    elim (Option-cases (choose p)) [
      | inl c ↦ (id ∷ ready_workers, [], rw (c, route), refl)
      | inr ((frames, reroutable), c) ↦
          elim (Bool-cases (reroutable && not (is_nil peers) && p.route_draw == 0)) [
            | inl b ↦ (
              left,
              to_cloudbe (broker ∷ frames) ∷ sent,
              rw (c, route) (rw b (rw drawn (rw e))),
              h,
            )
            | inr b ↦ (
              left',
              to_localbe (id ∷ [] ∷ frames) ∷ sent',
              rw (c, route) (rw b (rw e')),
              ap (λ w. id ∷ w) h',
            )
          ]
    ]

-- A poll that finds a peer's request, and perhaps a client's.
abbrev pub from_peer : Option Message → ℕ → ℕ → Message → Frontends
from_peer waiting route_draw broker_draw frames = record {
  cloudfe = some frames;
  localfe = waiting;
  route_draw = route_draw;
  broker_draw = broker_draw;
}

-- The requests, each for the worker in its place.
unfoldable pub entrusted : List Bytes → List Message → List Sent
entrusted (id ∷ ids) (frames ∷ requests) = to_localbe (id ∷ [] ∷ frames) ∷ entrusted ids requests
entrusted _ _ = []

-- The requests of the peers go before those of the clients, and to the workers of this broker,
-- whatever is drawn: they are never sent on to another peer.
pub route-cloudfe :
    (peers ids rest : List Bytes) (requests : List Message) (waiting : Option Message)
    (route_draw broker_draw : ℕ)
    → length requests ≡ length ids
    → route peers (map (from_peer waiting route_draw broker_draw) requests) (ids ++ rest)
      ≡ ok (rest, entrusted ids requests)
unfolding route choose entrusted
route-cloudfe peers [] [] [] waiting r d h = refl
route-cloudfe peers [] (id ∷ rest) [] waiting r d h = refl
route-cloudfe peers [] rest (q ∷ requests) waiting r d h = absurd (omega arith)
route-cloudfe peers (id ∷ ids) rest [] waiting r d h = absurd (omega arith)
route-cloudfe peers (id ∷ ids) rest (q ∷ requests) waiting r d h =
    rw (route-cloudfe peers ids rest requests waiting r d (omega arith))
