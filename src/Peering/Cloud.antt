-- ===== src/Peering/Cloud.antt =====
-- peering2.cpp: a request that goes to a peer, and its reply.
use zguide_examples.Prelude.{ℕ, ◌≡◌, refl, true, false, none, some, List, [], ◌∷◌, ◌++◌}
use zguide_examples.Prelude.Lists.{get_elem?}
use zguide_examples.Prelude.Bytes.{Bytes, codes, same}
use zguide_examples.Prelude.Result.{ok, ◌>>=◌}
use zguide_examples.Zmq.Frames.{Message}
use zguide_examples.Peering.{
  to_localbe, to_localfe, to_cloudfe, to_cloudbe, Input, choose, route, receive, on_localbe,
  on_cloudbe, forward, is_peer, step, work, hello, worker_ready,
}

-- A round that finds a client's request and, by the draws, sends it to the peer of a number; one
-- that finds a peer's request; one that finds a worker's reply; one that finds a peer's reply.
abbrev pub rerouted : Message → ℕ → Input
rerouted frames draw = record {
  localbe = none;
  cloudbe = none;
  frontends =
      record { cloudfe = none; localfe = some frames; route_draw = 0; broker_draw = draw } ∷ [];
}

abbrev pub taken_over : Message → Input
taken_over frames = record {
  localbe = none;
  cloudbe = none;
  frontends =
      record { cloudfe = some frames; localfe = none; route_draw = 0; broker_draw = 0 } ∷ [];
}

abbrev pub done_by : Bytes → Message → Input
done_by worker frames = record {
  localbe = some (worker ∷ [] ∷ frames);
  cloudbe = none;
  frontends = [];
}

abbrev pub handed_back : Message → Input
handed_back frames = record { localbe = none; cloudbe = some frames; frontends = [] }

step-rerouted :
    (peers queue : List Bytes) (id broker : Bytes) (draw : ℕ) (frames : Message)
    → get_elem? peers draw ≡ some broker
    → step peers (rerouted frames draw) (id ∷ queue)
      ≡ ok (id ∷ queue, to_cloudbe (broker ∷ frames) ∷ [])
unfolding step receive route choose forward
step-rerouted [] queue id broker draw frames h = absurd (cc)
step-rerouted (p ∷ peers) queue id broker draw frames h = rw h

step-taken_over :
    (peers queue : List Bytes) (id : Bytes) (frames : Message)
    → step peers (taken_over frames) (id ∷ queue) ≡ ok (queue, to_localbe (id ∷ [] ∷ frames) ∷ [])
unfolding step receive route choose forward
step-taken_over peers [] id frames = refl
step-taken_over peers (q ∷ queue) id frames = refl

step-done_by :
    (peers queue : List Bytes) (c : ℕ) (w f : Bytes) (frames : Message)
    → same f worker_ready ≡ false
    → is_peer peers f ≡ true
    → step peers (done_by (c ∷ w) (f ∷ frames)) queue
      ≡ ok (queue ++ (c ∷ w) ∷ [], to_cloudfe (f ∷ frames) ∷ [])
unfolding step receive on_localbe route forward
step-done_by peers [] c w f frames h k = rw h (rw k)
step-done_by peers (q ∷ queue) c w f frames h k = rw h (rw k)

step-handed_back :
    (peers queue : List Bytes) (from f : Bytes) (frames : Message)
    → is_peer peers f ≡ false
    → step peers (handed_back (from ∷ f ∷ frames)) queue ≡ ok (queue, to_localfe (f ∷ frames) ∷ [])
unfolding step receive on_cloudbe route forward
step-handed_back peers [] from f frames h = rw h
step-handed_back peers (q ∷ queue) from f frames h = rw h

-- A request of a client that a broker (of address a) draws for a peer (of address b) is done by
-- the first ready worker of the peer, and comes back to the client with OK in place of what was
-- asked, if b knows a as a peer, a is not the text of READY and the client is not called as a
-- peer; no worker of the first broker is used, and that of the peer is the last to be ready then.
-- Each ROUTER socket takes off the address of the receiver and puts that of the sender in front.
pub rerouted_answered :
    (peers_a peers_b queue_a queue_b : List Bytes) (id a b client w : Bytes) (c draw : ℕ)
    → get_elem? peers_a draw ≡ some b
    → is_peer peers_b a ≡ true
    → is_peer peers_a client ≡ false
    → same a worker_ready ≡ false
    → (step peers_a (rerouted (client ∷ [] ∷ hello ∷ []) draw) (id ∷ queue_a)
        ≡ ok (id ∷ queue_a, to_cloudbe (b ∷ client ∷ [] ∷ hello ∷ []) ∷ []))
      × (step peers_b (taken_over (a ∷ client ∷ [] ∷ hello ∷ [])) ((c ∷ w) ∷ queue_b)
          ≡ ok (queue_b, to_localbe ((c ∷ w) ∷ [] ∷ a ∷ client ∷ [] ∷ hello ∷ []) ∷ []))
      × ((do
        reply ← work (a ∷ client ∷ [] ∷ hello ∷ [])
        step peers_b (done_by (c ∷ w) reply) queue_b)
          ≡ ok (queue_b ++ (c ∷ w) ∷ [], to_cloudfe (a ∷ client ∷ [] ∷ codes "OK" ∷ []) ∷ []))
      × (step peers_a (handed_back (b ∷ client ∷ [] ∷ codes "OK" ∷ [])) (id ∷ queue_a)
          ≡ ok (id ∷ queue_a, to_localfe (client ∷ [] ∷ codes "OK" ∷ []) ∷ []))
unfolding work
rerouted_answered peers_a peers_b queue_a queue_b id a b client w c draw drawn known stranger
      plain =
    (
      step-rerouted peers_a queue_a id b draw (client ∷ [] ∷ hello ∷ []) drawn,
      step-taken_over peers_b queue_b (c ∷ w) (a ∷ client ∷ [] ∷ hello ∷ []),
      step-done_by peers_b queue_b c w a (client ∷ [] ∷ codes "OK" ∷ []) plain known,
      step-handed_back peers_a (id ∷ queue_a) b client ([] ∷ codes "OK" ∷ []) stranger,
    )
