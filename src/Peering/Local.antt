-- ===== src/Peering/Local.antt =====
-- peering2.cpp: the clients of a broker and its own workers, in `client_proc` and `worker_proc`.
use zguide_examples.Prelude.{
  ℕ, zero, suc, ◌≡◌, refl, ap, false, Option, none, some, List, [], ◌∷◌, ◌++◌, map, sym, append-nil,
  append_assoc, ◌∙◌,
}
use zguide_examples.Prelude.Lists.{All, All-append, length}
use zguide_examples.Prelude.Bytes.{Bytes, codes, same}
use zguide_examples.Prelude.Result.{Result, ok, fault, starved, ◌>>=◌}
use zguide_examples.Zmq.Frames.{Message}
use zguide_examples.Freelance.Sequence.{to_string}
use zguide_examples.Peering.{
  Sent, to_localbe, to_localfe, Input, choose, route, receive, on_localbe, forward, is_peer,
  is_empty, step, work, hello, worker_ready,
}
use zguide_examples.Peering.Cloud.{done_by}

-- A round that finds a client's request and does not draw it for a peer.
abbrev pub asked : Message → Input
asked frames = record {
  localbe = none;
  cloudbe = none;
  frontends =
      record { cloudfe = none; localfe = some frames; route_draw = 1; broker_draw = 0 } ∷ [];
}

pub route_idle : (peers q : List Bytes) → route peers [] q ≡ ok (q, [])
unfolding route
route_idle peers [] = refl
route_idle peers (k ∷ q) = refl

pub step-asked :
    (peers queue : List Bytes) (id : Bytes) (frames : Message)
    → step peers (asked frames) (id ∷ queue) ≡ ok (queue, to_localbe (id ∷ [] ∷ frames) ∷ [])
unfolding step receive route choose forward
step-asked [] queue id frames = rw (route_idle [] queue) refl
step-asked (p ∷ peers) queue id frames = rw (route_idle (p ∷ peers) queue) refl

pub step-ready :
    (peers queue : List Bytes) (k : Bytes)
    → is_empty k ≡ false
    → step peers (done_by k (worker_ready ∷ [])) queue ≡ ok (queue ++ k ∷ [], [])
unfolding step receive on_localbe forward same
step-ready peers queue [] h = absurd (cc)
step-ready peers queue (c ∷ k) h = rw (route_idle peers (queue ++ (c ∷ k) ∷ [])) refl

step-replied :
    (peers queue : List Bytes) (k f : Bytes) (frames : Message)
    → is_empty k ≡ false
    → same f worker_ready ≡ false
    → is_peer peers f ≡ false
    → step peers (done_by k (f ∷ frames)) queue ≡ ok (queue ++ k ∷ [], to_localfe (f ∷ frames) ∷ [])
unfolding step receive on_localbe forward
step-replied peers queue [] f frames e h p = absurd (cc)
step-replied peers queue (c ∷ k) f frames e h p =
    rw h (rw (route_idle peers (queue ++ (c ∷ k) ∷ [])) (rw p))

-- What a client prints.
abbrev pub received : ℕ → Bytes → Bytes
received num str =
    codes "peering2: Client #" ++ to_string num ++ codes ": Received '" ++ str ++ codes "'."

-- The loop of `client_proc`, by what `recv` comes back with, nothing if it is interrupted: what the
-- client sends and what it prints.
unfoldable pub client_proc : ℕ → List (Option Bytes) → List Bytes × List Bytes
client_proc num [] = (hello ∷ [], [])
client_proc num (none ∷ replies) = (hello ∷ [], [])
client_proc num (some str ∷ replies) =
    let (sent, lines) = client_proc num replies in (hello ∷ sent, received num str ∷ lines)

-- The worker that gets a request, and what the REQ socket hands on to it; what the REQ socket of the
-- client hands on of a reply.
abbrev pub to_worker : List Sent → Result (Bytes × Message)
to_worker (to_localbe (id ∷ [] ∷ frames) ∷ []) = ok (id, frames)
to_worker _ = fault starved

abbrev pub to_client : List Sent → Result Bytes
to_client (to_localfe (client ∷ [] ∷ str ∷ []) ∷ []) = ok str
to_client _ = fault starved

-- Some requests of a client, one after the other, with the broker and its workers: the replies, and
-- the workers that are ready then.
unfoldable pub converse : List Bytes → Bytes → ℕ → List Bytes → Result (List Bytes × List Bytes)
converse peers client zero queue = ok ([], queue)
converse peers client (suc n) queue = do
  (queue₁, sent) ← step peers (asked (client ∷ [] ∷ hello ∷ [])) queue
  (id, frames) ← to_worker sent
  reply ← work frames
  (queue₂, sent₂) ← step peers (done_by id reply) queue₁
  str ← to_client sent₂
  (strs, queue₃) ← converse peers client n queue₂
  ok (str ∷ strs, queue₃)

-- The line with the first worker put last, some times.
unfoldable pub rotated : ℕ → List Bytes → List Bytes
rotated zero queue = queue
rotated (suc n) [] = []
rotated (suc n) (id ∷ queue) = rotated n (queue ++ id ∷ [])

unfoldable pub copies : ℕ → Bytes → List Bytes
copies zero str = []
copies (suc n) str = str ∷ copies n str

client_proc-copies :
    (num n : ℕ) (str : Bytes)
    → client_proc num (map some (copies n str))
      ≡ (copies (suc n) hello, copies n (received num str))
unfolding client_proc copies
client_proc-copies num zero str = refl
client_proc-copies num (suc n) str = rw (client_proc-copies num n str) refl

converse-rotated :
    (peers queue : List Bytes) (client id : Bytes) (n : ℕ)
    → All (λ k. is_empty k ≡ false) (id ∷ queue)
    → is_peer peers client ≡ false
    → same client worker_ready ≡ false
    → converse peers client n (id ∷ queue) ≡ ok (copies n (codes "OK"), rotated n (id ∷ queue))
unfolding converse work rotated copies
converse-rotated peers queue client id zero a p h = refl
converse-rotated peers [] client id (suc n) a p h =
    rw (step-asked peers [] id (client ∷ [] ∷ hello ∷ [])) (
      rw (step-replied peers [] id client ([] ∷ codes "OK" ∷ []) a.0 h p)
        (rw (converse-rotated peers [] client id n a p h) refl))
converse-rotated peers (next ∷ queue) client id (suc n) a p h =
    let rest = All-append _ queue (id ∷ []) a.1.1 (a.0, tt) in
    rw (step-asked peers (next ∷ queue) id (client ∷ [] ∷ hello ∷ [])) (
      rw (step-replied peers (next ∷ queue) id client ([] ∷ codes "OK" ∷ []) a.0 h p)
        (rw (converse-rotated peers (queue ++ id ∷ []) client next n (a.1.0, rest) p h) refl))

rotated-append : (xs ys : List Bytes) → rotated (length xs) (xs ++ ys) ≡ ys ++ xs
unfolding rotated
rotated-append [] ys = sym (append-nil ys)
rotated-append (x ∷ xs) ys =
    rw (append_assoc xs ys (x ∷ []))
      (rotated-append xs (ys ++ x ∷ []) ∙ append_assoc ys (x ∷ []) xs)

-- A client of a broker with ready workers, none of its requests drawn for a peer, gets OK for each
-- request, one after the other, sends the next one each time, and prints one line for each reply. The
-- workers take turns: each request goes to the first in the line, who is the last then, so that the
-- line is as before when there were as many requests as workers. The client is neither called as a
-- peer nor by the text of READY, and no worker has an empty identity.
pub client_served :
    (peers queue : List Bytes) (client id : Bytes) (num n : ℕ)
    → All (λ k. is_empty k ≡ false) (id ∷ queue)
    → is_peer peers client ≡ false
    → same client worker_ready ≡ false
    → (converse peers client n (id ∷ queue) ≡ ok (copies n (codes "OK"), rotated n (id ∷ queue)))
      × (client_proc num (map some (copies n (codes "OK")))
          ≡ (copies (suc n) hello, copies n (received num (codes "OK"))))
      × (rotated (length (id ∷ queue)) (id ∷ queue) ≡ id ∷ queue)
client_served peers queue client id num n a p h = (
  converse-rotated peers queue client id n a p h,
  client_proc-copies num n (codes "OK"),
  ap (rotated (length (id ∷ queue))) (sym (append-nil (id ∷ queue)))
      ∙ rotated-append (id ∷ queue) [],
)
