-- ===== src/ParanoidPirate/Queue/Routing.antt =====
-- ppqueue.cpp: which worker gets a request, and where its reply goes.
use zguide_examples.Prelude.{ℕ, ◌+◌, ◌≡◌, refl, some, List, [], ◌∷◌, ◌++◌, arith}
use zguide_examples.Prelude.Bytes.{Bytes, same, same_refl}
use zguide_examples.Prelude.Dict.{find?, put, has, has-erase, has-put, find?-put}
use zguide_examples.Prelude.Dict
use zguide_examples.Prelude.Result.{ok}
use zguide_examples.Zmq.Frames.{Message}
use zguide_examples.ParanoidPirate.Workers.{Workers}
use zguide_examples.ParanoidPirate.Workers
use zguide_examples.ParanoidPirate.Queue.{
  to_frontend, to_backend, ready, control, from_worker, on_backend, on_frontend,
}

-- A request goes to the worker at the front, behind its identity, and the worker leaves the queue.
-- When the worker then answers with a message of two frames or more, that message goes to the
-- clients without the identity, and the worker stands at the back with a whole term before it, the
-- others where they were.
pub serve_cycle :
    (now : ℕ) (k f g : Bytes) (q : List Bytes) (frames fs : Message) (w : Workers)
    → w.queue ≡ k ∷ q
    → (w₁ w₂ : Workers) × (on_frontend frames w ≡ ok (w₁, to_backend (k ∷ frames) ∷ []))
      × (w₁.queue ≡ q)
      × (on_backend now (k ∷ f ∷ g ∷ fs) w₁ ≡ ok (w₂, to_frontend (f ∷ g ∷ fs) ∷ []))
      × (w₂.queue ≡ q ++ k ∷ [])
      × (find? k w₂.lookup ≡ some (now + w.ttl))
unfolding on_frontend on_backend from_worker Workers.front Workers.pop Workers.try_push Workers.push
serve_cycle now k f g q frames fs w e = (
  record w { lookup = Dict.erase k w.lookup; queue = q },
  record w { lookup = put k (now + w.ttl) (Dict.erase k w.lookup); queue = q ++ k ∷ [] },
  ground arith,
  refl,
  ground (arith, has-erase k k w.lookup, same_refl k),
  refl,
  ground (arith, find?-put k k (now + w.ttl) (Dict.erase k w.lookup), same_refl k),
)

-- A worker that says READY stands at the back, once, with a whole term before it; the order of the
-- others stays.
pub ready_rejoins :
    (now : ℕ) (k : Bytes) (w : Workers)
    → (w' : Workers) × (on_backend now (k ∷ ready ∷ []) w ≡ ok (w', []))
      × (w'.queue ≡ Workers.remove k w.queue ++ k ∷ [])
      × (find? k w'.lookup ≡ some (now + w.ttl))
unfolding on_backend from_worker control Workers.push Workers.erase same
ready_rejoins now k w = (
  record w {
    lookup = put k (now + w.ttl) (Dict.erase k w.lookup);
    queue = Workers.remove k w.queue ++ k ∷ [];
  },
  ground (arith, has-erase k k w.lookup, same_refl k),
  refl,
  ground (arith, find?-put k k (now + w.ttl) (Dict.erase k w.lookup), same_refl k),
)
