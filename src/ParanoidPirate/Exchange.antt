-- ===== src/ParanoidPirate/Exchange.antt =====
-- ppqueue.cpp and ppworker.cpp together: a request, the worker that serves it, and its reply.
use zguide_examples.Prelude.{
  ◌+◌, ◌≡◌, refl, false, ◌&&◌, Option, none, some, List, [], ◌∷◌, ◌++◌, inl, inr,
}
use zguide_examples.Prelude.Tests.{if◌then◌else◌, ltb, ◌==◌, Bool-cases}
use zguide_examples.Prelude.Bytes.{Bytes, same, same_refl}
use zguide_examples.Prelude.Dict.{has, put}
use zguide_examples.Prelude.Dict
use zguide_examples.Prelude.Result.{Result, ok, ◌>>=◌}
use zguide_examples.Zmq.Frames.{Message}
use zguide_examples.ParanoidPirate.Workers
use zguide_examples.ParanoidPirate.Workers.{Workers}
use zguide_examples.ParanoidPirate.Queue
use zguide_examples.ParanoidPirate.Queue.{
  Sent, to_frontend, to_backend, heartbeat_liveness, heartbeat_interval, tend, on_frontend,
  on_backend,
}
use zguide_examples.ParanoidPirate.Worker
use zguide_examples.ParanoidPirate.Worker.Invariant.{served, beat_if_due_keeps}
use zguide_examples.ParanoidPirate.Worker.{Action, opens, sends, sleeps, beat_if_due}

-- What comes first to a worker of what the queue sends: the ROUTER socket takes the identity off.
abbrev pub delivered : Bytes → List Sent → Option Message
delivered k [] = none
delivered k (to_frontend _ ∷ sent) = delivered k sent
delivered k (to_backend [] ∷ sent) = delivered k sent
delivered k (to_backend (id ∷ frames) ∷ sent) =
    let later = delivered k sent in if same id k then some frames else later

-- What comes first to the queue of what a worker does: the socket puts the identity in front.
abbrev pub emitted : Bytes → List Action → Option Message
emitted k [] = none
emitted k (sends frames ∷ acts) = some (k ∷ frames)
emitted k (opens ∷ acts) = emitted k acts
emitted k (sleeps _ ∷ acts) = emitted k acts

-- A round of the queue in which a client's request is there, one of the worker that gets it, and
-- one of the queue in which there is what the worker has sent.
unfoldable pub exchange :
    Bytes
    → Message
    → Queue.Input
    → Worker.Input
    → Queue.Input
    → Queue.State
    → Worker.State
    → Result (Queue.State × Worker.State × List Sent)
exchange k frames asked worked replied s w = do
  (s₁, sent) ← Queue.step (record asked { backend = none; frontend = some frames }) s
  (w', acts) ← Worker.step (record worked { message = delivered k sent }) w
  (s₂, replies) ← Queue.step (record replied { backend = emitted k acts; frontend = none }) s₁
  ok (s₂, w', replies)

-- The round of the queue in which only a request is there.
asked_round :
    (k f : Bytes) (q : List Bytes) (fs : Message) (i : Queue.Input) (s : Queue.State)
    → s.workers.queue ≡ k ∷ q
    → (s₁ : Queue.State) × (sent : List Sent) × (Queue.step
          (record i { backend = none; frontend = some (f ∷ fs) })
          s
        ≡ ok (s₁, to_backend (k ∷ f ∷ fs) ∷ sent))
unfolding Queue.step Queue.polled on_frontend Workers.front Workers.pop
asked_round k f q fs i s e =
    let w : Workers = record s.workers { lookup = Dict.erase k s.workers.lookup; queue = q } in
    let j : Queue.Input = record i { backend = none; frontend = some (f ∷ fs) } in
    ((tend j s.heartbeat_at w).0, (tend j s.heartbeat_at w).1, rw e refl)

-- The round of the worker in which only the request is there, and the draw is no crash.
served_round :
    (k a b c : Bytes) (i : Worker.Input) (s : Worker.State)
    → (ltb 10 (s.cycles + 1) && i.crash_draw == 0) ≡ false
    → (s' : Worker.State) × (acts : List Action) × (Worker.step
          (record i { message = some (a ∷ b ∷ c ∷ []) })
          s
        ≡ ok (s', acts))
      × (emitted k acts ≡ some (k ∷ a ∷ b ∷ c ∷ []))
      × (s'.cycles ≡ s.cycles + 1)
      × (s'.liveness ≡ heartbeat_liveness)
      × (s'.timeout ≡ heartbeat_interval)
unfolding Worker.step Worker.on_message served
served_round k a b c i s h =
    let t = served s in
    let slow = ltb 5 (s.cycles + 1) && i.overload_draw == 0 in
    let j : Worker.Input = record i { message = some (a ∷ b ∷ c ∷ []) } in
    let (same_cycles, same_liveness, same_timeout) = beat_if_due_keeps j t in
    (
      (beat_if_due j t).0,
      (if slow then sleeps 5 ∷ [] else [])
          ++ sleeps 1 ∷ sends (a ∷ b ∷ c ∷ []) ∷ (beat_if_due j t).1,
      rw h (elim (Bool-cases slow) [ inl late ↦ rw late refl | inr fast ↦ rw fast refl ]),
      elim (Bool-cases slow) [ inl late ↦ rw late refl | inr fast ↦ rw fast refl ],
      same_cycles,
      same_liveness,
      same_timeout,
    )

-- The round of the queue in which only a reply is there.
replied_round :
    (k a b : Bytes) (fs : Message) (i : Queue.Input) (s : Queue.State)
    → (s₂ : Queue.State) × (sent : List Sent) × (Queue.step
          (record i { backend = some (k ∷ a ∷ b ∷ fs); frontend = none })
          s
        ≡ ok (s₂, to_frontend (a ∷ b ∷ fs) ∷ sent))
unfolding Queue.step Queue.polled on_backend Queue.from_worker Workers.try_push Workers.push
replied_round k a b fs i s = elim (Bool-cases (has k s.workers.lookup)) [
  | inl e ↦
      let j : Queue.Input = record i { backend = some (k ∷ a ∷ b ∷ fs); frontend = none } in
      ((tend j s.heartbeat_at s.workers).0, (tend j s.heartbeat_at s.workers).1, rw e refl)
  | inr e ↦
      let j : Queue.Input = record i { backend = some (k ∷ a ∷ b ∷ fs); frontend = none } in
      let w : Workers = record s.workers {
        lookup = put k (i.seen_at + s.workers.ttl) s.workers.lookup;
        queue = s.workers.queue ++ k ∷ [];
      } in
      ((tend j s.heartbeat_at w).0, (tend j s.heartbeat_at w).1, rw e refl)
]

-- Whatever else the clock and the queue bring, a client's request of three frames goes to the worker
-- at the front, and what comes back to the client is the request, unless the worker draws a crash
-- (which it does after its tenth request only); the worker counts one request more, and has its
-- whole countdown again and the shortest wait.
pub exchange_echoes :
    (k a b c : Bytes) (q : List Bytes) (asked replied : Queue.Input) (worked : Worker.Input)
    (s : Queue.State) (w : Worker.State)
    → s.workers.queue ≡ k ∷ q
    → (ltb 10 (w.cycles + 1) && worked.crash_draw == 0) ≡ false
    → (s₂ : Queue.State) × (w' : Worker.State) × (beats : List Sent) × (exchange k
          (a ∷ b ∷ c ∷ [])
          asked
          worked
          replied
          s
          w
        ≡ ok (s₂, w', to_frontend (a ∷ b ∷ c ∷ []) ∷ beats))
      × (w'.cycles ≡ w.cycles + 1)
      × (w'.liveness ≡ heartbeat_liveness)
      × (w'.timeout ≡ heartbeat_interval)
unfolding exchange
exchange_echoes k a b c q asked replied worked s w e h =
    let (s₁, sent, e₁) = asked_round k a q (b ∷ c ∷ []) asked s e in
    let (w', acts, e₂, e₃, c₁, c₂, c₃) = served_round k a b c worked w h in
    let (s₂, beats, e₄) = replied_round k a b (c ∷ []) replied s₁ in
    (s₂, w', beats, rw e₁ (rw (same_refl k) (rw e₂ (rw e₃ (rw e₄ refl)))), c₁, c₂, c₃)
