-- ===== src/SimplePirate/System/Orderly.antt =====
-- spqueue.cpp and spworker.cpp: no worker is lost or queued twice, whatever the order of messages.
use zguide_examples.Prelude.{
  ◌&&◌, ℕ, ◌∙◌, sym, ◌+◌, ◌≤◌, ◌<◌, ◌≡◌, refl, List, [], ◌∷◌, ◌++◌, arith, inl, inr, ap, append-nil,
}
use zguide_examples.Prelude.Tests.{◌==◌, ltb, lt→ltb, Bool-cases, ltb→lt}
use zguide_examples.Prelude.Lists.{length, length-append, All}
use zguide_examples.Prelude.Bag.{times, times-append}
use zguide_examples.Prelude.Bytes.{Bytes, same, same_iff}
use zguide_examples.Prelude.Result.{fault, assert_failed, ok, stop, ok_injective}
use zguide_examples.Zmq.Frames.{Message}
use zguide_examples.SimplePirate.{
  Sent, to_frontend, on_backend, on_frontend, ready, max_workers, work, last_frame, WorkerAction,
}
use zguide_examples.SimplePirate.System.{
  Letter, arrival, System, workers_of, held, empty_system, Moves, Reaches, IsOrderly, joins, asks,
  works, crashes, answers, start, then_moves, letters_to, letters_sent,
}

-- One letter of many: what it adds.
pub times-middle :
    (k : Bytes) (p q : List Letter) (l : Letter)
    → times k (workers_of (p ++ l ∷ q)) ≡ times k (workers_of (p ++ q)) + times k (l.worker ∷ [])
times-middle k [] q l = omega arith
times-middle k (m ∷ p) q l = omega (arith, times-middle k p q l)

-- What a letter that is taken from the middle leaves.
pub taken :
    (k : Bytes) (letters p q : List Letter) (l : Letter)
    → letters ≡ p ++ l ∷ q
    → times k (workers_of letters) ≡ times k (workers_of (p ++ q)) + times k (l.worker ∷ [])
taken k letters p q l e = ap (λ r. times k (workers_of r)) e ∙ times-middle k p q l

length-middle : (p q : List Letter) (l : Letter) → length (p ++ l ∷ q) ≡ length (p ++ q) + 1
length-middle [] q l = omega arith
length-middle (m ∷ p) q l = omega (arith, length-middle p q l)

pub times-snoc :
    (k : Bytes) (p : List Letter) (l : Letter)
    → times k (workers_of (p ++ l ∷ [])) ≡ times k (workers_of p) + times k (l.worker ∷ [])
times-snoc k p l = rw (append-nil p) at (times-middle k p [] l)

length-snoc : (p : List Letter) (l : Letter) → length (p ++ l ∷ []) ≡ length p + 1
length-snoc p l = length-append p (l ∷ [])

-- A request takes the first worker of the queue, and is sent to it as it is.
pub on_frontend-eq-ok :
    (client : Bytes) (body : Message) (queue queue' : List Bytes) (sent : List Sent)
    → on_frontend (client ∷ body) queue ≡ ok (queue', sent)
    → (k : Bytes) × (queue ≡ k ∷ queue')
      × (letters_to sent ≡ record { worker = k; client = client; body = body } ∷ [])
unfolding on_frontend
on_frontend-eq-ok client body [] queue' sent e = absurd (cc)
on_frontend-eq-ok client body (k ∷ queue) queue' sent e =
    let whole = ok_injective e in
    (
      k,
      ap (λ (r : List Bytes × List Sent). k ∷ r.0) whole,
      ap (λ (r : List Bytes × List Sent). letters_to r.1) (sym whole),
    )

last_frame-ok : (f : Bytes) (fs : Message) → (g : Bytes) × (last_frame (f ∷ fs) ≡ ok g)
last_frame-ok f [] = (f, refl)
last_frame-ok f (g ∷ fs) = last_frame-ok g fs

-- A worker that does not crash sends its request back, once.
pub work-letters_sent :
    (crash_draw overload_draw cycles : ℕ) (l : Letter) (done : ℕ × List WorkerAction)
    → work crash_draw overload_draw (l.client ∷ l.body) cycles ≡ ok done
    → letters_sent l.worker done.1 ≡ l ∷ []
unfolding work
work-letters_sent crash_draw overload_draw cycles l done e =
    let (g, last) = last_frame-ok l.client l.body in
    elim (Bool-cases (ltb 6 (cycles + 1) && crash_draw == 0)) [
      | inl c ↦ let ended : stop ≡ ok done = rw (c) at e in absurd (cc ended)
      | inr c ↦ elim (Bool-cases (ltb 3 (cycles + 1) && overload_draw == 0)) [
        | inl o ↦
            let whole = rw (c, last, o) at e in
            ap (λ (r : ℕ × List WorkerAction). letters_sent l.worker r.1) (sym (ok_injective whole))
        | inr o ↦
            let whole = rw (c, last, o) at e in
            ap (λ (r : ℕ × List WorkerAction). letters_sent l.worker r.1) (sym (ok_injective whole))
      ]
    ]

abbrev pub IsTaken : List Bytes → Letter → Type 0
IsTaken queue l =
    (sent : List Sent) × (on_backend (arrival l) queue ≡ ok (queue ++ l.worker ∷ [], sent))

-- A letter that arrives at a queue with room is taken without a fault, and its worker is queued.
on_backend_arrival :
    (l : Letter) (queue : List Bytes) → length queue < max_workers → IsTaken queue l
unfolding on_backend
on_backend_arrival l queue h =
    rw (lt→ltb (length queue) max_workers h) (elim (Bool-cases (same l.client ready)) [
      | inl e ↦ ([], rw e refl)
      | inr e ↦ (to_frontend (l.client ∷ l.body) ∷ [], rw e refl)
    ])

pub on_backend-eq-ok :
    (l : Letter) (queue queue' : List Bytes) (sent : List Sent)
    → on_backend (arrival l) queue ≡ ok (queue', sent)
    → queue' ≡ queue ++ l.worker ∷ []
unfolding on_backend
on_backend-eq-ok l queue queue' sent e = elim (Bool-cases (ltb (length queue) max_workers)) [
  | inr full ↦ let failed : fault assert_failed ≡ ok (queue', sent) = rw full at e in absurd (cc)
  | inl room ↦
      let (sent', e') = on_backend_arrival l queue (ltb→lt (length queue) max_workers room) in
      ap (λ r. r.0) (ok_injective (sym e ∙ e'))
]

joins_once :
    (k j : Bytes) (s : System) → held k s ≡ 0 → held j s ≤ 1 → held j s + times j (k ∷ []) ≤ 1
joins_once k j s f h = elim (Bool-cases (same j k)) [
  | inl e ↦ rw e (rw ((same_iff j k).0 e) (omega (arith, f)))
  | inr e ↦ rw e (omega (arith, h))
]

Moves-IsOrderly : {s t : System} → Moves s t → IsOrderly s → IsOrderly t
Moves-IsOrderly (joins s k h f) v =
    let l : Letter = record { worker = k; client = ready; body = [] } in
    record {
      counted = omega (arith, v.counted, length-snoc s.replies l, length-append s.joined (k ∷ []));
      kept =
          λ j. omega (arith, v.kept j, times-snoc j s.replies l, times-append j s.joined (k ∷ []));
      few = omega (arith, length-append s.joined (k ∷ []));
      once = λ j. omega (arith, joins_once k j s f (v.once j), times-snoc j s.replies l);
    }
Moves-IsOrderly (asks s c body queue sent e) v =
    let (k, q, letters) = on_frontend-eq-ok c body s.queue queue sent e in
    let l : Letter = record { worker = k; client = c; body = body } in
    rw letters (record {
      counted = omega (arith, v.counted, length-snoc s.requests l, ap length q);
      kept = λ j. omega (arith, v.kept j, times-snoc j s.requests l, ap (times j) q);
      few = v.few;
      once = λ j. omega (arith, v.once j, times-snoc j s.requests l, ap (times j) q);
    })
Moves-IsOrderly (works s b a l c o n d e w) v = rw (work-letters_sent c o n l d w) (record {
  counted = omega (arith, v.counted, length-snoc s.replies l, length-middle b a l, ap length e);
  kept = λ j. omega (arith, v.kept j, times-snoc j s.replies l, taken j s.requests b a l e);
  few = v.few;
  once = λ j. omega (arith, v.once j, times-snoc j s.replies l, taken j s.requests b a l e);
})
Moves-IsOrderly (crashes s b a l e) v = record {
  counted =
      omega (
        arith,
        v.counted,
        length-middle b a l,
        ap length e,
        length-append s.crashed (l.worker ∷ []),
      );
  kept = λ j.
      omega (arith, v.kept j, taken j s.requests b a l e, times-append j s.crashed (l.worker ∷ []));
  few = v.few;
  once = λ j. omega (arith, v.once j, taken j s.requests b a l e);
}
Moves-IsOrderly (answers s b a l queue sent e r) v =
    let q = on_backend-eq-ok l s.queue queue sent r in
    record {
      counted = omega (
        arith,
        v.counted,
        length-middle b a l,
        ap length e,
        ap length q,
        length-append s.queue (l.worker ∷ []),
      );
      kept = λ j. omega (
        arith,
        v.kept j,
        taken j s.replies b a l e,
        ap (times j) q,
        times-append j s.queue (l.worker ∷ []),
      );
      few = v.few;
      once = λ j. omega (
        arith,
        v.once j,
        taken j s.replies b a l e,
        ap (times j) q,
        times-append j s.queue (l.worker ∷ []),
      );
    }

Reaches-IsOrderly : {s t : System} → IsOrderly s → Reaches s t → IsOrderly t
Reaches-IsOrderly v start = v
Reaches-IsOrderly v (then_moves r m) = Moves-IsOrderly m (Reaches-IsOrderly v r)

All-IsTaken :
    (queue : List Bytes) (letters : List Letter)
    → length queue < max_workers
    → All (IsTaken queue) letters
All-IsTaken queue [] h = tt
All-IsTaken queue (l ∷ letters) h = (on_backend_arrival l queue h, All-IsTaken queue letters h)

-- Where a letter is, there is room.
replies-IsTaken :
    (queue : List Bytes) (letters : List Letter)
    → length queue + length letters ≤ max_workers
    → All (IsTaken queue) letters
replies-IsTaken queue [] h = tt
replies-IsTaken queue (l ∷ letters) h = All-IsTaken queue (l ∷ letters) (omega arith)

-- However the messages of the workers and the clients interleave and whichever workers crash, as
-- long as at most a hundred workers join, each under an identity that no worker in the queue or on a
-- message has: an identity is in the queue or on a message as often as it has joined and not crashed
-- since, and at most once, so that no worker is lost or held twice; and whichever reply arrives next,
-- the queue takes it without failing and puts its worker at the end.
pub reached-IsOrderly :
    {s : System} → Reaches empty_system s → IsOrderly s × All (IsTaken s.queue) s.replies
reached-IsOrderly {s = s} r =
    let v =
      Reaches-IsOrderly
        (record { counted = refl; kept = λ k. refl; few = omega arith; once = λ k. omega arith })
        r in
    (v, replies-IsTaken s.queue s.replies (omega (arith, v.counted, v.few)))
