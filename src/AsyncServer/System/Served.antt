-- ===== src/AsyncServer/System/Served.antt =====
-- asyncsrv.cpp: each request of a client has its number, and is answered from one to five times.
use zguide_examples.Prelude.{
  ℕ, suc, ◌+◌, ◌*◌, ◌≤◌, ◌≡◌, refl, true, List, [], ◌∷◌, ◌++◌, arith, ap, sym, ◌∙◌,
}
use zguide_examples.Prelude.Bytes.{Bytes, same}
use zguide_examples.Prelude.Result.{ok, ok_injective}
use zguide_examples.Zmq.Frames.{Message}
use zguide_examples.Prelude.{◌<◌}
use zguide_examples.Freelance.Sequence.{to_string}
use zguide_examples.Freelance.Sequence.RoundTrip.{to_string-injective}
use zguide_examples.Prelude.Bytes.{keys, same_iff}
use zguide_examples.AsyncServer.{
  request_text, Bool-cases, codes, ltb, inl, inr, ltb→lt, request_text-fits, fault, overflow,
}
use zguide_examples.AsyncServer.System.{
  System, Moves, Reached, asks, reads, replies_once, ends, begins, then_moves, count, count_all,
  asked_by, same_frames, IsServed, Moves-IsServed,
}

-- Each request has the number of the requests that its client has sent before, plus one.
Numbered : List Message → Type 0
Numbered [] = Unit
Numbered ([] ∷ sent) = ⊥
Numbered ((id ∷ []) ∷ sent) = ⊥
Numbered ((id ∷ text ∷ _ ∷ _) ∷ sent) = ⊥
Numbered ((id ∷ text ∷ []) ∷ sent) =
    (request_text (suc (asked_by id sent)) ≡ ok text) × Numbered sent

request_text-shape :
    (n : ℕ) (text : Bytes)
    → request_text n ≡ ok text
    → (n < 1000000) × (text ≡ codes "request #" ++ to_string n)
request_text-shape n text e = elim (Bool-cases (ltb n 1000000)) [
  | inl small ↦ (ltb→lt n 1000000 small, ok_injective (sym e ∙ request_text-fits n ∙ rw small refl))
  | inr large ↦
      let past : ok text ≡ fault overflow = sym e ∙ request_text-fits n ∙ rw large refl in
      absurd (cc)
]

request_text-injective :
    (m n : ℕ) (text : Bytes) → request_text m ≡ ok text → request_text n ≡ ok text → m ≡ n
request_text-injective m n text e f =
    let (small, first) = request_text-shape m text e in
    let (low, second) = request_text-shape n text f in
    let texts : codes "request #" ++ to_string m ≡ codes "request #" ++ to_string n =
      sym first ∙ second in
    to_string-injective m n (omega arith) (omega arith) (cc)

-- A request with a number that its client has not reached yet is not among those sent.
count-unasked :
    (sent : List Message) (id text : Bytes) (n : ℕ)
    → Numbered sent
    → asked_by id sent < n
    → request_text n ≡ ok text
    → count (id ∷ text ∷ []) sent ≡ 0
unfolding count asked_by Numbered
count-unasked [] id text n numbered h e = refl
count-unasked ([] ∷ sent) id text n numbered h e = absurd numbered
count-unasked ((j ∷ []) ∷ sent) id text n numbered h e = absurd numbered
count-unasked ((j ∷ u ∷ _ ∷ _) ∷ sent) id text n numbered h e = absurd numbered
count-unasked ((j ∷ u ∷ []) ∷ sent) id text n numbered h e = elim (Bool-cases (same id j)) [
  | inl mine ↦ elim (Bool-cases (same text u)) [
    | inl t ↦
        let number : request_text (suc (asked_by j sent)) ≡ ok text =
          numbered.0 ∙ ap ok (sym ((same_iff text u).0 t)) in
        let reached = request_text-injective n (suc (asked_by j sent)) text e number in
        let whose : asked_by id sent ≡ asked_by j sent =
          ap (λ i. asked_by i sent) ((same_iff id j).0 mine) in
        absurd (ground (arith, whose, reached, mine))
    | inr t ↦
        let before : asked_by id sent < n = ground (arith, mine) in
        rw mine (rw t (count-unasked sent id text n numbered.1 before e))
  ]
  | inr other ↦
      let before : asked_by id sent < n = ground (arith, other) in
      rw other (count-unasked sent id text n numbered.1 before e)
]

same_frames_lem : (m k : Message) → same_frames m k ≡ true → m ≡ k
same_frames_lem [] [] e = refl
same_frames_lem [] (_ ∷ _) e = absurd (cc)
same_frames_lem (_ ∷ _) [] e = absurd (cc)
same_frames_lem (f ∷ m) (g ∷ k) e = grind (keys, same_frames_lem m k)

count-asked : (m : Message) (sent : List Message) → Numbered sent → count m sent ≤ 1
unfolding count Numbered
count-asked m [] numbered = omega arith
count-asked m ([] ∷ sent) numbered = absurd numbered
count-asked m ((j ∷ []) ∷ sent) numbered = absurd numbered
count-asked m ((j ∷ u ∷ _ ∷ _) ∷ sent) numbered = absurd numbered
count-asked m ((j ∷ u ∷ []) ∷ sent) numbered = elim (Bool-cases (same_frames m (j ∷ u ∷ []))) [
  | inl found ↦
      let named = same_frames_lem m (j ∷ u ∷ []) found in
      let unasked =
        count-unasked sent j u (suc (asked_by j sent)) numbered.1 (omega arith) numbered.0 in
      let none_before : count m sent ≡ 0 = ap (λ k. count k sent) named ∙ unasked in
      ground (arith, found, none_before)
  | inr other ↦ ground (arith, other, count-asked m sent numbered.1)
]

Moves-Numbered : {s t : System} → Moves s t → Numbered s.sent → Numbered t.sent
unfolding Numbered
Moves-Numbered (asks s id text e) h = (e, h)
Moves-Numbered (reads s draw before after replies id text e low high w) h = h
Moves-Numbered (replies_once s before after reply replies e) h = h
Moves-Numbered (ends s before after e) h = h

Reached-Numbered : {s : System} → Reached s → Numbered s.sent
unfolding Numbered
Reached-Numbered begins = tt
Reached-Numbered (then_moves reached moves) = Moves-Numbered moves (Reached-Numbered reached)

Reached-IsServed : {s : System} → (m : Message) → Reached s → IsServed m s
unfolding IsServed count count_all
Reached-IsServed m begins = (omega arith, omega arith)
Reached-IsServed m (then_moves reached moves) = Moves-IsServed m moves (Reached-IsServed m reached)

-- However the steps of the clients and of the threads interleave: a client never sends the same
-- request twice, and what comes back under an identity was sent under it, at most five times for each
-- request. A request that no thread waits to read or has still to answer has come back at least once.
pub requests_served :
    {s : System}
    → (m : Message) → Reached s
    → (count m s.sent ≤ 1)
      × (count m s.returned ≤ 5 * count m s.sent)
      × (count m s.sent ≤ count m s.waiting + count_all m s.working + count m s.returned)
unfolding IsServed
requests_served m reached =
    let (lower, upper) = Reached-IsServed m reached in
    (count-asked m _ (Reached-Numbered reached), omega (arith, upper), lower)
