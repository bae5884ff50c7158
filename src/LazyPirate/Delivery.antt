-- ===== src/LazyPirate/Delivery.antt =====
-- lpclient.cpp: the whole run of a client whose requests or replies are lost from time to time.
use mathlib.Core.Path.{subst}
use zguide_examples.Prelude.{
  ℕ, zero, suc, ◌+◌, ◌-◌, ◌≤◌, ◌≡◌, refl, sym, ap, ◌∙◌, List, [], ◌∷◌, ◌++◌, append_assoc,
  append-nil, arith,
}
use zguide_examples.Prelude.Tests.{ltb-false, lt→ltb}
use zguide_examples.Prelude.Lists.{length, All}
use zguide_examples.Prelude.Bytes.{Bytes}
use zguide_examples.Freelance.Sequence.{to_string}
use zguide_examples.LazyPirate.{
  Event, replied, Action, sends, accepts, opens, Client, waits, finished, react, run, start,
  next_request,
}
use zguide_examples.LazyPirate.Retries.{IsSilent, timeouts, resends, react-own, run_silence}

-- Each request is answered behind what its round brings before.
abbrev pub conversation : ℕ → List (List Event) → List Event
conversation n [] = []
conversation n (es ∷ rounds) = es ++ (replied (to_string n) ∷ conversation (suc n) rounds)

-- Before the answer come no more than two timeouts, and replies to other requests.
abbrev pub IsPatient : ℕ → List (List Event) → Type 0
IsPatient n [] = Unit
IsPatient n (es ∷ rounds) = (All (IsSilent n) es × (timeouts es ≤ 2)) × IsPatient (suc n) rounds

-- Each request is sent again at each timeout and reported once, and then comes the next one.
abbrev pub transcript : ℕ → List (List Event) → List Action
transcript n [] = []
transcript n (es ∷ rounds) =
    resends n (timeouts es)
    ++ (accepts (to_string n) ∷ sends (to_string (suc n)) ∷ transcript (suc n) rounds)

abbrev pub waiting : ℕ → ℕ → Client
waiting n retries_left = waits (record { sequence = n; retries_left = retries_left })

run-finished : (es : List Event) → run es finished ≡ (finished, [])
unfolding run
run-finished [] = refl
run-finished (e ∷ es) = refl

run-append :
    (es later : List Event) (c : Client)
    → run (es ++ later) c ≡ ((run later (run es c).0).0, (run es c).1 ++ (run later (run es c).0).1)
unfolding run
run-append [] later c = refl
run-append (e ∷ es) later finished = rw (run-finished later) refl
run-append (e ∷ es) later (waits s) =
    rw (run-append es later (react e s).0)
      (ap (λ a. ((run later (run es (react e s).0).0).0, a)) (sym (append_assoc (react e s).1 _ _)))

run_answered :
    (n r : ℕ) (later : List Event)
    → run (replied (to_string n) ∷ later) (waiting n r) ≡ (
      (run later (waiting (suc n) 3)).0,
      accepts (to_string n) ∷ sends (to_string (suc n)) ∷ (run later (waiting (suc n) 3)).1,
    )
unfolding run
run_answered n r later = rw (react-own n r) refl

run_patient :
    (n : ℕ) (es : List Event)
    → All (IsSilent n) es
    → timeouts es ≤ 2
    → run es (waiting n 3) ≡ (waiting n (3 - timeouts es), resends n (timeouts es))
run_patient n es a h = run_silence es n 2 a ∙ rw (ltb-false 2 (timeouts es) h) refl

run_abandoned :
    (n : ℕ) (es : List Event)
    → All (IsSilent n) es
    → 3 ≤ timeouts es
    → run es (waiting n 3) ≡ (finished, resends n 2)
run_abandoned n es a h = run_silence es n 2 a ∙ rw (lt→ltb 2 (timeouts es) h) refl

run_rounds :
    (n : ℕ) (rounds : List (List Event)) (last : List Event)
    → IsPatient n rounds
    → All (IsSilent (n + length rounds)) last
    → 3 ≤ timeouts last
    → run (conversation n rounds ++ last) (waiting n 3)
      ≡ (finished, transcript n rounds ++ resends (n + length rounds) 2)
run_rounds n [] last p a h =
    let whole : n + 0 ≡ n = omega arith in
    rw whole (run_abandoned n last (subst (λ m. All (IsSilent m) last) whole a) h)
run_rounds n (es ∷ rounds) last ((silent, few), p) a h =
    let later = conversation (suc n) rounds ++ last in
    let next : run later (waiting (suc n) 3)
        ≡ (finished, transcript (suc n) rounds ++ resends (suc n + length rounds) 2) =
      run_rounds (suc n) rounds last p (subst (λ m. All (IsSilent m) last) (omega arith) a) h in
    let further : n + suc (length rounds) ≡ suc n + length rounds = omega arith in
    rw (append_assoc es (replied (to_string n) ∷ conversation (suc n) rounds) last, further)
      (rw (run-append es (replied (to_string n) ∷ later) (waiting n 3)) (
        rw (run_patient n es silent few) (
          rw (run_answered n (3 - timeouts es) later) (
            rw next
              (ap (λ sent. (finished, sent)) (sym (append_assoc (resends n (timeouts es)) _ _)))))))

-- The replies that the client reports.
abbrev pub reports : List Action → List Bytes
reports [] = []
reports (accepts reply ∷ done) = reply ∷ reports done
reports (sends _ ∷ done) = reports done
reports (opens ∷ done) = reports done

abbrev pub numbers : ℕ → ℕ → List Bytes
numbers n zero = []
numbers n (suc count) = to_string n ∷ numbers (suc n) count

reports-resends :
    (n times : ℕ) (done : List Action) → reports (resends n times ++ done) ≡ reports done
unfolding resends
reports-resends n zero done = refl
reports-resends n (suc times) done = reports-resends n times done

reports-transcript :
    (n m : ℕ) (rounds : List (List Event))
    → reports (transcript n rounds ++ resends m 2) ≡ numbers n (length rounds)
reports-transcript n m [] = rw (append-nil (resends m 2)) at (reports-resends m 2 [])
reports-transcript n m (es ∷ rounds) = rw (append_assoc (resends n (timeouts es)) _ (resends m 2)) (
    reports-resends n (timeouts es) _
    ∙ ap (λ l. to_string n ∷ l) (reports-transcript (suc n) m rounds))

-- The whole run of a client. As long as each request is answered before its third timeout, whatever
-- replies to other requests come before, the client sends it again over a new socket at each timeout,
-- reports its answer, and goes on to the next; at the third timeout of a request it gives up. So it
-- ends, and it has reported the numbers of the requests that were answered, each once and in order.
pub run_delivers :
    (rounds : List (List Event)) (last : List Event)
    → IsPatient 1 rounds
    → All (IsSilent (1 + length rounds)) last
    → 3 ≤ timeouts last
    → (run (conversation 1 rounds ++ last) start.0
        ≡ (finished, transcript 1 rounds ++ resends (1 + length rounds) 2))
      × (reports (run (conversation 1 rounds ++ last) start.0).1 ≡ numbers 1 (length rounds))
unfolding start next_request
run_delivers rounds last p a h =
    let whole = run_rounds 1 rounds last p a h in
    (whole, ap (λ r. reports r.1) whole ∙ reports-transcript 1 (1 + length rounds) rounds)
