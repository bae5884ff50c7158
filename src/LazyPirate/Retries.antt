-- ===== src/LazyPirate/Retries.antt =====
-- lpclient.cpp: how often a request is sent, and what ends the client.
use zguide_examples.Prelude.{
  ℕ, zero, suc, ◌+◌, ◌-◌, ◌≤◌, ◌≡◌, refl, inl, inr, false, List, [], ◌∷◌, arith,
}
use zguide_examples.Prelude.Tests.{
  ltb, ◌==◌, if◌then◌else◌, Bool-cases, ltb-false, lt→ltb, ltb→lt, ltb-false→le,
}
use zguide_examples.Prelude.Lists.{All}
use zguide_examples.Prelude.Bytes.{Bytes, same, same_refl}
use zguide_examples.Freelance.Sequence.{to_string}
use zguide_examples.LazyPirate.{
  State, Event, replied, failed, timed_out, Action, sends, accepts, opens, waits, finished,
  next_request, react, run, retries_allowed,
}

-- No answer to this request: nothing comes, or the reply to another one.
abbrev pub IsSilent : ℕ → Event → Type 0
IsSilent n (replied reply) = same reply (to_string n) ≡ false
IsSilent n failed = ⊥
IsSilent n timed_out = Unit

abbrev pub timeouts : List Event → ℕ
timeouts [] = 0
timeouts (timed_out ∷ es) = suc (timeouts es)
timeouts (replied _ ∷ es) = timeouts es
timeouts (failed ∷ es) = timeouts es

-- The same request again, each time over a new socket.
unfoldable pub resends : ℕ → ℕ → List Action
resends n zero = []
resends n (suc times) = opens ∷ sends (to_string n) ∷ resends n times

react-timed_out :
    (n r : ℕ)
    → react timed_out (record { sequence = n; retries_left = suc (suc r) })
      ≡ (waits (record { sequence = n; retries_left = suc r }), opens ∷ sends (to_string n) ∷ [])
unfolding react
react-timed_out n r =
    let one_less : suc (suc r) - 1 ≡ suc r = omega arith in
    let some_left : (suc r == 0) ≡ false = ground arith in rw one_less (rw some_left)

react-last : (n : ℕ) → react timed_out (record { sequence = n; retries_left = 1 }) ≡ (finished, [])
unfolding react
react-last n = refl

react-other :
    (reply : Bytes) (s : State)
    → same reply (to_string s.sequence) ≡ false
    → react (replied reply) s ≡ (waits s, [])
unfolding react
react-other reply s h = rw h

pub react-own :
    (n r : ℕ)
    → react (replied (to_string n)) (record { sequence = n; retries_left = r }) ≡ (
      waits (record { sequence = suc n; retries_left = retries_allowed }),
      accepts (to_string n) ∷ sends (to_string (suc n)) ∷ [],
    )
unfolding react next_request
react-own n r = let next : n + 1 ≡ suc n = omega arith in rw (same_refl (to_string n)) (rw next)

-- As long as nothing comes or only replies to other requests, the client waits through every
-- timeout but the last that it allows, and sends the same request again over a new socket at each;
-- at the last it gives up, and does nothing more.
pub run_silence :
    (es : List Event) (n r : ℕ)
    → All (IsSilent n) es
    → run es (waits (record { sequence = n; retries_left = suc r })) ≡ (
        if ltb r (timeouts es) then (finished, resends n r) else (
          waits (record { sequence = n; retries_left = suc r - timeouts es }),
          resends n (timeouts es),
        ))
unfolding run resends
run_silence [] n r a =
    let whole : suc r - 0 ≡ suc r = omega arith in rw (ltb-false r 0 (omega arith)) (rw whole)
run_silence (replied reply ∷ es) n r a =
    rw (react-other reply (record { sequence = n; retries_left = suc r }) a.0)
      (run_silence es n r a.1)
run_silence (failed ∷ es) n r a = absurd a.0
run_silence (timed_out ∷ []) n zero a = rw (react-last n)
run_silence (timed_out ∷ e ∷ es) n zero a =
    rw (react-last n) (rw (lt→ltb 0 (timeouts (timed_out ∷ e ∷ es)) (omega arith)))
run_silence (timed_out ∷ es) n (suc r) a = elim (Bool-cases (ltb r (timeouts es))) [
  | inl e ↦
      let more = lt→ltb (suc r) (suc (timeouts es)) (omega (arith, ltb→lt r (timeouts es) e)) in
      rw (react-timed_out n r) (rw (run_silence es n r a.1) (rw e (rw more)))
  | inr e ↦
      let none_left =
        ltb-false (suc r) (suc (timeouts es)) (omega (arith, ltb-false→le r (timeouts es) e)) in
      let left : suc (suc r) - suc (timeouts es) ≡ suc r - timeouts es = omega arith in
      rw (react-timed_out n r) (rw (run_silence es n r a.1) (rw e (rw none_left (rw left))))
]

abbrev pub served : ℕ → ℕ → List Event
served n zero = []
served n (suc count) = replied (to_string n) ∷ served (suc n) count

abbrev pub progress : ℕ → ℕ → List Action
progress n zero = []
progress n (suc count) = accepts (to_string n) ∷ sends (to_string (suc n)) ∷ progress (suc n) count

-- A server that echoes is never abandoned: each request is answered with its own number, the
-- client reports it and sends the next number, and has from one to three retries left at the end.
pub run-served :
    (count n r : ℕ)
    → suc r ≤ retries_allowed
    → (s : ℕ) × (1 ≤ s)
      × (s ≤ retries_allowed)
      × (run (served n count) (waits (record { sequence = n; retries_left = suc r }))
          ≡ (waits (record { sequence = n + count; retries_left = s }), progress n count))
unfolding run
run-served zero n r h =
    let same_number : n + 0 ≡ n = omega arith in (suc r, omega arith, h, rw same_number)
run-served (suc count) n r h =
    let (s, low, high, e) = run-served count (suc n) 2 (omega arith) in
    let further : n + suc count ≡ suc n + count = omega arith in
    (s, low, high, rw further (rw (react-own n (suc r)) (rw e)))
