-- ===== src/MultipleSockets.antt =====
-- Two sockets in one loop: handling-multiple-sockets/msreader.cpp and mspoller.cpp. What is done with
-- a message is left open in both; here it is kept in a list, `none` for the empty message of a `recv`
-- that finds nothing.
use zguide_examples.Prelude.{
  ℕ, zero, suc, ◌≤◌, ◌≡◌, refl, Bool, true, false, Option, none, some, List, [], ◌∷◌, ◌++◌, arith,
}
use zguide_examples.Prelude.Tests.{if◌then◌else◌}
use zguide_examples.Prelude.Lists.{length}
use zguide_examples.Prelude.Bytes.{Bytes}

-- What waits at the PULL socket and at the SUB socket.
pub record Sockets : Type 0 where
  pub receiver : List Bytes
  pub subscriber : List Bytes

pub record Handled : Type 0 where
  pub tasks : List (Option Bytes)
  pub updates : List (Option Bytes)

abbrev pub is_nil : List Bytes → Bool
is_nil [] = true
is_nil (_ ∷ _) = false

abbrev pub same_bool : Bool → Bool → Bool
same_bool true b = b
same_bool false true = false
same_bool false false = true

-- The body of a `do` of msreader: the test compares `rc` with the result of `recv`.
abbrev pub body : Bool → List Bytes → List (Option Bytes) × List Bytes
body rc [] = (if same_bool rc false then none ∷ [] else [], [])
body rc (m ∷ waiting) = (if same_bool rc true then some m ∷ [] else [], waiting)

-- A `do` of msreader. `rc` is never written, so that its value, which it does not get at its
-- declaration, says how the loop goes on; `none`: not over after so many bodies.
unfoldable pub drain : ℕ → Bool → List Bytes → Option (List (Option Bytes) × List Bytes)
drain zero rc waiting = none
drain (suc fuel) rc waiting =
    let (handled, left) = body rc waiting in
    let further = drain fuel rc left in
    if rc
    then elim further as (λ _. Option (List (Option Bytes) × List Bytes)) [
      | some (more, rest) ↦ some (handled ++ more, rest)
      | none ↦ none
    ]
    else some (handled, left)

-- A round of msreader.
unfoldable pub read_round : ℕ → Bool → Sockets → Option (Handled × Sockets)
unfolding drain
read_round fuel rc s = elim (drain fuel rc s.receiver) as (λ _. Option (Handled × Sockets)) [
  | none ↦ none
  | some (tasks, receiver) ↦
      elim (drain fuel rc s.subscriber) as (λ _. Option (Handled × Sockets)) [
        | none ↦ none
        | some (updates, subscriber) ↦ some (
          record { tasks = tasks; updates = updates },
          record { receiver = receiver; subscriber = subscriber },
        )
      ]
]

-- A round of mspoller: a message of each socket that has one.
abbrev pub taken : List Bytes → List (Option Bytes) × List Bytes
taken [] = ([], [])
taken (m ∷ waiting) = (some m ∷ [], waiting)

unfoldable pub poll_round : Sockets → Handled × Sockets
poll_round s =
    let (tasks, receiver) = taken s.receiver in
    let (updates, subscriber) = taken s.subscriber in
    (
      record { tasks = tasks; updates = updates },
      record { receiver = receiver; subscriber = subscriber },
    )

unfoldable pub poll_rounds : ℕ → Sockets → Handled × Sockets
unfolding poll_round
poll_rounds zero s = (record { tasks = []; updates = [] }, s)
poll_rounds (suc rounds) s =
    let (first, s₁) = poll_round s in
    let (later, s₂) = poll_rounds rounds s₁ in
    (record { tasks = first.tasks ++ later.tasks; updates = first.updates ++ later.updates }, s₂)

drain_forever : (fuel : ℕ) (waiting : List Bytes) → drain fuel true waiting ≡ none
unfolding drain
drain_forever zero waiting = refl
drain_forever (suc fuel) [] = rw (drain_forever fuel []) refl
drain_forever (suc fuel) (m ∷ waiting) = rw (drain_forever fuel waiting) refl

body_false :
    (waiting : List Bytes) → (body false waiting).0 ≡ (if is_nil waiting then none ∷ [] else [])
body_false [] = refl
body_false (m ∷ waiting) = refl

body_left : (waiting : List Bytes) → (body false waiting).1 ≡ (taken waiting).1
body_left [] = refl
body_left (m ∷ waiting) = refl

-- If `rc` happens to be true, a round of msreader is not over after any number of bodies. If it is
-- false, the round takes a message of each socket that has one and handles none of them; where there
-- is none it handles an empty message.
pub read_round_unset :
    (fuel : ℕ) (s : Sockets)
    → (read_round (suc fuel) true s ≡ none)
      × (read_round (suc fuel) false s
          ≡ some (
            record {
              tasks = if is_nil s.receiver then none ∷ [] else [];
              updates = if is_nil s.subscriber then none ∷ [] else [];
            },
            (poll_round s).1,
          ))
unfolding read_round poll_round
read_round_unset fuel s = (
  rw (drain_forever fuel (body true s.receiver).1, read_round) refl,
  rw (body_false s.receiver)
      (rw (body_false s.subscriber) (rw (body_left s.receiver) (rw (body_left s.subscriber) refl))),
)

-- The messages as they are handled.
abbrev pub all_of : List Bytes → List (Option Bytes)
all_of [] = []
all_of (m ∷ waiting) = some m ∷ all_of waiting

-- As many rounds of mspoller as the longer of the two sockets has messages handle all of both, each in
-- order, and leave none.
pub poll_rounds_all :
    (rounds : ℕ) (tasks updates : List Bytes)
    → length tasks ≤ rounds
    → length updates ≤ rounds
    → poll_rounds rounds (record { receiver = tasks; subscriber = updates }) ≡ (
      record { tasks = all_of tasks; updates = all_of updates },
      record { receiver = []; subscriber = [] },
    )
unfolding poll_rounds poll_round
poll_rounds_all zero [] [] h k = refl
poll_rounds_all zero (t ∷ ts) us h k = absurd (omega arith)
poll_rounds_all zero [] (u ∷ us) h k = absurd (omega arith)
poll_rounds_all (suc n) [] [] h k = rw (poll_rounds_all n [] [] (omega arith) (omega arith)) refl
poll_rounds_all (suc n) (t ∷ ts) [] h k =
    rw (poll_rounds_all n ts [] (omega arith) (omega arith)) refl
poll_rounds_all (suc n) [] (u ∷ us) h k =
    rw (poll_rounds_all n [] us (omega arith) (omega arith)) refl
poll_rounds_all (suc n) (t ∷ ts) (u ∷ us) h k =
    rw (poll_rounds_all n ts us (omega arith) (omega arith)) refl
