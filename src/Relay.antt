-- ===== src/Relay.antt =====
-- Threads that wait for each other: signaling-between-threads/mtrelay.cpp. The actions of the three
-- threads may come in any order that the sockets and the starts of the threads allow.
use zguide_examples.Prelude.{ℕ, ◌+◌, ◌-◌, ◌*◌, ◌≤◌, ◌≡◌, ◌⊎◌, ◌↔◌, inl, inr, arith}

-- How many of its actions each thread has done. `main` binds step3, starts step2 and receives; `step2`
-- binds step2, starts step1, receives, connects to step3 and sends; `step1` connects and sends.
pub record Threads : Type 0 where
  pub main : ℕ
  pub step2 : ℕ
  pub step1 : ℕ

abbrev pub start : Threads
start = record { main = 0; step2 = 0; step1 = 0 }

abbrev pub main_moves : Threads → Threads
main_moves t = record t { main = t.main + 1 }

abbrev pub step2_moves : Threads → Threads
step2_moves t = record t { step2 = t.step2 + 1 }

abbrev pub step1_moves : Threads → Threads
step1_moves t = record t { step1 = t.step1 + 1 }

pub data Moves : Threads → Threads → Type 0 where
  binds_step3 : (t : Threads) → t.main ≡ 0 → Moves t (main_moves t)
  starts_step2 : (t : Threads) → t.main ≡ 1 → Moves t (main_moves t)
  completes : (t : Threads) → t.main ≡ 2 → 5 ≤ t.step2 → Moves t (main_moves t)
  binds_step2 : (t : Threads) → 2 ≤ t.main → t.step2 ≡ 0 → Moves t (step2_moves t)
  starts_step1 : (t : Threads) → t.step2 ≡ 1 → Moves t (step2_moves t)
  receives : (t : Threads) → t.step2 ≡ 2 → 2 ≤ t.step1 → Moves t (step2_moves t)
  connects_step3 : (t : Threads) → t.step2 ≡ 3 → Moves t (step2_moves t)
  sends_step3 : (t : Threads) → t.step2 ≡ 4 → Moves t (step2_moves t)
  connects_step2 : (t : Threads) → 2 ≤ t.step2 → t.step1 ≡ 0 → Moves t (step1_moves t)
  sends_step2 : (t : Threads) → t.step1 ≡ 1 → Moves t (step1_moves t)

-- After so many actions.
pub data Reaches : ℕ → Threads → Type 0 where
  begins : Reaches 0 start
  then_moves : {n : ℕ} {t u : Threads} → Reaches n t → Moves t u → Reaches (n + 1) u

-- A thread acts only when it is started, and goes past a `recv` only when the message was sent.
IsRelay : ℕ → Threads → Type 0
IsRelay n t =
    (t.main + t.step2 + t.step1 ≡ n)
    × (t.step1 ≤ 2)
    × (t.step2 ≤ 5)
    × (t.step2 ≤ 5 * (t.main - 1))
    × (t.step1 ≤ 2 * (t.step2 - 1))
    × (t.step2 ≤ 2 + 3 * (t.step1 - 1))
    × (t.main ≤ 2 + (t.step2 - 4))

Moves-IsRelay : (n : ℕ) {t u : Threads} → Moves t u → IsRelay n t → IsRelay (n + 1) u
unfolding IsRelay
Moves-IsRelay n (binds_step3 t e) r = ground arith
Moves-IsRelay n (starts_step2 t e) r = ground arith
Moves-IsRelay n (completes t e s) r = ground arith
Moves-IsRelay n (binds_step2 t s e) r = ground arith
Moves-IsRelay n (starts_step1 t e) r = ground arith
Moves-IsRelay n (receives t e s) r = ground arith
Moves-IsRelay n (connects_step3 t e) r = ground arith
Moves-IsRelay n (sends_step3 t e) r = ground arith
Moves-IsRelay n (connects_step2 t s e) r = ground arith
Moves-IsRelay n (sends_step2 t e) r = ground arith

Reaches-IsRelay : {n : ℕ} {t : Threads} → Reaches n t → IsRelay n t
unfolding IsRelay
Reaches-IsRelay begins = ground arith
Reaches-IsRelay (then_moves reaches moves) = Moves-IsRelay _ moves (Reaches-IsRelay reaches)

-- The sum alone says how far each thread is.
IsRelay-determined :
    (n : ℕ) (s t : Threads)
    → IsRelay n s
    → IsRelay n t
    → (s.main ≡ t.main) × (s.step2 ≡ t.step2) × (s.step1 ≡ t.step1)
unfolding IsRelay
IsRelay-determined n s t r q = ground arith

-- Which action is the next.
IsRelay-cases :
    (n : ℕ) (t : Threads)
    → IsRelay n t
    → ((t.main ≡ 0) ⊎ (t.main ≡ 1) ⊎ (2 ≤ t.main) × (t.step2 ≡ 0) ⊎ (t.step2 ≡ 1))
      ⊎ ((2 ≤ t.step2) × (t.step1 ≡ 0) ⊎ (t.step1 ≡ 1) ⊎ (t.step2 ≡ 2) × (2 ≤ t.step1))
      ⊎ ((t.step2 ≡ 3) ⊎ (t.step2 ≡ 4) ⊎ (t.main ≡ 2) × (5 ≤ t.step2) ⊎ (n ≡ 10))
unfolding IsRelay
IsRelay-cases n t r = ground arith

-- While an action is left, some thread can do its next one.
IsRelay-moves : (n : ℕ) (t : Threads) → IsRelay n t → (n ≡ 10) ⊎ ((u : Threads) × Moves t u)
IsRelay-moves n t r = elim (IsRelay-cases n t r) [
  | inl (inl none) ↦ inr (main_moves t, binds_step3 t none)
  | inl (inr (inl one)) ↦ inr (main_moves t, starts_step2 t one)
  | inl (inr (inr (inl (started, none)))) ↦ inr (step2_moves t, binds_step2 t started none)
  | inl (inr (inr (inr one))) ↦ inr (step2_moves t, starts_step1 t one)
  | inr (inl (inl (bound, none))) ↦ inr (step1_moves t, connects_step2 t bound none)
  | inr (inl (inr (inl one))) ↦ inr (step1_moves t, sends_step2 t one)
  | inr (inl (inr (inr (two, sent)))) ↦ inr (step2_moves t, receives t two sent)
  | inr (inr (inl three)) ↦ inr (step2_moves t, connects_step3 t three)
  | inr (inr (inr (inl four))) ↦ inr (step2_moves t, sends_step3 t four)
  | inr (inr (inr (inr (inl (two, sent))))) ↦ inr (main_moves t, completes t two sent)
  | inr (inr (inr (inr (inr ten)))) ↦ inl ten
]

IsRelay-complete : (n : ℕ) (t : Threads) → IsRelay n t → (n ≤ 10) × ((t.main ≡ 3) ↔ (n ≡ 10))
unfolding IsRelay
IsRelay-complete n t r = (ground arith, (λ e. ground arith, λ e. ground arith))

-- However the threads are interleaved, they act in one order: the states after so many actions are
-- the same. The tenth action is the one with which `main` completes, no run goes on behind it, and
-- before it some thread can always act.
pub relay_in_order :
    (n : ℕ) (s t : Threads)
    → Reaches n s
    → Reaches n t
    → (s ≡ t) × (n ≤ 10) × ((s.main ≡ 3) ↔ (n ≡ 10)) × ((n ≡ 10) ⊎ ((u : Threads) × Moves s u))
relay_in_order n s t reaches other =
    let r = Reaches-IsRelay reaches in
    let (main, step2, step1) = IsRelay-determined n s t r (Reaches-IsRelay other) in
    let (bounded, complete) = IsRelay-complete n s r in
    (
      λ i. record { main = main i; step2 = step2 i; step1 = step1 i },
      bounded,
      complete,
      IsRelay-moves n s r,
    )
