-- ===== src/DivideConquer/System/Finished.antt =====
-- taskvent.cpp, taskwork.cpp and tasksink.cpp: the tasks are done when the sink ends the workers, and this comes.
use mathlib.Core.Path.{subst}
use zguide_examples.Prelude.{
  ℕ, ◌+◌, ◌*◌, ◌^◌, ◌≤◌, ◌<◌, ◌≡◌, ◌⊎◌, inl, inr, refl, ap, ◌∙◌, false, List, [], ◌∷◌, arith,
  Option, none, some,
}
use zguide_examples.Prelude.Tests.{Bool-cases, Option-cases}
use zguide_examples.Prelude.Lists.{length, length-append, All}
use zguide_examples.Prelude.Bytes.{Bytes, codes}
use zguide_examples.Prelude.Result.{ok}
use zguide_examples.Freelance.Sequence.{strtol}
use zguide_examples.DivideConquer.{
  tasks, ventilate, sleeps, sends, work, collect, sum, sum-bound, task_message-read, collect-all,
  ventilate_task,
}
use zguide_examples.DivideConquer.System.{
  System, at_start, Moves, ventilates, works, begins, receives, controls, ends, Reaches, start,
  then_moves,
}
use zguide_examples.DivideConquer.System.Kept.{
  began_count, cost, IsKept, length-between, Reaches-IsKept,
}

-- The moves up to the last message of the sink.
abbrev pub moved : {s t : System} → Moves s t → ℕ
moved (ventilates s k w total ws m e v) = 1
moved (works s p q t ms r e w) = 1
moved (begins s p q m n e) = 1
moved (receives s p q m y l e) = 1
moved (controls s m y n c) = 1
moved (ends s m c) = 0

abbrev pub moves_of : {s t : System} → Reaches s t → ℕ
moves_of start = 0
moves_of (then_moves r m) = moves_of r + moved m

abbrev pub control_left : Option Bytes → ℕ
control_left none = 1
control_left (some m) = 0

-- Three moves for a task that has not been sent, two for one that waits, and one for what is under way.
abbrev pub left : System → ℕ
left s = 3 * length s.unsent + 2 * length s.waiting + length s.under_way + control_left s.control

Moves-left : {s t : System} (m : Moves s t) → moved m + left t ≡ left s
Moves-left (ventilates s k w total ws m e v) =
    omega (arith, ap length e, length-append s.waiting (record { worker = k; message = m } ∷ []))
Moves-left (works s p q t ms r e w) =
    omega (arith, ap length e, length-between p q t, length-append s.under_way (r ∷ []))
Moves-left (begins s p q m n e) = omega (arith, ap length e, length-between p q m)
Moves-left (receives s p q m y l e) = omega (arith, ap length e, length-between p q m)
Moves-left (controls s m y n c) = omega (arith, ap control_left n)
Moves-left (ends s m c) = omega arith

Reaches-left : {s t : System} (r : Reaches s t) → moves_of r + left t ≡ left s
Reaches-left start = omega arith
Reaches-left (then_moves r m) = omega (arith, Reaches-left r, Moves-left m)

work-does :
    (message : Bytes)
    → work ((some message, false) ∷ []) ≡ sleeps (strtol message).0 ∷ sends [] ∷ []
unfolding work
work-does message = refl

List-cases : {A : Type 0} (l : List A) → (l ≡ []) ⊎ ((x : A) × (xs : List A) × (l ≡ x ∷ xs))
List-cases [] = inl refl
List-cases (x ∷ xs) = inr (x, xs, refl)

abbrev Next : System → Type 0
Next s = (t : System) × Moves s t

module _ {workloads : List ℕ} (b : sum workloads < 2 ^ 32) (s : System) (h : IsKept workloads s)
    (n : s.control ≡ none) where
  ventilates-Next : (w : ℕ) (ws : List ℕ) → s.unsent ≡ w ∷ ws → Next s
  unfolding ventilate
  ventilates-Next w ws e =
      let small = subst (All (λ n. n ≤ 100)) e h.small in
      let (m, sent, read) = task_message-read w small.0 in
      let fits : s.total + w < 2 ^ 32 = omega (arith, b, h.costed, ap sum e) in
      (
        _,
        ventilates s 0 w (s.total + w) ws m e
            (ventilate_task w s.total (s.total + w) [] m [] sent fits refl),
      )

  receives-Next : (m : Bytes) (ms : List Bytes) → s.under_way ≡ m ∷ ms → Next s
  receives-Next m ms e = elim (Bool-cases s.began) [
    | inl y ↦ (_, receives s [] ms m y (omega (arith, h.counted, ap length e, ap began_count y)) e)
    | inr f ↦ (_, begins s [] ms m f e)
  ]

  controls-Next : s.unsent ≡ [] → s.waiting ≡ [] → s.under_way ≡ [] → Next s
  controls-Next e f g =
      let gone : length s.unsent + length s.waiting + length s.under_way ≡ 0 =
        omega (arith, ap length e, ap length f, ap length g) in
      elim (Bool-cases s.began) [
        | inl y ↦
            let all : length s.received ≡ tasks =
              omega (arith, h.counted, gone, ap began_count y) in
            (
              _,
              controls s (codes "KILL") y n (
                  subst (λ k. collect k s.received ≡ ok (codes "KILL")) all
                    (collect-all s.received)),
            )
        | inr k ↦ absurd (omega (arith, h.counted, h.room, gone, ap began_count k))
      ]

  any-Next : Next s
  any-Next = elim (List-cases s.unsent) [
    | inr (w, ws, e) ↦ ventilates-Next w ws e
    | inl e ↦ elim (List-cases s.waiting) [
      | inr (t, ts, f) ↦ (_, works s [] ts t (strtol t.message).0 [] f (work-does t.message))
      | inl f ↦ elim (List-cases s.under_way) [
        | inr (m, ms, g) ↦ receives-Next m ms g
        | inl g ↦ controls-Next e f g
      ]
    ]
  ]

-- All the tasks are done, and the sink has said so.
abbrev pub IsFinished : List ℕ → System → Type 0
IsFinished workloads s =
    (s.control ≡ some (codes "KILL"))
    × (s.unsent ≡ [])
    × (s.waiting ≡ [])
    × (s.total ≡ sum workloads)
    × (s.slept ≡ s.total)

none_in : {A : Type 0} (l : List A) → length l ≡ 0 → l ≡ []
none_in [] e = refl
none_in (x ∷ l) e = absurd (omega arith)

finished :
    {workloads : List ℕ} (s : System) (m : Bytes)
    → IsKept workloads s
    → s.control ≡ some m
    → IsFinished workloads s
finished s m h c =
    let (y, enough, kill) = h.last m c in
    let unsent : s.unsent ≡ [] =
      none_in s.unsent (omega (arith, h.counted, enough, ap began_count y)) in
    let waiting : s.waiting ≡ [] =
      none_in s.waiting (omega (arith, h.counted, enough, ap began_count y)) in
    (
      c ∙ ap some kill,
      unsent,
      waiting,
      omega (arith, h.costed, ap sum unsent),
      omega (arith, h.costed, h.spent, ap sum unsent, ap cost waiting),
    )

-- A hundred workloads of up to 100, any number of workers, and any order of the messages, also of those
-- that come to the sink. In every state that is reached, either the sink has ended the workers, and then
-- with KILL, every task has been sent and done, and the cost that the ventilator prints is the time that
-- the workers slept, the sum of the workloads; or it has not, and something can move. Of the moves other
-- than the end of a worker there are no more than 302, so it comes to that.
pub tasks_finished :
    (workloads : List ℕ) (second : ℕ) {s : System}
    → All (λ n. n ≤ 100) workloads
    → length workloads ≡ 100
    → (r : Reaches (at_start workloads second) s)
    → (moves_of r + left s ≡ 302)
      × (((s.control ≡ none) × ((t : System) × Moves s t)) ⊎ IsFinished workloads s)
tasks_finished workloads second {s = s} a e r =
    let b : sum workloads < 2 ^ 32 = omega (arith, e, sum-bound workloads a) in
    let h = Reaches-IsKept b r (record {
      small = a;
      counted = omega (arith, e);
      room = omega arith;
      costed = omega arith;
      spent = omega arith;
      last = λ m c. absurd (cc);
    }) in
    (
      omega (arith, e, Reaches-left r),
      elim (Option-cases s.control) [
        | inl n ↦ inl (n, any-Next b s h n)
        | inr (m, c) ↦ inr (finished s m h c)
      ],
    )
