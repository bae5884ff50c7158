-- ===== src/Freelance/Sequence/Text.antt =====
-- The decimal digits of a number as text: how many there are, and that none is the zero byte.
use zguide_examples.Prelude.{
  ◌≡◌, false, ℕ, zero, suc, ◌+◌, ◌*◌, ◌/◌, ◌%◌, ◌^◌, ◌<◌, ◌≤◌, ◌≢◌, inl, inr, [], ◌∷◌, arith,
}
use zguide_examples.Prelude.Tests.{ltb, ltb-false, Bool-cases, lt→ltb}
use zguide_examples.Prelude.Lists.{length, length-append, All, All-append}
use zguide_examples.Freelance.Sequence.{to_string, to_string_from}

-- A number of k digits more than one, at most, is written with that many digits.
to_string_from-length : (f k n : ℕ) → n < 10 ^ k * 10 → length (to_string_from f n) ≤ suc k
unfolding to_string_from
to_string_from-length zero k n h = omega arith
to_string_from-length (suc f) zero n h = rw (lt→ltb n 10 (omega arith)) (omega arith)
to_string_from-length (suc f) (suc k) n h =
    let tens : n / 10 < 10 ^ k * 10 = omega arith in
    let front : length (to_string_from f (n / 10)) ≤ suc k =
      to_string_from-length f k (n / 10) tens in
    elim (Bool-cases (ltb n 10)) [
      | inl e ↦ rw e (omega arith)
      | inr e ↦ rw e (omega (arith, length-append (to_string_from f (n / 10)) ((48 + n % 10) ∷ [])))
    ]

to_string_from-IsText : (f n : ℕ) → All (λ c. c ≢ 0) (to_string_from f n)
unfolding to_string_from
to_string_from-IsText zero n = tt
to_string_from-IsText (suc f) n =
    let front = to_string_from-IsText f (n / 10) in
    elim (Bool-cases (ltb n 10)) [
      | inl e ↦ rw e ((λ z. absurd (omega (arith, z))), tt)
      | inr e ↦ rw e (
          All-append (λ c. c ≢ 0) (to_string_from f (n / 10)) ((48 + n % 10) ∷ []) front
            ((λ z. absurd (omega (arith, z))), tt))
    ]

pub to_string-length_below : (k n : ℕ) → n < 10 ^ k * 10 → length (to_string n) ≤ suc k
unfolding to_string
to_string-length_below k n h = to_string_from-length (suc n) k n h

pub to_string-length : (n : ℕ) → n ≤ 1000 → length (to_string n) ≤ 6
unfolding to_string
to_string-length n h = omega (arith, to_string_from-length (suc n) 3 n (omega arith))

pub to_string-IsText : (n : ℕ) → All (λ c. c ≢ 0) (to_string n)
unfolding to_string
to_string-IsText n = to_string_from-IsText (suc n) n

power_pos : (k : ℕ) → 1 ≤ 10 ^ k
power_pos zero = omega arith
power_pos (suc k) = omega (arith, power_pos k)

-- A number from 10 ^ k on is written with more than k digits.
to_string_from-length_min : (f k n : ℕ) → 10 ^ k ≤ n → n < f → suc k ≤ length (to_string_from f n)
unfolding to_string_from
to_string_from-length_min zero k n h l = absurd (omega arith)
to_string_from-length_min (suc f) zero n h l = elim (Bool-cases (ltb n 10)) [
  | inl e ↦ rw e (omega arith)
  | inr e ↦ rw e (omega (arith, length-append (to_string_from f (n / 10)) ((48 + n % 10) ∷ [])))
]
to_string_from-length_min (suc f) (suc k) n h l =
    let some_digit : 1 ≤ 10 ^ k = power_pos k in
    let long : ltb n 10 ≡ false = ltb-false n 10 (omega arith) in
    let front : suc k ≤ length (to_string_from f (n / 10)) =
      to_string_from-length_min f k (n / 10) (omega arith) (omega arith) in
    rw long (omega (arith, length-append (to_string_from f (n / 10)) ((48 + n % 10) ∷ []), front))

pub to_string-length_iff :
    (n : ℕ) → (n < 1000000 → length (to_string n) ≤ 6) × (1000000 ≤ n → 7 ≤ length (to_string n))
unfolding to_string
to_string-length_iff n = (
  (λ h. omega (arith, to_string_from-length (suc n) 5 n (omega arith))),
  λ h. omega (arith, to_string_from-length_min (suc n) 6 n (omega arith) (omega arith)),
)
