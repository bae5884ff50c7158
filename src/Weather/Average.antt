-- ===== src/Weather/Average.antt =====
-- wuclient.cpp: the average of what the server draws.
use zguide_examples.Prelude.{
  ℕ, zero, suc, ◌+◌, ◌*◌, ◌/◌, ◌<◌, ◌≤◌, ◌≡◌, refl, ap, inl, inr, some, List, [], ◌∷◌, map, arith,
}
use mathlib.Core.Path.{subst}
use native.Mathlib.Nat.{div-lt_iff_lt-mul}
use zguide_examples.Prelude.Tests.{ltb, Bool-cases, ltb→lt, ltb-false→le}
use zguide_examples.Prelude.Lists.{length, All}
use zguide_examples.Prelude.Bytes.{Bytes}
use zguide_examples.Weather.{
  ℤ, pos, negsuc, neg, difference, ◌+ℤ◌, quotient, publish, total_temp, average,
}
use zguide_examples.Weather.Update.{IsTemperature, read_update-publish}

-- What the server draws for one message, and the bytes behind its text.
pub record Draw : Type 0 where
  pub code : ℕ
  pub temperature : ℤ
  pub relhumidity : ℕ
  pub behind : Bytes

abbrev pub published : Draw → Bytes
published d = publish d.code d.temperature d.relhumidity d.behind

pub record IsDraw (d : Draw) : Type 0 where
  pub coded : d.code < 1000
  pub temperate : IsTemperature d.temperature
  pub humid : d.relhumidity ≤ 100

abbrev pub sum_from : ℤ → List Draw → ℤ
sum_from total [] = total
sum_from total (d ∷ draws) = sum_from (total +ℤ d.temperature) draws

-- A total of `count` temperatures.
abbrev pub IsTotal : ℕ → ℤ → Type 0
IsTotal count (pos n) = n ≤ 90 * count
IsTotal count (negsuc n) = n < 5 * count

total_temp-published :
    (total : ℤ) (draws : List Draw)
    → All IsDraw draws
    → total_temp total (map published draws) ≡ some (sum_from total draws)
unfolding total_temp
total_temp-published total [] a = refl
total_temp-published total (d ∷ draws) a =
    let read =
      (read_update-publish d.code d.relhumidity d.temperature d.behind a.0.coded a.0.temperate
        a.0.humid).1 in
    rw read (total_temp-published (total +ℤ d.temperature) draws a.1)

difference-IsTotal :
    (m n count : ℕ) → m ≤ 90 * count → n ≤ 5 * count → IsTotal count (difference m n)
difference-IsTotal m n count h k = elim (Bool-cases (ltb m n)) [
  | inl e ↦ rw e (omega (arith, ltb→lt m n e))
  | inr e ↦ rw e (omega (arith, ltb-false→le m n e))
]

length-map : {A B : Type 0} (f : A → B) (xs : List A) → length (map f xs) ≡ length xs
length-map f [] = refl
length-map f (x ∷ xs) = ap suc (length-map f xs)

+ℤ-IsTotal :
    (count : ℕ) (total t : ℤ)
    → IsTotal count total
    → IsTemperature t
    → IsTotal (suc count) (total +ℤ t)
+ℤ-IsTotal count (pos m) (pos n) h k = omega arith
+ℤ-IsTotal count (pos m) (negsuc n) h k =
    difference-IsTotal m (suc n) (suc count) (omega arith) (omega arith)
+ℤ-IsTotal count (negsuc m) (pos n) h k =
    difference-IsTotal n (suc m) (suc count) (omega arith) (omega arith)
+ℤ-IsTotal count (negsuc m) (negsuc n) h k = omega arith

sum_from-IsTotal :
    (count : ℕ) (total : ℤ) (draws : List Draw)
    → IsTotal count total
    → All IsDraw draws
    → IsTotal (count + length draws) (sum_from total draws)
sum_from-IsTotal count total [] h a = subst (λ n. IsTotal n total) (omega arith) h
sum_from-IsTotal count total (d ∷ draws) h a =
    let later =
      sum_from-IsTotal (suc count) (total +ℤ d.temperature) draws
        (+ℤ-IsTotal count total d.temperature h a.0.temperate) a.1 in
    subst (λ n. IsTotal n (sum_from (total +ℤ d.temperature) draws)) (omega arith) later

neg-IsTemperature : (n : ℕ) → n ≤ 5 → IsTemperature (neg n)
neg-IsTemperature zero h = omega arith
neg-IsTemperature (suc n) h = omega arith

quotient-IsTemperature :
    (count : ℕ) (total : ℤ) → 0 < count → IsTotal count total → IsTemperature (quotient total count)
quotient-IsTemperature count (pos m) p h =
    let below : m / count < 91 = (div-lt_iff_lt-mul p).1 (omega arith) in omega arith
quotient-IsTemperature count (negsuc m) p h =
    let below : suc m / count < 6 = (div-lt_iff_lt-mul p).1 (omega arith) in
    neg-IsTemperature (suc m / count) (omega arith)

-- The client reads every update that the server publishes, and the average that it prints is the sum
-- of the temperatures drawn, divided by their number and rounded towards zero; it lies between the
-- smallest and the largest temperature that the server draws.
pub average-published :
    (draws : List Draw)
    → All IsDraw draws
    → 0 < length draws
    → (t : ℤ) × (average (map published draws) ≡ some t)
      × (t ≡ quotient (sum_from (pos 0) draws) (length draws))
      × IsTemperature t
unfolding average
average-published draws a h =
    let total = sum_from (pos 0) draws in
    let bounded : IsTotal (length draws) total =
      subst (λ n. IsTotal n total) (omega arith)
        (sum_from-IsTotal 0 (pos 0) draws (omega arith) a) in
    (
      quotient total (length draws),
      rw (total_temp-published (pos 0) draws a) (rw (length-map published draws) refl),
      refl,
      quotient-IsTemperature (length draws) total h bounded,
    )
