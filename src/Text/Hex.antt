-- ===== src/Text/Hex.antt =====
-- `%X` of `sprintf` and `std::hex` of a stream, with a width that is filled up by zeros.
use zguide_examples.Prelude.{
  refl, ℕ, zero, suc, ◌+◌, ◌-◌, ◌*◌, ◌/◌, ◌%◌, ◌^◌, ◌<◌, ◌≤◌, ◌≡◌, inl, inr, [], ◌∷◌, ◌++◌, arith,
  false,
}
use zguide_examples.Prelude.Tests.{ltb, ltb-false, lt→ltb, Bool-cases, if◌then◌else◌, ltb→lt}
use zguide_examples.Prelude.Lists.{length, length-append, replicate, All, All-append}
use zguide_examples.Prelude.Bytes.{Bytes}

-- `letter` is the code of the digit ten: that of `a` or of `A`.
abbrev pub hex_digit : ℕ → ℕ → ℕ
hex_digit letter d = if ltb d 10 then 48 + d else letter + (d - 10)

-- The fuel is at least the number of digits.
hex_from : ℕ → ℕ → ℕ → Bytes
hex_from letter zero n = []
hex_from letter (suc fuel) n =
    let rest = hex_from letter fuel (n / 16) in
    if ltb n 16 then hex_digit letter n ∷ [] else rest ++ hex_digit letter (n % 16) ∷ []

unfoldable pub to_hex : ℕ → ℕ → Bytes
unfolding hex_from
to_hex letter n = hex_from letter (suc n) n

unfoldable pub padded : ℕ → Bytes → Bytes
padded width s = replicate (width - length s) 48 ++ s

length-hex_from : (letter f k n : ℕ) → n < 16 ^ k * 16 → length (hex_from letter f n) ≤ suc k
unfolding hex_from
length-hex_from letter zero k n h = omega arith
length-hex_from letter (suc f) zero n h = rw (lt→ltb n 16 (omega arith)) (omega arith)
length-hex_from letter (suc f) (suc k) n h =
    let front : length (hex_from letter f (n / 16)) ≤ suc k =
      length-hex_from letter f k (n / 16) (omega arith) in
    let snoc = length-append (hex_from letter f (n / 16)) (hex_digit letter (n % 16) ∷ []) in
    elim (Bool-cases (ltb n 16)) [ inl e ↦ rw e (omega arith) | inr e ↦ rw e (omega (arith, snoc)) ]

hex_power_pos : (k : ℕ) → 1 ≤ 16 ^ k
hex_power_pos zero = omega arith
hex_power_pos (suc k) = omega (arith, hex_power_pos k)

length-hex_from_min : (letter f k n : ℕ) → 16 ^ k ≤ n → n < f → suc k ≤ length (hex_from letter f n)
unfolding hex_from
length-hex_from_min letter zero k n h l = absurd (omega arith)
length-hex_from_min letter (suc f) zero n h l =
    let snoc = length-append (hex_from letter f (n / 16)) (hex_digit letter (n % 16) ∷ []) in
    elim (Bool-cases (ltb n 16)) [ inl e ↦ rw e (omega arith) | inr e ↦ rw e (omega (arith, snoc)) ]
length-hex_from_min letter (suc f) (suc k) n h l =
    let some_digit : 1 ≤ 16 ^ k = hex_power_pos k in
    let long : ltb n 16 ≡ false = ltb-false n 16 (omega arith) in
    let front : suc k ≤ length (hex_from letter f (n / 16)) =
      length-hex_from_min letter f k (n / 16) (omega arith) (omega arith) in
    let snoc = length-append (hex_from letter f (n / 16)) (hex_digit letter (n % 16) ∷ []) in
    rw long (omega (arith, snoc, front))

pub length-to_hex : (letter k n : ℕ) → n < 16 ^ k * 16 → length (to_hex letter n) ≤ suc k
unfolding to_hex
length-to_hex letter k n h = length-hex_from letter (suc n) k n h

pub length-to_hex_min : (letter k n : ℕ) → 16 ^ k ≤ n → suc k ≤ length (to_hex letter n)
unfolding to_hex
length-to_hex_min letter k n h = length-hex_from_min letter (suc n) k n h (omega arith)

length-replicate : (n c : ℕ) → length (replicate n c) ≡ n
length-replicate zero c = refl
length-replicate (suc n) c = omega (arith, length-replicate n c)

pub length-padded_short :
    (width : ℕ) (s : Bytes) → length s ≤ width → length (padded width s) ≡ width
unfolding padded
length-padded_short width s h = omega (
  arith,
  length-append (replicate (width - length s) 48) s,
  length-replicate (width - length s) 48,
)

pub length-padded_long :
    (width : ℕ) (s : Bytes) → width ≤ length s → length (padded width s) ≡ length s
unfolding padded
length-padded_long width s h = omega (
  arith,
  length-append (replicate (width - length s) 48) s,
  length-replicate (width - length s) 48,
)

hex_digit-IsHex : (d : ℕ) → d < 16 → hex_digit 65 d ≤ 70
hex_digit-IsHex d h = ground arith

hex_from-IsHex : (f n : ℕ) → All (λ (c : ℕ). c ≤ 70) (hex_from 65 f n)
unfolding hex_from
hex_from-IsHex zero n = tt
hex_from-IsHex (suc f) n = elim (Bool-cases (ltb n 16)) [
  | inl e ↦ rw e (hex_digit-IsHex n (ltb→lt n 16 e), tt)
  | inr e ↦ rw e (
      All-append (λ c. c ≤ 70) (hex_from 65 f (n / 16)) (hex_digit 65 (n % 16) ∷ [])
        (hex_from-IsHex f (n / 16)) (hex_digit-IsHex (n % 16) (omega arith), tt))
]

-- No digit is above `F`.
pub to_hex-IsHex : (n : ℕ) → All (λ c. c ≤ 70) (to_hex 65 n)
unfolding to_hex
to_hex-IsHex n = hex_from-IsHex (suc n) n
