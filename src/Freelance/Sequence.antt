-- ===== src/Freelance/Sequence.antt =====
-- Sequence numbers as text: `std::to_string` of an unsigned number, and `stoseq` of
-- model-three-complex-and-nasty/flcliagent.hpp, over the `strtol` of the C library with a 32-bit
-- `long`. An `int` is its bit pattern, so -1 is 2 ^ 32 - 1, as the comparison with `unsigned` has it.
pub mod RoundTrip
pub mod Text
use zguide_examples.Prelude.{
  ℕ, zero, suc, ◌+◌, ◌-◌, ◌*◌, ◌/◌, ◌%◌, ◌^◌, ◌<◌, ◌≤◌, ◌≡◌, ◌≢◌, refl, Bool, true, false, ◌&&◌,
  ◌||◌, inl, inr, ◌∙◌, [], ◌∷◌, ◌++◌, arith, append_assoc, append-nil, ap, sym, some, Option, none,
}
use zguide_examples.Prelude.Tests.{
  ltb, leb, ◌==◌, if◌then◌else◌, Bool-cases, ltb→lt, lt→ltb, ltb-false→le, ltb-false,
}
use zguide_examples.Prelude.Bytes.{Bytes}

-- The fuel is at least the number of digits.
to_string_from : ℕ → ℕ → Bytes
to_string_from zero n = []
to_string_from (suc fuel) n =
    let rest = to_string_from fuel (n / 10) in
    if ltb n 10 then (48 + n) ∷ [] else rest ++ (48 + n % 10) ∷ []

unfoldable pub to_string : ℕ → Bytes
unfolding to_string_from
to_string n = to_string_from (suc n) n

abbrev pub is_digit : ℕ → Bool
is_digit c = leb 48 c && leb c 57

abbrev pub is_space : ℕ → Bool
is_space c = c == 32 || (leb 9 c && leb c 13)

skip_space : Bytes → Bytes
skip_space [] = []
skip_space (c ∷ s) = let rest = skip_space s in if is_space c then rest else c ∷ s

-- The value of the digits at the front, on top of `n`, and what is behind them.
read_digits : ℕ → Bytes → ℕ × Bytes
read_digits n [] = (n, [])
read_digits n (c ∷ s) =
    let rest = read_digits (n * 10 + (c - 48)) s in if is_digit c then rest else (n, c ∷ s)

unfoldable pub starts_with_digit : Bytes → Bool
starts_with_digit [] = false
starts_with_digit (c ∷ _) = is_digit c

-- A number at the front of a text: whether it is negative, its digits, and what is behind them.
pub record Number : Type 0 where
  pub negative : Bool
  pub magnitude : ℕ
  pub behind : Bytes

digits : Bool → Bytes → Option Number
unfolding read_digits starts_with_digit
digits negative s =
    if starts_with_digit s
    then (let (n, rest) = read_digits 0 s in
        some (record { negative = negative; magnitude = n; behind = rest }))
    else none

signed : Bytes → Option Number
unfolding digits
signed [] = none
signed (c ∷ s) =
    if c == 45 then digits true s else if c == 43 then digits false s else digits false (c ∷ s)

-- Behind spaces and a sign; `none` if no digit is there.
unfoldable pub scan_number : Bytes → Option Number
unfolding signed skip_space
scan_number s = signed (skip_space s)

abbrev pub in_range : Number → Bool
in_range m = if m.negative then leb m.magnitude (2 ^ 31) else ltb m.magnitude (2 ^ 31)

abbrev pub pattern_of : Number → ℕ
pattern_of m = if m.negative then (2 ^ 32 - m.magnitude) % 2 ^ 32 else m.magnitude

-- Out of range the result is the nearest number.
abbrev saturated : Number → ℕ
saturated m = if in_range m then pattern_of m else if m.negative then 2 ^ 31 else 2 ^ 31 - 1

-- With no number, the result is 0 and `end` is the whole text.
abbrev converted : Bytes → Option Number → ℕ × Bytes
converted whole none = (0, whole)
converted whole (some m) = (saturated m, m.behind)

unfoldable pub strtol : Bytes → ℕ × Bytes
unfolding scan_number
strtol s = converted s (scan_number s)

abbrev ranged : Option Number → Option ℕ
ranged none = none
ranged (some m) = if in_range m then some (pattern_of m) else none

-- `std::stoi`; `none` if it throws.
unfoldable pub stoi : Bytes → Option ℕ
unfolding scan_number
stoi s = ranged (scan_number s)

-- `*end == 0`: the text ends there, or holds a zero byte.
abbrev at_end : Bytes → Bool
at_end [] = true
at_end (c ∷ _) = c == 0

abbrev pub minus_one : ℕ
minus_one = 2 ^ 32 - 1

unfoldable pub stoseq : Bytes → ℕ
unfolding strtol
stoseq s = let (seq_no, end) = strtol s in if at_end end then seq_no else minus_one
