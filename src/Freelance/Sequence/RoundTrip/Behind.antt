-- ===== src/Freelance/Sequence/RoundTrip/Behind.antt =====
-- A number with something behind it, zeros or a sign in front: what is written is read back.
use zguide_examples.Prelude.{
  ℕ, zero, suc, ◌≤◌, ◌≡◌, refl, true, false, ap, sym, ◌∙◌, some, [], ◌∷◌, ◌++◌, arith,
}
use zguide_examples.Prelude.Lists.{replicate}
use zguide_examples.Prelude.Bytes.{Bytes}
use zguide_examples.Freelance.Sequence.{to_string, read_digits, starts_with_digit, scan_number}
use zguide_examples.Freelance.Sequence.RoundTrip.{
  to_string-digit, read_digits-to_string_from, scan_number_digit,
}

read_digits_end :
    (n : ℕ) (rest : Bytes) → starts_with_digit rest ≡ false → read_digits n rest ≡ (n, rest)
unfolding read_digits starts_with_digit
read_digits_end n [] h = refl
read_digits_end n (c ∷ s) h = ground arith

read_digits_zeros : (k : ℕ) (s : Bytes) → read_digits 0 (replicate k 48 ++ s) ≡ read_digits 0 s
unfolding read_digits
read_digits_zeros zero s = refl
read_digits_zeros (suc k) s = read_digits_zeros k s

-- A text that begins with a digit, and what its digits are worth.
record Digits (s : Bytes) (n : ℕ) (rest : Bytes) : Type 0 where
  first : ℕ
  others : Bytes
  text : s ≡ first ∷ others
  low : 48 ≤ first
  high : first ≤ 57
  worth : read_digits 0 s ≡ (n, rest)

to_string-Digits :
    (n : ℕ) (rest : Bytes) → starts_with_digit rest ≡ false → Digits (to_string n ++ rest) n rest
unfolding to_string
to_string-Digits n rest h =
    let (c, s, e, l, g) = to_string-digit n in
    record {
      first = c;
      others = s ++ rest;
      text = ap (λ t. t ++ rest) e;
      low = l;
      high = g;
      worth = read_digits-to_string_from (suc n) n rest (omega arith) ∙ read_digits_end n rest h;
    }

zeros-Digits : (k n : ℕ) (s rest : Bytes) → Digits s n rest → Digits (replicate k 48 ++ s) n rest
zeros-Digits zero n s rest d = d
zeros-Digits (suc k) n s rest d = record {
  first = 48;
  others = replicate k 48 ++ s;
  text = refl;
  low = omega arith;
  high = omega arith;
  worth = read_digits_zeros (suc k) s ∙ d.worth;
}

scan_number_minus :
    (c : ℕ) (s : Bytes)
    → 48 ≤ c
    → c ≤ 57
    → scan_number (45 ∷ c ∷ s)
      ≡ some (record {
        negative = true;
        magnitude = (read_digits 0 (c ∷ s)).0;
        behind = (read_digits 0 (c ∷ s)).1;
      })
unfolding scan_number
scan_number_minus c s low high = ground arith

-- A space in front is skipped.
pub scan_number_space : (s : Bytes) → scan_number (32 ∷ s) ≡ scan_number s
unfolding scan_number
scan_number_space s = refl

scan_number-Digits :
    (s : Bytes) (n : ℕ) (rest : Bytes)
    → Digits s n rest
    → (scan_number s ≡ some (record { negative = false; magnitude = n; behind = rest }))
      × (scan_number (45 ∷ s) ≡ some (record { negative = true; magnitude = n; behind = rest }))
scan_number-Digits s n rest d = (plain, negated)
  where
    plain : scan_number s ≡ some (record { negative = false; magnitude = n; behind = rest })
    plain =
        rw d.text
          (rw (scan_number_digit d.first d.others d.low d.high) (rw (sym d.text) (rw d.worth refl)))

    negated : scan_number (45 ∷ s) ≡ some (record { negative = true; magnitude = n; behind = rest })
    negated =
        rw d.text
          (rw (scan_number_minus d.first d.others d.low d.high) (rw (sym d.text) (rw d.worth refl)))

-- A number is read back with its zeros in front and with a minus, up to what is behind it.
pub scan_number-behind :
    (k n : ℕ) (rest : Bytes)
    → starts_with_digit rest ≡ false
    → (scan_number (replicate k 48 ++ (to_string n ++ rest))
        ≡ some (record { negative = false; magnitude = n; behind = rest }))
      × (scan_number (45 ∷ (replicate k 48 ++ (to_string n ++ rest)))
          ≡ some (record { negative = true; magnitude = n; behind = rest }))
scan_number-behind k n rest h =
    let s = to_string n ++ rest in
    scan_number-Digits (replicate k 48 ++ s) n rest
      (zeros-Digits k n s rest (to_string-Digits n rest h))
