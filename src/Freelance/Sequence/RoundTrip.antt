-- ===== src/Freelance/Sequence/RoundTrip.antt =====
-- Numbers as text: what is written is read back, by `stoseq` and by `stoi`.
pub mod Behind
use zguide_examples.Prelude.{
  ℕ, zero, suc, ◌+◌, ◌-◌, ◌*◌, ◌/◌, ◌%◌, ◌^◌, ◌<◌, ◌≤◌, ◌≡◌, ◌≢◌, refl, true, false, inl, inr, ◌∙◌,
  [], ◌∷◌, ◌++◌, arith, append_assoc, append-nil, ap, sym, some,
}
use zguide_examples.Prelude.Tests.{ltb, leb, Bool-cases, ltb→lt, lt→ltb, ltb-false→le, ltb-false}
use zguide_examples.Prelude.Lists.{replicate}
use zguide_examples.Prelude.Bytes.{Bytes}
use zguide_examples.Freelance.Sequence.{
  to_string_from, to_string, is_digit, is_space, read_digits, scan_number, strtol, stoi, minus_one,
  stoseq,
}

read_digits_digit :
    (n d : ℕ) (s : Bytes) → d < 10 → read_digits n ((48 + d) ∷ s) ≡ read_digits (n * 10 + d) s
unfolding read_digits
read_digits_digit n d s h =
    let e : n * 10 + (48 + d - 48) ≡ n * 10 + d = omega arith in
    let high : leb (48 + d) 57 ≡ true = ground arith in
    let low : leb 48 (48 + d) ≡ true = ground arith in rw (low, high) (ap (λ k. read_digits k s) e)

-- What is written is read back, with the digits behind it.
read_digits-to_string_from :
    (fuel m : ℕ) (rest : Bytes)
    → m < fuel
    → read_digits 0 (to_string_from fuel m ++ rest) ≡ read_digits m rest
unfolding to_string_from
read_digits-to_string_from zero m rest h = absurd (omega arith)
read_digits-to_string_from (suc fuel) m rest h = elim (Bool-cases (ltb m 10)) [
  | inl e ↦
      rw e (read_digits_digit 0 m rest (ltb→lt m 10 e) ∙ ap (λ k. read_digits k rest) (omega arith))
  | inr e ↦ rw e (
      rw (append_assoc (to_string_from fuel (m / 10)) ((48 + m % 10) ∷ []) rest) (
        read_digits-to_string_from fuel (m / 10) ((48 + m % 10) ∷ rest)
          (omega (arith, ltb-false→le m 10 e))
        ∙ read_digits_digit (m / 10) (m % 10) rest (omega arith)
        ∙ ap (λ k. read_digits k rest) (omega arith)))
]

to_string_from-head :
    (fuel m : ℕ)
    → m < fuel
    → (c : ℕ) × (s : Bytes) × (to_string_from fuel m ≡ c ∷ s) × (48 ≤ c) × (c ≤ 57)
unfolding to_string_from
to_string_from-head zero m h = absurd (omega arith)
to_string_from-head (suc fuel) m h = elim (Bool-cases (ltb m 10)) [
  | inl e ↦ (48 + m, [], rw e, omega arith, omega (arith, ltb→lt m 10 e))
  | inr e ↦
      let (c, s, p, low, high) =
        to_string_from-head fuel (m / 10) (omega (arith, ltb-false→le m 10 e)) in
      (c, s ++ (48 + m % 10) ∷ [], rw e (rw p), low, high)
]

-- A text that begins with a digit is read from its first character on.
scan_number_digit :
    (c : ℕ) (s : Bytes)
    → 48 ≤ c
    → c ≤ 57
    → scan_number (c ∷ s)
      ≡ some (record {
        negative = false;
        magnitude = (read_digits 0 (c ∷ s)).0;
        behind = (read_digits 0 (c ∷ s)).1;
      })
unfolding scan_number
scan_number_digit c s low high = ground arith

read_digits-nil : (n : ℕ) → read_digits n [] ≡ (n, [])
unfolding read_digits
read_digits-nil n = refl

scan_number-to_string :
    (n : ℕ)
    → scan_number (to_string n) ≡ some (record { negative = false; magnitude = n; behind = [] })
unfolding to_string
scan_number-to_string n =
    let (c, s, e, low, high) = to_string_from-head (suc n) n (omega arith) in
    let all : read_digits 0 (c ∷ s) ≡ (n, []) =
      ap (read_digits 0) (sym e ∙ sym (append-nil (to_string_from (suc n) n)))
      ∙ read_digits-to_string_from (suc n) n [] (omega arith)
      ∙ read_digits-nil n in
    rw (e, scan_number_digit c s low high) (rw all)

-- Every sequence number below 2 ^ 31 is read back as it was written, by `stoseq` and by `stoi`.
pub stoseq-to_string :
    (n : ℕ) → n < 2 ^ 31 → (stoseq (to_string n) ≡ n) × (stoi (to_string n) ≡ some n)
unfolding stoseq strtol stoi
stoseq-to_string n h =
    let small : ltb n (2 ^ 31) ≡ true = lt→ltb n (2 ^ 31) h in
    (rw (scan_number-to_string n) (rw small), rw (scan_number-to_string n) (rw small))

-- A text that begins with neither a digit, a sign, a space nor a zero byte is no number: -1.
pub stoseq_word :
    (c : ℕ) (s : Bytes)
    → is_digit c ≡ false
    → is_space c ≡ false
    → c ≢ 0
    → c ≢ 43
    → c ≢ 45
    → stoseq (c ∷ s) ≡ minus_one
unfolding stoseq strtol
stoseq_word c s d w z p m = ground arith

-- The text of a number begins with a digit.
pub to_string-digit : (n : ℕ) → (c : ℕ) × (s : Bytes) × (to_string n ≡ c ∷ s) × (48 ≤ c) × (c ≤ 57)
unfolding to_string
to_string-digit n = to_string_from-head (suc n) n (omega arith)

to_string_from-fuel : (f g n : ℕ) → n < f → n < g → to_string_from f n ≡ to_string_from g n
unfolding to_string_from
to_string_from-fuel zero g n h k = absurd (omega arith)
to_string_from-fuel (suc f) zero n h k = absurd (omega arith)
to_string_from-fuel (suc f) (suc g) n h k = elim (Bool-cases (ltb n 10)) [
  | inl e ↦ rw e
  | inr e ↦
      let le = ltb-false→le n 10 e in
      rw e (
        ap (λ s. s ++ (48 + n % 10) ∷ [])
          (to_string_from-fuel f g (n / 10) (omega arith) (omega arith)))
]

-- A digit more at the end.
pub to_string-digit_behind :
    (n d : ℕ) → 0 < n → d < 10 → to_string (n * 10 + d) ≡ to_string n ++ (48 + d) ∷ []
unfolding to_string to_string_from
to_string-digit_behind n d p h =
    let long : ltb (n * 10 + d) 10 ≡ false = ltb-false (n * 10 + d) 10 (omega arith) in
    let tens : (n * 10 + d) / 10 ≡ n = omega arith in
    let ones : (n * 10 + d) % 10 ≡ d = omega arith in
    rw long (
      rw tens (
        rw ones (
          ap (λ s. s ++ (48 + d) ∷ [])
            (to_string_from-fuel (n * 10 + d) (suc n) n (omega arith) (omega arith)))))

pub to_string-injective : (m n : ℕ) → m < 2 ^ 31 → n < 2 ^ 31 → to_string m ≡ to_string n → m ≡ n
to_string-injective m n h k e =
    ground (arith, (stoseq-to_string m h).1, (stoseq-to_string n k).1, ap stoi e)

read_digits-zeros : (n k : ℕ) → (read_digits n (replicate k 0)).0 ≡ n
unfolding read_digits
read_digits-zeros n zero = refl
read_digits-zeros n (suc k) = refl

strtol_digit :
    (c : ℕ) (s : Bytes)
    → 48 ≤ c
    → c ≤ 57
    → (read_digits 0 (c ∷ s)).0 < 2 ^ 31
    → (strtol (c ∷ s)).0 ≡ (read_digits 0 (c ∷ s)).0
unfolding strtol
strtol_digit c s low high h =
    rw (scan_number_digit c s low high) (rw (lt→ltb (read_digits 0 (c ∷ s)).0 (2 ^ 31) h))

-- Zero bytes behind a number do not matter.
pub strtol-padded : (n k : ℕ) → n < 2 ^ 31 → (strtol (to_string n ++ replicate k 0)).0 ≡ n
unfolding to_string
strtol-padded n k h =
    let zeros : Bytes = replicate k 0 in
    let (c, s, e, low, high) = to_string_from-head (suc n) n (omega arith) in
    let whole : to_string n ++ zeros ≡ c ∷ (s ++ zeros) = ap (λ t. t ++ zeros) e in
    let number : (read_digits 0 (c ∷ (s ++ zeros))).0 ≡ n =
      ap (λ t. (read_digits 0 t).0) (sym whole)
      ∙ ap (λ p. p.0) (read_digits-to_string_from (suc n) n zeros (omega arith))
      ∙ read_digits-zeros n k in
    ap (λ t. (strtol t).0) whole
    ∙ strtol_digit c (s ++ zeros) low high (omega (arith, number))
    ∙ number
