-- ===== src/CommandLine/Readers/Filter.antt =====
-- `setsockopt(ZMQ_SUBSCRIBE, pub_filter.c_str(), 3)` of mspoller.cpp and msreader.cpp.
use zguide_examples.LastValue.Topics.{is_prefix}
use zguide_examples.Text.Hex.{padded, length-padded_short}
use zguide_examples.Weather.{ℤ, pos, extract, update_text}
use zguide_examples.Weather.Update.{extract-padded, update_text-IsText}
use zguide_examples.Freelance.Sequence.{to_string, starts_with_digit}
use zguide_examples.Freelance.Sequence.Text.{to_string-length_below}
use zguide_examples.Prelude.{
  ℕ, zero, suc, ◌<◌, ◌≡◌, refl, false, some, [], ◌∷◌, ◌++◌, arith, ap, sym, ◌&&◌, ◌∙◌, inl,
  append-nil, inr, ◌≢◌,
}
use zguide_examples.Prelude.Tests.{◌==◌, Bool-cases, ==_iff}
use zguide_examples.Prelude.Lists.{length, All}
use zguide_examples.Prelude.Bytes.{Bytes, same, same_iff}
use zguide_examples.Prelude.Result.{Result, ok, fault, overflow, ◌>>=◌}

-- A number of bytes from an array.
unfoldable pub read_bytes : ℕ → Bytes → Result Bytes
read_bytes zero s = ok []
read_bytes (suc n) [] = fault overflow
read_bytes (suc n) (c ∷ s) = do rest ← read_bytes n s; ok (c ∷ rest)

-- Three bytes of the text and the zero byte behind it.
unfoldable pub subscription : Bytes → Result Bytes
unfolding read_bytes
subscription pub_filter = read_bytes 3 (pub_filter ++ 0 ∷ [])

-- Bytes of the length of what the message begins with.
pub is_prefix-same : (s p rest : Bytes) → length s ≡ length p → is_prefix s (p ++ rest) ≡ same s p
unfolding is_prefix same
is_prefix-same [] [] rest e = refl
is_prefix-same [] (c ∷ p) rest e = absurd (omega arith)
is_prefix-same (c ∷ s) [] rest e = absurd (omega arith)
is_prefix-same (c ∷ s) (d ∷ p) rest e =
    ap (λ b. c == d && b) (is_prefix-same s p rest (omega arith))

pub length-code : (n : ℕ) → n < 1000 → length (padded 3 (to_string n)) ≡ 3
length-code n h = length-padded_short 3 (to_string n) (to_string-length_below 2 n (omega arith))

code_of : (n : ℕ) → n < 1000 → extract (padded 3 (to_string n)) ≡ some (pos n, [])
unfolding starts_with_digit
code_of n h =
    ap extract (sym (append-nil (padded 3 (to_string n))))
    ∙ extract-padded 3 n [] (omega arith) refl

pub same-code :
    (n m : ℕ)
    → n < 1000
    → m < 1000
    → same (padded 3 (to_string n)) (padded 3 (to_string m)) ≡ (n == m)
same-code n m h k = elim (Bool-cases (n == m)) [
  | inl e ↦
      rw (e, ◌==◌)
        ((same_iff (padded 3 (to_string n)) (padded 3 (to_string m))).1
          (ap (λ c. padded 3 (to_string c)) ((==_iff n m).0 e)))
  | inr e ↦ elim (Bool-cases (same (padded 3 (to_string n)) (padded 3 (to_string m)))) [
    | inl f ↦
        let read : some (pos n, []) ≡ some (pos m, []) =
          sym (code_of n h) ∙ ap extract ((same_iff _ _).0 f) ∙ code_of m k in
        absurd (ground (arith, e, read))
    | inr f ↦ f ∙ sym e
  ]
]

subscription-three : (s : Bytes) → length s ≡ 3 → subscription s ≡ ok s
unfolding subscription read_bytes
subscription-three [] e = absurd (omega arith)
subscription-three (a ∷ []) e = absurd (omega arith)
subscription-three (a ∷ b ∷ []) e = absurd (omega arith)
subscription-three (a ∷ b ∷ c ∷ []) e = refl
subscription-three (a ∷ b ∷ c ∷ d ∷ s) e = absurd (omega arith)

zero_unmatched : (a b : ℕ) (u : Bytes) → All (λ c. c ≢ 0) u → is_prefix (a ∷ b ∷ 0 ∷ []) u ≡ false
unfolding is_prefix
zero_unmatched a b [] t = refl
zero_unmatched a b (c ∷ []) t = ground arith
zero_unmatched a b (c ∷ d ∷ []) t = ground arith
zero_unmatched a b (c ∷ d ∷ e ∷ u) t = ground (arith, t.1.1.0)

is_prefix-code :
    (n m : ℕ) (temperature : ℤ) (relhumidity : ℕ)
    → n < 1000
    → m < 1000
    → is_prefix (padded 3 (to_string n)) (update_text m temperature relhumidity) ≡ (n == m)
unfolding update_text
is_prefix-code n m temperature relhumidity h k =
    is_prefix-same (padded 3 (to_string n)) (padded 3 (to_string m)) _
      (length-code n h ∙ sym (length-code m k))
    ∙ same-code n m h k

-- With a filter of the three digits of a code, each of the two programs subscribes to these, and the
-- socket delivers the updates of wuserver for that code and no others. With a filter of two bytes it
-- subscribes to three, of which the last is zero, and no update is ever delivered. With fewer it reads
-- past the end of the text.
pub filter_exact :
    (n m a b : ℕ) (temperature : ℤ) (relhumidity : ℕ)
    → n < 1000
    → m < 1000
    → ((s : Bytes) × (subscription (padded 3 (to_string n)) ≡ ok s)
        × (is_prefix s (update_text m temperature relhumidity) ≡ (n == m)))
      × ((s : Bytes) × (subscription (a ∷ b ∷ []) ≡ ok s)
          × (is_prefix s (update_text m temperature relhumidity) ≡ false))
      × (subscription (a ∷ []) ≡ fault overflow)
      × (subscription [] ≡ fault overflow)
unfolding subscription read_bytes
filter_exact n m a b temperature relhumidity h k =
    let text = update_text-IsText m relhumidity temperature in
    (
      (
        padded 3 (to_string n),
        subscription-three (padded 3 (to_string n)) (length-code n h),
        is_prefix-code n m temperature relhumidity h k,
      ),
      (a ∷ b ∷ 0 ∷ [], refl, zero_unmatched a b (update_text m temperature relhumidity) text),
      refl,
      refl,
    )
