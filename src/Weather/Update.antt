-- ===== src/Weather/Update.antt =====
-- wuserver.cpp and wuclient.cpp: an update that is published is read as it was drawn.
use zguide_examples.Prelude.{
  ℕ, zero, suc, ◌-◌, ◌^◌, ◌<◌, ◌≤◌, ◌≡◌, ◌≢◌, refl, false, ap, some, [], ◌∷◌, ◌++◌, arith,
  append_assoc, append-nil,
}
use zguide_examples.Prelude.Tests.{lt→ltb, le→leb, ◌==◌}
use zguide_examples.Prelude.Lists.{length, length-append, replicate, All, All-append}
use zguide_examples.Prelude.Bytes.{Bytes}
use zguide_examples.Freelance.Sequence.{to_string, scan_number, starts_with_digit}
use zguide_examples.Freelance.Sequence.Text.{to_string-IsText, to_string-length_below}
use zguide_examples.Freelance.Sequence.RoundTrip.Behind.{scan_number-behind, scan_number_space}
use zguide_examples.Text.Hex.{padded, length-padded_short}
use zguide_examples.Weather.{
  ℤ, pos, negsuc, decimal, update_text, publish, text_of, extract, read_update, take, message_size,
  extracted,
}

-- A number is in the range of `int` by its digits.
abbrev pub IsInt : ℤ → Type 0
IsInt (pos n) = n < 2 ^ 31
IsInt (negsuc n) = n < 2 ^ 31

extract-decimal :
    (t : ℤ) (rest : Bytes)
    → IsInt t
    → starts_with_digit rest ≡ false
    → extract (decimal t ++ rest) ≡ some (t, rest)
unfolding extract
extract-decimal (pos n) rest r h =
    rw (scan_number-behind 0 n rest h).0 (rw (lt→ltb n (2 ^ 31) r) refl)
extract-decimal (negsuc n) rest r h =
    rw (scan_number-behind 0 (suc n) rest h).1 (rw (le→leb (suc n) (2 ^ 31) (omega arith)) refl)

pub extract-padded :
    (width n : ℕ) (rest : Bytes)
    → n < 2 ^ 31
    → starts_with_digit rest ≡ false
    → extract (padded width (to_string n) ++ rest) ≡ some (pos n, rest)
unfolding extract padded
extract-padded width n rest r h =
    let zeros : Bytes = replicate (width - length (to_string n)) 48 in
    rw (append_assoc zeros (to_string n) rest) (
      rw (scan_number-behind (width - length (to_string n)) n rest h).0
        (rw (lt→ltb n (2 ^ 31) r) refl))

extract_space : (s : Bytes) → extract (32 ∷ s) ≡ extract s
unfolding extract
extract_space s = ap extracted (scan_number_space s)

pub take_all : (n : ℕ) (s : Bytes) → length s ≤ n → take n s ≡ s
take_all zero [] h = refl
take_all zero (c ∷ s) h = absurd (omega arith)
take_all (suc n) [] h = refl
take_all (suc n) (c ∷ s) h = ap (λ t. c ∷ t) (take_all n s (omega arith))

text_of_end : (s behind : Bytes) → All (λ c. c ≢ 0) s → text_of (s ++ (0 ∷ behind)) ≡ some s
unfolding text_of
text_of_end [] behind a = refl
text_of_end (c ∷ s) behind a =
    let other : (c == 0) ≡ false = ground (arith, a.0) in
    rw other (rw (text_of_end s behind a.1) refl)

decimal-IsText : (t : ℤ) → All (λ c. c ≢ 0) (decimal t)
decimal-IsText (pos n) = to_string-IsText n
decimal-IsText (negsuc n) = ((λ z. absurd (omega (arith, z))), to_string-IsText (suc n))

zeros-IsText : (k : ℕ) → All (λ (c : ℕ). c ≢ 0) (replicate k 48)
zeros-IsText zero = tt
zeros-IsText (suc k) = ((λ z. absurd (omega (arith, z))), zeros-IsText k)

pub update_text-IsText :
    (code relhumidity : ℕ) (t : ℤ) → All (λ c. c ≢ 0) (update_text code t relhumidity)
unfolding update_text padded
update_text-IsText code h t =
    let space : 32 ≢ 0 = λ z. absurd (omega (arith, z)) in
    let Text = λ (c : ℕ). c ≢ 0 in
    All-append Text (padded 3 (to_string code)) (32 ∷ (decimal t ++ (32 ∷ to_string h)))
      (All-append Text (replicate (3 - length (to_string code)) 48) (to_string code)
        (zeros-IsText (3 - length (to_string code))) (to_string-IsText code))
      (
        space,
        All-append Text (decimal t) (32 ∷ to_string h) (decimal-IsText t)
            (space, to_string-IsText h),
      )

-- What `temp_distr` draws.
abbrev pub IsTemperature : ℤ → Type 0
IsTemperature (pos n) = n ≤ 90
IsTemperature (negsuc n) = n ≤ 4

length-decimal : (t : ℤ) → IsTemperature t → length (decimal t) ≤ 2
length-decimal (pos n) h = to_string-length_below 1 n (omega arith)
length-decimal (negsuc n) h = omega (arith, to_string-length_below 0 (suc n) (omega arith))

pub length-update_text :
    (code relhumidity : ℕ) (t : ℤ)
    → code < 1000
    → IsTemperature t
    → relhumidity ≤ 100
    → length (update_text code t relhumidity) < message_size
unfolding update_text
length-update_text code h t c v w =
    let humidity : Bytes = 32 ∷ to_string h in
    omega (
      arith,
      length-append (padded 3 (to_string code)) (32 ∷ (decimal t ++ humidity)),
      length-append (decimal t) humidity,
      length-decimal t v,
      length-padded_short 3 (to_string code) (to_string-length_below 2 code (omega arith)),
      to_string-length_below 2 h (omega arith),
    )

IsTemperature-IsInt : (t : ℤ) → IsTemperature t → IsInt t
IsTemperature-IsInt (pos n) h = omega arith
IsTemperature-IsInt (negsuc n) h = omega arith

extract_last : (n : ℕ) → n < 2 ^ 31 → extract (to_string n) ≡ some (pos n, [])
unfolding starts_with_digit
extract_last n h = rw (append-nil (to_string n)) at (extract-decimal (pos n) [] h refl)

-- Every draw of the server fits the message with its zero byte, and the client reads from the message
-- the code, the temperature and the humidity that were drawn, whatever bytes are behind the text.
pub read_update-publish :
    (code relhumidity : ℕ) (t : ℤ) (behind : Bytes)
    → code < 1000
    → IsTemperature t
    → relhumidity ≤ 100
    → (length (update_text code t relhumidity) < message_size)
      × (read_update (publish code t relhumidity behind) ≡ some (pos code, t, pos relhumidity))
unfolding read_update publish starts_with_digit scan_number update_text
read_update-publish code h t behind c v w =
    let s = update_text code t h in
    let fits = length-update_text code h t c v w in
    let text : text_of (take (message_size - 1) s ++ (0 ∷ behind)) ≡ some s =
      rw (take_all 19 s (omega (arith, fits)))
        (text_of_end s behind (update_text-IsText code h t)) in
    let humidity : Bytes = 32 ∷ to_string h in
    (
      fits,
      rw text (
          rw (extract-padded 3 code (32 ∷ (decimal t ++ humidity)) (omega arith) refl) (
            rw (extract-decimal t humidity (IsTemperature-IsInt t v) refl)
              (rw (extract_last h (omega arith)) refl))),
    )
