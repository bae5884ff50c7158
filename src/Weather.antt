-- ===== src/Weather.antt =====
-- The weather updates: getting-the-message-out/wuserver.cpp and wuclient.cpp. A `long` holds every
-- total, and `istream >> int` reads a decimal number of 32 bits behind spaces.
pub mod Update
pub mod Average
use zguide_examples.Prelude.{
  ℕ, zero, suc, ◌+◌, ◌-◌, ◌/◌, ◌≡◌, Bool, true, false, Option, none, some, List, [], ◌∷◌, ◌++◌,
}
use zguide_examples.Prelude.Tests.{ltb, leb, ◌==◌, if◌then◌else◌}
use zguide_examples.Prelude.Lists.{length}
use zguide_examples.Prelude.Bytes.{Bytes, codes}
use zguide_examples.Freelance.Sequence.{Number, to_string, scan_number, in_range}
use zguide_examples.Text.Hex.{padded}

-- `negsuc n` is -(n + 1).
pub data ℤ : Type 0 where
  pos negsuc : ℕ → ℤ

abbrev pub neg : ℕ → ℤ
neg zero = pos 0
neg (suc n) = negsuc n

abbrev pub difference : ℕ → ℕ → ℤ
difference m n = if ltb m n then negsuc (n - m - 1) else pos (m - n)

infixl 30 ◌+ℤ◌
abbrev pub ◌+ℤ◌ : ℤ → ℤ → ℤ
pos m +ℤ pos n = pos (m + n)
pos m +ℤ negsuc n = difference m (suc n)
negsuc m +ℤ pos n = difference n (suc m)
negsuc m +ℤ negsuc n = negsuc (suc (m + n))

-- `/` of C++, which rounds towards 0.
abbrev pub quotient : ℤ → ℕ → ℤ
quotient (pos m) n = pos (m / n)
quotient (negsuc m) n = neg (suc m / n)

-- `%d`
abbrev pub decimal : ℤ → Bytes
decimal (pos n) = to_string n
decimal (negsuc n) = 45 ∷ to_string (suc n)

-- `%03d %d %d`
unfoldable pub update_text : ℕ → ℤ → ℕ → Bytes
update_text code temperature relhumidity =
    padded 3 (to_string code) ++ (32 ∷ (decimal temperature ++ (32 ∷ to_string relhumidity)))

-- `snprintf`: as much as fits, and a zero byte.
abbrev pub take : ℕ → Bytes → Bytes
take zero s = []
take (suc n) [] = []
take (suc n) (c ∷ s) = c ∷ take n s

abbrev pub message_size : ℕ
message_size = 20

-- The message that is published; the bytes behind the zero are what the memory held.
unfoldable pub publish : ℕ → ℤ → ℕ → Bytes → Bytes
publish code temperature relhumidity behind =
    take (message_size - 1) (update_text code temperature relhumidity) ++ (0 ∷ behind)

abbrev pub and_then {ℓ κ} : {A : Type ℓ} {B : Type κ} → Option A → (A → Option B) → Option B
and_then none f = none
and_then (some a) f = f a

-- The text up to the zero byte; `none` if there is none in the message.
unfoldable pub text_of : Bytes → Option Bytes
text_of [] = none
text_of (c ∷ s) =
    let rest = and_then (text_of s) λ t. some (c ∷ t) in if c == 0 then some [] else rest

abbrev pub value : Number → ℤ
value m = if m.negative then neg m.magnitude else pos m.magnitude

abbrev pub extracted : Option Number → Option (ℤ × Bytes)
extracted none = none
extracted (some m) = if in_range m then some (value m, m.behind) else none

-- `iss >> n`; `none`: the stream fails.
unfoldable pub extract : Bytes → Option (ℤ × Bytes)
extract s = extracted (scan_number s)

-- The three numbers of an update; `none` if one of them is not read.
unfoldable pub read_update : Bytes → Option (ℤ × ℤ × ℤ)
unfolding extract text_of
read_update update = and_then (text_of update) λ s.
    and_then (extract s)
      λ r₁. and_then (extract r₁.1) λ r₂. and_then (extract r₂.1) λ r₃. some (r₁.0, r₂.0, r₃.0)

-- The loop of the client: the total of the temperatures of the updates.
unfoldable pub total_temp : ℤ → List Bytes → Option ℤ
total_temp total [] = some total
total_temp total (update ∷ updates) =
    and_then (read_update update) λ r. total_temp (total +ℤ r.1) updates

-- What is printed behind the updates, a hundred of them.
unfoldable pub average : List Bytes → Option ℤ
average updates =
    and_then (total_temp (pos 0) updates) λ total. some (quotient total (length updates))
