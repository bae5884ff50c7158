-- ===== src/Text/Dump.antt =====
-- The dump of a message: `print` of async-client-server-pattern/asyncsrv.cpp and `print_parts` of
-- identities-and-addresses/identity.cpp. A `char` is signed and of eight bits; an `unsigned int` has
-- 32 bits.
use zguide_examples.Prelude.{
  ℕ, ◌+◌, ◌-◌, ◌^◌, ◌<◌, ◌≤◌, ◌≡◌, refl, Bool, true, false, not, ◌||◌, inl, inr, List, [], ◌∷◌,
  ◌++◌, arith, ◌∙◌,
}
use zguide_examples.Prelude.Tests.{ltb, leb, if◌then◌else◌, Bool-cases, ltb→lt, ltb-false→le}
use zguide_examples.Prelude.Lists.{length, length-append, All}
use zguide_examples.Prelude.Bytes.{Bytes, codes}
use zguide_examples.Zmq.Frames.{Message}
use zguide_examples.Freelance.Sequence.{to_string}
use zguide_examples.Text.Hex.{
  to_hex, padded, length-padded_short, length-to_hex, length-to_hex_min, length-padded_long,
}

-- `ch < 32 || ch > 127`: a byte from 128 on is a negative `char`.
abbrev pub is_control : ℕ → Bool
is_control ch = leb 128 ch || ltb ch 32 || ltb 127 ch

unfoldable pub is_text : Bytes → Bool
is_text [] = true
is_text (ch ∷ content) = let rest = is_text content in if is_control ch then false else rest

-- `static_cast<unsigned int>(ch)`
abbrev pub unsigned_of : ℕ → ℕ
unsigned_of ch = if ltb ch 128 then ch else ch + (2 ^ 32 - 256)

-- `setfill('0') << setw(2) << hex`; `separator` is what follows each number.
unfoldable pub hex_chars : Bytes → Bytes → Bytes
hex_chars separator [] = []
hex_chars separator (ch ∷ content) =
    padded 2 (to_hex 97 (unsigned_of ch)) ++ separator ++ hex_chars separator content

-- The size in three digits, of the base that the stream is in.
unfoldable pub size_text : Bool → ℕ → Bytes
size_text base_hex size = padded 3 (if base_hex then to_hex 97 size else to_string size)

-- The line for a part, behind the names that `print` puts in front, and whether the stream is left in base sixteen: `hex` stays.
unfoldable pub dump_part : Bytes → Bool → Bytes → Bytes × Bool
dump_part separator base_hex content =
    let text = is_text content in
    (
      codes "["
          ++ size_text base_hex (length content)
          ++ codes "] "
          ++ (if text then content else hex_chars separator content),
      base_hex || not text,
    )

-- The lines for the parts of a message.
unfoldable pub dump : Bytes → Bool → Message → List Bytes × Bool
unfolding dump_part
dump separator base_hex [] = ([], base_hex)
dump separator base_hex (content ∷ parts) =
    let (line, base) = dump_part separator base_hex content in
    let (lines, left) = dump separator base parts in (line ∷ lines, left)

-- How many characters a byte takes.
abbrev pub width : ℕ → ℕ
width ch = if ltb ch 128 then 2 else 8

abbrev pub widths : Bytes → Bytes → ℕ
widths separator [] = 0
widths separator (ch ∷ content) = width ch + length separator + widths separator content

length-cell : (ch : ℕ) → ch < 256 → length (padded 2 (to_hex 97 (unsigned_of ch))) ≡ width ch
length-cell ch h = elim (Bool-cases (ltb ch 128)) [
  | inl e ↦ rw e (
      length-padded_short 2 (to_hex 97 ch) (length-to_hex 97 1 ch (omega (arith, ltb→lt ch 128 e))))
  | inr e ↦
      let n = ch + (2 ^ 32 - 256) in
      let high = ltb-false→le ch 128 e in
      let at_least : 8 ≤ length (to_hex 97 n) = length-to_hex_min 97 7 n (omega (arith, high)) in
      let at_most : length (to_hex 97 n) ≤ 8 = length-to_hex 97 7 n (omega (arith, h)) in
      rw e (length-padded_long 2 (to_hex 97 n) (omega arith) ∙ omega arith)
]

-- A frame of bytes that is not text is written with two characters for each byte below 128, but
-- with eight for each from 128 on, and the separator behind each.
pub length-hex_chars :
    (separator content : Bytes)
    → All (λ ch. ch < 256) content
    → length (hex_chars separator content) ≡ widths separator content
unfolding hex_chars
length-hex_chars separator [] a = refl
length-hex_chars separator (ch ∷ content) a =
    let cell = padded 2 (to_hex 97 (unsigned_of ch)) in
    let later = hex_chars separator content in
    let joined : length (cell ++ separator ++ later)
        ≡ width ch + length separator + widths separator content =
      omega (
        arith,
        length-cell ch a.0,
        length-append (cell ++ separator) later,
        length-append cell separator,
        length-hex_chars separator content a.1,
      ) in
    joined
