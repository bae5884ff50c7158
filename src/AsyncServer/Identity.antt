-- ===== src/AsyncServer/Identity.antt =====
-- The identity of a client: `random_id` of async-client-server-pattern/asyncsrv.cpp.
use zguide_examples.Prelude.{ℕ, ◌+◌, ◌<◌, ◌≤◌, ◌≡◌, refl, ◌&&◌, inl, inr, ◌++◌, arith}
use zguide_examples.Prelude.Tests.{leb, ltb, if◌then◌else◌, Bool-cases, ltb→lt, ltb-false→le}
use zguide_examples.Prelude.Lists.{length, length-append}
use zguide_examples.Prelude.Bytes.{Bytes, codes}
use zguide_examples.Prelude.Result.{Result, ok, fault, overflow}
use zguide_examples.Text.Hex.{
  to_hex, padded, length-to_hex, length-to_hex_min, length-padded_short, length-padded_long,
}

-- `char identity[10]`
abbrev pub identity_size : ℕ
identity_size = 10

-- `uniform_int_distribution<> distr(0x00000, 0x10000)` draws up to its second bound.
abbrev pub draw_max : ℕ
draw_max = 65536

-- `%04X`
unfoldable pub hex4 : ℕ → Bytes
hex4 n = padded 4 (to_hex 65 n)

-- `sprintf(identity, "%04X-%04X", ...)`, which writes a zero byte behind the text.
unfoldable pub random_id : ℕ → ℕ → Result Bytes
unfolding hex4
random_id first second =
    let text = hex4 first ++ codes "-" ++ hex4 second in
    if leb (length text + 1) identity_size then ok text else fault overflow

length-hex4 : (n : ℕ) → n < draw_max → length (hex4 n) ≡ 4
unfolding hex4
length-hex4 n h = length-padded_short 4 (to_hex 65 n) (length-to_hex 65 3 n h)

length-hex4_min : (n : ℕ) → draw_max ≤ n → 5 ≤ length (hex4 n)
unfolding hex4
length-hex4_min n h =
    let digits : 5 ≤ length (to_hex 65 n) = length-to_hex_min 65 4 n h in
    omega (arith, length-padded_long 4 (to_hex 65 n) (omega arith))

length-hex4_any : (n : ℕ) → 4 ≤ length (hex4 n)
length-hex4_any n = elim (Bool-cases (ltb n draw_max)) [
  | inl e ↦ omega (arith, length-hex4 n (ltb→lt n draw_max e))
  | inr e ↦ omega (arith, length-hex4_min n (ltb-false→le n draw_max e))
]

length-two :
    (m n : ℕ) → length (hex4 m ++ codes "-" ++ hex4 n) ≡ length (hex4 m) + 1 + length (hex4 n)
length-two m n =
    omega (arith, length-append (hex4 m ++ codes "-") (hex4 n), length-append (hex4 m) (codes "-"))

fits_iff :
    (m n : ℕ)
    → leb (length (hex4 m ++ codes "-" ++ hex4 n) + 1) identity_size
      ≡ (ltb m draw_max && ltb n draw_max)
fits_iff m n = elim (Bool-cases (ltb m draw_max)) [
  | inr e ↦ rw e (
      ground
        (arith, length-two m n, length-hex4_min m (ltb-false→le m draw_max e), length-hex4_any n))
  | inl e ↦ elim (Bool-cases (ltb n draw_max)) [
    | inr f ↦ rw e (
        rw f (
          ground (
            arith,
            length-two m n,
            length-hex4_any m,
            length-hex4_min n (ltb-false→le n draw_max f),
          )))
    | inl f ↦ rw e (
        rw f (
          ground (
            arith,
            length-two m n,
            length-hex4 m (ltb→lt m draw_max e),
            length-hex4 n (ltb→lt n draw_max f),
          )))
  ]
]

-- The identity is written, and fits its array, if both draws are below the largest; a draw of the
-- largest has five digits, and the text is written past the end.
pub random_id-fits :
    (first second : ℕ)
    → random_id first second ≡ (
        if ltb first draw_max && ltb second draw_max
        then ok (hex4 first ++ codes "-" ++ hex4 second)
        else fault overflow)
unfolding random_id
random_id-fits m n = rw (fits_iff m n) refl
