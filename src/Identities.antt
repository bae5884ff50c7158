-- ===== src/Identities.antt =====
-- identities-and-addresses/identity.cpp: what the program prints. The messaging library is the parameter
-- `Sockets`, with what its documentation says of a REQ socket that sends to a ROUTER.
use zguide_examples.Prelude.{◌≡◌, refl, false, Option, none, some, List, [], ◌∷◌, ◌++◌}
use zguide_examples.Prelude.Lists.{length}
use zguide_examples.Prelude.Bytes.{Bytes, codes}
use zguide_examples.Zmq.Frames.{Message}
use zguide_examples.Freelance.Sequence.{to_string}
use zguide_examples.Text.Hex.{to_hex, padded}
use zguide_examples.Text.Dump.{dump, dump_part, is_text, hex_chars, size_text}

-- What the ROUTER receives for a frame that is sent by a REQ socket, by the identity that is set on the
-- latter, if one is. A generated identity has five bytes, of which the first is zero.
pub record Sockets : Type 0 where
  pub routed : Option Bytes → Bytes → Message
  pub unique : Bytes
  pub routed-none : (body : Bytes) → routed none body ≡ (0 ∷ unique) ∷ [] ∷ body ∷ []
  pub routed-some : (id body : Bytes) → routed (some id) body ≡ id ∷ [] ∷ body ∷ []
  pub length-unique : length unique ≡ 4

abbrev pub anon_str : Bytes
anon_str = codes "ROUTER uses a generated 5 byte identity"

abbrev pub id_str : Bytes
id_str = codes "ROUTER socket uses REQ's socket identity"

-- `print_parts` twice, on the same stream.
unfoldable pub printed : Sockets → List Bytes
unfolding dump
printed sockets =
    let (anonymous, base) = dump (codes " ") false (sockets.routed none anon_str) in
    let (identified, _) = dump (codes " ") base (sockets.routed (some (codes "PEER2")) id_str) in
    anonymous ++ (identified ++ codes "That's all folks!" ∷ [])

-- The identity that the library generates is no text, so that it is printed in base sixteen, and all the sizes
-- behind it are in base sixteen too: 27 for the 39 bytes of the first text, 28 for the 40 of the second.
pub identities_printed :
    (sockets : Sockets)
    → printed sockets
      ≡ (codes "[005] " ++ hex_chars (codes " ") (0 ∷ sockets.unique))
        ∷ codes "[000] "
        ∷ codes "[027] ROUTER uses a generated 5 byte identity"
        ∷ codes "[005] PEER2"
        ∷ codes "[000] "
        ∷ codes "[028] ROUTER socket uses REQ's socket identity"
        ∷ codes "That's all folks!"
        ∷ []
unfolding printed dump dump_part is_text size_text to_hex padded to_string
identities_printed sockets =
    rw (sockets.routed-none anon_str, sockets.routed-some (codes "PEER2") id_str)
      (rw (sockets.length-unique) refl)
