-- ===== src/Freelance/Service.antt =====
-- The server: model-three-complex-and-nasty/flserver3.cpp.
use zguide_examples.Prelude.{ℕ, ◌≡◌, refl, Bool, true, false, not, ◌&&◌, List, [], ◌∷◌, ◌++◌, ◌+◌}
use zguide_examples.Prelude.Tests.{leb, if◌then◌else◌}
use zguide_examples.Prelude.Lists.{All}
use zguide_examples.Prelude.Bytes.{Bytes, codes, same}
use zguide_examples.Prelude.Result.{Result, ok, stop, ◌>>=◌, take_front}
use zguide_examples.Zmq.Frames.{Message}
use zguide_examples.Freelance.Sequence.{strtol}
use zguide_examples.Freelance.Agent.{ping_frame, status_ok}

abbrev pub pong : Bytes
pong = codes "PONG"

abbrev pub default_port : ℕ
default_port = 5555

-- One round of `main`: the reply to a request. The identity of the client comes first.
unfoldable pub respond : Message → Result Message
respond [] = stop
respond (identity ∷ request) = do
  (control, _) ← take_front request
  ok (identity ∷ (if same control ping_frame then pong ∷ [] else control ∷ status_ok ∷ []))

abbrev to_lower : ℕ → ℕ
to_lower c = if leb 65 c && leb c 90 then c + 32 else c

-- `boost::iequals`, of ASCII text.
unfoldable pub iequals : Bytes → Bytes → Bool
iequals [] [] = true
iequals (c ∷ s) (d ∷ t) = same (to_lower c ∷ []) (to_lower d ∷ []) && iequals s t
iequals _ _ = false

-- The arguments behind the name of the program.
unfoldable pub get_verbose : List Bytes → Bool
get_verbose [] = false
get_verbose (arg ∷ args) =
    let rest = get_verbose args in if iequals arg (codes "-v") then true else rest

-- The conversion has read something if its end is not the beginning.
abbrev pub is_numeric : Bytes → Bool
is_numeric arg = not (same (strtol arg).1 arg)

unfoldable pub get_port : List Bytes → ℕ
get_port [] = default_port
get_port (arg ∷ args) = let rest = get_port args in if is_numeric arg then (strtol arg).0 else rest

-- The port is the number that the first numeric argument begins with, and 5555 if there is none.
pub get_port_first :
    (words : List Bytes) (arg : Bytes) (args : List Bytes)
    → All (λ w. is_numeric w ≡ false) words
    → is_numeric arg ≡ true
    → (get_port (words ++ arg ∷ args) ≡ (strtol arg).0) × (get_port words ≡ default_port)
unfolding get_port
get_port_first [] arg args a n = (rw n, refl)
get_port_first (w ∷ words) arg args a n =
    let (first, none_left) = get_port_first words arg args a.1 n in (rw a.0 first, rw a.0 none_left)
