-- ===== src/Espresso/Envelopes.antt =====
-- Messages behind a key: pub-sub-message-envelopes/psenvpub.cpp and psenvsub.cpp.
use zguide_examples.Prelude.{ℕ, zero, suc, ◌≡◌, refl, List, [], ◌∷◌, ◌++◌}
use zguide_examples.Prelude.Tests.{if◌then◌else◌}
use zguide_examples.Prelude.Lists.{replicate}
use zguide_examples.Prelude.Bytes.{Bytes, codes}
use zguide_examples.Prelude.Result.{Result, ok, fault, starved, ◌>>=◌}
use zguide_examples.Zmq.Frames.{Message}
use zguide_examples.Espresso.{begins}

abbrev pub unwanted_data : Bytes
unwanted_data = codes "We don't want to see this"

abbrev pub wanted_data : Bytes
wanted_data = codes "We would like to see this"

-- Some rounds of the publisher.
unfoldable pub publish : ℕ → List Message
publish zero = []
publish (suc rounds) =
    (codes "A" ∷ unwanted_data ∷ []) ∷ (codes "B" ∷ wanted_data ∷ []) ∷ publish rounds

-- The frames that reach a subscriber of a text.
unfoldable pub reaching : Bytes → List Message → List Bytes
reaching prefix [] = []
reaching prefix ([] ∷ messages) = reaching prefix messages
reaching prefix ((key ∷ frames) ∷ messages) =
    let rest = reaching prefix messages in
    if begins prefix key then (key ∷ frames) ++ rest else rest

-- Some rounds of the subscriber: two frames each, and the line for them.
unfoldable pub subscribe : ℕ → List Bytes → Result (List Bytes)
subscribe zero frames = ok []
subscribe (suc rounds) [] = fault starved
subscribe (suc rounds) (key ∷ []) = fault starved
subscribe (suc rounds) (key ∷ text ∷ frames) = do
  lines ← subscribe rounds frames
  ok ((codes "[" ++ key ++ codes "] " ++ text) ∷ lines)

-- In as many rounds as the publisher makes, the subscriber of B reads the message of each round that
-- it wants, and none that it does not want.
pub subscribe-publish :
    (rounds : ℕ)
    → subscribe rounds (reaching (codes "B") (publish rounds))
      ≡ ok (replicate rounds (codes "[B] We would like to see this"))
unfolding subscribe reaching publish
subscribe-publish zero = refl
subscribe-publish (suc rounds) = rw (subscribe-publish rounds) refl
