-- ===== src/RequestReply/Proxy.antt =====
-- The proxy of transport-bridging/wuproxy.cpp, which passes updates on for ever.
use zguide_examples.Prelude.{ℕ, zero, suc, ◌≡◌, refl, List, [], ◌∷◌, ◌++◌, append_assoc}
use zguide_examples.Prelude.Lists.{length}
use zguide_examples.Prelude.Bytes.{Bytes}
use zguide_examples.Prelude.Result.{Result, ok, ◌>>=◌}
use zguide_examples.Zmq.Frames.{Part, Message, send_loop}
use zguide_examples.RequestReply.{relay, relay-send_loop}

-- Some rounds of the outer loop: what was sent, and what is left to read.
unfoldable pub proxy : ℕ → List Part → Result (List Part × List Part)
unfolding relay
proxy zero parts = ok ([], parts)
proxy (suc rounds) parts = do
  (sent, left) ← relay parts
  (later, left') ← proxy rounds left
  ok (sent ++ later, left')

-- Messages of a frame or more each, one behind the other.
abbrev pub NonEmpty : Type 0
NonEmpty = Bytes × Message

abbrev pub stream : List NonEmpty → List Part
stream [] = []
stream ((f, fs) ∷ messages) = send_loop f fs ++ stream messages

-- The messages come out as they went in, frame for frame and in order, one in each round.
pub proxy-stream :
    (messages : List NonEmpty) (left : List Part)
    → proxy (length messages) (stream messages ++ left) ≡ ok (stream messages, left)
unfolding proxy
proxy-stream [] left = refl
proxy-stream ((f, fs) ∷ messages) left =
    rw (append_assoc (send_loop f fs) (stream messages) left)
      (rw (relay-send_loop f fs (stream messages ++ left)) (rw (proxy-stream messages left) refl))
