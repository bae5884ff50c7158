-- ===== src/RequestReply.antt =====
-- The shared queue: extended-request-reply/rrbroker.cpp, which passes a message on frame by frame.
pub mod Client
pub mod Proxy
use zguide_examples.Prelude.{◌≡◌, refl, Bool, true, false, List, [], ◌∷◌, ◌++◌}
use zguide_examples.Prelude.Tests.{if◌then◌else◌}
use zguide_examples.Prelude.Bytes.{Bytes}
use zguide_examples.Prelude.Result.{Result, ok, fault, starved, ◌>>=◌}
use zguide_examples.Zmq.Frames.{Part, Message, send_loop}

-- The inner loop: each frame goes out as it came, with the flag that it came with, up to the last
-- of its message. What was sent, and what is left to read.
unfoldable pub relay : List Part → Result (List Part × List Part)
relay [] = fault starved
relay (p ∷ parts) =
    let further = (do
      (sent, left) ← relay parts
      ok (record { frame = p.frame; more = true } ∷ sent, left)) in
    if p.more then further else ok (record { frame = p.frame; more = false } ∷ [], parts)

-- A round: what `poll` finds at each socket, what goes to the workers and to the clients, and what
-- is left.
pub record Sockets : Type 0 where
  pub frontend : List Part
  pub backend : List Part

abbrev polled : Bool → List Part → Result (List Part × List Part)
polled false parts = ok ([], parts)
polled true parts = relay parts

unfoldable pub step : Bool → Bool → Sockets → Result (Sockets × Sockets)
unfolding relay
step front back s = do
  (requests, frontend) ← polled front s.frontend
  (replies, backend) ← polled back s.backend
  ok (
    record { frontend = frontend; backend = backend },
    record { frontend = replies; backend = requests },
  )

pub relay-send_loop :
    (f : Bytes) (fs : Message) (left : List Part)
    → relay (send_loop f fs ++ left) ≡ ok (send_loop f fs, left)
unfolding relay send_loop
relay-send_loop f [] left = refl
relay-send_loop f (g ∷ fs) left = rw (relay-send_loop g fs left)

-- In a round that finds a request and a reply, each goes to the other side as it came, frame for
-- frame; what stands behind it waits.
pub step_relays :
    (f g : Bytes) (fs gs : Message) (ps qs : List Part)
    → step true true (record { frontend = send_loop f fs ++ ps; backend = send_loop g gs ++ qs })
      ≡ ok (
        record { frontend = ps; backend = qs },
        record { frontend = send_loop g gs; backend = send_loop f fs },
      )
unfolding step
step_relays f g fs gs ps qs = rw (relay-send_loop f fs ps) (rw (relay-send_loop g gs qs))
