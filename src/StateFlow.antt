-- ===== src/StateFlow.antt =====
-- The brokers of prototyping-the-state-flow/peering1.cpp, which publish how many workers they have. A
-- step is one round of the loop of `main`.
use zguide_examples.Prelude.{
  ℕ, ◌≡◌, refl, Bool, true, false, not, ◌||◌, inl, inr, List, [], ◌∷◌, ◌++◌, arith, ap, append-nil,
  ◌∙◌,
}
use zguide_examples.Prelude.Tests.{if◌then◌else◌, Bool-cases}
use zguide_examples.Prelude.Bytes.{Bytes, codes, same}
use zguide_examples.Prelude.Result.{Result, ok, fault, starved, ◌>>=◌}
use zguide_examples.Zmq.Frames.{Message}
use zguide_examples.Freelance.Sequence.{to_string}

abbrev pub localhost : Bytes
localhost = codes "localhost"

-- The loop over the peers: `remote_peers` becomes true at the first that is not `localhost`.
unfoldable pub remote_peers : Bool → List Bytes → Bool
remote_peers remote [] = remote
remote_peers remote (peer ∷ peers) =
    remote_peers (if same peer localhost then remote else true) peers

-- The name under which a broker publishes; `host_name` is what the library says.
unfoldable pub self_name : List Bytes → Bytes → ℕ → Bytes
self_name peers host_name state_port =
    (if remote_peers false peers then host_name else localhost) ++ codes ":" ++ to_string state_port

pub data Action : Type 0 where
  publishes : Message → Action
  prints : Bytes → Action

abbrev pub state_text : Bytes → Bytes → Bytes → Bytes
state_text self peer_name avail =
    codes "peering1: ("
    ++ self
    ++ codes "): "
    ++ peer_name
    ++ codes " - "
    ++ avail
    ++ codes " workers available."

-- A frame of what has arrived; without one, `recv` waits.
abbrev pub recv : List Bytes → Result (Bytes × List Bytes)
recv [] = fault starved
recv (frame ∷ frames) = ok (frame, frames)

-- `readable`: `poll` finds something; the draw is between 1 and 10.
pub record Input : Type 0 where
  pub readable : Bool
  pub draw : ℕ

unfoldable pub step : Bytes → Input → List Bytes → Result (List Bytes × Action)
step self input arrived =
    if input.readable
    then (do
      (peer_name, rest) ← recv arrived
      (avail, rest') ← recv rest
      ok (rest', prints (state_text self peer_name avail)))
    else ok (arrived, publishes (self ∷ to_string input.draw ∷ []))

unfoldable pub run : Bytes → List Input → List Bytes → Result (List Bytes × List Action)
unfolding step
run self [] arrived = ok (arrived, [])
run self (i ∷ is) arrived = do
  (arrived', act) ← step self i arrived
  (left, acts) ← run self is arrived'
  ok (left, act ∷ acts)

-- A state of a broker: its name and what it drew.
abbrev pub frames_of : List (Bytes × ℕ) → List Bytes
frames_of [] = []
frames_of ((name, draw) ∷ states) = name ∷ to_string draw ∷ frames_of states

-- The rounds in which a broker publishes, one for each draw.
abbrev pub silent : List ℕ → List Input
silent [] = []
silent (draw ∷ draws) = record { readable = false; draw = draw } ∷ silent draws

abbrev pub busy : List (Bytes × ℕ) → List Input
busy [] = []
busy (state ∷ states) = record { readable = true; draw = 0 } ∷ busy states

abbrev pub publications : Bytes → List ℕ → List Action
publications name [] = []
publications name (draw ∷ draws) = publishes (name ∷ to_string draw ∷ []) ∷ publications name draws

abbrev pub lines : Bytes → List (Bytes × ℕ) → List Action
lines self [] = []
lines self ((name, draw) ∷ states) =
    prints (state_text self name (to_string draw)) ∷ lines self states

abbrev pub named : Bytes → List ℕ → List (Bytes × ℕ)
named name [] = []
named name (draw ∷ draws) = (name, draw) ∷ named name draws

-- The frames of what some actions publish, as they reach a peer.
abbrev pub reaching : List Action → List Bytes
reaching [] = []
reaching (publishes message ∷ acts) = message ++ reaching acts
reaching (prints _ ∷ acts) = reaching acts

run-silent :
    (self : Bytes) (draws : List ℕ) (arrived : List Bytes)
    → run self (silent draws) arrived ≡ ok (arrived, publications self draws)
unfolding run
run-silent self [] arrived = refl
run-silent self (draw ∷ draws) arrived = rw (run-silent self draws arrived) refl

run-busy :
    (self : Bytes) (states : List (Bytes × ℕ)) (left : List Bytes)
    → run self (busy states) (frames_of states ++ left) ≡ ok (left, lines self states)
unfolding run
run-busy self [] left = refl
run-busy self ((name, draw) ∷ states) left = rw (run-busy self states left) refl

reaching-publications :
    (name : Bytes) (draws : List ℕ)
    → reaching (publications name draws) ≡ frames_of (named name draws)
reaching-publications name [] = refl
reaching-publications name (draw ∷ draws) =
    ap (λ l. name ∷ to_string draw ∷ l) (reaching-publications name draws)

-- One broker publishes in some silent rounds, and another reads in as many what reaches it.
abbrev pub state_flow : Bytes → Bytes → List ℕ → Result (List Bytes × List Action)
state_flow name self draws = do
  (left, acts) ← run name (silent draws) []
  run self (busy (named name draws)) (reaching acts)

-- What a broker publishes in its silent rounds, its name and a number each time, the other prints in as
-- many rounds, in order and under that name, and nothing is left to read.
pub state_flow_heard :
    (name self : Bytes) (draws : List ℕ)
    → state_flow name self draws ≡ ok ([], lines self (named name draws))
state_flow_heard name self draws = rw (run-silent name draws []) (
    rw (reaching-publications name draws)
      (rw (append-nil (frames_of (named name draws))) at (run-busy self (named name draws) [])))

abbrev pub some_remote : List Bytes → Bool
some_remote [] = false
some_remote (peer ∷ peers) = not (same peer localhost) || some_remote peers

-- The flag is true behind the loop if it was true before, or some peer is not `localhost`.
pub remote_peers-some_remote :
    (remote : Bool) (peers : List Bytes) → remote_peers remote peers ≡ (remote || some_remote peers)
unfolding remote_peers
remote_peers-some_remote true [] = refl
remote_peers-some_remote false [] = refl
remote_peers-some_remote remote (peer ∷ peers) = elim (Bool-cases (same peer localhost)) [
  | inl e ↦ rw e (remote_peers-some_remote remote peers)
  | inr e ↦ rw e (remote_peers-some_remote true peers ∙ ground arith)
]
