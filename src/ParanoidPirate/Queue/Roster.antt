-- ===== src/ParanoidPirate/Queue/Roster.antt =====
-- What the queue process of ppqueue.cpp promises: a round over the line of workers with their
-- deadlines, with no table beside it.
pub mod Operations
pub mod Refined
use zguide_examples.Prelude.{ℕ, ◌+◌, Bool, Option, none, some, List, [], ◌∷◌, ◌++◌, map}
use zguide_examples.Prelude.Tests.{ltb, if◌then◌else◌}
use zguide_examples.Prelude.Bytes.{Bytes, same}
use zguide_examples.Prelude.Result.{Result, ok, stop, fault, assert_failed, ◌>>=◌}
use zguide_examples.Zmq.Frames.{Message}
use zguide_examples.ParanoidPirate.Workers.{is_nil}
use zguide_examples.ParanoidPirate.Workers.Line.{
  Line, listed, without, renewed, behind_first, first,
}
use zguide_examples.ParanoidPirate.Workers.Sweep.{sweep}
use zguide_examples.ParanoidPirate.Queue.{
  Sent, Input, to_frontend, to_backend, ready, heartbeat, heartbeat_interval, send, beat,
}

-- `term` is the time that a worker has to say something.
pub record Roster : Type 0 where
  pub term : ℕ
  pub line : Line

abbrev pub joined : ℕ → Bytes → Roster → Roster
joined now k r = record r { line = r.line ++ (k, now + r.term) ∷ [] }

abbrev pub excused : ℕ → Bytes → Roster → Roster
excused now k r = record r { line = renewed k (now + r.term) r.line }

-- What is behind the identity: READY, HEARTBEAT or a reply.
abbrev pub hear : ℕ → Bytes → Message → Roster → Result (Roster × List Sent)
hear now k (frame ∷ []) r =
    if same frame ready
    then ok (joined now k (record r { line = without k r.line }), [])
    else if same frame heartbeat
    then (if listed k r.line then ok (excused now k r, []) else fault assert_failed)
    else ok (r, [])
hear now k frames r = do
  sent ← send to_frontend frames
  ok (if listed k r.line then r else joined now k r, sent)

abbrev pub hear_backend : ℕ → Message → Roster → Result (Roster × List Sent)
hear_backend now [] r = stop
hear_backend now (k ∷ frames) r = hear now k frames r

abbrev pub hear_frontend : Message → Roster → Result (Roster × List Sent)
hear_frontend frames r = do
  k ← first r.line
  ok (record r { line = behind_first r.line }, to_backend (k ∷ frames) ∷ [])

abbrev pub heard :
    (Message → Roster → Result (Roster × List Sent))
    → Option Message
    → Roster
    → Result (Roster × List Sent)
heard handler none r = ok (r, [])
heard handler (some frames) r = handler frames r

pub record Post : Type 0 where
  pub roster : Roster
  pub heartbeat_at : ℕ

abbrev pub look_after : Input → ℕ → Roster → Post × List Sent
look_after input heartbeat_at r =
    if is_nil r.line
    then (record { roster = r; heartbeat_at = heartbeat_at }, [])
    else let due = ltb heartbeat_at input.checked_at in
      (
        record {
          roster = record r { line = sweep input.purged_at r.line };
          heartbeat_at = if due then input.beaten_at + heartbeat_interval else heartbeat_at;
        },
        if due then map (λ p. beat p.0) r.line else [],
      )

-- The part of a round behind the backend.
abbrev pub then_serve : Input → ℕ → Roster × List Sent → Result (Post × List Sent)
then_serve input heartbeat_at (r, replies) = do
  (r', requests) ← heard hear_frontend input.frontend r
  let (p, beats) = look_after input heartbeat_at r'
  ok (p, replies ++ requests ++ beats)

unfoldable pub round : Input → Post → Result (Post × List Sent)
round input p =
    heard (hear_backend input.seen_at) input.backend p.roster >>= then_serve input p.heartbeat_at

unfoldable pub rounds : List Input → Post → Result (Post × List Sent)
rounds [] p = ok (p, [])
rounds (i ∷ is) p = do (p₁, sent) ← round i p; (p₂, later) ← rounds is p₁; ok (p₂, sent ++ later)
