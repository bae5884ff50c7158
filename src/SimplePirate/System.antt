-- ===== src/SimplePirate/System.antt =====
-- spqueue.cpp with the processes of spworker.cpp: who holds which worker. A worker is a REQ socket,
-- which sends only after it has received; messages may arrive in any order.
pub mod Orderly
pub mod Pool
use zguide_examples.Prelude.{
  ◌∙◌, sym, ℕ, suc, ◌+◌, ◌≤◌, ◌<◌, ◌≡◌, refl, List, [], ◌∷◌, ◌++◌, map, arith, inl, inr, ap,
  append-nil,
}
use zguide_examples.Prelude.Tests.{if◌then◌else◌, ◌==◌, ltb, lt→ltb, Bool-cases, ltb→lt}
use zguide_examples.Prelude.Lists.{length, length-append, All, All-append, All-prefix}
use zguide_examples.Prelude.Bag.{times}
use zguide_examples.Prelude.Bytes.{Bytes, same, same_iff}
use zguide_examples.Prelude.Result.{fault, assert_failed, Result, ok, ok_injective}
use zguide_examples.Zmq.Frames.{Message}
use zguide_examples.SimplePirate.{
  Sent, WorkerAction, to_backend, to_frontend, sleeps, sends, on_backend, on_frontend, work, ready,
  max_workers,
}

-- A message between the queue and a worker, with what is behind the empty frame: at least a frame,
-- the identity of the client or READY.
pub record Letter : Type 0 where
  pub worker : Bytes
  pub client : Bytes
  pub body : Message

abbrev pub arrival : Letter → Message
arrival l = l.worker ∷ [] ∷ l.client ∷ l.body

-- `requests` are on their way to a worker or are worked on, `replies` are on their way back;
-- `joined` and `crashed` are the identities of the worker processes that ever started and ended.
pub record System : Type 0 where
  pub queue : List Bytes
  pub requests : List Letter
  pub replies : List Letter
  pub joined : List Bytes
  pub crashed : List Bytes

abbrev pub workers_of : List Letter → List Bytes
workers_of letters = map (λ l. l.worker) letters

-- How often an identity is in the queue or on a message.
abbrev pub held : Bytes → System → ℕ
held k s = times k s.queue + times k (workers_of s.requests) + times k (workers_of s.replies)

abbrev pub empty_system : System
empty_system = record { queue = []; requests = []; replies = []; joined = []; crashed = [] }

-- What a worker sends, as the queue reads it behind the identity and the empty frame.
abbrev pub letters_sent : Bytes → List WorkerAction → List Letter
letters_sent k [] = []
letters_sent k (sleeps _ ∷ done) = letters_sent k done
letters_sent k (sends [] ∷ done) = letters_sent k done
letters_sent k (sends (client ∷ body) ∷ done) =
    record { worker = k; client = client; body = body } ∷ letters_sent k done

-- What the queue sends to its workers, as they read it behind the empty frame.
abbrev pub letters_to : List Sent → List Letter
letters_to [] = []
letters_to (to_backend (k ∷ [] ∷ client ∷ body) ∷ sent) =
    record { worker = k; client = client; body = body } ∷ letters_to sent
letters_to (_ ∷ sent) = letters_to sent

-- Whatever happens next. At most a hundred workers join, each under an identity that no other has.
pub data Moves : System → System → Type 0 where
  joins :
      (s : System) (k : Bytes)
      → length s.joined < max_workers
      → held k s ≡ 0
      → Moves s (record s {
        replies = s.replies ++ record { worker = k; client = ready; body = [] } ∷ [];
        joined = s.joined ++ k ∷ [];
      })
  asks :
      (s : System) (client : Bytes) (body : Message) (queue : List Bytes) (sent : List Sent)
      → on_frontend (client ∷ body) s.queue ≡ ok (queue, sent)
      → Moves s (record s { queue = queue; requests = s.requests ++ letters_to sent })
  works :
      (s : System) (before after : List Letter) (l : Letter) (crash_draw overload_draw cycles : ℕ)
      (done : ℕ × List WorkerAction)
      → s.requests ≡ before ++ l ∷ after
      → work crash_draw overload_draw (l.client ∷ l.body) cycles ≡ ok done
      → Moves s (record s {
        requests = before ++ after;
        replies = s.replies ++ letters_sent l.worker done.1;
      })
  crashes :
      (s : System) (before after : List Letter) (l : Letter)
      → s.requests ≡ before ++ l ∷ after
      → Moves s (record s { requests = before ++ after; crashed = s.crashed ++ l.worker ∷ [] })
  answers :
      (s : System) (before after : List Letter) (l : Letter) (queue : List Bytes) (sent : List Sent)
      → s.replies ≡ before ++ l ∷ after
      → on_backend (arrival l) s.queue ≡ ok (queue, sent)
      → Moves s (record s { queue = queue; replies = before ++ after })

pub data Reaches (s : System) : System → Type 0 where
  start : Reaches s s
  then_moves : {t u : System} → Reaches s t → Moves t u → Reaches s u

-- All the workers that run are in the queue or on a message, each at most once: by their number, and
-- identity by identity, as often as it has joined and not crashed.
pub record IsOrderly (s : System) : Type 0 where
  pub counted :
      length s.queue + length s.requests + length s.replies + length s.crashed ≡ length s.joined
  pub kept : (k : Bytes) → held k s + times k s.crashed ≡ times k s.joined
  pub few : length s.joined ≤ max_workers
  pub once : (k : Bytes) → held k s ≤ 1
