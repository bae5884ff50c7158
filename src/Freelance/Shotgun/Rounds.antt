-- ===== src/Freelance/Shotgun/Rounds.antt =====
-- flclient2.cpp: what a request returns.
use zguide_examples.Prelude.{
  ℕ, ◌+◌, ◌%◌, ◌^◌, ◌<◌, ◌≤◌, ◌≡◌, ◌≢◌, refl, false, List, [], ◌∷◌, ◌++◌, arith, ◌∙◌,
}
use zguide_examples.Prelude.Tests.{◌==◌, ==_iff, lt→ltb, ltb-false}
use zguide_examples.Prelude.Lists.{All}
use zguide_examples.Prelude.Bytes.{Bytes, codes}
use zguide_examples.Prelude.Result.{ok, ◌>>=◌}
use zguide_examples.Zmq.Frames.{Message}
use zguide_examples.Freelance.Sequence.{to_string}
use zguide_examples.Freelance.Sequence.RoundTrip.{stoseq-to_string}
use zguide_examples.Freelance.Shotgun.{
  Client, Poll, on_reply, await, request, respond, global_timeout, got, quiet,
}

-- The reply of a server to the request of a number, behind the empty frame.
abbrev pub numbered : ℕ → Bytes → Message
numbered n content = [] ∷ to_string n ∷ content ∷ []

on_reply-numbered :
    (sequence n : ℕ) (content : Bytes)
    → n < 2 ^ 31
    → on_reply sequence (numbered n content) ≡ ok (to_string n ∷ content ∷ [], n == sequence)
unfolding on_reply
on_reply-numbered sequence n content h = rw (stoseq-to_string n h).1

-- A round within the time, in which nothing comes or a reply to another request.
abbrev pub IsIdle : ℕ → ℕ → Poll → Type 0
IsIdle sequence end_time (quiet now) = now < end_time
IsIdle sequence end_time (got frames now) =
    (n : ℕ) × (content : Bytes) × (frames ≡ numbered n content)
    × (n < 2 ^ 31)
    × (n ≢ sequence)
    × (now < end_time)

await-idle :
    (sequence end_time : ℕ) (idle polls : List Poll) (reply : Message)
    → All (IsIdle sequence end_time) idle
    → (kept : Message) × (await sequence end_time reply (idle ++ polls)
        ≡ await sequence end_time kept polls)
unfolding await
await-idle sequence end_time [] polls reply a = (reply, refl)
await-idle sequence end_time (quiet now ∷ idle) polls reply a =
    rw (lt→ltb now end_time a.0) (await-idle sequence end_time idle polls reply a.1)
await-idle sequence end_time (got frames now ∷ idle) polls reply a =
    let (n, content, e, h, other, early) = a.0 in
    let (kept, later) = await-idle sequence end_time idle polls (to_string n ∷ content ∷ []) a.1 in
    let differs : (n == sequence) ≡ false = ground (arith, other) in
    (
      kept,
      rw e (
          rw (on_reply-numbered sequence n content h)
            (rw differs (rw (lt→ltb now end_time early) later))),
    )

await-numbered :
    (n end_time now : ℕ) (reply : Message) (answer : Bytes) (later : List Poll)
    → n < 2 ^ 31
    → await n end_time reply (got (numbered n answer) now ∷ later) ≡ ok (to_string n ∷ answer ∷ [])
unfolding await
await-numbered n end_time now reply answer later h =
    rw (on_reply-numbered n n answer h) (rw ((==_iff n n).1 refl))

-- The first reply that has the number of the request, one below 2 ^ 31, is returned, if the rounds
-- before it are within the time and bring nothing or replies to other requests.
pub request-numbered :
    (start now : ℕ) (content answer : Bytes) (idle later : List Poll) (c : Client)
    → c.sequence + 1 < 2 ^ 31
    → All (IsIdle (c.sequence + 1) (start + global_timeout)) idle
    → (request start content (idle ++ got (numbered (c.sequence + 1) answer) now ∷ later) c).2
      ≡ ok (to_string (c.sequence + 1) ∷ answer ∷ [])
unfolding request
request-numbered start now content answer idle later c h a =
    let n = c.sequence + 1 in
    let plain : n % 2 ^ 32 ≡ n = omega arith in
    let polls = got (numbered n answer) now ∷ later in
    let (kept, e) = await-idle n (start + global_timeout) idle polls [] a in
    rw plain (e ∙ await-numbered n (start + global_timeout) now kept answer later h)

-- When the time runs out after a reply to an earlier request, that reply is returned as if it were
-- the one to this request, for numbers below 2 ^ 31: the caller does not see that no server
-- answered.
pub request-stale :
    (start now late n : ℕ) (content answer : Bytes) (later : List Poll) (c : Client)
    → c.sequence + 1 < 2 ^ 31
    → n ≤ c.sequence
    → now < start + global_timeout
    → start + global_timeout ≤ late
    → (request start content (got (numbered n answer) now ∷ quiet late ∷ later) c).2
      ≡ ok (to_string n ∷ answer ∷ [])
unfolding request await
request-stale start now late n content answer later c h k early over =
    let plain : (c.sequence + 1) % 2 ^ 32 ≡ c.sequence + 1 = omega arith in
    let differs : (n == (c.sequence + 1)) ≡ false = ground arith in
    rw plain (
      rw (on_reply-numbered (c.sequence + 1) n answer (omega arith)) (
        rw differs (
          rw (lt→ltb now (start + global_timeout) early)
            (rw (ltb-false late (start + global_timeout) over)))))

-- What each server sends back to the blast, through its REP socket, is the numbered OK.
pub respond-numbered :
    (n : ℕ)
    → (respond (to_string n ∷ []) >>= λ reply. ok ([] ∷ reply)) ≡ ok (numbered n (codes "OK"))
unfolding respond
respond-numbered n = refl
