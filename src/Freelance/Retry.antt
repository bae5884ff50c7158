-- ===== src/Freelance/Retry.antt =====
-- Model one: model-one-simple-retry-and-failover/flclient1.cpp and flserver1.cpp. What a server
-- answers is a parameter, for each attempt at it.
use zguide_examples.Prelude.{
  ℕ, zero, suc, ◌≡◌, refl, Option, none, some, List, [], ◌∷◌, ◌++◌, ◌<◌, arith, ◌∙◌, append-nil,
}
use zguide_examples.Prelude.Tests.{ltb, ltb-false, if◌then◌else◌}
use zguide_examples.Prelude.Bytes.{Bytes, codes}
use zguide_examples.Prelude.Result.{Result, ok, stop}
use zguide_examples.Prelude.Lists.{All, replicate}

abbrev pub max_retries : ℕ
max_retries = 3

abbrev pub default_endpoint : Bytes
default_endpoint = codes "localhost:5555"

-- The reply that `poll` lets the client read within a second, and no text without one.
unfoldable pub try_reqrep : Option Bytes → Bytes
try_reqrep (some reply) = reply
try_reqrep none = []

-- Both loops: the reply, and the attempts that were made, each by its endpoint.
unfoldable pub retry : (ℕ → Option Bytes) → Bytes → ℕ → ℕ → Bytes × List Bytes
unfolding try_reqrep
retry answer endpoint attempt zero = ([], [])
retry answer endpoint attempt (suc left) =
    let (later, tried) = retry answer endpoint (suc attempt) left in
    elim (try_reqrep (answer attempt)) [
      | [] ↦ (later, endpoint ∷ tried)
      | c ∷ s ↦ (c ∷ s, endpoint ∷ [])
    ]

unfoldable pub failover : (Bytes → Option Bytes) → List Bytes → Bytes × List Bytes
unfolding try_reqrep
failover answer [] = ([], [])
failover answer (endpoint ∷ endpoints) =
    let (later, tried) = failover answer endpoints in
    elim (try_reqrep (answer endpoint)) [
      | [] ↦ (later, endpoint ∷ tried)
      | c ∷ s ↦ (c ∷ s, endpoint ∷ [])
    ]

unfoldable pub query : (Bytes → ℕ → Option Bytes) → List Bytes → Bytes × List Bytes
unfolding retry failover
query answer [] = retry (answer default_endpoint) default_endpoint 0 max_retries
query answer (endpoint ∷ []) = retry (answer endpoint) endpoint 0 max_retries
query answer (e₁ ∷ e₂ ∷ endpoints) = failover (λ e. answer e 0) (e₁ ∷ e₂ ∷ endpoints)

-- flserver1.cpp: one round of the echo service.
unfoldable pub echo : Option Bytes → Result Bytes
echo (some request) = ok request
echo none = stop

abbrev pub IsDead : (Bytes → ℕ → Option Bytes) → Bytes → Type 0
IsDead answer endpoint = (attempt : ℕ) → answer endpoint attempt ≡ none

failover-skips :
    (answer : Bytes → ℕ → Option Bytes) (dead rest : List Bytes)
    → All (IsDead answer) dead
    → failover (λ e. answer e 0) (dead ++ rest)
      ≡ ((failover (λ e. answer e 0) rest).0, dead ++ (failover (λ e. answer e 0) rest).1)
unfolding failover
failover-skips answer [] rest a = refl
failover-skips answer (e ∷ dead) rest a =
    rw (a.0 0, failover) (rw (failover-skips answer dead rest a.1))

-- With several endpoints, of which the first two and perhaps more never answer, each is tried
-- once, in order, up to the first that answers with a text; that text is the reply. If all are
-- dead, all are tried, and there is no reply.
pub query-several :
    (answer : Bytes → ℕ → Option Bytes) (e₁ e₂ : Bytes) (dead : List Bytes) (alive : Bytes)
    (later : List Bytes) (c : ℕ) (s : Bytes)
    → All (IsDead answer) (e₁ ∷ e₂ ∷ dead)
    → answer alive 0 ≡ some (c ∷ s)
    → (query answer (e₁ ∷ e₂ ∷ dead ++ alive ∷ later) ≡ (c ∷ s, e₁ ∷ e₂ ∷ dead ++ alive ∷ []))
      × (query answer (e₁ ∷ e₂ ∷ dead) ≡ ([], e₁ ∷ e₂ ∷ dead))
unfolding query failover
query-several answer e₁ e₂ dead alive later c s a h =
    let tried = failover-skips answer (e₁ ∷ e₂ ∷ dead) in
    let none_left = tried [] a in
    (tried (alive ∷ later) a ∙ rw (h, failover), rw (append-nil dead) at none_left)

-- A single endpoint is tried up to three times, and its first text is the reply.
pub query-single :
    (answer : Bytes → ℕ → Option Bytes) (endpoint : Bytes) (silent : ℕ) (c : ℕ) (s : Bytes)
    → ((attempt : ℕ) → attempt < silent → answer endpoint attempt ≡ none)
    → answer endpoint silent ≡ some (c ∷ s)
    → query answer (endpoint ∷ []) ≡ (
        if ltb silent max_retries
        then (c ∷ s, replicate (suc silent) endpoint)
        else ([], replicate max_retries endpoint))
unfolding query retry
query-single answer endpoint zero c s quiet h = rw (h, retry)
query-single answer endpoint (suc zero) c s quiet h =
    rw (quiet 0 (omega arith), retry) (rw (h, retry))
query-single answer endpoint (suc (suc zero)) c s quiet h =
    rw (quiet 0 (omega arith), retry) (rw (quiet 1 (omega arith), retry) (rw (h, retry)))
query-single answer endpoint (suc (suc (suc n))) c s quiet h =
    rw (ltb-false (suc (suc (suc n))) max_retries (omega arith)) (
      rw (quiet 0 (omega arith), retry)
        (rw (quiet 1 (omega arith), retry) (rw (quiet 2 (omega arith), retry))))
