-- ===== src/ParanoidPirate/Workers/Calls.antt =====
-- A history of calls of `workers_t`, made in any order.
use zguide_examples.Prelude.{ℕ, ◌≡◌, Bool, List, [], ◌∷◌}
use mathlib.Core.Path.{subst}
use zguide_examples.Prelude.Bytes.{Bytes}
use zguide_examples.Prelude.Result.{Result, ok, stop, fault, ◌>>=◌, >>=-eq-ok, ok_injective}
use zguide_examples.ParanoidPirate.Workers.{
  Workers, new, erase, push, try_push, refresh, pop, purge,
}
use zguide_examples.ParanoidPirate.Workers.Invariant.{
  IsValid, new-IsValid, erase-IsValid, push-IsValid, try_push-IsValid, refresh-IsValid, pop-IsValid,
  purge-IsValid,
}

pub data Call : Type 0 where
  erases : Bytes → Call
  pushes tries refreshes : ℕ → Bytes → Call
  pops : Call
  purges : (ℕ → ℕ) → Call

forget_flag : Result (Workers × Bool) → Result Workers
forget_flag (ok (w, added)) = ok w
forget_flag stop = stop
forget_flag (fault e) = fault e

unfoldable pub apply : Workers → Call → Result Workers
unfolding forget_flag
apply w (erases k) = ok (erase k w)
apply w (pushes now k) = push now k w
apply w (tries now k) = forget_flag (try_push now k w)
apply w (refreshes now k) = refresh now k w
apply w pops = ok (pop w)
apply w (purges clock) = ok (purge clock w)

unfoldable pub run : Workers → List Call → Result Workers
run w [] = ok w
run w (c ∷ cs) = apply w c >>= λ w'. run w' cs

forget_flag-eq-ok :
    (r : Result (Workers × Bool)) {w : Workers}
    → forget_flag r ≡ ok w
    → (added : Bool) × (r ≡ ok (w, added))
unfolding forget_flag
forget_flag-eq-ok (ok (w, added)) e = (added, cc)
forget_flag-eq-ok stop e = absurd (cc)
forget_flag-eq-ok (fault x) e = absurd (cc)

apply-IsValid : (w : Workers) (c : Call) {w' : Workers} → IsValid w → apply w c ≡ ok w' → IsValid w'
unfolding apply
apply-IsValid w (erases k) v e = subst IsValid (ok_injective e) (erase-IsValid k w v)
apply-IsValid w (pushes now k) v e = push-IsValid now k w v e
apply-IsValid w (tries now k) v e =
    let (added, e') = forget_flag-eq-ok (try_push now k w) e in try_push-IsValid now k w v e'
apply-IsValid w (refreshes now k) v e = refresh-IsValid now k w v e
apply-IsValid w pops v e = subst IsValid (ok_injective e) (pop-IsValid w v)
apply-IsValid w (purges clock) v e = subst IsValid (ok_injective e) (purge-IsValid clock w v)

run_from-IsValid :
    (w : Workers) (cs : List Call) {w' : Workers} → IsValid w → run w cs ≡ ok w' → IsValid w'
unfolding run
run_from-IsValid w [] v e = subst IsValid (ok_injective e) v
run_from-IsValid w (c ∷ cs) v e =
    let (w', first, later) = >>=-eq-ok (apply w c) (λ u. run u cs) e in
    run_from-IsValid w' cs (apply-IsValid w c v first) later

-- After any calls that end without a failed assertion, the queue and the expiry table hold the
-- same workers, each of them once in the queue.
pub run-IsValid : (ttl : ℕ) (cs : List Call) {w : Workers} → run (new ttl) cs ≡ ok w → IsValid w
run-IsValid ttl cs e = run_from-IsValid (new ttl) cs (new-IsValid ttl) e
