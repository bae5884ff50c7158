-- ===== src/ParanoidPirate/Queue/Safety.antt =====
-- ppqueue.cpp: the workers stay consistent, and what can make the process fail.
use zguide_examples.Prelude.{
  ℕ, ◌≡◌, ◌⊎◌, refl, inl, inr, true, false, ◌∙◌, Option, none, some, List, [], ◌∷◌, ◌++◌,
}
use mathlib.Core.Path.{subst}
use zguide_examples.Prelude.Tests.{if◌then◌else◌, Bool-cases}
use zguide_examples.Prelude.Bytes.{Bytes, same}
use zguide_examples.Prelude.Dict.{has}
use zguide_examples.Prelude.Result.{
  ok, ◌>>=◌, >>=-eq-ok, ok_injective, Ensures, Ensures-bind, Ensures-ok, Ensures-intro,
}
use zguide_examples.Zmq.Frames.{Message}
use zguide_examples.ParanoidPirate.Workers.{Workers, is_nil}
use zguide_examples.ParanoidPirate.Workers
use zguide_examples.ParanoidPirate.Workers.Invariant.{
  IsValid, erase-IsValid, push-IsValid, try_push-IsValid, refresh-IsValid, pop-IsValid,
  purge-IsValid,
}
use zguide_examples.ParanoidPirate.Queue.{
  State, Sent, Input, to_frontend, ready, heartbeat, send, keep_workers, control, from_worker,
  on_backend, on_frontend, polled, tend, step,
}

-- Workers that are consistent, and are still some if there were some.
abbrev pub Kept : Workers → Workers → Type 0
Kept w w' = IsValid w' × (Workers.empty w ≡ false → Workers.empty w' ≡ false)

abbrev pub KeptBy : Workers → Workers × List Sent → Type 0
KeptBy w r = Kept w r.0

snoc_nonempty {ℓ} : {A : Type ℓ} (xs : List A) (a : A) → is_nil (xs ++ a ∷ []) ≡ false
snoc_nonempty [] a = refl
snoc_nonempty (x ∷ xs) a = refl

push-Kept :
    (now : ℕ) (k : Bytes) (w w' : Workers) → IsValid w → Workers.push now k w ≡ ok w' → Kept w' w'
push-Kept now k w w' v e = (push-IsValid now k w v e, λ h. h)

push_nonempty :
    (now : ℕ) (k : Bytes) (w : Workers)
    → Ensures (λ w'. Workers.empty w' ≡ false) (Workers.push now k w)
unfolding Workers.push Workers.empty
push_nonempty now k w = elim (Bool-cases (has k w.lookup)) [
  | inl h ↦ rw h tt
  | inr h ↦ rw h (snoc_nonempty w.queue k)
]

refresh_nonempty :
    (now : ℕ) (k : Bytes) (w : Workers)
    → Ensures (λ w'. Workers.empty w' ≡ Workers.empty w) (Workers.refresh now k w)
unfolding Workers.refresh Workers.empty
refresh_nonempty now k w = elim (Bool-cases (has k w.lookup)) [
  | inl h ↦ rw h refl
  | inr h ↦ rw h tt
]

try_push_nonempty :
    (now : ℕ) (k : Bytes) (w : Workers)
    → Ensures
        (λ r. (Workers.empty w ≡ false) → (Workers.empty r.0 ≡ false))
        (Workers.try_push now k w)
unfolding Workers.try_push Workers.push Workers.empty
try_push_nonempty now k w = elim (Bool-cases (has k w.lookup)) [
  | inl h ↦ rw h (λ e. e)
  | inr h ↦ rw h (λ _. snoc_nonempty w.queue k)
]

control-Kept :
    (now : ℕ) (id frame : Bytes) (w : Workers)
    → IsValid w
    → Ensures (Kept w) (control now id frame w)
unfolding control
control-Kept now id frame w v = elim (Bool-cases (same frame ready)) [
  | inl e ↦ rw e (
      Ensures-intro (Kept w) (Workers.push now id (Workers.erase id w)) λ w' p. (
        push-IsValid now id (Workers.erase id w) (erase-IsValid id w v) p,
        λ _. Ensures-ok _ _ (push_nonempty now id (Workers.erase id w)) p,
      ))
  | inr e ↦ rw e (other (Bool-cases (same frame heartbeat)))
]
  where
    other :
        (same frame heartbeat ≡ true) ⊎ (same frame heartbeat ≡ false)
        → Ensures (Kept w) (if same frame heartbeat then Workers.refresh now id w else ok w)
    other (inl e) = rw e (
        Ensures-intro (Kept w) (Workers.refresh now id w) λ w' p.
          (refresh-IsValid now id w v p, λ h. Ensures-ok _ _ (refresh_nonempty now id w) p ∙ h))
    other (inr e) = rw e (v, λ h. h)

forward-Kept :
    (now : ℕ) (id : Bytes) (frames : Message) (w : Workers)
    → IsValid w
    → Ensures (KeptBy w) (do
      sent ← send to_frontend frames
      w' ← keep_workers (Workers.try_push now id w)
      ok (w', sent))
forward-Kept now id frames w v = Ensures-bind (KeptBy w) (send to_frontend frames) _ λ sent _.
    Ensures-bind (KeptBy w) (keep_workers (Workers.try_push now id w)) _ λ w' e.
      let (r, p, q) = >>=-eq-ok (Workers.try_push now id w) _ e in
      subst (Kept w) (ok_injective q)
        (try_push-IsValid now id w v p, Ensures-ok _ _ (try_push_nonempty now id w) p)

from_worker-Kept :
    (now : ℕ) (id : Bytes) (frames : Message) (w : Workers)
    → IsValid w
    → Ensures (KeptBy w) (from_worker now id frames w)
unfolding from_worker
from_worker-Kept now id (frame ∷ []) w v =
    Ensures-bind (KeptBy w) (control now id frame w) _
      λ w' e. Ensures-ok (Kept w) _ (control-Kept now id frame w v) e
from_worker-Kept now id [] w v = tt
from_worker-Kept now id (f ∷ g ∷ fs) w v = forward-Kept now id (f ∷ g ∷ fs) w v

on_backend-Kept :
    (now : ℕ) (m : Message) (w : Workers) → IsValid w → Ensures (KeptBy w) (on_backend now m w)
unfolding on_backend
on_backend-Kept now [] w v = tt
on_backend-Kept now (id ∷ frames) w v = from_worker-Kept now id frames w v

pub polled-Kept :
    (now : ℕ) (o : Option Message) (w : Workers)
    → IsValid w
    → Ensures (KeptBy w) (polled (on_backend now) o w)
unfolding polled
polled-Kept now none w v = (v, λ h. h)
polled-Kept now (some m) w v = on_backend-Kept now m w v

pub polled_frontend-IsValid :
    (o : Option Message) (w : Workers)
    → IsValid w
    → Ensures (λ r. IsValid r.0) (polled on_frontend o w)
unfolding polled on_frontend
polled_frontend-IsValid none w v = v
polled_frontend-IsValid (some m) w v = Ensures-bind _ (Workers.front w) _ λ k _. pop-IsValid w v

tend-IsValid :
    (input : Input) (at : ℕ) (w : Workers) → IsValid w → IsValid (tend input at w).0.workers
unfolding tend
tend-IsValid input at w v = elim (Bool-cases (Workers.empty w)) [
  | inl e ↦ rw e v
  | inr e ↦ rw e (purge-IsValid input.purged_at w v)
]

-- Whatever arrives, a round that starts from a consistent state and succeeds leaves the queue of
-- workers and their deadlines consistent: the same workers in both, each of them once.
pub step-IsValid :
    (input : Input) (s : State) {s' : State} {sent : List Sent}
    → IsValid s.workers
    → step input s ≡ ok (s', sent)
    → IsValid s'.workers
unfolding step
step-IsValid input s v e = Ensures-ok (λ r. IsValid r.0.workers) _ kept e
  where
    kept : Ensures (λ r. IsValid r.0.workers) (step input s)
    kept = Ensures-bind _ (polled (on_backend input.seen_at) input.backend s.workers) _ λ r₁ e₁.
        let v₁ = (Ensures-ok (KeptBy s.workers) _ (polled-Kept _ input.backend s.workers v) e₁).0 in
        Ensures-bind _ (polled on_frontend input.frontend r₁.0) _ λ r₂ e₂.
          tend-IsValid input s.heartbeat_at r₂.0
            (Ensures-ok _ _ (polled_frontend-IsValid input.frontend r₁.0 v₁) e₂)
