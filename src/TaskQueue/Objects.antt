-- ===== src/TaskQueue/Objects.antt =====
-- The objects of the task queue: what holds of a result, and that changing one object leaves the
-- others alone.
use yellowbullv.Shared.{
  ℕ, zero, suc, ◌<◌, ◌≡◌, refl, ap, Option, none, some, Bool, true, false, List, [], ◌∷◌, ◌++◌,
  ◌&&◌, not, arith, length, get_elem?, is_some, All,
}
use mathlib.Core.Option.{some-injective}
use mathlib.Core.Path.{subst}
use yellowbullv.TaskQueue.{
  pending, running, completed, failed, TaskResult, Outcome, returned, raised, cancelled, update_at,
  mark_running, mark_ended,
}

-- What a result has for sure by its status. After a second submission under one id a running result can
-- still have the end and the error of the first run, and a completed one its error.
abbrev pub is_shaped : TaskResult → Bool
is_shaped r = elim r.status [
  | pending ↦ not (is_some r.started_at) && (not (is_some r.completed_at) && not (is_some r.error))
  | running ↦ is_some r.started_at
  | completed ↦ is_some r.started_at && is_some r.completed_at
  | failed ↦ is_some r.started_at && (is_some r.completed_at && is_some r.error)
]

abbrev pub IsShaped : TaskResult → Type 0
IsShaped r = is_shaped r ≡ true

module _ {ℓ} {A : Type ℓ} where
  pub length-update_at : (i : ℕ) (f : A → A) (xs : List A) → length (update_at i f xs) ≡ length xs
  unfolding update_at
  length-update_at i f [] = refl
  length-update_at zero f (x ∷ xs) = refl
  length-update_at (suc i) f (x ∷ xs) = ap suc (length-update_at i f xs)

  pub All-update_at {κ} :
      {P : A → Type κ} (i : ℕ) (f : A → A) (xs : List A)
      → ((x : A) → get_elem? xs i ≡ some x → P x → P (f x))
      → All P xs
      → All P (update_at i f xs)
  unfolding update_at
  All-update_at i f [] h a = tt
  All-update_at zero f (x ∷ xs) h (p, a) = (h x refl p, a)
  All-update_at (suc i) f (x ∷ xs) h (p, a) = (p, All-update_at i f xs h a)

  pub All-member {κ} :
      (P : A → Type κ) (xs : List A) (i : ℕ) (x : A) → All P xs → get_elem? xs i ≡ some x → P x
  All-member P [] i x a e = absurd (ground arith)
  All-member P (y ∷ ys) zero x (p, a) e = subst P (some-injective _ _ e) p
  All-member P (y ∷ ys) (suc i) x (p, a) e = All-member P ys i x a e

  pub All-map {κ κ'} :
      {P : A → Type κ} {Q : A → Type κ'} (xs : List A) → ((x : A) → P x → Q x) → All P xs → All Q xs
  All-map [] f h = tt
  All-map (x ∷ xs) f (p, h) = (f x p, All-map xs f h)

-- Whether the object at an address has been started.
abbrev pub started : Option TaskResult → Bool
started none = false
started (some r) = is_some r.started_at

abbrev pub is_started : List TaskResult → ℕ → Bool
is_started heap a = started (get_elem? heap a)

pub is_started-append :
    (heap : List TaskResult) (r : TaskResult) (a : ℕ)
    → is_started heap a ≡ true
    → is_started (heap ++ r ∷ []) a ≡ true
is_started-append [] r a h = absurd (ground arith)
is_started-append (x ∷ heap) r zero h = h
is_started-append (x ∷ heap) r (suc a) h = is_started-append heap r a h

-- A change that does not take a start back.
abbrev pub KeepsStart : (TaskResult → TaskResult) → Type 0
KeepsStart f = (r : TaskResult) → is_some r.started_at ≡ true → is_some (f r).started_at ≡ true

pub is_started-update_at :
    (a b : ℕ) (f : TaskResult → TaskResult) (heap : List TaskResult)
    → KeepsStart f
    → is_started heap b ≡ true
    → is_started (update_at a f heap) b ≡ true
unfolding update_at
is_started-update_at a b f [] keeps h = h
is_started-update_at zero zero f (x ∷ heap) keeps h = keeps x h
is_started-update_at zero (suc b) f (x ∷ heap) keeps h = h
is_started-update_at (suc a) zero f (x ∷ heap) keeps h = h
is_started-update_at (suc a) (suc b) f (x ∷ heap) keeps h = is_started-update_at a b f heap keeps h

pub mark_ended-KeepsStart : (o : Outcome) (now : ℕ) → KeepsStart (mark_ended o now)
mark_ended-KeepsStart (returned v) now r h = h
mark_ended-KeepsStart (raised e) now r h = h
mark_ended-KeepsStart cancelled now r h = h

pub is_started-mark_running :
    (a now : ℕ) (heap : List TaskResult)
    → a < length heap
    → is_started (update_at a (mark_running now) heap) a ≡ true
unfolding update_at
is_started-mark_running a now [] h = absurd (omega arith)
is_started-mark_running zero now (x ∷ heap) h = refl
is_started-mark_running (suc a) now (x ∷ heap) h = is_started-mark_running a now heap (omega arith)

-- A result that has been started is in order after its end as well.
pub mark_ended-IsShaped :
    (o : Outcome) (now : ℕ) (r : TaskResult)
    → is_some r.started_at ≡ true
    → IsShaped r
    → IsShaped (mark_ended o now r)
mark_ended-IsShaped (returned v) now r s h = ground arith
mark_ended-IsShaped (raised e) now r s h = ground arith
mark_ended-IsShaped cancelled now r s h = ground arith
