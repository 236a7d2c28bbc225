-- ===== src/Client/Replicas.antt =====
-- The calls that internal/client/client.go and internal/client/file_handle.go make to all the
-- replicas of a file at once. The model makes them in the order of the replicas.
pub mod Parallel
use file_storage.Base.{
  inr, inl, ℕ, suc, Bool, Option, none, some, List, [], ◌∷◌, length, ◌≡◌, ◌≤◌, arith,
}
use file_storage.Types.{Replica}
use file_storage.Client.{Result-cases, CallError, Result, err, ok}

-- The result of the call to each replica.
unfoldable pub on_replicas :
    {W : Type 0}
    → (Replica → W → Result CallError Bool × W)
    → List Replica
    → W
    → List (Result CallError Bool) × W
on_replicas call [] w = ([], w)
on_replicas call (r ∷ replicas) w =
    let after = call r w in
    let rest = on_replicas call replicas after.1 in (after.0 ∷ rest.0, rest.1)

-- The number of the results that are no errors.
unfoldable pub success_count : List (Result CallError Bool) → ℕ
success_count [] = 0
success_count (ok a ∷ results) = suc (success_count results)
success_count (err e ∷ results) = success_count results

unfoldable pub first_error : List (Result CallError Bool) → Option CallError
first_error [] = none
first_error (ok a ∷ results) = first_error results
first_error (err e ∷ results) = some e

-- Every call succeeds, one after the other.
pub data AllDone {W : Type 0} (call : Replica → W → Result CallError Bool × W)
    : List Replica → W → W → Type 0 where
  done : (w : W) → AllDone call [] w w
  next :
      (r : Replica) (replicas : List Replica) (a : Bool) (w then_w last : W)
      → call r w ≡ (ok a, then_w)
      → AllDone call replicas then_w last
      → AllDone call (r ∷ replicas) w last

module _ {W : Type 0} (call : Replica → W → Result CallError Bool × W) where
  success_count-on_replicas :
      (replicas : List Replica) (w : W)
      → success_count (on_replicas call replicas w).0 ≤ length replicas
  unfolding on_replicas success_count
  success_count-on_replicas [] w = omega arith
  success_count-on_replicas (r ∷ replicas) w = elim (Result-cases (call r w)) [
    | inl (e, w1, h) ↦ rw h (omega (arith, success_count-on_replicas replicas w1))
    | inr (a, w1, h) ↦ rw h (omega (arith, success_count-on_replicas replicas w1))
  ]

  -- As many successes as there are replicas.
  pub on_replicas-AllDone :
      (replicas : List Replica) (w : W)
      → success_count (on_replicas call replicas w).0 ≡ length replicas
      → AllDone call replicas w (on_replicas call replicas w).1
  unfolding on_replicas success_count
  on_replicas-AllDone [] w all = done w
  on_replicas-AllDone (r ∷ replicas) w all = elim (Result-cases (call r w)) [
    | inl (e, w1, h) ↦ absurd (omega (arith, success_count-on_replicas replicas w1, rw h at all))
    | inr (a, w1, h) ↦
        rw h (
          next r replicas a w w1 _ h (on_replicas-AllDone replicas w1 (omega (arith, rw h at all))))
  ]
