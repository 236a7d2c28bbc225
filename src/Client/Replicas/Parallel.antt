-- ===== src/Client/Replicas/Parallel.antt =====
-- The calls of internal/client/client.go and internal/client/file_handle.go to all the replicas of a
-- file in any order: each runs in a goroutine of its own, and a data node serves one at a time.
use file_storage.Client.Replicas.{CallError, Result, on_replicas}
use file_storage.Types.{Replica}
use file_storage.Base.{Bool, List, [], ◌∷◌, ◌≡◌, refl, ap}

-- One replica of a list, and the others.
pub data IsRemoved (r : Replica) : List Replica → List Replica → Type 0 where
  at_front : (replicas : List Replica) → IsRemoved r (r ∷ replicas) replicas
  behind :
      (s : Replica) (replicas rest : List Replica)
      → IsRemoved r replicas rest
      → IsRemoved r (s ∷ replicas) (s ∷ rest)

-- The calls to the replicas that are left, in any order, with the results in this order.
pub data Parallel {W : Type 0} (call : Replica → W → Result CallError Bool × W)
    : List Replica → W → List (Result CallError Bool) → W → Type 0 where
  finished : (w : W) → Parallel call [] w [] w
  returned :
      (r : Replica) (replicas rest : List Replica) (w last : W)
      (results : List (Result CallError Bool))
      → IsRemoved r replicas rest
      → Parallel call rest (call r w).1 results last
      → Parallel call replicas w ((call r w).0 ∷ results) last

-- An order of the replicas.
pub data IsOrder : List Replica → List Replica → Type 0 where
  no_replica : IsOrder [] []
  next :
      (r : Replica) (replicas rest order : List Replica)
      → IsRemoved r replicas rest
      → IsOrder rest order
      → IsOrder replicas (r ∷ order)

-- Calls in any order are the calls one after the other for some order of the replicas.
pub Parallel-on_replicas :
    {W : Type 0} (call : Replica → W → Result CallError Bool × W) (replicas : List Replica)
    (w last : W) (results : List (Result CallError Bool))
    → Parallel call replicas w results last
    → (order : List Replica) × IsOrder replicas order × (on_replicas call order w ≡ (results, last))
unfolding on_replicas
Parallel-on_replicas call _ _ _ _ (finished w) = ([], no_replica, refl)
Parallel-on_replicas {W = W} call _ _ _ _ (returned r replicas rest w last results removed run) =
    let (order, is_order, ran) = Parallel-on_replicas call rest (call r w).1 last results run in
    (
      r ∷ order,
      next r replicas rest order removed is_order,
      ap (λ (x : List (Result CallError Bool) × W). ((call r w).0 ∷ x.0, x.1)) ran,
    )
