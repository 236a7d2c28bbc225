-- ===== src/Metadata/DataNodes/Registry.antt =====
-- The registered nodes and their heartbeats (internal/metadata/apply.go).
use file_storage.Base.{
  ℕ, String, ◌≡◌, refl, false, not, ◌||◌, ◌&&◌, none, some, List, [], ◌∷◌, ◌++◌, arith, ◌==◌,
  eq_iff, contains, IsNodup, is_some, if◌then◌else◌, Bool-cases, inl, inr,
}
use file_storage.Metadata.{CommandPayload, MetadataServer}
use file_storage.Metadata.DataNodes.{
  set_time, delete_time, get_time, remove_node, apply_heartbeat, apply_remove_data_node,
}

pub get_time-set_time :
    (a b : String) (now : ℕ) (m : List (String × ℕ))
    → get_time b (set_time a now m) ≡ (if a == b then some now else get_time b m)
unfolding get_time set_time
get_time-set_time a b now [] = refl
get_time-set_time a b now ((c, t) ∷ m) =
    ground (arith, get_time-set_time a b now m, eq_iff a b, eq_iff c a, eq_iff c b)

pub get_time-delete_time :
    (a b : String) (m : List (String × ℕ))
    → get_time b (delete_time a m) ≡ (if a == b then none else get_time b m)
unfolding get_time delete_time
get_time-delete_time a b [] = ground arith
get_time-delete_time a b ((c, t) ∷ m) =
    ground (arith, get_time-delete_time a b m, eq_iff a b, eq_iff c a, eq_iff c b)

contains-append :
    (xs : List String) (a b : String) → contains (xs ++ (a ∷ [])) b ≡ (contains xs b || a == b)
contains-append [] a b = ground arith
contains-append (x ∷ xs) a b = ground (arith, contains-append xs a b)

append-IsNodup :
    (xs : List String) (a : String) → IsNodup xs → contains xs a ≡ false → IsNodup (xs ++ (a ∷ []))
append-IsNodup [] a u h = (refl, tt)
append-IsNodup (x ∷ xs) a u h = (
  ground (arith, contains-append xs a x, eq_iff a x, eq_iff x a),
  append-IsNodup xs a u.1 (ground arith),
)

contains-remove_node :
    (a b : String) (xs : List String)
    → IsNodup xs
    → contains (remove_node a xs) b ≡ (contains xs b && not (a == b))
unfolding remove_node
contains-remove_node a b [] u = refl
contains-remove_node a b (x ∷ xs) u =
    ground (arith, contains-remove_node a b xs u.1, eq_iff x a, eq_iff x b, eq_iff a b)

remove_node-IsNodup : (a : String) (xs : List String) → IsNodup xs → IsNodup (remove_node a xs)
unfolding remove_node
remove_node-IsNodup a [] u = tt
remove_node-IsNodup a (x ∷ xs) u = elim (Bool-cases (x == a)) [
  | inl same ↦ rw same u.1
  | inr other ↦
      rw other (ground (arith, contains-remove_node a x xs u.1), remove_node-IsNodup a xs u.1)
]

pub record IsRegistry (mds : MetadataServer) : Type 0 where
  pub nodup : IsNodup mds.data_nodes
  pub timed : (a : String) → contains mds.data_nodes a ≡ is_some (get_time a mds.last_heartbeat)

module _ (p : CommandPayload) (mds : MetadataServer) (r : IsRegistry mds) where
  pub apply_heartbeat-IsRegistry : (now : ℕ) → IsRegistry (apply_heartbeat now p mds).1
  unfolding apply_heartbeat
  apply_heartbeat-IsRegistry now = record {
    nodup = elim (Bool-cases (contains mds.data_nodes p.addr)) [
      | inl known ↦ rw known r.nodup
      | inr new ↦ rw new (append-IsNodup mds.data_nodes p.addr r.nodup new)
    ];
    timed = λ a. ground (
      arith,
      get_time-set_time p.addr a now mds.last_heartbeat,
      contains-append mds.data_nodes p.addr a,
      r.timed a,
      eq_iff p.addr a,
    );
  }

  pub apply_remove_data_node-IsRegistry : IsRegistry (apply_remove_data_node p mds).1
  unfolding apply_remove_data_node
  apply_remove_data_node-IsRegistry = record {
    nodup = remove_node-IsNodup p.addr mds.data_nodes r.nodup;
    timed = λ a. ground (
      arith,
      get_time-delete_time p.addr a mds.last_heartbeat,
      contains-remove_node p.addr a mds.data_nodes r.nodup,
      r.timed a,
      eq_iff p.addr a,
    );
  }
