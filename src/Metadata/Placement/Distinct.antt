-- ===== src/Metadata/Placement/Distinct.antt =====
-- The replicas that `selectDataNodes` of internal/metadata/mds.go assigns.
use file_storage.Base.{
  ℕ, zero, suc, ◌+◌, ◌-◌, ◌%◌, ◌<◌, ◌≤◌, String, ◌≡◌, ◌≢◌, refl, ap, true, false, some, List, [],
  ◌∷◌, arith, ◌==◌, eq_iff, length, get_elem?, contains, IsNodup, ltb, if◌then◌else◌, Bool-cases,
  Option-cases, inl, inr,
}
use mathlib.Core.Bool.{false≢true}
use native.Mathlib.Decide.{dec_lt}
use native.Mathlib.Nat.{mod-eq_of_lt, mod-eq-sub-mod}
use file_storage.Types.{Replica}
use file_storage.Metadata.Placement.{
  hash_from, start_index, replica_target, pick, remote_path_of, select_data_nodes,
}

get_elem?-in_range :
    {A : Type 0} (xs : List A) (i : ℕ) → i < length xs → (x : A) × (get_elem? xs i ≡ some x)
get_elem?-in_range [] i h = absurd (omega arith)
get_elem?-in_range (x ∷ xs) zero h = (x, refl)
get_elem?-in_range (x ∷ xs) (suc i) h = get_elem?-in_range xs i (omega arith)

contains-get_elem? :
    (xs : List String) (i : ℕ) (x : String) → get_elem? xs i ≡ some x → contains xs x ≡ true
contains-get_elem? [] i x h = ground arith
contains-get_elem? (y ∷ xs) zero x h = ground (arith, eq_iff y x)
contains-get_elem? (y ∷ xs) (suc i) x h = ground (arith, contains-get_elem? xs i x)

-- No address twice, and none that was seen.
abbrev pub AreDistinct : List String → List Replica → Type 0
AreDistinct seen [] = Unit {0}
AreDistinct seen (r ∷ rs) = (contains seen r.addr ≡ false) × AreDistinct (r.addr ∷ seen) rs

-- Every replica lies on a registered node, at the path.
abbrev pub ArePlaced : List String → String → List Replica → Type 0
ArePlaced nodes path [] = Unit {0}
ArePlaced nodes path (r ∷ rs) =
    (contains nodes r.addr ≡ true) × (r.remote_path ≡ path) × ArePlaced nodes path rs

-- A good assignment: at most `most` replicas.
abbrev pub IsAssignment : List String → String → List String → ℕ → List Replica → Type 0
IsAssignment nodes path seen most rs =
    AreDistinct seen rs × ArePlaced nodes path rs × (length rs ≤ most)

pick-IsAssignment :
    (rounds i start : ℕ) (nodes : List String) (path : String) (seen : List String)
    → 0 < length nodes
    → (rs : List Replica) × (pick rounds i start nodes path seen ≡ some rs)
      × IsAssignment nodes path seen rounds rs
unfolding pick
pick-IsAssignment zero i start nodes path seen h = ([], refl, (tt, tt, omega arith))
pick-IsAssignment (suc rounds) i start nodes path seen h =
    let (addr, found) = get_elem?-in_range nodes ((start + i) % length nodes) (omega arith) in
    elim (Bool-cases (contains seen addr)) [
      | inl old ↦
          let (rs, picked, good) = pick-IsAssignment rounds (i + 1) start nodes path seen h in
          (rs, ground arith, (good.0, good.1, omega arith))
      | inr new ↦
          let (rs, picked, good) =
            pick-IsAssignment rounds (i + 1) start nodes path (addr ∷ seen) h in
          (
            (record { addr = addr; remote_path = path }) ∷ rs,
            ground arith,
            (
              (new, good.0),
              (contains-get_elem? nodes ((start + i) % length nodes) addr found, refl, good.1),
              omega arith,
            ),
          )
    ]

get_elem?-unique :
    (xs : List String) (i j : ℕ) (x : String)
    → IsNodup xs
    → get_elem? xs i ≡ some x
    → get_elem? xs j ≡ some x
    → i ≡ j
get_elem?-unique [] i j x u h k = ground arith
get_elem?-unique (y ∷ xs) zero zero x u h k = refl
get_elem?-unique (y ∷ xs) zero (suc j) x u h k = ground (arith, contains-get_elem? xs j x)
get_elem?-unique (y ∷ xs) (suc i) zero x u h k = ground (arith, contains-get_elem? xs i x)
get_elem?-unique (y ∷ xs) (suc i) (suc j) x u h k = ap suc (get_elem?-unique xs i j x u.1 h k)

wrapped : (x n : ℕ) → x < n + n → x % n ≡ (if ltb x n then x else x - n)
wrapped x n h = elim (dec_lt x n) [
  | yes lt ↦ ground (arith, mod-eq_of_lt lt)
  | no ge ↦
      let below : x - n < n = omega arith in
      let reaches : n ≤ x = omega arith in
      ground (arith, mod-eq-sub-mod reaches, mod-eq_of_lt below)
]

-- The indices of two rounds differ while the rounds are fewer than the nodes.
rotation_apart : (start i j n : ℕ) → start < n → i < n → j < i → (start + i) % n ≢ (start + j) % n
rotation_apart start i j n s h k e =
    ground (arith, wrapped (start + i) n (omega arith), wrapped (start + j) n (omega arith))

-- Every address that was seen is that of an earlier round.
abbrev SeenBefore : ℕ → ℕ → List String → List String → Type 0
SeenBefore i start nodes seen =
    (a : String)
    → contains seen a ≡ true
    → (j : ℕ) × (j < i) × (get_elem? nodes ((start + j) % length nodes) ≡ some a)

start_in_range : (h n : ℕ) → 0 < n → start_index h n < n
unfolding start_index
start_in_range h n pos = ground arith

target_in_range : (count n : ℕ) → 0 < n → 0 + replica_target count n ≤ n
unfolding replica_target
target_in_range count n pos = ground arith

module _ (start : ℕ) (nodes : List String) (path : String) (distinct : IsNodup nodes)
    (fits : start < length nodes) where
  new_in_round :
      (i : ℕ) (seen : List String) (addr : String)
      → i < length nodes
      → SeenBefore i start nodes seen
      → get_elem? nodes ((start + i) % length nodes) ≡ some addr
      → contains seen addr ≡ false
  new_in_round i seen addr h before found = elim (Bool-cases (contains seen addr)) [
    | inl old ↦
        let (j, lt, was) = before addr old in
        absurd (
          rotation_apart start i j (length nodes) fits h lt
            (get_elem?-unique nodes _ _ addr distinct found was))
    | inr new ↦ new
  ]

  seen_after :
      (i : ℕ) (seen : List String) (addr : String)
      → SeenBefore i start nodes seen
      → get_elem? nodes ((start + i) % length nodes) ≡ some addr
      → SeenBefore (i + 1) start nodes (addr ∷ seen)
  seen_after i seen addr before found a h = elim (Bool-cases (addr == a)) [
    | inl same ↦ (i, omega arith, ground (arith, eq_iff addr a))
    | inr other ↦ let (j, lt, was) = before a (ground arith) in (j, omega arith, was)
  ]

  length-pick :
      (rounds i : ℕ) (seen : List String) (rs : List Replica)
      → i + rounds ≤ length nodes
      → SeenBefore i start nodes seen
      → pick rounds i start nodes path seen ≡ some rs
      → length rs ≡ rounds
  unfolding pick
  length-pick zero i seen rs h before picked = ground arith
  length-pick (suc rounds) i seen rs h before picked =
      let (addr, found) = get_elem?-in_range nodes ((start + i) % length nodes) (omega arith) in
      let new = new_in_round i seen addr (omega arith) before found in
      elim (Option-cases (pick rounds (i + 1) start nodes path (addr ∷ seen))) [
        | inl failed ↦ ground arith
        | inr (rest, more) ↦ ground (
          arith,
          length-pick rounds (i + 1) (addr ∷ seen) rest (omega arith)
              (seen_after i seen addr before found) more,
        )
      ]

-- With a node registered the code assigns replicas: on registered nodes, no two on the same, all at
-- the path of the file, and at most as many as wanted (one at least is wanted).
pub select_data_nodes-IsAssignment :
    (path file_id : String) (count : ℕ) (nodes : List String)
    → nodes ≢ []
    → (rs : List Replica) × (select_data_nodes path file_id count nodes ≡ some rs)
      × IsAssignment nodes (remote_path_of file_id) [] (replica_target count (length nodes)) rs
unfolding select_data_nodes
select_data_nodes-IsAssignment path file_id count [] some_node = absurd (some_node refl)
select_data_nodes-IsAssignment path file_id count (n ∷ nodes) some_node =
    pick-IsAssignment (replica_target count (length (n ∷ nodes))) 0
      (start_index (hash_from 0 path) (length (n ∷ nodes))) (n ∷ nodes) (remote_path_of file_id) []
      (omega arith)

-- Where no node is registered twice the code assigns exactly as many replicas as wanted: the
-- desired number, or one for each node if these are fewer, and never none.
pub length-select_data_nodes :
    (path file_id : String) (count : ℕ) (nodes : List String)
    → nodes ≢ []
    → IsNodup nodes
    → (rs : List Replica) × (select_data_nodes path file_id count nodes ≡ some rs)
      × (length rs ≡ replica_target count (length nodes))
unfolding select_data_nodes
length-select_data_nodes path file_id count [] some_node distinct = absurd (some_node refl)
length-select_data_nodes path file_id count (n ∷ nodes) some_node distinct =
    let start = start_index (hash_from 0 path) (length (n ∷ nodes)) in
    let wanted = replica_target count (length (n ∷ nodes)) in
    let (rs, picked, good) =
      pick-IsAssignment wanted 0 start (n ∷ nodes) (remote_path_of file_id) [] (omega arith) in
    (
      rs,
      picked,
      length-pick start (n ∷ nodes) (remote_path_of file_id) distinct
          (start_in_range (hash_from 0 path) (length (n ∷ nodes)) (omega arith)) wanted 0 [] rs
          (target_in_range count (length (n ∷ nodes)) (omega arith)) (λ a h. absurd (false≢true h))
          picked,
    )
