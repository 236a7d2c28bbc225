-- ===== src/DataNode/Disk/Laws.antt =====
-- Laws of the map of a disk.
use file_storage.Base.{
  ◌∙◌, String, ◌≡◌, refl, none, some, [], ◌∷◌, arith, ◌==◌, eq_iff, if◌then◌else◌,
}
use file_storage.DataNode.Disk.{Node, Disk, get_node, set_node, remove_node}

pub get_node-set_node :
    (k j : String) (n : Node) (disk : Disk)
    → get_node j (set_node k n disk) ≡ (if k == j then some n else get_node j disk)
unfolding get_node set_node
get_node-set_node k j n [] = refl
get_node-set_node k j n ((i, m) ∷ disk) =
    ground (arith, eq_iff k j, eq_iff i k, eq_iff i j, get_node-set_node k j n disk)

pub get_node-remove_node :
    (k j : String) (disk : Disk)
    → get_node j (remove_node k disk) ≡ (if k == j then none else get_node j disk)
unfolding get_node remove_node
get_node-remove_node k j [] = ground arith
get_node-remove_node k j ((i, m) ∷ disk) =
    ground (arith, eq_iff k j, eq_iff i k, eq_iff i j, get_node-remove_node k j disk)

pub get_node-set_self :
    (k : String) (n : Node) (disk : Disk) → get_node k (set_node k n disk) ≡ some n
get_node-set_self k n disk = get_node-set_node k k n disk ∙ rw ((eq_iff k k).1 refl)

pub get_node-remove_self : (k : String) (disk : Disk) → get_node k (remove_node k disk) ≡ none
get_node-remove_self k disk = get_node-remove_node k k disk ∙ rw ((eq_iff k k).1 refl)
