-- ===== src/Commands/Peers.antt =====
-- The addresses of the other nodes, as cmd/fstorex-metadata/main.go reads them from a flag.
use Prim.Native.Char.{Char, code}
use Prim.Native.String.append
use file_storage.Base.{
  sym, String, ◌==◌, eq_iff, ◌<>◌, Bool, true, false, not, ◌&&◌, ◌≡◌, refl, ap, ◌∙◌, List, [], ◌∷◌,
  eqb, arith, if◌then◌else◌, Bool-cases, inl, inr,
}
use file_storage.Path.{put_front}
use file_storage.Text.Trim.{
  trim_right, trim_left, trim_space, has_no_space, trim_space-has_no_space,
}

unfoldable pub is_comma : Char → Bool
is_comma c = eqb (code c) b','

-- strings.Split(s, ",")
unfoldable pub split_commas : String → List String
unfolding is_comma
split_commas String.[] = "" ∷ []
split_commas (String.◌∷◌ c s) =
    let rest = split_commas s in if is_comma c then "" ∷ rest else put_front c rest

-- The loop over the parts.
unfoldable pub keep_peers : String → List String → List String
keep_peers id [] = []
keep_peers id (p ∷ parts) =
    let rest = keep_peers id parts in
    if not (trim_space p == "") && not (trim_space p == id) then trim_space p ∷ rest else rest

unfoldable pub parse_peers : String → String → List String
unfolding split_commas keep_peers
parse_peers id peers_str = if peers_str == "" then [] else keep_peers id (split_commas peers_str)

-- Addresses with commas between them.
abbrev pub join_commas : List String → String
join_commas [] = ""
join_commas (p ∷ []) = p
join_commas (p ∷ (q ∷ ps)) = p <> ("," <> join_commas (q ∷ ps))

abbrev pub has_no_comma : String → Bool
has_no_comma String.[] = true
has_no_comma (String.◌∷◌ c s) = not (is_comma c) && has_no_comma s

-- Texts that can be addresses: not empty, with no space and no comma.
abbrev pub AreAddresses : List String → Type 0
AreAddresses [] = Unit {0}
AreAddresses (p ∷ ps) =
    (p == "" ≡ false) × (has_no_space p ≡ true) × (has_no_comma p ≡ true) × AreAddresses ps

abbrev pub without : String → List String → List String
without id [] = []
without id (p ∷ ps) = if p == id then without id ps else p ∷ without id ps

split_commas-one : (p : String) → has_no_comma p ≡ true → split_commas p ≡ p ∷ []
unfolding split_commas
split_commas-one String.[] h = refl
split_commas-one (String.◌∷◌ c s) h = ground (arith, split_commas-one s)

split_commas-append :
    (p s : String) → has_no_comma p ≡ true → split_commas (p <> ("," <> s)) ≡ p ∷ split_commas s
unfolding split_commas
split_commas-append String.[] s h = rw append.nil (rw append.cons (rw append.nil refl))
split_commas-append (String.◌∷◌ c p) s h = rw append.cons (ground (arith, split_commas-append p s))

-- A joined list is split into its addresses.
split_commas-join_commas :
    (p : String) (ps : List String)
    → AreAddresses (p ∷ ps)
    → split_commas (join_commas (p ∷ ps)) ≡ p ∷ ps
split_commas-join_commas p [] good = split_commas-one p good.2
split_commas-join_commas p (q ∷ ps) good =
    split_commas-append p (join_commas (q ∷ ps)) good.2
    ∙ ap (λ rest. p ∷ rest) (split_commas-join_commas q ps good.3)

keep_peers-without :
    (id : String) (ps : List String) → AreAddresses ps → keep_peers id ps ≡ without id ps
unfolding keep_peers
keep_peers-without id [] good = refl
keep_peers-without id (p ∷ ps) good =
    rw (trim_space-has_no_space p good.1) (ground (arith, keep_peers-without id ps good.3))

-- The test for an empty flag changes nothing.
parse_peers_lem : (id s : String) → parse_peers id s ≡ keep_peers id (split_commas s)
unfolding parse_peers
parse_peers_lem id s = elim (Bool-cases (s == "")) [
  | inl empty ↦
      rw empty (none_kept ∙ ap (λ t. keep_peers id (split_commas t)) (sym ((eq_iff s "").0 empty)))
  | inr full ↦ rw full refl
]
  where
    none_kept : [] ≡ keep_peers id (split_commas "")
    none_kept = unfold split_commas keep_peers trim_space trim_left trim_right in refl

-- The flag with the addresses of a cluster, commas between them, is read as the addresses of the
-- other nodes, in their order: they are not empty and have no space and no comma.
pub parse_peers-join_commas :
    (id : String) (ps : List String)
    → AreAddresses ps
    → parse_peers id (join_commas ps) ≡ without id ps
unfolding parse_peers
parse_peers-join_commas id [] good = refl
parse_peers-join_commas id (p ∷ ps) good =
    parse_peers_lem id (join_commas (p ∷ ps))
    ∙ ap (keep_peers id) (split_commas-join_commas p ps good)
    ∙ keep_peers-without id (p ∷ ps) good
