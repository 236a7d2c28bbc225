-- ===== src/Metadata/Read.antt =====
-- The requests of internal/metadata/mds.go that read: they look at the state of this server.
-- `filepath.Join` is a parameter.
pub mod Listing
use Prim.Native.Char.{code}
use file_storage.Base.{
  String, Bool, true, false, not, Option, none, some, List, [], ◌∷◌, ltb, eqb, if◌then◌else◌,
}
use file_storage.Types.{FileInfo, FileLocation}
use file_storage.Tree.{Attrs, Entry, attrs, children, Children, nil, child}
use file_storage.Metadata.{MetadataServer}
use file_storage.Metadata.UpdateFile.{lookup}
use file_storage.Metadata.Raft.{no_file, is_directory, no_directory, is_no_directory, no_path}
use file_storage.Metadata.Service.{Answer, failed, replied}

unfoldable pub location : String → Option Entry → Answer FileLocation
location path none = failed (no_file path)
location path (some e) =
    if (attrs e).is_dir
    then failed (is_directory path)
    else replied (record {
      file_id = (attrs e).file_id;
      replicas = (attrs e).replicas;
      status = (attrs e).status;
    })

unfoldable pub get_file_location : String → MetadataServer → Answer FileLocation
unfolding location
get_file_location path mds = location path (lookup path mds)

abbrev pub info_of : String → String → Attrs → FileInfo
info_of name path a = record {
  name = name;
  path = path;
  is_dir = a.is_dir;
  size = a.size;
  mode = a.mode;
  created_at = a.created_at;
  mod_time = a.mod_time;
  file_id = a.file_id;
}

-- The order of texts, by the codes of their characters, as that of their bytes in UTF-8.
unfoldable pub text_lt : String → String → Bool
text_lt String.[] String.[] = false
text_lt String.[] (String.◌∷◌ d t) = true
text_lt (String.◌∷◌ c s) String.[] = false
text_lt (String.◌∷◌ c s) (String.◌∷◌ d t) =
    let rest = text_lt s t in
    if ltb (code c) (code d) then true else if eqb (code c) (code d) then rest else false

-- The comparison of the sort: directories first, then by name.
unfoldable pub info_lt : FileInfo → FileInfo → Bool
unfolding text_lt
info_lt i j =
    if i.is_dir
    then if j.is_dir then text_lt i.name j.name else true
    else if j.is_dir
    then false
    else text_lt i.name j.name

unfoldable pub insert_info : FileInfo → List FileInfo → List FileInfo
unfolding info_lt
insert_info i [] = i ∷ []
insert_info i (j ∷ js) = let rest = insert_info i js in if info_lt j i then j ∷ rest else i ∷ j ∷ js

-- `sort.Slice`, whose result is determined where the names differ.
unfoldable pub sort_infos : List FileInfo → List FileInfo
unfolding insert_info
sort_infos [] = []
sort_infos (i ∷ is) = insert_info i (sort_infos is)

module _ (join : String → String → String) where
  unfoldable pub infos : String → Children → List FileInfo
  infos path nil = []
  infos path (child n e cs) = info_of n (join path n) (attrs e) ∷ infos path cs

  unfoldable pub list_found : String → Option Entry → Answer (List FileInfo)
  unfolding infos sort_infos
  list_found path none = failed (no_directory path)
  list_found path (some e) =
      if not (attrs e).is_dir
      then failed (is_no_directory path)
      else replied (sort_infos (infos path (children e)))

  unfoldable pub list_dir : String → MetadataServer → Answer (List FileInfo)
  unfolding list_found
  list_dir path mds = list_found path (lookup path mds)

unfoldable pub stat_found : String → Option Entry → Answer FileInfo
stat_found path none = failed (no_path path)
stat_found path (some e) = replied (info_of (attrs e).name path (attrs e))

unfoldable pub stat_path : String → MetadataServer → Answer FileInfo
unfolding stat_found
stat_path path mds = stat_found path (lookup path mds)

unfoldable pub list_data_nodes : MetadataServer → Answer (List String)
list_data_nodes mds = replied mds.data_nodes
