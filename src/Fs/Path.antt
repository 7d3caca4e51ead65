-- ===== src/Fs/Path.antt =====
-- The paths of kernel/src/fs/mod.rs and kernel/src/syscalls/mod.rs: slashes, components, parents and
-- the tests of a mount point. A slash is the byte 47.
pub mod Laws
pub mod Parent
use flutter_os.Prelude.{
  ℕ, zero, suc, ◌+◌, Bool, true, false, not, ◌&&◌, ◌||◌, Option, none, some, List, [], ◌∷◌, ◌++◌,
  ◌==◌, if◌then◌else◌, length, take, drop,
}
use flutter_os.Prelude.Dict.{text_same}
use flutter_os.Fs.Result.{Name}

-- `is_empty`
abbrev pub is_empty {ℓ} : {A : Type ℓ} → List A → Bool
is_empty [] = true
is_empty (x ∷ xs) = false

abbrev pub root_path : Name
root_path = 47 ∷ []

-- `starts_with`, the prefix first
abbrev pub starts_with : Name → Name → Bool
starts_with [] path = true
starts_with (c ∷ prefix) [] = false
starts_with (c ∷ prefix) (d ∷ path) = (c == d) && starts_with prefix path

-- The test of `find_mount`, and the rest of a path that passes it.
unfoldable pub matches : Name → Name → Bool
matches mount_point path =
    if text_same mount_point root_path
    then starts_with root_path path
    else text_same path mount_point || starts_with (mount_point ++ root_path) path

unfoldable pub relative_to : Name → Name → Name
relative_to mount_point path =
    if text_same path mount_point
    then []
    else if text_same mount_point root_path
    then drop 1 path
    else drop (length mount_point) path

-- `trim_matches('/')`
abbrev pub trim_start : Name → Name
trim_start [] = []
trim_start (c ∷ path) = let rest = trim_start path in if c == 47 then rest else c ∷ path

abbrev pub trim_end : Name → Name
trim_end [] = []
trim_end (c ∷ path) =
    let rest = trim_end path in if is_empty rest && (c == 47) then [] else c ∷ rest

-- `split('/')`: the piece that was begun, and the pieces behind it.
abbrev pub pieces : Name → Name × List Name
pieces [] = ([], [])
pieces (c ∷ path) =
    let (piece, rest) = pieces path in if c == 47 then ([], piece ∷ rest) else (c ∷ piece, rest)

abbrev pub split : Name → List Name
split path = (pieces path).0 ∷ (pieces path).1

-- `filter(|s| !s.is_empty())`
abbrev pub non_empty : List Name → List Name
non_empty [] = []
non_empty (s ∷ ss) = let rest = non_empty ss in if is_empty s then rest else s ∷ rest

-- The components that `resolve` walks.
unfoldable pub components : Name → List Name
components relative = non_empty (split (trim_end (trim_start relative)))

-- `rfind('/')`
unfoldable pub rfind : Name → Option ℕ
rfind [] = none
rfind (c ∷ path) = elim (rfind path) [
  | some i ↦ some (suc i)
  | none ↦ if c == 47 then some 0 else none
]

unfoldable pub split_parent_name : Name → Name × Name
split_parent_name path = elim (rfind path) [
  | none ↦ (root_path, path)
  | some i ↦ if i == 0 then (root_path, drop 1 path) else (take i path, drop (i + 1) path)
]

-- `rsplit_once('/')` with its default, and the last piece of `rsplit('/')`, as `sys_mkdir` and
-- `sys_unlink` take them.
unfoldable pub parent_of : Name → Name
parent_of path = elim (rfind path) [ none ↦ root_path | some i ↦ take i path ]

unfoldable pub name_of : Name → Name
name_of path = elim (rfind path) [ none ↦ path | some i ↦ drop (i + 1) path ]
