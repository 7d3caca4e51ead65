-- ===== src/Fs/Vfs.antt =====
-- The virtual file system of kernel/src/fs/mod.rs. `F` is the state of a file system of any kind and
-- `o` the methods that its trait object calls.
pub mod Mounts
pub mod Walk
pub mod Create
pub mod ReadAll
use flutter_os.Prelude.{
  ℕ, zero, suc, ◌+◌, ◌-◌, ◌%◌, ◌^◌, Bool, true, false, not, ◌&&◌, ◌||◌, Option, none, some, List,
  [], ◌∷◌, ◌++◌, ◌==◌, ltb, leb, if◌then◌else◌, length,
}
use flutter_os.Prelude.Dict.{text_same}
use flutter_os.Fs.Result.{
  FsError, not_directory, no_mount, Result, ok, err, panicked, and_then, FileType, is_directory,
  Name, DirEntry, FileOps,
}
use flutter_os.Fs.Path.{is_empty, root_path, matches, relative_to, components, split_parent_name}

pub record Mount (F : Type 0) : Type 0 where
  pub mount_point : Name
  pub root_inode : ℕ
  pub fs : F

pub record VfsFile : Type 0 where
  pub inode_id : ℕ
  pub mount_idx : ℕ
  pub offset : ℕ
  pub file_type : FileType

pub record Vfs (F : Type 0) : Type 0 where
  pub mounts : List (Mount F)

-- The rest of a path at which `resolve` stops.
abbrev pub at_root : Name → Bool
at_root relative = is_empty relative || text_same relative root_path

abbrev pub with_index : ℕ → Result ℕ → Result (ℕ × ℕ)
with_index i (ok inode) = ok (i, inode)
with_index i (err e) = err e
with_index i panicked = panicked

-- The file's offset moves by the bytes that were read or written.
abbrev pub advance : VfsFile → ℕ → VfsFile
advance file n = record file { offset = (file.offset + n) % 2 ^ 64 }

module _ {F : Type 0} where
  unfoldable pub new : Vfs F
  new = record { mounts = [] }

  -- The stable sort by falling length of the mount point.
  abbrev pub insert_mount : Mount F → List (Mount F) → List (Mount F)
  insert_mount m [] = m ∷ []
  insert_mount m (n ∷ ms) =
      let rest = insert_mount m ms in
      if ltb (length m.mount_point) (length n.mount_point) then n ∷ rest else m ∷ n ∷ ms

  abbrev pub sort_mounts : List (Mount F) → List (Mount F)
  sort_mounts [] = []
  sort_mounts (m ∷ ms) = insert_mount m (sort_mounts ms)

  unfoldable pub mount : Vfs F → Name → ℕ → F → Vfs F
  mount v point root fs = record v {
    mounts =
        sort_mounts (v.mounts ++ (record { mount_point = point; root_inode = root; fs = fs } ∷ []));
  }

  -- The loop of `find_mount` from index i on.
  abbrev pub find_from : ℕ → List (Mount F) → Name → Option (ℕ × Name)
  find_from i [] path = none
  find_from i (m ∷ ms) path =
      let rest = find_from (i + 1) ms path in
      if matches m.mount_point path then some (i, relative_to m.mount_point path) else rest

  unfoldable pub find_mount : Vfs F → Name → Option (ℕ × Name)
  find_mount v path = find_from 0 v.mounts path

  -- `self.mounts[i]`, which panics out of range.
  abbrev pub mount_at : ℕ → List (Mount F) → Option (Mount F)
  mount_at i [] = none
  mount_at zero (m ∷ ms) = some m
  mount_at (suc i) (m ∷ ms) = mount_at i ms

  -- The file system at an index changes its state.
  abbrev pub set_fs : ℕ → F → List (Mount F) → List (Mount F)
  set_fs i fs [] = []
  set_fs zero fs (m ∷ ms) = record m { fs = fs } ∷ ms
  set_fs (suc i) fs (m ∷ ms) = m ∷ set_fs i fs ms

  abbrev pub with_fs : Vfs F → ℕ → F → Vfs F
  with_fs v i fs = record v { mounts = set_fs i fs v.mounts }

  -- A call of a method of the file system at an index.
  unfoldable pub call : {A : Type 0} → Vfs F → ℕ → (F → Result A × F) → Result A × Vfs F
  call v i method = elim (mount_at i v.mounts) [
    | none ↦ (panicked, v)
    | some m ↦ let (r, fs) = method m.fs in (r, with_fs v i fs)
  ]

  module _ (o : FileOps F) where
    -- The loop of `resolve` over the components.
    unfoldable pub walk : F → ℕ → List Name → Result ℕ × F
    walk fs inode [] = (ok inode, fs)
    walk fs inode (c ∷ cs) =
        if is_directory (o.file_type fs inode)
        then and_then (o.lookup fs inode c) (λ next fs'. walk fs' next cs)
        else (err not_directory, fs)

    unfoldable pub resolve : Vfs F → Name → Result (ℕ × ℕ) × Vfs F
    resolve v path = elim (find_mount v path) [
      | none ↦ (err no_mount, v)
      | some (i, relative) ↦ elim (mount_at i v.mounts) [
        | none ↦ (panicked, v)
        | some m ↦
            if at_root relative
            then (ok (i, m.root_inode), v)
            else let (r, fs) = walk m.fs m.root_inode (components relative) in
              (with_index i r, with_fs v i fs)
      ]
    ]

    abbrev pub type_at : Vfs F → ℕ → ℕ → Result FileType
    type_at v i inode = elim (mount_at i v.mounts) [
      | none ↦ panicked
      | some m ↦ ok (o.file_type m.fs inode)
    ]

    -- The end of `open`.
    abbrev pub opened : Vfs F → ℕ → ℕ → Result VfsFile × Vfs F
    opened v i inode =
        and_then (type_at v i inode, v)
          (λ type w.
            (ok (record { inode_id = inode; mount_idx = i; offset = 0; file_type = type }), w))

    -- `open` of a path that does not resolve, with `create`.
    unfoldable pub open_new : Vfs F → Name → Result VfsFile × Vfs F
    open_new v path = elim (find_mount v path) [
      | none ↦ (err no_mount, v)
      | some (i, _) ↦
          let (parent, name) = split_parent_name path in
          and_then (resolve v parent) (λ dir w.
            and_then (call w i (λ fs. o.create fs dir.1 name)) (λ inode x. opened x i inode))
    ]

    unfoldable pub open_file : Vfs F → Name → Bool → Result VfsFile × Vfs F
    open_file v path create =
        let (r, w) = resolve v path in
        elim r [
          | ok (i, inode) ↦ opened w i inode
          | panicked ↦ (panicked, w)
          | err e ↦ if create then open_new w path else (err e, w)
        ]

    unfoldable pub read : Vfs F → VfsFile → ℕ → Result (List ℕ) × VfsFile × Vfs F
    read v file n =
        let (r, v') = call v file.mount_idx (λ fs. o.read fs file.inode_id file.offset n) in
        elim r [
          | ok bytes ↦ (ok bytes, advance file (length bytes), v')
          | err e ↦ (err e, file, v')
          | panicked ↦ (panicked, file, v')
        ]

    unfoldable pub write : Vfs F → VfsFile → List ℕ → Result ℕ × VfsFile × Vfs F
    write v file buf =
        let (r, v') = call v file.mount_idx (λ fs. o.write fs file.inode_id file.offset buf) in
        elim r [
          | ok n ↦ (ok n, advance file n, v')
          | err e ↦ (err e, file, v')
          | panicked ↦ (panicked, file, v')
        ]

    unfoldable pub size : Vfs F → VfsFile → Result ℕ
    size v file = elim (mount_at file.mount_idx v.mounts) [
      | none ↦ panicked
      | some m ↦ ok (o.size m.fs file.inode_id)
    ]

    -- The loop of `read_all`, with the bytes read so far. Each round reads a byte at least, so as many
    -- rounds as bytes are wanted are enough.
    unfoldable pub read_loop : ℕ → Vfs F → VfsFile → ℕ → List ℕ → Result (List ℕ) × Vfs F
    read_loop zero v file total buf = (ok buf, v)
    read_loop (suc fuel) v file total buf =
        if leb total (length buf)
        then (ok buf, v)
        else let (r, file', w) = read v file (total - length buf) in
          and_then (r, w)
            (λ bytes x.
              let rest = read_loop fuel x file' total (buf ++ bytes) in
              if is_empty bytes then (ok buf, x) else rest)

    unfoldable pub read_all : Vfs F → Name → Result (List ℕ) × Vfs F
    read_all v path =
        and_then (open_file v path false)
          (λ file w. and_then (size w file, w) (λ n x. read_loop n x file n []))

    unfoldable pub readdir : Vfs F → Name → Result (List DirEntry) × Vfs F
    readdir v path = and_then (resolve v path) (λ at w. call w at.0 (λ fs. o.readdir fs at.1))
