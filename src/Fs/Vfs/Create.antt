-- ===== src/Fs/Vfs/Create.antt =====
-- Opening files that do not exist yet: kernel/src/fs/mod.rs over kernel/src/fs/tmpfs.rs.
use flutter_os.Prelude.{
  ℕ, ◌+◌, ◌^◌, ◌<◌, ◌≡◌, refl, ◌≢◌, true, false, ◌&&◌, none, some, [], ◌∷◌, ◌++◌, ◌==◌,
  if◌then◌else◌, arith, Bool-cases, Option-cases, inl, inr, ◌∙◌, ap, ap₂, sym, ==_iff, ==-refl,
}
use flutter_os.Prelude.Dict
use flutter_os.Prelude.Dict.{text_key, text_same, text_same_iff}
use flutter_os.Fs.Result.{
  FsError, inode_not_found, already_exists, file_not_found, Result, ok, err, panicked, regular,
  is_directory, Name,
}
use flutter_os.Fs.Tmpfs.{Inode, Tmpfs, blank, get, lookup, file_type, add, create, ops}
use flutter_os.Fs.Tmpfs.Laws.{get-put}
use flutter_os.Fs.Tmpfs.Tree.{IsValid, grown, get-grown}
use flutter_os.Fs.Tmpfs.Names.{with_name, add_eq, add_lem, lookup_of}
use flutter_os.Fs.Path.{is_empty, components}
use flutter_os.Fs.Path.Laws.{IsName, parent_dir, split_parent_name-join}
use flutter_os.Fs.Path.{split_parent_name}
use flutter_os.Fs.Vfs.{
  Mount, Vfs, VfsFile, find_mount, mount_at, with_fs, call, walk, with_index, resolve, type_at,
  opened, open_new, open_file,
}
use flutter_os.Fs.Vfs.Mounts.{find_mount-parent}
use flutter_os.Fs.Vfs.Walk.{
  mount_at-set_fs, find_mount-with_fs, walk_next, walk_stopped, walk_end, walk-append, walk_mono,
  resolve_eq,
}

lookup_missing :
    (t : Tmpfs) (k : ℕ) (n : Name) → get t k ≡ none → lookup t k n ≡ err inode_not_found
unfolding lookup
lookup_missing t k n e = ground (arith, e)

pub file_type_of : (t : Tmpfs) (k : ℕ) (f : Inode) → get t k ≡ some f → file_type t k ≡ f.file_type
unfolding file_type
file_type_of t k f e = ground (arith, e)

file_type_missing : (t : Tmpfs) (k : ℕ) → get t k ≡ none → file_type t k ≡ regular
unfolding file_type
file_type_missing t k e = ground (arith, e)

module _ (t : Tmpfs) (dir : ℕ) (name : Name) (d : Inode) (v : IsValid t)
    (room : t.next_inode + 1 < 2 ^ 64) (e : get t dir ≡ some d)
    (isdir : is_directory d.file_type ≡ true) (free : Dict.lookup name d.children ≡ none) where
  -- The tree with the new name.
  abbrev added : Tmpfs
  added = (add regular already_exists t dir name).1

  get-added :
      (k : ℕ)
      → get added k
        ≡ (if dir == k then some (with_name d name t.next_inode) else get (grown t regular) k)
  get-added k =
      ap (λ r. get r.1 k) (add_eq regular already_exists t dir name d v e isdir free)
      ∙ get-put (grown t regular) dir k (with_name d name t.next_inode)

  -- The names and directories of a tree stay when a name is added.
  added-lookup : (k next : ℕ) (n : Name) → lookup t k n ≡ ok next → lookup added k n ≡ ok next
  added-lookup k next n found =
      let (_, fresh, _, others, _) =
        add_lem regular already_exists t dir name d v room e isdir free in
      let far : k ≢ t.next_inode = λ same.
        absurd (ground (arith, found, lookup_missing t k n (ap (λ j. get t j) same ∙ fresh))) in
      (others k n far ∙ elim (Bool-cases ((dir == k) && text_same name n)) [
        | inl hit ↦
            let ek : dir ≡ k = (==_iff dir k).0 (ground (arith, hit)) in
            let en : name ≡ n = (text_same_iff name n).0 (ground (arith, hit)) in
            absurd (
              ground (
                arith,
                found,
                free,
                ap₂ (λ j s. lookup t j s) ek en,
                lookup_of t dir name d e isdir,
              ))
        | inr miss ↦ rw miss found
      ])

  added-directory :
      (k : ℕ) → is_directory (file_type t k) ≡ true → is_directory (file_type added k) ≡ true
  added-directory k h = elim (Option-cases (get t k)) [
    | inl missing ↦ absurd (ground (arith, h, file_type_missing t k missing))
    | inr (f, at) ↦ elim (Bool-cases (dir == k)) [
      | inl here ↦
          ground
            (arith, here, isdir, get-added k, file_type_of added k (with_name d name t.next_inode))
      | inr other ↦ ground (
        arith,
        other,
        h,
        at,
        v.below k f at,
        get-added k,
        get-grown t regular k,
        file_type_of added k f,
        file_type_of t k f at,
      )
    ]
  ]

  added-present : lookup added dir name ≡ ok t.next_inode
  added-present =
      let (_, _, _, others, _) = add_lem regular already_exists t dir name d v room e isdir free in
      others dir name (λ same. absurd (omega (arith, same, v.below dir d e)))
      ∙ (rw (==-refl dir, (text_same_iff name name).1 refl) refl)

with_index_ok : (i dir : ℕ) (r : Result ℕ) → with_index i r ≡ ok (i, dir) → r ≡ ok dir
with_index_ok i dir (ok k) e = ground (arith, e)
with_index_ok i dir (err x) e = absurd (ground (arith, e))
with_index_ok i dir panicked e = absurd (ground (arith, e))

resolved_walk :
    (v : Vfs Tmpfs) (path : Name) (i dir : ℕ) (rest : Name) (m : Mount Tmpfs)
    → find_mount v path ≡ some (i, rest)
    → mount_at i v.mounts ≡ some m
    → resolve ops v path ≡ (ok (i, dir), v)
    → (walk ops m.fs m.root_inode (components rest)).0 ≡ ok dir
resolved_walk v path i dir rest m found at up =
    with_index_ok i dir (walk ops m.fs m.root_inode (components rest)).0
      (sym (ap (λ x. x.0) (resolve_eq v path i rest m found at)) ∙ ap (λ x. x.0) up)

pub opened_eq :
    (v : Vfs Tmpfs) (i inode : ℕ) (m : Mount Tmpfs)
    → mount_at i v.mounts ≡ some m
    → opened ops v i inode ≡ (
      ok (record { inode_id = inode; mount_idx = i; offset = 0; file_type = file_type m.fs inode }),
      v,
    )
opened_eq v i inode m at = rw (opened, type_at, at) refl

pub call_eq :
    {A : Type 0} (v : Vfs Tmpfs) (i : ℕ) (m : Mount Tmpfs) (method : Tmpfs → Result A × Tmpfs)
    → mount_at i v.mounts ≡ some m
    → call v i method ≡ ((method m.fs).0, with_fs v i (method m.fs).1)
unfolding call
call_eq v i m method at = rw (call, at) refl

-- The file that is opened under a new inode number.
abbrev pub new_file : ℕ → ℕ → VfsFile
new_file i inode = record { inode_id = inode; mount_idx = i; offset = 0; file_type = regular }

open_new_eq :
    (v w : Vfs Tmpfs) (path parent name : Name) (i dir inode : ℕ) (rest : Name)
    → find_mount v path ≡ some (i, rest)
    → split_parent_name path ≡ (parent, name)
    → resolve ops v parent ≡ (ok (i, dir), v)
    → call v i (λ fs. create fs dir name) ≡ (ok inode, w)
    → open_new ops v path ≡ opened ops w i inode
unfolding open_new
open_new_eq v w path parent name i dir inode rest found parts up made =
    rw (open_new, found, parts, up, made) refl

open_missing :
    (v : Vfs Tmpfs) (path : Name) (e : FsError)
    → resolve ops v path ≡ (err e, v)
    → open_file ops v path true ≡ open_new ops v path
unfolding open_file
open_missing v path e h =
    let r = ap (λ x. x.0) h in let w = ap (λ x. x.1) h in rw (open_file, r, w) refl

-- Opening a path that does not exist, with `create`, in a directory that does: the path is no mount
-- point, its parent resolves to a directory of a valid tree that has no such name, and the inode
-- numbers are not used up. Without the call the path does not resolve. The call opens an empty regular
-- file at offset 0 under the tree's next inode number, and the path resolves to that inode afterwards.
pub open_file-create :
    (v : Vfs Tmpfs) (a name : Name) (i dir : ℕ) (rest : Name) (m : Mount Tmpfs) (d : Inode)
    → IsName name
    → find_mount v (a ++ 47 ∷ name) ≡ some (i, rest)
    → is_empty rest ≡ false
    → mount_at i v.mounts ≡ some m
    → resolve ops v (parent_dir a) ≡ (ok (i, dir), v)
    → IsValid m.fs
    → m.fs.next_inode + 1 < 2 ^ 64
    → get m.fs dir ≡ some d
    → is_directory d.file_type ≡ true
    → Dict.lookup name d.children ≡ none
    → let path = a ++ 47 ∷ name in
      let inode = m.fs.next_inode in
      let w = with_fs v i (create m.fs dir name).1 in
      (resolve ops v path ≡ (err file_not_found, v))
      × (open_file ops v path true ≡ (ok (new_file i inode), w))
      × (get (create m.fs dir name).1 inode
          ≡ some (record { file_type = regular; content = []; children = [] }))
      × (resolve ops w path ≡ (ok (i, inode), w))
unfolding create
open_file-create v a name i dir rest m d n found full at up valid room e isdir free =
    let t = m.fs in
    let path = a ++ 47 ∷ name in
    let u = (add regular already_exists t dir name).1 in
    let w = with_fs v i u in
    let m' : Mount Tmpfs = record m { fs = u } in
    let at' : mount_at i w.mounts ≡ some m' = mount_at-set_fs i u v.mounts m at in
    let (rest', found', parts) = find_mount-parent v a name i rest n found full in
    let (made, _, file, _, _) =
      add_lem regular already_exists t dir name d valid room e isdir free in
    let isdir_t : is_directory (file_type t dir) ≡ true = rw (file_type_of t dir d e) isdir in
    let isdir_u = added-directory t dir name d valid room e isdir free dir isdir_t in
    let walked : (walk ops t m.root_inode (components rest')).0 ≡ ok dir =
      resolved_walk v (parent_dir a) i dir rest' m found' at up in
    let absent : lookup t dir name ≡ err file_not_found =
      ground (arith, free, lookup_of t dir name d e isdir) in
    let stopped = walk_stopped t dir name [] file_not_found isdir_t absent in
    let before : resolve ops v path ≡ (err file_not_found, v) =
      resolve_eq v path i rest m found at
      ∙ (rw (parts, walk-append t m.root_inode dir (components rest') name walked, stopped) refl) in
    let walked' =
      walk_mono t u m.root_inode dir (components rest')
        (added-lookup t dir name d valid room e isdir free)
        (added-directory t dir name d valid room e isdir free) walked in
    let present : lookup u dir name ≡ ok t.next_inode =
      added-present t dir name d valid room e isdir free in
    let taken = walk_next u dir t.next_inode name [] isdir_u present ∙ walk_end u t.next_inode in
    let type : file_type u t.next_inode ≡ regular =
      file_type_of u t.next_inode (blank regular) file in
    (
      before,
      open_missing v path file_not_found before
          ∙ (open_new_eq v w path (parent_dir a) name i dir t.next_inode rest found
                (split_parent_name-join a name n.1) up
                (call_eq v i m (λ fs. create fs dir name) at ∙ ap (λ r. (r, w)) made)
              ∙ (opened_eq w i t.next_inode m' at' ∙ (rw type refl))),
      file,
      resolve_eq w path i rest m' (find_mount-with_fs v i u path ∙ found) at'
          ∙ (rw (parts, walk-append u m.root_inode dir (components rest') name walked', taken)
              refl),
    )
