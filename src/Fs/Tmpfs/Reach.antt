-- ===== src/Fs/Tmpfs/Reach.antt =====
-- Every sequence of operations on kernel/src/fs/tmpfs.rs from the empty tree.
use flutter_os.Prelude.{
  ℕ, suc, ◌+◌, ◌^◌, ◌≤◌, ◌<◌, ◌≡◌, List, arith, Bool-cases, Option-cases, inl, inr,
}
use flutter_os.Prelude.Dict
use flutter_os.Prelude.Dict.{text_key}
use flutter_os.Fs.Result.{
  FsError, already_exists, dir_exists, FileType, regular, directory, is_directory, Name,
}
use flutter_os.Fs.Tmpfs.{
  Tmpfs, new, get, put, write_bytes, write, add, create, mkdir, truncate, unlink,
}
use flutter_os.Fs.Tmpfs.Tree.{
  IsValid, new-IsValid, write-IsValid, truncate-IsValid, grown, next-put,
}
use flutter_os.Fs.Tmpfs.Names.{with_name, add_eq, add_lem}
use flutter_os.Fs.Tmpfs.Unlink.{unlink-IsValid}

-- One call of a method that changes the tree.
pub data Step (t : Tmpfs) : Tmpfs → Type 0 where
  wrote : (id offset : ℕ) (buf : List ℕ) → Step t (write t id offset buf).1
  truncated : (id n : ℕ) → Step t (truncate t id n).1
  created : (dir : ℕ) (name : Name) → Step t (create t dir name).1
  made : (dir : ℕ) (name : Name) → Step t (mkdir t dir name).1
  unlinked : (dir : ℕ) (name : Name) → Step t (unlink t dir name).1

-- The trees that so many calls lead to.
pub data Reach : ℕ → Tmpfs → Type 0 where
  start : Reach 0 new
  then_do : {n : ℕ} {t u : Tmpfs} → Reach n t → Step t u → Reach (suc n) u

add-IsValid :
    (type : FileType) (taken : FsError) (t : Tmpfs) (dir : ℕ) (name : Name)
    → IsValid t
    → t.next_inode + 1 < 2 ^ 64
    → IsValid (add type taken t dir name).1
unfolding add
add-IsValid type taken t dir name v h = elim (Option-cases (get t dir)) [
  | inl missing ↦ ground (arith, missing)
  | inr (d, e) ↦ elim (Bool-cases (is_directory d.file_type)) [
    | inl isdir ↦ elim (Option-cases (Dict.lookup name d.children)) [
      | inl free ↦ let (_, _, _, _, w) = add_lem type taken t dir name d v h e isdir free in w
      | inr (c, k) ↦ ground (arith, e, isdir, k)
    ]
    | inr other ↦ ground (arith, e, other)
  ]
]

next-add :
    (type : FileType) (taken : FsError) (t : Tmpfs) (dir : ℕ) (name : Name)
    → IsValid t
    → (add type taken t dir name).1.next_inode ≤ t.next_inode + 1
unfolding add
next-add type taken t dir name v = elim (Option-cases (get t dir)) [
  | inl missing ↦ ground (arith, missing)
  | inr (d, e) ↦ elim (Bool-cases (is_directory d.file_type)) [
    | inl isdir ↦ elim (Option-cases (Dict.lookup name d.children)) [
      | inl free ↦
          rw
            (
              add_eq type taken t dir name d v e isdir free,
              next-put (grown t type) dir (with_name d name t.next_inode),
            )
            (omega arith)
      | inr (c, k) ↦ ground (arith, e, isdir, k)
    ]
    | inr other ↦ ground (arith, e, other)
  ]
]

next-write :
    (t : Tmpfs) (id offset : ℕ) (buf : List ℕ) → (write t id offset buf).1.next_inode ≡ t.next_inode
unfolding write put
next-write t id offset buf = elim (Option-cases (get t id)) [
  | inl missing ↦ ground (arith, missing)
  | inr (f, e) ↦ elim (Option-cases (write_bytes f.content offset buf)) [
    | inl crash ↦ ground (arith, e, crash)
    | inr (bytes, w) ↦ ground (arith, e, w)
  ]
]

next-truncate : (t : Tmpfs) (id n : ℕ) → (truncate t id n).1.next_inode ≡ t.next_inode
unfolding truncate put
next-truncate t id n = ground arith

next-unlink : (t : Tmpfs) (dir : ℕ) (name : Name) → (unlink t dir name).1.next_inode ≡ t.next_inode
unfolding unlink
next-unlink t dir name = ground arith

step_lem :
    (t u : Tmpfs)
    → Step t u
    → IsValid t
    → t.next_inode + 1 < 2 ^ 64
    → IsValid u × (u.next_inode ≤ t.next_inode + 1)
unfolding create mkdir
step_lem t _ (wrote id offset buf) v h =
    (write-IsValid t id offset buf v, omega (arith, next-write t id offset buf))
step_lem t _ (truncated id n) v h = (truncate-IsValid t id n v, omega (arith, next-truncate t id n))
step_lem t _ (created dir name) v h = (
  add-IsValid regular already_exists t dir name v h,
  next-add regular already_exists t dir name v,
)
step_lem t _ (made dir name) v h =
    (add-IsValid directory dir_exists t dir name v h, next-add directory dir_exists t dir name v)
step_lem t _ (unlinked dir name) v h =
    (unlink-IsValid t dir name v, omega (arith, next-unlink t dir name))

-- From the empty tree, fewer than 2 ^ 64 - 3 calls of write, truncate, create, mkdir and unlink, with
-- any arguments and whether they fail or not, leave a valid tree whose inode numbers have not wrapped.
pub Reach-IsValid :
    (n : ℕ) (t : Tmpfs) → Reach n t → n + 3 < 2 ^ 64 → IsValid t × (t.next_inode ≤ n + 2)
unfolding new
Reach-IsValid _ _ start h = (new-IsValid, ground arith)
Reach-IsValid _ u (then_do {n} {t} r s) h =
    let (v, k) = Reach-IsValid n t r (omega arith) in
    let (w, l) = step_lem t u s v (omega arith) in (w, omega arith)
