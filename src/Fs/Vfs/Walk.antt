-- ===== src/Fs/Vfs/Walk.antt =====
-- Resolving paths of kernel/src/fs/mod.rs over kernel/src/fs/tmpfs.rs.
use flutter_os.Prelude.{
  ℕ, zero, suc, ◌+◌, ◌≡◌, refl, true, some, List, [], ◌∷◌, ◌++◌, arith, Bool-cases, inl, inr, ◌∙◌,
  ap, sym,
}
use flutter_os.Prelude.Dict.{text_key, text_same_iff}
use flutter_os.Fs.Result.{FsError, ok, err, Result-cases, is_directory, Name}
use flutter_os.Fs.Tmpfs.{Tmpfs, lookup, file_type, ops}
use flutter_os.Fs.Path.{root_path, components}
use flutter_os.Fs.Path.Parent.{no_components, root_components}
use flutter_os.Fs.Vfs.{
  Mount, Vfs, find_from, find_mount, mount_at, set_fs, with_fs, walk, at_root, with_index, resolve,
}

set_fs-same :
    (i : ℕ) (ms : List (Mount Tmpfs)) (m : Mount Tmpfs)
    → mount_at i ms ≡ some m
    → set_fs i m.fs ms ≡ ms
set_fs-same i [] m e = refl
set_fs-same zero (n ∷ ms) m e = ground (arith, e)
set_fs-same (suc i) (n ∷ ms) m e = ap (λ k. n ∷ k) (set_fs-same i ms m e)

pub mount_at-set_fs :
    (i : ℕ) (t : Tmpfs) (ms : List (Mount Tmpfs)) (m : Mount Tmpfs)
    → mount_at i ms ≡ some m
    → mount_at i (set_fs i t ms) ≡ some (record m { fs = t })
mount_at-set_fs i t [] m e = absurd (ground (arith, e))
mount_at-set_fs zero t (n ∷ ms) m e = ground (arith, e)
mount_at-set_fs (suc i) t (n ∷ ms) m e = mount_at-set_fs i t ms m e

find_from-set_fs :
    (k i : ℕ) (t : Tmpfs) (ms : List (Mount Tmpfs)) (path : Name)
    → find_from k (set_fs i t ms) path ≡ find_from k ms path
find_from-set_fs k i t [] path = refl
find_from-set_fs k zero t (n ∷ ms) path = refl
find_from-set_fs k (suc i) t (n ∷ ms) path = rw (find_from-set_fs (k + 1) i t ms path) refl

pub find_mount-with_fs :
    (v : Vfs Tmpfs) (i : ℕ) (t : Tmpfs) (path : Name)
    → find_mount (with_fs v i t) path ≡ find_mount v path
unfolding find_mount
find_mount-with_fs v i t path = find_from-set_fs 0 i t v.mounts path

-- Walking changes nothing on this file system.
walk_same : (t : Tmpfs) (id : ℕ) (cs : List Name) → (walk ops t id cs).1 ≡ t
unfolding walk
walk_same t id [] = refl
walk_same t id (c ∷ cs) = elim (Bool-cases (is_directory (file_type t id))) [
  | inl dir ↦ elim (Result-cases (lookup t id c)) [
    | inl (next, found) ↦ rw (dir, found) (walk_same t next cs)
    | inr (inl (e, failed)) ↦ rw (dir, failed) refl
    | inr (inr crash) ↦ rw (dir, crash) refl
  ]
  | inr other ↦ rw other refl
]

pub walk_end : (t : Tmpfs) (id : ℕ) → (walk ops t id []).0 ≡ ok id
unfolding walk
walk_end t id = refl

pub walk_next :
    (t : Tmpfs) (id next : ℕ) (c : Name) (cs : List Name)
    → is_directory (file_type t id) ≡ true
    → lookup t id c ≡ ok next
    → (walk ops t id (c ∷ cs)).0 ≡ (walk ops t next cs).0
unfolding walk
walk_next t id next c cs dir found = rw (dir, found) refl

pub walk_stopped :
    (t : Tmpfs) (id : ℕ) (c : Name) (cs : List Name) (e : FsError)
    → is_directory (file_type t id) ≡ true
    → lookup t id c ≡ err e
    → (walk ops t id (c ∷ cs)).0 ≡ err e
unfolding walk
walk_stopped t id c cs e dir failed = rw (dir, failed) refl

walk_taken :
    (t : Tmpfs) (id last : ℕ) (c : Name) (cs : List Name)
    → (walk ops t id (c ∷ cs)).0 ≡ ok last
    → (next : ℕ) × (is_directory (file_type t id) ≡ true)
      × (lookup t id c ≡ ok next)
      × ((walk ops t next cs).0 ≡ ok last)
unfolding walk
walk_taken t id last c cs e = elim (Bool-cases (is_directory (file_type t id))) [
  | inl dir ↦ elim (Result-cases (lookup t id c)) [
    | inl (next, found) ↦ (next, dir, found, sym (walk_next t id next c cs dir found) ∙ e)
    | inr (inl (x, failed)) ↦ absurd (ground (arith, e, dir, failed))
    | inr (inr crash) ↦ absurd (ground (arith, e, dir, crash))
  ]
  | inr other ↦ absurd (ground (arith, e, other))
]

pub walk-append :
    (t : Tmpfs) (id dir : ℕ) (cs : List Name) (name : Name)
    → (walk ops t id cs).0 ≡ ok dir
    → (walk ops t id (cs ++ (name ∷ []))).0 ≡ (walk ops t dir (name ∷ [])).0
walk-append t id dir [] name e =
    let same : id ≡ dir = ground (arith, e, walk_end t id) in rw same refl
walk-append t id dir (c ∷ cs) name e =
    let (next, isdir, found, rest) = walk_taken t id dir c cs e in
    walk_next t id next c (cs ++ (name ∷ [])) isdir found ∙ walk-append t next dir cs name rest

-- A walk that succeeds does so in every tree that finds the same names at least.
pub walk_mono :
    (t u : Tmpfs) (id dir : ℕ) (cs : List Name)
    → ((d next : ℕ) (n : Name) → lookup t d n ≡ ok next → lookup u d n ≡ ok next)
    → ((d : ℕ) → is_directory (file_type t d) ≡ true → is_directory (file_type u d) ≡ true)
    → (walk ops t id cs).0 ≡ ok dir
    → (walk ops u id cs).0 ≡ ok dir
walk_mono t u id dir [] names dirs e = walk_end u id ∙ (sym (walk_end t id) ∙ e)
walk_mono t u id dir (c ∷ cs) names dirs e =
    let (next, isdir, found, rest) = walk_taken t id dir c cs e in
    walk_next u id next c cs (dirs id isdir) (names id next c found)
    ∙ walk_mono t u next dir cs names dirs rest

at_root-components : (rest : Name) → at_root rest ≡ true → components rest ≡ []
at_root-components [] h = no_components
at_root-components (c ∷ rest) h =
    let e = (text_same_iff (c ∷ rest) root_path).0 h in ap (λ s. components s) e ∙ root_components

pub with_fs-same :
    (v : Vfs Tmpfs) (i : ℕ) (m : Mount Tmpfs) → mount_at i v.mounts ≡ some m → with_fs v i m.fs ≡ v
with_fs-same v i m at = ap (λ ms. record v { mounts = ms }) (set_fs-same i v.mounts m at)

-- What `resolve` gives, the case of the mount's root included.
pub resolve_eq :
    (v : Vfs Tmpfs) (path : Name) (i : ℕ) (rest : Name) (m : Mount Tmpfs)
    → find_mount v path ≡ some (i, rest)
    → mount_at i v.mounts ≡ some m
    → resolve ops v path ≡ (with_index i (walk ops m.fs m.root_inode (components rest)).0, v)
unfolding resolve
resolve_eq v path i rest m e at = elim (Bool-cases (at_root rest)) [
  | inl top ↦ rw (resolve, e, at, top, at_root-components rest top, walk_end m.fs m.root_inode) refl
  | inr below ↦
      rw
        (
          resolve,
          e,
          at,
          below,
          walk_same m.fs m.root_inode (components rest),
          with_fs-same v i m at,
        )
        refl
]
