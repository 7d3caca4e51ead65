-- ===== src/Kernel/Syscall/Top.antt =====
-- What mkdir and unlink of kernel/src/syscalls/mod.rs do with a name in the root directory.
use flutter_os.Prelude.{
  ℕ, ◌+◌, ◌≡◌, refl, Bool, true, false, none, List, [], ◌∷◌, if◌then◌else◌, arith, Option-cases,
  inl, inr,
}
use flutter_os.Prelude.Int.{ℤ}
use flutter_os.Fs.Result.{Result, err, no_mount, Name, FileOps}
use flutter_os.Fs.Path.{is_empty, matches, parent_of}
use flutter_os.Fs.Path.Laws.{no_slash, rfind-join}
use flutter_os.Fs.Vfs.{Mount, Vfs, find_from, find_mount, resolve}
use flutter_os.Kernel.Syscall.World.{World, returns, enoent, einval, read_path, on_path}
use flutter_os.Kernel.Syscall.Names.{on_parent, sys_mkdir, sys_unlink}

-- No mount point is the empty text.
abbrev pub named : {F : Type 0} → List (Mount F) → Bool
named [] = true
named (m ∷ ms) = if is_empty m.mount_point then false else named ms

matches_nothing : (mp : Name) → is_empty mp ≡ false → matches mp [] ≡ false
unfolding matches
matches_nothing [] h = absurd (ground (arith, h))
matches_nothing (c ∷ mp) h = ground arith

find_from-nothing :
    {F : Type 0} (i : ℕ) (ms : List (Mount F)) → named ms ≡ true → find_from i ms [] ≡ none
find_from-nothing i [] h = refl
find_from-nothing i (m ∷ ms) h =
    ground (arith, h, matches_nothing m.mount_point, find_from-nothing (i + 1) ms)

parent_of-top : (name : Name) → no_slash name ≡ true → parent_of (47 ∷ name) ≡ []
unfolding parent_of
parent_of-top name h = ground (arith, rfind-join [] name h)

module _ {F : Type 0} (is_utf8 : List ℕ → Bool) (o : FileOps F) where
  resolve-nothing : (v : Vfs F) → named v.mounts ≡ true → resolve o v [] ≡ (err no_mount, v)
  unfolding resolve find_mount
  resolve-nothing v h = ground (arith, find_from-nothing 0 v.mounts h)

  on_parent-top :
      {A : Type 0} (w : World F) (path : ℕ) (code : ℤ) (method : F → ℕ → Name → Result A × F)
      (name : Name)
      → named w.vfs.mounts ≡ true
      → read_path is_utf8 w.memory path ≡ inr (47 ∷ name)
      → no_slash name ≡ true
      → on_parent is_utf8 o w path code method ≡ (returns enoent, w)
  unfolding on_parent
  on_parent-top w path code method name h read clean =
      rw (on_parent, read, on_path)
        (elim (Option-cases (find_mount w.vfs (47 ∷ name))) [
          | inl missing ↦ rw missing refl
          | inr (x, e) ↦ rw (e, parent_of-top name clean, resolve-nothing w.vfs h) refl
        ])

  -- mkdir and unlink of any name in the root directory fail with ENOENT and change nothing, as the
  -- text before the path's only slash is empty and the empty path lies on no mount.
  pub mkdir-unlink-top :
      (w : World F) (path : ℕ) (name : Name)
      → named w.vfs.mounts ≡ true
      → read_path is_utf8 w.memory path ≡ inr (47 ∷ name)
      → no_slash name ≡ true
      → (sys_mkdir is_utf8 o w path ≡ (returns enoent, w))
        × (sys_unlink is_utf8 o w path ≡ (returns enoent, w))
  unfolding sys_mkdir sys_unlink
  mkdir-unlink-top w path name h read clean = (
    on_parent-top w path einval o.mkdir name h read clean,
    on_parent-top w path enoent o.unlink name h read clean,
  )
