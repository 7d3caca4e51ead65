-- ===== src/Kernel/Syscall/Cwd.antt =====
-- The current directory between chdir and getcwd of kernel/src/syscalls/mod.rs.
use flutter_os.Prelude.{
  ℕ, ◌+◌, ◌<◌, ◌≡◌, refl, ◌≢◌, Bool, true, some, List, [], ◌∷◌, length, arith, Bool-cases,
  Option-cases, inl, inr, ◌∙◌, ap, sym, subst,
}
use flutter_os.Prelude.Int.{pos}
use flutter_os.Fs.Result.{Result, ok, err, panicked, is_directory, Name, FileOps}
use flutter_os.Fs.Vfs.{Vfs, mount_at, resolve}
use flutter_os.Kernel.Syscall.World.{
  World, returns, enoent, store, cstring, read_path, on_result, on_path,
}
use flutter_os.Kernel.Syscall.Memory.{
  store_outside, store_inside, no_zero, cstring-no_zero, cstring_held,
}
use flutter_os.Kernel.Syscall.Names.{enter, sys_getcwd, sys_chdir}

-- What a path that is read is like.
read_path_lem :
    (is_utf8 : List ℕ → Bool) (m : ℕ → ℕ) (a : ℕ) (p : Name)
    → read_path is_utf8 m a ≡ inr p
    → (is_utf8 p ≡ true) × (no_zero p ≡ true) × (length p < 256)
unfolding read_path
read_path_lem is_utf8 m a p e = elim (Option-cases (cstring 256 m a)) [
  | inl missing ↦ absurd (ground (arith, e, missing))
  | inr (bytes, at) ↦
      let same : bytes ≡ p = ground (arith, e, at) in
      let (clean, short) = cstring-no_zero 256 m a p (at ∙ ap (λ k. some k) same) in
      (ground (arith, e, at), clean, short)
]

-- A text with a zero behind it, written to memory, is read as that path.
read_path-store :
    (is_utf8 : List ℕ → Bool) (m : ℕ → ℕ) (a : ℕ) (p : Name)
    → a ≢ 0
    → is_utf8 p ≡ true
    → no_zero p ≡ true
    → length p < 256
    → read_path is_utf8 (store (a + length p) (0 ∷ []) (store a p m)) a ≡ inr p
unfolding read_path
read_path-store is_utf8 m a p ne good clean short =
    let start : a + length p ≡ a + length p + 0 = omega arith in
    let held : cstring 256 (store (a + length p) (0 ∷ []) (store a p m)) a ≡ some p =
      cstring_held 256 (store (a + length p) (0 ∷ []) (store a p m)) a p clean short
        (λ j l.
          store_outside (a + length p) (0 ∷ []) (store a p m) (a + j) (inl (omega (arith, l)))
          ∙ store_inside a p m j l)
        (ap (store (a + length p) (0 ∷ []) (store a p m)) start
          ∙ store_inside (a + length p) (0 ∷ []) (store a p m) 0 (omega arith)) in
    ground (arith, held, ne, good)

getcwd_eq :
    {F : Type 0} (w : World F) (buf size : ℕ)
    → buf ≢ 0
    → length w.cwd < size
    → sys_getcwd w buf size ≡ (
      returns (pos 0),
      record w { memory = store (buf + length w.cwd) (0 ∷ []) (store buf w.cwd w.memory) },
    )
unfolding sys_getcwd
getcwd_eq w buf size ne room = ground (arith, ne, room)

enter_lem :
    {F : Type 0} (o : FileOps F) (p : Name) (at : ℕ × ℕ) (w : World F)
    → (enter o p at w).0 ≡ returns (pos 0)
    → ((enter o p at w).1.cwd ≡ p)
unfolding enter
enter_lem o p at w e = elim (Option-cases (mount_at at.0 w.vfs.mounts)) [
  | inl missing ↦ absurd (ground (arith, e, missing))
  | inr (m, here) ↦ elim (Bool-cases (is_directory (o.file_type m.fs at.1))) [
    | inl dir ↦ rw (enter, here, dir) refl
    | inr other ↦ absurd (ground (arith, e, here, other))
  ]
]

after_resolve :
    {F : Type 0} (o : FileOps F) (p : Name) (w : World F) (r : Result (ℕ × ℕ)) (v : Vfs F)
    → (on_result w (r, v) enoent (enter o p)).0 ≡ returns (pos 0)
    → (on_result w (r, v) enoent (enter o p)).1.cwd ≡ p
after_resolve o p w (ok at) v e = enter_lem o p at (record w { vfs = v }) e
after_resolve o p w (err x) v e = absurd (ground (arith, e))
after_resolve o p w panicked v e = absurd (ground (arith, e))

module _ {F : Type 0} (is_utf8 : List ℕ → Bool) (o : FileOps F) where
  chdir_eq :
      (w : World F) (path : ℕ) (p : Name)
      → read_path is_utf8 w.memory path ≡ inr p
      → sys_chdir is_utf8 o w path ≡ on_result w (resolve o w.vfs p) enoent (enter o p)
  unfolding sys_chdir
  chdir_eq w path p read = rw (sys_chdir, read, on_path) refl

  chdir_lem :
      (w : World F) (path : ℕ) (p : Name)
      → read_path is_utf8 w.memory path ≡ inr p
      → (sys_chdir is_utf8 o w path).0 ≡ returns (pos 0)
      → (sys_chdir is_utf8 o w path).1.cwd ≡ p
  chdir_lem w path p read e =
      let back = chdir_eq w path p read in
      ap (λ x. x.1.cwd) back
      ∙ after_resolve o p w (resolve o w.vfs p).0 (resolve o w.vfs p).1
          (sym (ap (λ x. x.0) back) ∙ e)

  -- After a chdir that succeeds, getcwd with a buffer that has room for the path and a zero succeeds,
  -- and the buffer then reads as the path that chdir was given.
  pub getcwd-chdir :
      (w : World F) (path buf size : ℕ) (p : Name)
      → read_path is_utf8 w.memory path ≡ inr p
      → (sys_chdir is_utf8 o w path).0 ≡ returns (pos 0)
      → buf ≢ 0
      → length p < size
      → let (reply, w') = sys_getcwd (sys_chdir is_utf8 o w path).1 buf size in
        (reply ≡ returns (pos 0)) × (read_path is_utf8 w'.memory buf ≡ inr p)
  getcwd-chdir w path buf size p read e ne room =
      let (good, clean, short) = read_path_lem is_utf8 w.memory path p read in
      let u = (sys_chdir is_utf8 o w path).1 in
      let at : u.cwd ≡ p = chdir_lem w path p read e in
      let done = getcwd_eq u buf size ne (subst (λ k. length k < size) (sym at) room) in
      rw (done, at) (refl, read_path-store is_utf8 u.memory buf p ne good clean short)
