-- ===== src/Kernel/Syscall/Fds.antt =====
-- Writing to an open file by its descriptor: kernel/src/syscalls/mod.rs down to kernel/src/fs/tmpfs.rs.
use flutter_os.Prelude.{
  ℕ, zero, suc, ◌+◌, ◌<◌, ◌≡◌, refl, ◌≢◌, true, false, none, some, ◌==◌, length, get_or, arith,
  Bool-cases, Option-cases, inl, inr, ◌∙◌, ap, get_or-set_self, ==-refl, ==_iff,
}
use flutter_os.Prelude.Slots
use flutter_os.Kernel.Fd
use flutter_os.Kernel.Fd.{FdTable, FdKind, vfs_file, free, with_offset}
use flutter_os.Kernel.Process.{Process, ProcessTable, pid_of, get, modify}
use flutter_os.Kernel.Process.Laws.{get-modify}
use flutter_os.Kernel.Syscall.World.{World, load, current_fds, set_fds, table_of, with_table}

pub length-load : (m : ℕ → ℕ) (a n : ℕ) → length (load m a n) ≡ n
unfolding load
length-load m a zero = refl
length-load m a (suc n) = ap (λ k. suc k) (length-load m (a + 1) n)

pub get_or-load : (m : ℕ → ℕ) (a n j : ℕ) → j < n → get_or (load m a n) j 0 ≡ m (a + j)
unfolding load
get_or-load m a zero j h = absurd (omega (arith, h))
get_or-load m a (suc n) zero h = ap m (omega arith)
get_or-load m a (suc n) (suc j) h =
    get_or-load m (a + 1) n j (omega (arith, h)) ∙ ap m (omega arith)

module _ {F : Type 0} (w : World F) where
  current_fds_kernel : (table_of w).current_pid ≡ 0 → current_fds w ≡ w.global_fds
  unfolding current_fds
  current_fds_kernel h = ground (arith, h)

  current_fds_missing :
      get (table_of w) (table_of w).current_pid ≡ none → current_fds w ≡ w.global_fds
  unfolding current_fds
  current_fds_missing h = ground (arith, h)

  current_fds_user :
      (p : Process)
      → (table_of w).current_pid ≢ 0
      → get (table_of w) (table_of w).current_pid ≡ some p
      → current_fds w ≡ p.fd_table
  unfolding current_fds
  current_fds_user p n h = ground (arith, n, h)

  set_fds_kernel :
      (fds : FdTable) → (table_of w).current_pid ≡ 0 → set_fds w fds ≡ record w { global_fds = fds }
  unfolding set_fds
  set_fds_kernel fds h =
      let k : ((table_of w).current_pid == 0) ≡ true = ground (arith, h) in rw (set_fds, k) refl

  set_fds_missing :
      (fds : FdTable)
      → (table_of w).current_pid ≢ 0
      → get (table_of w) (table_of w).current_pid ≡ none
      → set_fds w fds ≡ record w { global_fds = fds }
  unfolding set_fds
  set_fds_missing fds n h =
      let k : ((table_of w).current_pid == 0) ≡ false = ground (arith, n) in rw (set_fds, k, h) refl

  set_fds_user :
      (fds : FdTable) (p : Process)
      → (table_of w).current_pid ≢ 0
      → get (table_of w) (table_of w).current_pid ≡ some p
      → set_fds w fds
        ≡ with_table w
            (modify (table_of w) (table_of w).current_pid (λ q. record q { fd_table = fds }))
  unfolding set_fds
  set_fds_user fds p n h =
      let k : ((table_of w).current_pid == 0) ≡ false = ground (arith, n) in rw (set_fds, k, h) refl

get-pid : (t : ProcessTable) (k : ℕ) (p : Process) → get t k ≡ some p → p.pid ≡ k
unfolding get
get-pid t k p e = Slots.find-key pid_of k t.processes p e

current_pid-modify :
    (t : ProcessTable) (k : ℕ) (f : Process → Process) → (modify t k f).current_pid ≡ t.current_pid
unfolding modify
current_pid-modify t k f = refl

current_fds_changed :
    {F : Type 0} (w : World F) (fds : FdTable) (p : Process)
    → (table_of w).current_pid ≢ 0
    → get (table_of w) (table_of w).current_pid ≡ some p
    → current_fds (
        with_table w
          (modify (table_of w) (table_of w).current_pid (λ q. record q { fd_table = fds })))
      ≡ fds
unfolding modify
current_fds_changed w fds p n e =
    let t = table_of w in
    let pid = t.current_pid in
    let f : Process → Process = λ q. record q { fd_table = fds } in
    let at : get (modify t pid f) pid ≡ some (f p) =
      get-modify t pid pid f p e (get-pid t pid p e) ∙ (rw (==-refl pid) refl) in
    current_fds_user (with_table w (modify t pid f)) (f p) (rw (current_pid-modify t pid f) n)
      (rw (current_pid-modify t pid f) at)

-- The table that is set is the one that is read next.
pub current_fds-set_fds :
    {F : Type 0} (w : World F) (fds : FdTable) → current_fds (set_fds w fds) ≡ fds
current_fds-set_fds w fds = elim (Bool-cases ((table_of w).current_pid == 0)) [
  | inl kernel ↦
      let k = (==_iff (table_of w).current_pid 0).0 kernel in
      rw (set_fds_kernel w fds k) (current_fds_kernel (record w { global_fds = fds }) k)
  | inr user ↦
      let n : (table_of w).current_pid ≢ 0 = ground (arith, user) in
      elim (Option-cases (get (table_of w) (table_of w).current_pid)) [
        | inl missing ↦
            rw (set_fds_missing w fds n missing)
              (current_fds_missing (record w { global_fds = fds }) missing)
        | inr (p, e) ↦ rw (set_fds_user w fds p n e) (current_fds_changed w fds p n e)
      ]
]

-- The offset of an open file moves.
pub get-update_vfs_offset :
    (t : FdTable) (fd m i offset next : ℕ)
    → length t.entries ≡ 128
    → Fd.get t fd ≡ some (vfs_file m i offset)
    → Fd.get (Fd.update_vfs_offset t fd next) fd ≡ some (vfs_file m i next)
unfolding Fd.get Fd.update_vfs_offset
get-update_vfs_offset t fd m i offset next full e =
    ground (arith, full, e, get_or-set_self t.entries fd (vfs_file m i next) free)
