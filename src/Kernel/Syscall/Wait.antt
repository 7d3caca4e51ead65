-- ===== src/Kernel/Syscall/Wait.antt =====
-- Reaping a child by waitpid of kernel/src/syscalls/mod.rs.
use flutter_os.Prelude.{
  ℕ, ◌-◌, ◌^◌, ◌<◌, ◌≡◌, refl, ◌≢◌, true, false, none, some, List, [], ◌∷◌, if◌then◌else◌, ◌==◌,
  arith, Bool-cases, inl, inr, ◌∙◌, ==-refl,
}
use flutter_os.Prelude.Int.{pos, bits32}
use flutter_os.Prelude.Slots
use flutter_os.Kernel.Process.{Process, pid_of, get, free_process, is_zombie}
use flutter_os.Kernel.Process.Laws.{IsValid}
use flutter_os.Kernel.Process.Reap.{free_process_lem}
use flutter_os.Kernel.Scheduler.{Busy}
use flutter_os.Kernel.Syscall.World.{store, to_bytes, World, returns, echild, table_of, with_table}
use flutter_os.Kernel.Syscall.Processes.{first_child, store_status, sys_waitpid}

first_child_self :
    (parent pid : ℕ) (ps : List Process) (p : Process)
    → Slots.find pid_of pid ps ≡ some p
    → pid ≢ 0
    → (pid == 2 ^ 64 - 1) ≡ false
    → p.parent_pid ≡ parent
    → first_child parent pid ps ≡ some p
unfolding Slots.find first_child
first_child_self parent pid [] p e h g k = absurd (ground (arith, e))
first_child_self parent pid (q ∷ ps) p e h g k = elim (Bool-cases (q.pid == pid)) [
  | inl hit ↦ ground (arith, e, h, g, k, hit)
  | inr miss ↦ ground (arith, e, g, miss, first_child_self parent pid ps p)
]

first_child-none :
    (parent pid : ℕ) (ps : List Process)
    → Slots.find pid_of pid ps ≡ none
    → (pid == 2 ^ 64 - 1) ≡ false
    → first_child parent pid ps ≡ none
unfolding Slots.find first_child
first_child-none parent pid [] e g = refl
first_child-none parent pid (q ∷ ps) e g = elim (Bool-cases (q.pid == pid)) [
  | inl hit ↦ absurd (ground (arith, e, hit))
  | inr miss ↦ ground (arith, e, g, miss, first_child-none parent pid ps)
]

module _ {F : Type 0} (b : Busy) where
  waitpid_eq :
      (w : World F) (pid status : ℕ) (p : Process)
      → first_child (table_of w).current_pid pid (table_of w).processes ≡ some p
      → is_zombie p.state ≡ true
      → sys_waitpid b w pid status ≡ (
        returns (pos p.pid),
        with_table
            (record w { memory = store_status status p.exit_code w.memory })
            (free_process (table_of w) p.pid).1,
      )
  unfolding sys_waitpid
  waitpid_eq w pid status p e z = rw (sys_waitpid, e, z) refl

  waitpid_none :
      (w : World F) (pid status : ℕ)
      → first_child (table_of w).current_pid pid (table_of w).processes ≡ none
      → sys_waitpid b w pid status ≡ (returns echild, w)
  unfolding sys_waitpid
  waitpid_none w pid status e = rw (sys_waitpid, e) refl

  -- On a valid table, waiting for a child that is a zombie returns its pid and writes its exit
  -- code in four bytes, unless the address to write to is 0.
  -- The child is gone and every other process is as it was, and a second wait for it fails with ECHILD
  -- and changes nothing: a child is reaped once.
  pub waitpid-reaps :
      (w : World F) (pid status : ℕ) (p : Process)
      → IsValid (table_of w)
      → pid ≢ 0
      → pid < 2 ^ 32
      → get (table_of w) pid ≡ some p
      → p.parent_pid ≡ (table_of w).current_pid
      → is_zombie p.state ≡ true
      → let (r, w') = sys_waitpid b w pid status in
        (r ≡ returns (pos pid))
        × (w'.memory ≡ (
            if status == 0
            then w.memory
            else store status (to_bytes 4 (bits32 p.exit_code)) w.memory))
        × ((j : ℕ) → j ≢ 0 → get (table_of w') j ≡ (if j == pid then none else get (table_of w) j))
        × (sys_waitpid b w' pid status ≡ (returns echild, w'))
  unfolding get
  waitpid-reaps w pid status p v h small e parent z =
      let t = table_of w in
      let other : (pid == 2 ^ 64 - 1) ≡ false = ground (arith, small) in
      let named : p.pid ≡ pid = Slots.find-key pid_of pid t.processes p e in
      let found = first_child_self t.current_pid pid t.processes p e h other parent in
      let (_, gone, _, _, _) = free_process_lem t pid p v h e in
      rw (waitpid_eq w pid status p found z, named)
        (
          refl,
          refl,
          gone,
          waitpid_none
              (with_table (record w { memory = store_status status p.exit_code w.memory })
                (free_process t pid).1)
              pid status
              (first_child-none (free_process t pid).1.current_pid pid
                (free_process t pid).1.processes (gone pid h ∙ (rw (==-refl pid) refl)) other),
        )
