-- ===== src/Kernel/Oom.antt =====
-- kernel/src/oom.rs: what the allocator's error handler does to the process table.
pub mod Laws
use flutter_os.Prelude.{
  ℕ, ◌+◌, Bool, true, false, ◌&&◌, Option, none, some, List, [], ◌∷◌, ltb, if◌then◌else◌,
}
use flutter_os.Prelude.Int.{negsuc}
use flutter_os.Kernel.Fd
use flutter_os.Kernel.Process.{Process, ProcessTable, zombie, is_zombie, is_ready, reap_zombies}

unfoldable pub count_zombies : List Process → ℕ
count_zombies [] = 0
count_zombies (p ∷ ps) = (if is_zombie p.state then 1 else 0) + count_zombies ps

abbrev pub is_victim : Process → Bool
is_victim p = ltb 2 p.pid && is_ready p.state

unfoldable pub oom_killed : Process → Process
oom_killed p = record p { fd_table = Fd.clear p.fd_table; state = zombie; exit_code = negsuc 8 }

-- The loop of step 2: the first victim becomes a zombie.
unfoldable pub kill_first : List Process → Option (List Process)
kill_first [] = none
kill_first (p ∷ ps) = elim (is_victim p) [
  | true ↦ some (oom_killed p ∷ ps)
  | false ↦ elim (kill_first ps) [ none ↦ none | some qs ↦ some (p ∷ qs) ]
]

-- The result, the table, and the address spaces handed back.
unfoldable pub handle_oom : ProcessTable → Bool × ProcessTable × List ℕ
handle_oom t =
    if ltb 0 (count_zombies t.processes)
    then (let (t', spaces) = reap_zombies t in (true, t', spaces))
    else (elim (kill_first t.processes) [
      | none ↦ (false, t, [])
      | some ps ↦
          let (t', spaces) = reap_zombies (record t { processes = ps }) in (true, t', spaces)
    ])
