-- ===== src/Kernel/Tests/Processes.antt =====
-- Runs of the process table and of the signals.
use flutter_os.Prelude.{
  ℕ, ◌+◌, ◌^◌, ◌<◌, ◌≡◌, refl, ◌≢◌, inr, ◌&&◌, ◌||◌, none, some, List, [], ◌∷◌, arith, ◌==◌,
  if◌then◌else◌, replicate,
}
use flutter_os.Prelude.Int.{pos}
use flutter_os.Prelude.Slots
use flutter_os.Prelude.Slots.{live}
use flutter_os.Kernel.Fd.{FdTable}
use flutter_os.Kernel.Fd.Close.{Closed}
use flutter_os.Kernel.Process
use flutter_os.Kernel.Process.{
  Process, ProcessTable, ready, running, blocked, zombie, empty, pid_of, get, is_zombie, has_bit,
  signal_bit, mark_exit, free_process, dealloc_proc_space, reap_zombies,
}
use flutter_os.Kernel.Process.Laws.{IsValid, SlotsOk-replicate, newborn, alloc-some}
use flutter_os.Kernel.Signal.{sys_kill, deliver_pending_into}
use flutter_os.Kernel.Signal.Laws.{sys_kill_terminates, deliver_lem}
use flutter_os.Kernel.Tests.{shell, editor, dead, table, table-IsValid, get-editor, live_table}

abbrev sh : List ℕ
sh = b's' ∷ b'h' ∷ []

live_room : live pid_of table.processes < 32
live_room = omega (arith, live_table)

alloc-some_example :
    let (pid, t') = Process.alloc table 1 sh in
    (pid ≡ 5)
    × (get table pid ≡ none)
    × ((j : ℕ) → j ≢ 0 → get t' j ≡ (if j == pid then some (newborn pid 1 sh) else get table j))
    × (live pid_of t'.processes ≡ live pid_of table.processes + 1)
    × IsValid t'
alloc-some_example = alloc-some table 1 sh table-IsValid (omega arith) live_room

sys_kill_terminates_example :
    let (ret, t') = sys_kill table 3 15 in
    (ret ≡ pos 0)
    × ((fds : FdTable) × Closed editor.fd_table fds
        × ((j : ℕ)
            → get t' j ≡ (
                if j == 3
                then some (record editor {
                  fd_table = fds;
                  pending_signals = 0;
                  signal_mask = 0;
                  state = zombie;
                  exit_code = pos (128 + 15);
                })
                else get table j)))
    × IsValid t'
sys_kill_terminates_example =
    sys_kill_terminates table 3 15 editor table-IsValid (omega arith) (inr refl) get-editor refl

-- The shell with SIGTERM pending.
abbrev doomed : Process
doomed = record shell { pending_signals = 2 ^ 14 }

abbrev doomed_table : ProcessTable
doomed_table = record table { processes = doomed ∷ editor ∷ dead ∷ replicate 29 empty }

doomed-IsValid : IsValid doomed_table
doomed-IsValid = record {
  full = refl;
  fresh_pid = omega arith;
  below = unfold empty in omega arith;
  distinct = unfold empty in omega arith;
  slots = (refl, (refl, (refl, SlotsOk-replicate 29)));
}

get-doomed : get doomed_table 1 ≡ some doomed
unfolding get Slots.find
get-doomed = refl

deliver_lem_example :
    let kill = has_bit 8 doomed.pending_signals in
    let term = has_bit 14 doomed.pending_signals in
    let t' = deliver_pending_into doomed_table in
    ((fds : FdTable) × Closed doomed.fd_table fds
      × ((j : ℕ)
          → get t' j ≡ (
              if j == 1 && (kill || term)
              then some (record doomed {
                fd_table = fds;
                pending_signals = 0;
                state = zombie;
                exit_code = pos (128 + (if kill then 9 else 15));
              })
              else get doomed_table j)))
    × IsValid t'
deliver_lem_example = deliver_lem doomed_table doomed doomed-IsValid (omega arith) get-doomed

-- The shell with nothing pending, spelled out.
abbrev calm : Process
calm = record shell { pending_signals = 0 }

abbrev calm_table : ProcessTable
calm_table = record table { processes = calm ∷ editor ∷ dead ∷ replicate 29 empty }

calm-IsValid : IsValid calm_table
calm-IsValid = record {
  full = refl;
  fresh_pid = omega arith;
  below = unfold empty in omega arith;
  distinct = unfold empty in omega arith;
  slots = (refl, (refl, (refl, SlotsOk-replicate 29)));
}

get-calm : get calm_table 1 ≡ some calm
unfolding get Slots.find
get-calm = refl
