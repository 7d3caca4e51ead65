-- ===== src/Kernel/Tests/Schedules.antt =====
-- Runs of the scheduler, the memory handler and the permission check.
use flutter_os.Prelude.{
  ℕ, ◌+◌, ◌%◌, ◌≤◌, ◌<◌, ◌≡◌, refl, ◌↔◌, true, false, none, some, [], ◌∷◌, arith, replicate,
}
use flutter_os.Prelude.Slots.{live}
use flutter_os.Kernel.Process.{ProcessTable, empty, pid_of}
use flutter_os.Kernel.Oom.{handle_oom}
use flutter_os.Kernel.Oom.Laws.{handle_oom_lem, Spared, NoVictim}
use flutter_os.Kernel.Perm.{check_permission}
use flutter_os.Kernel.Perm.Laws.{check_permission_iff, IsGranted}
use flutter_os.Kernel.Scheduler.{
  System, Scheduler, KernelStack, Busy, on_timer_tick, find_next_ready, start_slot, slot_at,
  is_runnable,
}
use flutter_os.Kernel.Scheduler.{System, stay}
use flutter_os.Kernel.Scheduler.Laws.{Ok, on_timer_tick-Ok}
use flutter_os.Kernel.Scheduler.Scan.{StartsAt, Runnable, find_next_ready-some}
use flutter_os.Kernel.Tests.{shell, dead, table, table-IsValid, system, quiet, system-Ok}
use flutter_os.Kernel.Scheduler
use flutter_os.Kernel.Perm

on_timer_tick-Ok_example : Ok (on_timer_tick quiet system).1
on_timer_tick-Ok_example = on_timer_tick-Ok quiet system system-Ok

picks_editor : find_next_ready quiet table 1 ≡ some 3
unfolding find_next_ready Scheduler.position Scheduler.scan empty
picks_editor = refl

find_next_ready-some_example :
    (start : ℕ) × StartsAt 1 table.processes start
    × ((k : ℕ) × (1 ≤ k)
        × (k ≤ 32)
        × Runnable (slot_at table.processes ((start + k) % 32))
        × ((slot_at table.processes ((start + k) % 32)).pid ≡ 3)
        × ((j : ℕ) → 1 ≤ j → j < k → ¬ Runnable (slot_at table.processes ((start + j) % 32))))
find_next_ready-some_example = find_next_ready-some quiet table 1 3 picks_editor

-- The table without the editor.
abbrev alone : ProcessTable
alone = record table { processes = shell ∷ dead ∷ replicate 30 empty }

picks_none : find_next_ready quiet alone 1 ≡ none
unfolding find_next_ready Scheduler.position Scheduler.scan empty
picks_none = refl

alone_start : start_slot 1 alone.processes < 32
unfolding Scheduler.position empty
alone_start = omega arith

abbrev idle : System
idle = record system { table = alone }

handle_oom_lem_example :
    let (ok, t', spaces) = handle_oom table in
    (ok ≡ true
      → (live pid_of t'.processes < live pid_of table.processes)
        × Spared table.processes t'.processes)
    × (ok ≡ false → (t' ≡ table) × (spaces ≡ []) × NoVictim table.processes)
handle_oom_lem_example = handle_oom_lem table table-IsValid

check_permission_iff_example :
    (check_permission table 3 Perm.framebuffer ≡ true) ↔ IsGranted table 3 Perm.framebuffer
check_permission_iff_example = check_permission_iff table 3 Perm.framebuffer
