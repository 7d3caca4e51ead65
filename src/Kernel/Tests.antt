-- ===== src/Kernel/Tests.antt =====
-- A process table and a system state on which the kernel's operations are run.
mod Processes
mod Schedules
mod Files
mod Images
mod Calls
mod Bytes
use flutter_os.Prelude.{
  ℕ, zero, suc, ◌≡◌, refl, Bool, true, false, Option, some, List, [], ◌∷◌, replicate, arith,
}
use flutter_os.Prelude.Slots
use flutter_os.Prelude.Slots.{live}
use flutter_os.Kernel.Process.{Process, ProcessTable, ready, running, zombie, empty, pid_of, get}
use flutter_os.Kernel.Process.Laws.{IsValid, SlotsOk-replicate}
use flutter_os.Kernel.Scheduler.{System, Busy}
use flutter_os.Kernel.Scheduler.Laws.{Ok}
use flutter_os.Kernel.Scheduler.Lone.{Lone}

-- A running shell, an editor that waits for its turn, and a child of the shell that has exited.
abbrev pub shell : Process
shell = record empty { pid = 1; state = running }

abbrev pub editor : Process
editor = record empty { pid = 3; parent_pid = 1; state = ready; cr3 = 4096 }

abbrev pub dead : Process
dead = record empty { pid = 4; parent_pid = 1; state = zombie; cr3 = 8192 }

abbrev pub table : ProcessTable
table = record {
  processes = shell ∷ editor ∷ dead ∷ replicate 29 empty;
  next_pid = 5;
  current_pid = 1;
}

pub table-IsValid : IsValid table
table-IsValid = record {
  full = refl;
  fresh_pid = omega arith;
  below = unfold empty in omega arith;
  distinct = unfold empty in omega arith;
  slots = (refl, (refl, (refl, SlotsOk-replicate 29)));
}

pub get-shell : get table 1 ≡ some shell
unfolding get Slots.find
get-shell = refl

pub get-editor : get table 3 ≡ some editor
unfolding get Slots.find
get-editor = refl

pub live_table : live pid_of table.processes ≡ 3
unfolding live empty
live_table = refl

-- The last tick of a slice.
abbrev pub system : System
system = record {
  table = table;
  sched = record { current_slice = 1; default_slice = 5; active = true };
  stacks = replicate 32 (record { bottom = 4096; saved_rsp = 36808; initialised = true });
}

abbrev pub quiet : Busy
quiet = record { table_busy = false; sched_busy = false; stacks_busy = false }

Lone-rest : (n : ℕ) → Lone 1 (replicate n empty)
unfolding empty
Lone-rest zero = tt
Lone-rest (suc n) = (refl, Lone-rest n)

pub system-Ok : Ok system
system-Ok = record { valid = table-IsValid; lone = (refl, (refl, (refl, Lone-rest 29))) }
