-- ===== src/Kernel/Process.antt =====
-- kernel/src/process.rs: process descriptors and the table of 32 slots.
-- Words are natural numbers; `next_pid` wraps at 2 ^ 32, as in the release build. Operations that
-- hand an address space back return its CR3, the argument of `AddressSpace::dealloc_user`.
pub mod Laws
pub mod Reap
use flutter_os.Prelude.{
  ℕ, ◌+◌, ◌%◌, ◌^◌, ◌/◌, ◌-◌, Bool, true, false, Option, none, some, List, [], ◌∷◌, ◌++◌, take,
  drop, set, replicate, min, length, ◌==◌, if◌then◌else◌,
}
use flutter_os.Prelude.Int.{ℤ, pos}
use flutter_os.Prelude.Slots
use flutter_os.Kernel.Fd
use flutter_os.Kernel.Fd.{FdTable}

abbrev pub max_processes : ℕ
max_processes = 32

pub data ProcessState : Type 0 where
  free ready running blocked zombie : ProcessState

-- `SavedContext`: the register state of a descheduled process.
pub record SavedContext : Type 0 where
  pub rax : ℕ
  pub rbx : ℕ
  pub rcx : ℕ
  pub rdx : ℕ
  pub rsi : ℕ
  pub rdi : ℕ
  pub rbp : ℕ
  pub rsp : ℕ
  pub r8 : ℕ
  pub r9 : ℕ
  pub r10 : ℕ
  pub r11 : ℕ
  pub r12 : ℕ
  pub r13 : ℕ
  pub r14 : ℕ
  pub r15 : ℕ
  pub rip : ℕ
  pub rflags : ℕ

abbrev pub zero_context : SavedContext
zero_context = record {
  rax = 0;
  rbx = 0;
  rcx = 0;
  rdx = 0;
  rsi = 0;
  rdi = 0;
  rbp = 0;
  rsp = 0;
  r8 = 0;
  r9 = 0;
  r10 = 0;
  r11 = 0;
  r12 = 0;
  r13 = 0;
  r14 = 0;
  r15 = 0;
  rip = 0;
  rflags = 0;
}

pub record Process : Type 0 where
  pub pid : ℕ
  pub parent_pid : ℕ
  pub state : ProcessState
  pub context : SavedContext
  pub entry_point : ℕ
  pub user_rsp : ℕ
  pub cr3 : ℕ
  pub fd_table : FdTable
  pub pending_signals : ℕ
  pub signal_mask : ℕ
  pub exit_code : ℤ
  pub name : List ℕ

abbrev pub zero_name : List ℕ
zero_name = replicate 16 0

unfoldable pub empty : Process
empty = record {
  pid = 0;
  parent_pid = 0;
  state = free;
  context = zero_context;
  entry_point = 0;
  user_rsp = 0;
  cr3 = 0;
  fd_table = Fd.new;
  pending_signals = 0;
  signal_mask = 0;
  exit_code = pos 0;
  name = zero_name;
}

-- The bytes of `name` over the old ones, at most 15, and a zero behind them.
unfoldable pub set_name : List ℕ → Process → Process
set_name bytes p =
    let len = min (length bytes) 15 in
    record p { name = set (take len bytes ++ drop len p.name) len 0 }

pub record ProcessTable : Type 0 where
  pub processes : List Process
  pub next_pid : ℕ
  pub current_pid : ℕ

abbrev pub pid_of : Process → ℕ
pid_of p = p.pid

unfoldable pub new : ProcessTable
new = record { processes = replicate 32 empty; next_pid = 1; current_pid = 0 }

-- The field-by-field initialisation of a slot.
unfoldable pub fresh : ℕ → ℕ → List ℕ → Process → Process
unfolding set_name
fresh pid parent_pid name p = set_name name (record p {
  pid = pid;
  parent_pid = parent_pid;
  state = blocked;
  context = zero_context;
  entry_point = 0;
  user_rsp = 0;
  cr3 = 0;
  fd_table = Fd.new;
  pending_signals = 0;
  signal_mask = 0;
  exit_code = pos 0;
  name = zero_name;
})

-- The first slot with pid 0 becomes the new process; 0 if there is none.
unfoldable pub alloc : ProcessTable → ℕ → List ℕ → ℕ × ProcessTable
alloc t parent_pid name = elim (Slots.find pid_of 0 t.processes) [
  | none ↦ (0, t)
  | some _ ↦ (
    t.next_pid,
    record t {
      processes = Slots.update pid_of 0 (fresh t.next_pid parent_pid name) t.processes;
      next_pid = (t.next_pid + 1) % 2 ^ 32;
    },
  )
]

-- The address space that is handed back: none for CR3 0 or one that is not aligned to a frame.
unfoldable pub dealloc_proc_space : ℕ → List ℕ
dealloc_proc_space cr3 = if cr3 == 0 then [] else (if cr3 % 4096 == 0 then cr3 ∷ [] else [])

-- The result, the table, and the address spaces handed back.
unfoldable pub free_process : ProcessTable → ℕ → Bool × ProcessTable × List ℕ
free_process t pid = elim (Slots.find pid_of pid t.processes) [
  | none ↦ (false, t, [])
  | some p ↦ (
    true,
    record t { processes = Slots.update pid_of pid (λ _. empty) t.processes },
    dealloc_proc_space p.cr3,
  )
]

unfoldable pub get : ProcessTable → ℕ → Option Process
get t pid = Slots.find pid_of pid t.processes

-- What `get_mut` is used for: change the process in place.
unfoldable pub modify : ProcessTable → ℕ → (Process → Process) → ProcessTable
modify t pid f = record t { processes = Slots.update pid_of pid f t.processes }

-- Bit k of a word, `n & (1 << k) != 0`, and `n | (1 << k)`.
abbrev pub has_bit : ℕ → ℕ → Bool
has_bit k n = n / 2 ^ k % 2 == 1

abbrev pub set_bit : ℕ → ℕ → ℕ
set_bit k n = if has_bit k n then n else n + 2 ^ k

abbrev pub clear_bit : ℕ → ℕ → ℕ
clear_bit k n = if has_bit k n then n - 2 ^ k else n

-- `1 << (signum - 1)` of a u8 on a u32: the subtraction wraps at 256, the shift count at 32.
abbrev pub signal_bit : ℕ → ℕ
signal_bit signum = (signum + 255) % 256 % 32

abbrev pub is_free : ProcessState → Bool
is_free free = true
is_free _ = false

abbrev pub is_ready : ProcessState → Bool
is_ready ready = true
is_ready _ = false

abbrev pub is_running : ProcessState → Bool
is_running running = true
is_running _ = false

abbrev pub is_zombie : ProcessState → Bool
is_zombie zombie = true
is_zombie _ = false

unfoldable pub send_signal : ProcessTable → ℕ → ℕ → Bool × ProcessTable
send_signal t pid signum = elim (get t pid) [
  | none ↦ (false, t)
  | some p ↦ if is_free p.state then (false, t) else (
    true,
    modify t pid
        (λ q. record q { pending_signals = set_bit (signal_bit signum) q.pending_signals }),
  )
]

unfoldable pub mark_exit : ProcessTable → ℕ → ℤ → Bool × ProcessTable
mark_exit t pid exit_code = elim (get t pid) [
  | none ↦ (false, t)
  | some p ↦ (true, modify t pid (λ q. record q { state = zombie; exit_code = exit_code }))
]

-- One slot of the loop of `reap_zombies`, and the address space that it hands back.
unfoldable pub reap_slot : Process → Process
reap_slot p = if is_zombie p.state then empty else p

unfoldable pub reap_space : Process → List ℕ
reap_space p = if is_zombie p.state then dealloc_proc_space p.cr3 else []

unfoldable pub reap_all : List Process → List Process × List ℕ
reap_all [] = ([], [])
reap_all (p ∷ ps) = let (qs, spaces) = reap_all ps in (reap_slot p ∷ qs, reap_space p ++ spaces)

unfoldable pub reap_zombies : ProcessTable → ProcessTable × List ℕ
reap_zombies t = let (ps, spaces) = reap_all t.processes in (record t { processes = ps }, spaces)
