-- ===== src/Kernel/Syscall/Processes.antt =====
-- The calls on processes and on time: exit, kill, getpid, getppid, waitpid and getprocs of
-- kernel/src/syscalls/mod.rs, nanosleep and clock_gettime, and the clock of syscalls/time.rs.
use flutter_os.Prelude.{
  ℕ, ◌+◌, ◌-◌, ◌*◌, ◌/◌, ◌%◌, ◌^◌, Bool, not, ◌&&◌, ◌||◌, Option, none, some, List, [], ◌∷◌, ltb,
  leb, ◌==◌, if◌then◌else◌,
}
use flutter_os.Prelude.Int.{ℤ, pos, bits32}
use flutter_os.Kernel.Process.{
  Process, ProcessState, free, ready, running, blocked, zombie, get, mark_exit, free_process,
  is_zombie,
}
use flutter_os.Kernel.Scheduler.{Busy, switch_to_next, yield_now}
use flutter_os.Kernel.Signal
use flutter_os.Kernel.Syscall.World.{
  World, Reply, returns, exits, waits, sleeps, echild, efault, einval, as_i64, store, to_bytes,
  table_of, with_table,
}

-- `state as u64`
abbrev pub state_code : ProcessState → ℕ
state_code free = 0
state_code ready = 1
state_code running = 2
state_code blocked = 3
state_code zombie = 4

-- The entry of 40 bytes of a process.
unfoldable pub store_proc : ℕ → Process → (ℕ → ℕ) → ℕ → ℕ
store_proc at p memory = store (at + 24) p.name (
    store (at + 16) (to_bytes 8 (state_code p.state))
      (store (at + 8) (to_bytes 8 p.parent_pid) (store at (to_bytes 8 p.pid) memory)))

-- The loop of `sys_getprocs`: the entries written, and the memory.
unfoldable pub store_procs : ℕ → ℕ → ℕ → List Process → (ℕ → ℕ) → ℕ × (ℕ → ℕ)
store_procs buf count written [] memory = (written, memory)
store_procs buf count written (p ∷ ps) memory =
    let skip = store_procs buf count written ps memory in
    let rest = store_procs buf count (written + 1) ps (store_proc (buf + written * 40) p memory) in
    if p.pid == 0 then skip else if leb count written then (written, memory) else rest

-- `pid == u64::MAX || p.pid == pid` of a child of `parent`.
abbrev pub is_child : ℕ → ℕ → Process → Bool
is_child parent pid p =
    not (p.pid == 0) && (p.parent_pid == parent) && ((pid == 2 ^ 64 - 1) || (p.pid == pid))

-- The child that the scan of `sys_waitpid` stops at.
unfoldable pub first_child : ℕ → ℕ → List Process → Option Process
first_child parent pid [] = none
first_child parent pid (p ∷ ps) =
    let rest = first_child parent pid ps in if is_child parent pid p then some p else rest

abbrev pub ticks_per_sec : ℕ
ticks_per_sec = 1193182 / 1193

abbrev pub nanos_per_tick : ℕ
nanos_per_tick = 1000000000 / ticks_per_sec

-- Seconds and nanoseconds of a tick count.
unfoldable pub system_time : ℕ → ℕ × ℕ
system_time ticks = (ticks / ticks_per_sec, ticks % ticks_per_sec * nanos_per_tick)

-- The write of the status, `*(status_ptr as *mut i32) = code`.
abbrev pub store_status : ℕ → ℤ → (ℕ → ℕ) → ℕ → ℕ
store_status at code memory = if at == 0 then memory else store at (to_bytes 4 (bits32 code)) memory

module _ {F : Type 0} where
  unfoldable pub on_tick : World F → World F
  on_tick w = record w { ticks = (w.ticks + 1) % 2 ^ 64 }

  unfoldable pub sys_getpid : World F → Reply × World F
  sys_getpid w = (returns (pos (table_of w).current_pid), w)

  unfoldable pub sys_getppid : World F → Reply × World F
  sys_getppid w =
      let t = table_of w in
      if t.current_pid == 0 then (returns (pos 0), w) else (elim (get t t.current_pid) [
        | none ↦ (returns (pos 0), w)
        | some p ↦ (returns (pos p.parent_pid), w)
      ])

  unfoldable pub sys_kill : World F → ℕ → ℕ → Reply × World F
  sys_kill w pid signum =
      let (code, t) = Signal.sys_kill (table_of w) pid signum in (returns code, with_table w t)

  unfoldable pub sys_exit : Busy → World F → ℤ → Reply × World F
  sys_exit b w status =
      let t = table_of w in
      let (_, t') = mark_exit t t.current_pid status in
      let (o, s) = switch_to_next b (with_table w t').system in (exits o, record w { system = s })

  -- One round of the loop of `sys_waitpid`; a call that waits begins again when it is switched back.
  unfoldable pub sys_waitpid : Busy → World F → ℕ → ℕ → Reply × World F
  sys_waitpid b w pid status =
      let t = table_of w in
      elim (first_child t.current_pid pid t.processes) [
        | none ↦ (returns echild, w)
        | some p ↦
            if is_zombie p.state
            then (
              returns (pos p.pid),
              with_table (record w { memory = store_status status p.exit_code w.memory })
                  (free_process t p.pid).1,
            )
            else (waits (yield_now b w.system).0, record w { system = (yield_now b w.system).1 })
      ]

  unfoldable pub sys_getprocs : World F → ℕ → ℕ → Reply × World F
  sys_getprocs w buf count =
      let (written, memory) = store_procs buf count 0 (table_of w).processes w.memory in
      if buf == 0
      then (returns efault, w)
      else (returns (as_i64 written), record w { memory = memory })

  unfoldable pub sys_nanosleep : World F → ℕ → Reply × World F
  sys_nanosleep w req =
      let target = (w.ticks + req) % 2 ^ 64 in
      if ltb w.ticks target then (sleeps target, w) else (returns (pos 0), w)

  unfoldable pub sys_clock_gettime : World F → ℕ → ℕ → Reply × World F
  sys_clock_gettime w clock tp =
      let (secs, nanos) = system_time w.ticks in
      if tp == 0 then (returns efault, w) else if not (clock == 1) then (returns einval, w) else (
        returns (pos 0),
        record w {
          memory = store (tp + 8) (to_bytes 8 nanos) (store tp (to_bytes 8 secs) w.memory);
        },
      )
