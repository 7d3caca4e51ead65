-- ===== src/Kernel/Syscall/Clock.antt =====
-- The clock of kernel/src/syscalls/time.rs.
use flutter_os.Prelude.{ℕ, ◌+◌, ◌*◌, ◌≤◌, ◌<◌, ◌≡◌, arith}
use flutter_os.Kernel.Syscall.Processes.{system_time}

-- The time in nanoseconds.
abbrev pub nanoseconds : ℕ × ℕ → ℕ
nanoseconds (secs, nanos) = secs * 1000000000 + nanos

-- The clock gives every tick a millisecond: the nanoseconds stay below a second, seconds and
-- nanoseconds together count a million for every tick, and so the clock never goes back.
pub system_time_lem :
    (ticks later : ℕ)
    → ticks ≤ later
    → ((system_time ticks).1 < 1000000000)
      × (nanoseconds (system_time ticks) ≡ ticks * 1000000)
      × (nanoseconds (system_time ticks) ≤ nanoseconds (system_time later))
unfolding system_time
system_time_lem ticks later h = (omega arith, omega arith, omega (arith, h))
