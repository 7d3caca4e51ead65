-- ===== src/Kernel/Signal.antt =====
-- kernel/src/signal.rs: termination signals and their delivery.
pub mod Laws
use flutter_os.Prelude.{ℕ, ◌+◌, Bool, true, false, ◌||◌, Option, none, some, ◌==◌, if◌then◌else◌}
use flutter_os.Prelude.Int.{ℤ, pos, negsuc}
use flutter_os.Kernel.Fd
use flutter_os.Kernel.Process
use flutter_os.Kernel.Process.{
  Process, ProcessTable, zombie, get, modify, is_free, is_zombie, has_bit, clear_bit,
}

abbrev pub sigkill : ℕ
sigkill = 9

abbrev pub sigterm : ℕ
sigterm = 15

-- What a termination signal does to a process that is alive.
unfoldable pub terminated : ℕ → Process → Process
terminated signum p = record p {
  fd_table = Fd.clear p.fd_table;
  pending_signals = 0;
  signal_mask = 0;
  state = zombie;
  exit_code = pos (128 + signum);
}

unfoldable pub send_signal : ProcessTable → ℕ → ℕ → Bool × ProcessTable
send_signal t pid signum =
    if signum == sigkill || signum == sigterm
    then (elim (get t pid) [
      | none ↦ (false, t)
      | some p ↦
          if is_free p.state || is_zombie p.state
          then (false, t)
          else (true, modify t pid (terminated signum))
    ])
    else Process.send_signal t pid signum

-- The branches of `deliver_pending_into` on a process with pending signals.
unfoldable pub killed_by : ℕ → Process → Process
killed_by signum p = record p {
  fd_table = Fd.clear p.fd_table;
  pending_signals = 0;
  state = zombie;
  exit_code = pos (128 + signum);
}

unfoldable pub deliver_to : Process → Process
deliver_to p =
    if p.pending_signals == 0
    then p
    else (if has_bit 8 p.pending_signals
        then killed_by sigkill p
        else (if has_bit 14 p.pending_signals
            then killed_by sigterm p
            else record p { pending_signals = clear_bit 14 (clear_bit 8 p.pending_signals) }))

unfoldable pub deliver_pending_into : ProcessTable → ProcessTable
deliver_pending_into t =
    if t.current_pid == 0
    then t
    else (elim (get t t.current_pid) [ none ↦ t | some _ ↦ modify t t.current_pid deliver_to ])

abbrev pub einval : ℤ
einval = negsuc 21

abbrev pub enoent : ℤ
enoent = negsuc 1

unfoldable pub sys_kill : ProcessTable → ℕ → ℕ → ℤ × ProcessTable
sys_kill t pid signum =
    if pid == 0
    then (einval, t)
    else (if signum == 0
        then (elim (get t pid) [ none ↦ (enoent, t) | some _ ↦ (pos 0, t) ])
        else (let (sent, t') = send_signal t pid signum in
            if sent then (pos 0, t') else (enoent, t')))
