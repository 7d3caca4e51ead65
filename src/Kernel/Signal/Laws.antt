-- ===== src/Kernel/Signal/Laws.antt =====
-- What `kill` and signal delivery of kernel/src/signal.rs do to the process table.
use flutter_os.Prelude.{
  ℕ, ◌+◌, ◌≡◌, refl, ◌≢◌, ◌⊎◌, inl, inr, true, false, ◌||◌, ◌&&◌, none, some, ◌==◌, if◌then◌else◌,
  arith, Bool-cases, ==_iff, ==-refl,
}
use flutter_os.Prelude.Int.{pos}
use flutter_os.Prelude.Slots
use flutter_os.Kernel.Fd
use flutter_os.Kernel.Fd.Close.{Closed, clear-Closed}
use flutter_os.Kernel.Process
use flutter_os.Kernel.Process.{
  Process, ProcessTable, ProcessState, free, ready, running, blocked, zombie, pid_of, get, modify,
  is_free, is_zombie, has_bit, set_bit, clear_bit, signal_bit,
}
use flutter_os.Kernel.Process.Laws.{IsValid, SlotOk, SlotsOk-find, modify-IsValid, get-modify}
use flutter_os.Kernel.Signal.{
  terminated, send_signal, killed_by, deliver_to, deliver_pending_into, enoent, sys_kill,
}

get-pid : (t : ProcessTable) (pid : ℕ) (p : Process) → get t pid ≡ some p → p.pid ≡ pid
unfolding get
get-pid t pid p e = Slots.find-key pid_of pid t.processes p e

-- A process with a pid other than 0 is not in the state Free.
get_not_free :
    (t : ProcessTable) (pid : ℕ) (p : Process)
    → IsValid t
    → pid ≢ 0
    → get t pid ≡ some p
    → is_free p.state ≡ false
unfolding get
get_not_free t pid p v h e =
    ground (arith, SlotsOk-find pid t.processes p e v.slots, get-pid t pid p)

terminated-pid : (signum : ℕ) (p : Process) → (terminated signum p).pid ≡ p.pid
unfolding terminated
terminated-pid signum p = refl

terminated-SlotOk : (signum : ℕ) (p : Process) → p.pid ≢ 0 → SlotOk (terminated signum p)
unfolding terminated
terminated-SlotOk signum p h = ground arith

-- `kill` with SIGKILL or SIGTERM on a process of a valid table that is not yet a zombie: it returns
-- 0 and leaves a zombie with exit code 128 + signum, with nothing pending or masked and with the
-- descriptors from 3 on closed; no other process changes, and the table stays valid.
pub sys_kill_terminates :
    (t : ProcessTable) (pid signum : ℕ) (p : Process)
    → IsValid t
    → pid ≢ 0
    → (signum ≡ 9) ⊎ (signum ≡ 15)
    → get t pid ≡ some p
    → is_zombie p.state ≡ false
    → let (ret, t') = sys_kill t pid signum in
      (ret ≡ pos 0)
      × ((fds : Fd.FdTable) × Closed p.fd_table fds
          × ((j : ℕ)
              → get t' j ≡ (
                  if j == pid
                  then some (record p {
                    fd_table = fds;
                    pending_signals = 0;
                    signal_mask = 0;
                    state = zombie;
                    exit_code = pos (128 + signum);
                  })
                  else get t j)))
      × IsValid t'
sys_kill_terminates t pid signum p v h s e alive = rw (kill_eq s) (
  refl,
  (
    Fd.clear p.fd_table,
    clear-Closed p.fd_table,
    λ j. unfold terminated in get-modify t pid j (terminated signum) p e same,
  ),
  modify-IsValid t pid (terminated signum) p v e same
      (terminated-SlotOk signum p (λ z. h (ground (arith, same', z)))),
)
  where
    same' : p.pid ≡ pid
    same' = get-pid t pid p e

    same : (terminated signum p).pid ≡ pid
    same = rw terminated-pid same'

    not_free : is_free p.state ≡ false
    not_free = get_not_free t pid p v h e

    kill_eq :
        (signum ≡ 9) ⊎ (signum ≡ 15)
        → sys_kill t pid signum ≡ (pos 0, modify t pid (terminated signum))
    kill_eq s = unfold sys_kill send_signal in ground (arith, not_free)

-- A second termination signal is refused, with ENOENT, and changes nothing; so is any signal to a
-- pid that names no process.
pub sys_kill_refused :
    (t : ProcessTable) (pid signum : ℕ)
    → pid ≢ 0
    → ((get t pid ≡ none)
        ⊎ ((p : Process) × (get t pid ≡ some p)
            × (is_zombie p.state ≡ true)
            × ((signum ≡ 9) ⊎ (signum ≡ 15))))
    → sys_kill t pid signum ≡ (enoent, t)
unfolding sys_kill send_signal Process.send_signal
sys_kill_refused t pid signum h (inl e) = ground arith
sys_kill_refused t pid signum h (inr (p, e, z, s)) = ground arith

-- The effect of delivery on a process, by its pending bits.
deliver_to_lem :
    (p : Process)
    → deliver_to p ≡ (
        if has_bit 8 p.pending_signals || has_bit 14 p.pending_signals
        then killed_by (if has_bit 8 p.pending_signals then 9 else 15) p
        else p)
unfolding deliver_to
deliver_to_lem p = ground arith

deliver_to-pid : (p : Process) → (deliver_to p).pid ≡ p.pid
unfolding deliver_to killed_by
deliver_to-pid p = ground arith

deliver_to-SlotOk : (p : Process) → p.pid ≢ 0 → SlotOk p → SlotOk (deliver_to p)
unfolding deliver_to killed_by
deliver_to-SlotOk p h s = ground arith

deliver_ends :
    (t : ProcessTable) (p : Process)
    → IsValid t
    → t.current_pid ≢ 0
    → get t t.current_pid ≡ some p
    → let kill = has_bit 8 p.pending_signals in
      let term = has_bit 14 p.pending_signals in
      let t' = deliver_pending_into t in
      ((j : ℕ)
        → get t' j ≡ (
            if j == t.current_pid && (kill || term)
            then some (killed_by (if kill then 9 else 15) p)
            else get t j))
      × IsValid t'
deliver_ends t p v h e = (
  λ j. elim (Bool-cases (j == t.current_pid)) [
    | inl at ↦ ground (
      arith,
      at,
      (==_iff j t.current_pid).0 at,
      delivered,
      get-modify t t.current_pid j deliver_to p e same,
      deliver_to_lem p,
    )
    | inr off ↦ ground (arith, off, delivered, get-modify t t.current_pid j deliver_to p e same)
  ],
  rw delivered (
      modify-IsValid t t.current_pid deliver_to p v e same
        (deliver_to-SlotOk p (λ z. h (ground (arith, same', z))) ok)),
)
  where
    same' : p.pid ≡ t.current_pid
    same' = get-pid t t.current_pid p e

    same : (deliver_to p).pid ≡ t.current_pid
    same = rw deliver_to-pid same'

    ok : SlotOk p
    ok = unfold get in SlotsOk-find t.current_pid t.processes p e v.slots

    delivered : deliver_pending_into t ≡ modify t t.current_pid deliver_to
    delivered = unfold deliver_pending_into in ground arith

-- Delivery to the running process of a valid table: a pending SIGKILL or SIGTERM makes it a zombie
-- with exit code 128 + the number of the stronger one, nothing pending, and the descriptors from 3
-- on closed; any other process stays as it is.
-- With neither pending the table does not change at all, so that other signals stay pending for
-- good.
pub deliver_lem :
    (t : ProcessTable) (p : Process)
    → IsValid t
    → t.current_pid ≢ 0
    → get t t.current_pid ≡ some p
    → let kill = has_bit 8 p.pending_signals in
      let term = has_bit 14 p.pending_signals in
      let t' = deliver_pending_into t in
      ((fds : Fd.FdTable) × Closed p.fd_table fds
        × ((j : ℕ)
            → get t' j ≡ (
                if j == t.current_pid && (kill || term)
                then some (record p {
                  fd_table = fds;
                  pending_signals = 0;
                  state = zombie;
                  exit_code = pos (128 + (if kill then 9 else 15));
                })
                else get t j)))
      × IsValid t'
deliver_lem t p v h e = (
  (
    Fd.clear p.fd_table,
    clear-Closed p.fd_table,
    λ j. unfold killed_by in (deliver_ends t p v h e).0 j,
  ),
  (deliver_ends t p v h e).1,
)

deliver_kill :
    (t : ProcessTable) (p : Process)
    → IsValid t
    → t.current_pid ≢ 0
    → get t t.current_pid ≡ some p
    → has_bit 8 p.pending_signals ≡ true
    → get (deliver_pending_into t) t.current_pid ≡ some (killed_by 9 p)
deliver_kill t p v h e b =
    ground (arith, (deliver_ends t p v h e).0 t.current_pid, ==-refl t.current_pid)

-- A signal number whose bit is reduced to that of SIGKILL, such as 41, is not taken for a
-- termination signal by `kill` of the running process, which reports success; but the next delivery
-- kills that process by SIGKILL. (The process exists, SIGKILL is not pending before, and the number
-- is neither 0 nor that of SIGKILL or SIGTERM.)
pub high_signal_kills :
    (t : ProcessTable) (signum : ℕ) (p : Process)
    → IsValid t
    → t.current_pid ≢ 0
    → signum ≢ 9
    → signum ≢ 0
    → signum ≢ 15
    → signal_bit signum ≡ 8
    → get t t.current_pid ≡ some p
    → has_bit 8 p.pending_signals ≡ false
    → let (ret, t1) = sys_kill t t.current_pid signum in
      (ret ≡ pos 0)
      × (get (deliver_pending_into t1) t.current_pid
          ≡ some (killed_by 9 (record p { pending_signals = p.pending_signals + 256 })))
unfolding modify
high_signal_kills t signum p v h n9 n0 n15 b e clean =
    rw sent (refl, deliver_kill t1 _ v1 h found (ground (arith, clean)))
  where
    raise : Process → Process
    raise q = record q { pending_signals = set_bit (signal_bit signum) q.pending_signals }

    same : p.pid ≡ t.current_pid
    same = get-pid t t.current_pid p e

    not_free : is_free p.state ≡ false
    not_free = get_not_free t t.current_pid p v h e

    t1 : ProcessTable
    t1 = modify t t.current_pid raise

    sent : sys_kill t t.current_pid signum ≡ (pos 0, t1)
    sent = unfold sys_kill send_signal Process.send_signal in ground (arith, not_free)

    raised_bits : raise p ≡ record p { pending_signals = p.pending_signals + 256 }
    raised_bits = rw b (ground arith)

    found : get t1 t.current_pid ≡ some (record p { pending_signals = p.pending_signals + 256 })
    found =
        rw (← raised_bits) (ground (arith, get-modify t t.current_pid t.current_pid raise p e same))

    v1 : IsValid t1
    v1 =
        modify-IsValid t t.current_pid raise p v e same
          (unfold get in SlotsOk-find t.current_pid t.processes p e v.slots)
