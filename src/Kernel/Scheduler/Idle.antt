-- ===== src/Kernel/Scheduler/Idle.antt =====
-- Ticks of kernel/src/scheduler.rs with nothing else to run.
use flutter_os.Prelude.{◌-◌, ◌≤◌, ◌≡◌, true, false, none, arith, ap, ◌∙◌}
use flutter_os.Kernel.Scheduler.{Busy, System, stay, find_next_ready, schedule, on_timer_tick}

stays :
    (b : Busy) (s : System)
    → b.table_busy ≡ false
    → find_next_ready b s.table s.table.current_pid ≡ none
    → schedule b s ≡ (stay, s)
unfolding schedule
stays b s ht hn = ground arith

slice_over :
    (b : Busy) (s : System)
    → b.sched_busy ≡ false
    → s.sched.active ≡ true
    → s.sched.current_slice ≤ 1
    → on_timer_tick b s
      ≡ schedule b
          (record s { sched = record s.sched { current_slice = s.sched.current_slice - 1 } })
unfolding on_timer_tick
slice_over b s hs ha hc = ground arith

-- One such tick.
idle_step :
    (b : Busy) (s : System)
    → b.sched_busy ≡ false
    → b.table_busy ≡ false
    → s.sched.active ≡ true
    → s.sched.current_slice ≤ 1
    → find_next_ready b s.table s.table.current_pid ≡ none
    → on_timer_tick b s ≡ (stay, record s { sched = record s.sched { current_slice = 0 } })
idle_step b s hs ht ha hc hn =
    let over : s.sched.current_slice - 1 ≡ 0 = omega arith in
    slice_over b s hs ha hc
    ∙ stays b (record s { sched = record s.sched { current_slice = s.sched.current_slice - 1 } }) ht
        hn
    ∙ ap (λ n. (stay, record s { sched = record s.sched { current_slice = n } })) over

-- When the slice of the running process ends and no process is runnable, the tick only leaves the
-- slice at 0: the table does not change, so that no pending signal is delivered, and the same holds
-- of the next tick. (The scheduler is active and the locks are free.)
pub idle_tick :
    (b : Busy) (s : System)
    → b.sched_busy ≡ false
    → b.table_busy ≡ false
    → s.sched.active ≡ true
    → s.sched.current_slice ≤ 1
    → find_next_ready b s.table s.table.current_pid ≡ none
    → let s' : System = record s { sched = record s.sched { current_slice = 0 } } in
      (on_timer_tick b s ≡ (stay, s')) × (on_timer_tick b s' ≡ (stay, s'))
idle_tick b s hs ht ha hc hn = (
  idle_step b s hs ht ha hc hn,
  idle_step b (record s { sched = record s.sched { current_slice = 0 } }) hs ht ha (omega arith) hn,
)
