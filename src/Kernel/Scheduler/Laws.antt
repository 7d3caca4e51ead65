-- ===== src/Kernel/Scheduler/Laws.antt =====
-- The state that kernel/src/scheduler.rs keeps across ticks and switches.
use flutter_os.Prelude.{
  ℕ, ◌-◌, ◌≡◌, ◌≢◌, inl, inr, none, some, ◌==◌, ==_iff, if◌then◌else◌, arith, Bool-cases,
  Option-cases, get_or, ◌∙◌, subst, if_elim, if_cases,
}
use flutter_os.Prelude.Slots
use flutter_os.Prelude.Slots.{Absent, Distinct}
use flutter_os.Kernel.Process.{Process, ProcessTable, pid_of, get, modify}
use flutter_os.Kernel.Process.Laws.{IsValid, SlotOk, SlotsOk-find, modify-IsValid, get-modify}
use flutter_os.Kernel.Signal.{deliver_pending_into, deliver_to, killed_by}
use flutter_os.Kernel.Signal.Laws.{deliver_lem}
use flutter_os.Kernel.Scheduler.Scan.{find_next_ready-some}
use flutter_os.Kernel.Scheduler.{
  System, KernelStack, Busy, Outcome, position, demote, promote, park, switch_states, enter,
  do_context_switch, schedule, on_timer_tick, find_next_ready, zombie_current, no_stack,
}
use flutter_os.Kernel.Scheduler.Lone.{
  Lone, Quiet, Quiet-Absent, Quiet-zero, Absent-none, Quiet-demote, Lone-promote, Lone-update,
  position-none, position-some,
}

-- The table is valid, and no process runs but the current one.
pub record Ok (s : System) : Type 0 where
  pub valid : IsValid s.table
  pub lone : Lone s.table.current_pid s.table.processes

modify_any-IsValid :
    (t : ProcessTable) (k : ℕ) (f : Process → Process)
    → ((p : Process) → (f p).pid ≡ p.pid)
    → ((p : Process) → SlotOk p → SlotOk (f p))
    → IsValid t
    → IsValid (modify t k f)
modify_any-IsValid t k f same keep v = elim (Option-cases (get t k)) [
  | inl missing ↦ unfold modify get in rw (Slots.update-none pid_of k f t.processes missing) v
  | inr (p, found) ↦
      modify-IsValid t k f p v found
        (same p ∙ unfold get in Slots.find-key pid_of k t.processes p found)
        (keep p (unfold get in SlotsOk-find k t.processes p found v.slots))
]

demote-pid : (p : Process) → (demote p).pid ≡ p.pid
unfolding demote
demote-pid p = ground arith

demote-SlotOk : (p : Process) → SlotOk p → SlotOk (demote p)
unfolding demote
demote-SlotOk p s = ground arith

-- The table once the process that is left has been put back among the ready ones.
abbrev left : ProcessTable → ProcessTable
left t = elim (if t.current_pid == 0 then none else position t.current_pid t.processes) [
  | none ↦ t
  | some _ ↦ modify t t.current_pid demote
]

left-IsValid : (t : ProcessTable) → IsValid t → IsValid (left t)
left-IsValid t v =
    ground (arith, modify_any-IsValid t t.current_pid demote demote-pid demote-SlotOk v)

left-Quiet :
    (t : ProcessTable) → IsValid t → Lone t.current_pid t.processes → Quiet (left t).processes
unfolding modify
left-Quiet t v l = elim (Bool-cases (t.current_pid == 0)) [
  | inl kernel ↦ ground (
    arith,
    kernel,
    Quiet-zero t.processes (subst (λ c. Lone c t.processes) ((==_iff _ 0).0 kernel) l) v.slots,
  )
  | inr user ↦ elim (Option-cases (position t.current_pid t.processes)) [
    | inl gone ↦ ground (
      arith,
      user,
      gone,
      Quiet-Absent t.current_pid t.processes l
          (Absent-none t.current_pid t.processes (position-none t.current_pid t.processes gone)),
    )
    | inr (i, at) ↦ ground (
      arith,
      user,
      at,
      Quiet-demote t.current_pid t.processes (ground (arith, user)) l v.distinct,
    )
  ]
]

-- Changing a process in place loses none.
found_modify :
    (t : ProcessTable) (k j : ℕ) (f : Process → Process) (p : Process)
    → ((q : Process) → (f q).pid ≡ q.pid)
    → get t j ≡ some p
    → (q : Process) × (get (modify t k f) j ≡ some q)
found_modify t k j f p same e = elim (Option-cases (get t k)) [
  | inl missing ↦ (p, unfold modify get in rw (Slots.update-none pid_of k f t.processes missing) e)
  | inr (r, found) ↦
      let shown =
        get-modify t k j f r found
          (same r ∙ unfold get in Slots.find-key pid_of k t.processes r found) in
      elim (Bool-cases (j == k)) [
        | inl at ↦ (f r, ground (arith, at, shown))
        | inr off ↦ (p, ground (arith, off, shown))
      ]
]

found_left :
    (t : ProcessTable) (new : ℕ) (p : Process)
    → get t new ≡ some p
    → (q : Process) × (get (left t) new ≡ some q)
found_left t new p e =
    elim (Option-cases (if t.current_pid == 0 then none else position t.current_pid t.processes)) [
      | inl stayed ↦ (p, rw (stayed, left) e)
      | inr (i, at) ↦
          let (q, found) = found_modify t t.current_pid new demote p demote-pid e in
          (q, rw (at, left) found)
    ]

module _ (t : ProcessTable) (new : ℕ) (p : Process) (v : IsValid t)
    (l : Lone t.current_pid t.processes) (nz : new ≢ 0) (e : get t new ≡ some p) where
  abbrev switched : ProcessTable
  switched =
      switch_states t (if t.current_pid == 0 then none else position t.current_pid t.processes)
        t.current_pid new

  switched-IsValid : IsValid switched
  unfolding switch_states
  switched-IsValid =
      let (q, found) = found_left t new p e in
      let key : q.pid ≡ new = unfold get in Slots.find-key pid_of new (left t).processes q found in
      let w : IsValid (modify (left t) new promote) =
        modify-IsValid (left t) new promote q (left-IsValid t v) found (unfold promote in key)
          (unfold promote in ground (arith, key, nz)) in
      record {
        full = w.full;
        fresh_pid = w.fresh_pid;
        below = w.below;
        distinct = w.distinct;
        slots = w.slots;
      }

  switched-Lone : Lone new switched.processes
  unfolding switch_states modify
  switched-Lone = Lone-promote new (left t).processes (left-Quiet t v l)

abbrev OkAfter : Outcome × System → Type 0
OkAfter r = Ok r.1

module _ (b : Busy) (s : System) (ok : Ok s) where
  enter-Ok :
      (new : ℕ) (p : Process) (stack : KernelStack)
      → new ≢ 0
      → get s.table new ≡ some p
      → Ok
          (enter b s
            (if s.table.current_pid == 0
              then none
              else position s.table.current_pid s.table.processes)
            s.table.current_pid
            new
            stack).1
  unfolding enter
  enter-Ok new p stack nz e =
      let v = switched-IsValid s.table new p ok.valid ok.lone nz e in
      let l = switched-Lone s.table new p ok.valid ok.lone nz e in
      elim (Bool-cases b.table_busy) [
        | inl busy ↦ rw busy ok
        | inr ready' ↦ elim (Bool-cases b.sched_busy) [
          | inl late ↦ rw (ready', late) (record { valid = v; lone = unfold switch_states in l })
          | inr go ↦ rw (ready', go) (record { valid = v; lone = unfold switch_states in l })
        ]
      ]

  parked-Ok : (new : ℕ) → Ok (record s { table = modify s.table new park })
  parked-Ok new = record {
    valid =
        modify_any-IsValid s.table new park (λ p. unfold park in ground arith)
          (λ p o. unfold park in ground arith) ok.valid;
    lone =
        unfold modify in
        Lone-update s.table.current_pid new park s.table.processes
          (λ p. unfold park in ground arith) (λ p o. unfold park in ground arith) ok.lone;
  }

  do_context_switch-Ok : (new : ℕ) → new ≢ 0 → Ok (do_context_switch b s s.table.current_pid new).1
  unfolding do_context_switch
  do_context_switch-Ok new nz = elim (Option-cases (position new s.table.processes)) [
    | inl missing ↦ rw (missing, do_context_switch) ok
    | inr (slot, found) ↦
        let (p, e) = position-some new slot s.table.processes found in
        rw (found, do_context_switch)
          (if_elim OkAfter b.stacks_busy _ _ ok (
            if_elim OkAfter (get_or s.stacks slot no_stack).initialised _ _
              (enter-Ok new p (get_or s.stacks slot no_stack) nz (unfold get in e))
              (if_elim OkAfter b.table_busy _ _ ok (parked-Ok new))))
  ]

  next_nonzero : (next : ℕ) → find_next_ready b s.table s.table.current_pid ≡ some next → next ≢ 0
  next_nonzero next e =
      let (start, from, (k, lo, hi, at, same, before)) =
        find_next_ready-some b s.table s.table.current_pid next e in
      ground (arith, at, same)

  schedule-Ok : Ok (schedule b s).1
  unfolding schedule
  schedule-Ok =
      if_elim OkAfter b.table_busy _ _ ok
        (elim (Option-cases (find_next_ready b s.table s.table.current_pid)) [
          | inl none' ↦ rw none' ok
          | inr (next, e) ↦ rw e (
              if_elim OkAfter (next == s.table.current_pid) _ _
                (record { valid = ok.valid; lone = ok.lone })
                (do_context_switch-Ok next (next_nonzero next e)))
        ])

delivered-Ok : (s : System) → Ok s → Ok (record s { table = deliver_pending_into s.table })
unfolding deliver_pending_into
delivered-Ok s ok =
    if_cases (λ t. Ok (record s { table = t })) (s.table.current_pid == 0) _ _ (λ _. ok)
      λ nz. elim (Option-cases (get s.table s.table.current_pid)) [
        | inl missing ↦ rw missing ok
        | inr (p, e) ↦ rw e (record {
          valid =
              subst IsValid (unfold deliver_pending_into in ground (arith, nz, e))
                (deliver_lem s.table p ok.valid (ground (arith, nz)) e).1;
          lone =
              unfold modify in
              Lone-update s.table.current_pid s.table.current_pid deliver_to s.table.processes
                (λ p. unfold deliver_to killed_by in ground arith)
                (λ p q. unfold deliver_to killed_by in ground arith) ok.lone;
        })
      ]

-- A timer tick, whatever locks are busy, keeps the process table valid and lets no process be in
-- the state Running but the one that the table calls current.
pub on_timer_tick-Ok : (b : Busy) (s : System) → Ok s → Ok (on_timer_tick b s).1
unfolding on_timer_tick
on_timer_tick-Ok b s ok = if_elim OkAfter b.sched_busy _ _ ok (
    if_elim OkAfter s.sched.active _ _
      (if_elim OkAfter (s1.sched.current_slice == 0) _ _ (schedule-Ok b s1 ok1) (
        if_elim OkAfter b.table_busy _ _ ok1 (
          if_elim OkAfter (s1.table.current_pid == 0) _ _ ok1 (
            if_elim OkAfter (zombie_current (deliver_pending_into s.table)) _ _
              (schedule-Ok b _ (delivered-Ok s1 ok1)) (delivered-Ok s1 ok1)))))
      ok)
  where
    s1 : System
    s1 = record s { sched = record s.sched { current_slice = s.sched.current_slice - 1 } }

    ok1 : Ok s1
    ok1 = record { valid = ok.valid; lone = ok.lone }
