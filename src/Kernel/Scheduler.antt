-- ===== src/Kernel/Scheduler.antt =====
-- kernel/src/scheduler.rs: the round-robin scheduler.
-- The locks that the code tries (`try_lock`) are busy or free for the whole run of the handler,
-- since the interrupted code does not run meanwhile: `Busy`. A blocking `lock` is taken. What the
-- assembly `switch_context` is called with is the result `switch`; `stay` is a plain return.
pub mod Scan
pub mod Lone
pub mod Idle
pub mod Laws
use flutter_os.Prelude.{
  ℕ, zero, suc, ◌+◌, ◌-◌, ◌%◌, Bool, true, false, not, ◌&&◌, Option, none, some, List, [], ◌∷◌,
  ◌==◌, ltb, if◌then◌else◌, get_or, set,
}
use mathlib.Core.Option
use flutter_os.Kernel.Process
use flutter_os.Kernel.Process.{
  Process, ProcessTable, ready, running, blocked, get, modify, is_ready, is_running, is_zombie,
}
use flutter_os.Kernel.Signal.{deliver_pending_into}

-- A kernel stack: where its memory begins, the saved stack pointer, and whether it is set up.
pub record KernelStack : Type 0 where
  pub bottom : ℕ
  pub saved_rsp : ℕ
  pub initialised : Bool

abbrev pub process_kernel_stack_size : ℕ
process_kernel_stack_size = 32768

abbrev pub stack_top : KernelStack → ℕ
stack_top s = s.bottom + process_kernel_stack_size

-- `setup_initial_context`: the new stack pointer, and the seven words that are written from there.
unfoldable pub setup_initial_context : ℕ → KernelStack → KernelStack × List ℕ
setup_initial_context entry_point s = (
  record s { saved_rsp = stack_top s - 56; initialised = true },
  0 ∷ 0 ∷ 0 ∷ 0 ∷ 0 ∷ 0 ∷ entry_point ∷ [],
)

pub record Scheduler : Type 0 where
  pub current_slice : ℕ
  pub default_slice : ℕ
  pub active : Bool

pub record System : Type 0 where
  pub table : ProcessTable
  pub sched : Scheduler
  pub stacks : List KernelStack

pub record Busy : Type 0 where
  pub table_busy : Bool
  pub sched_busy : Bool
  pub stacks_busy : Bool

pub data Outcome : Type 0 where
  stay : Outcome
  switch : (old_slot : Option ℕ) (new_rsp new_cr3 rsp0 : ℕ) → Outcome

abbrev pub no_stack : KernelStack
no_stack = record { bottom = 0; saved_rsp = 0; initialised = false }

-- `iter().position(|p| p.pid == pid)`
unfoldable pub position : ℕ → List Process → Option ℕ
position pid [] = none
position pid (p ∷ ps) = if p.pid == pid then some 0 else Option.map (λ i. suc i) (position pid ps)

abbrev pub slot_at : List Process → ℕ → Process
slot_at ps i = get_or ps i Process.empty

abbrev pub is_runnable : Process → Bool
is_runnable p = not (p.pid == 0) && is_ready p.state

-- `for i in i0..i0 + n` over the slots behind `start`, with wraparound.
unfoldable pub scan : ℕ → ℕ → ℕ → List Process → Option ℕ
scan zero i start ps = none
scan (suc n) i start ps =
    let rest = scan n (i + 1) start ps in
    if is_runnable (slot_at ps ((start + i) % 32))
    then some (slot_at ps ((start + i) % 32)).pid
    else rest

abbrev pub start_slot : ℕ → List Process → ℕ
start_slot pid ps = Option.get_or (position pid ps) 0

unfoldable pub find_next_ready : Busy → ProcessTable → ℕ → Option ℕ
find_next_ready b t after_pid =
    if b.table_busy then none else scan 32 1 (start_slot after_pid t.processes) t.processes

-- `Running` becomes `Ready`, and what a switch makes of the process that it leaves and enters.
unfoldable pub demote : Process → Process
demote p = if is_running p.state then record p { state = ready } else p

unfoldable pub promote : Process → Process
promote p = record p { state = running }

unfoldable pub park : Process → Process
park p = if is_ready p.state then record p { state = blocked } else p

unfoldable pub switch_states : ProcessTable → Option ℕ → ℕ → ℕ → ProcessTable
switch_states t old_slot old_pid new_pid =
    let t1 : ProcessTable = elim old_slot [ none ↦ t | some _ ↦ modify t old_pid demote ] in
    record (modify t1 new_pid promote) { current_pid = new_pid }

abbrev pub reset_slice : Scheduler → Scheduler
reset_slice s = record s { current_slice = s.default_slice }

abbrev pub cr3_of : Option Process → ℕ
cr3_of none = 0
cr3_of (some p) = p.cr3

-- The part of `do_context_switch` behind the check of the new stack.
unfoldable pub enter : Busy → System → Option ℕ → ℕ → ℕ → KernelStack → Outcome × System
enter b s old_slot old_pid new_pid stack =
    if b.table_busy
    then (stay, s)
    else (let t' = switch_states s.table old_slot old_pid new_pid in
        if b.sched_busy then (stay, record s { table = t' }) else (
          switch old_slot stack.saved_rsp (cr3_of (get t' new_pid)) (stack_top stack),
          record s { table = t'; sched = reset_slice s.sched },
        ))

unfoldable pub do_context_switch : Busy → System → ℕ → ℕ → Outcome × System
do_context_switch b s old_pid new_pid = elim (position new_pid s.table.processes) [
  | none ↦ (stay, s)
  | some new_slot ↦
      let stack = get_or s.stacks new_slot no_stack in
      if b.stacks_busy
      then (stay, s)
      else (if stack.initialised
          then enter b s (if old_pid == 0 then none else position old_pid s.table.processes) old_pid
              new_pid stack
          else (if b.table_busy
              then (stay, s)
              else (stay, record s { table = modify s.table new_pid park })))
]

unfoldable pub schedule : Busy → System → Outcome × System
schedule b s =
    if b.table_busy then (stay, s) else (elim (find_next_ready b s.table s.table.current_pid) [
      | none ↦ (stay, s)
      | some next ↦
          if next == s.table.current_pid
          then (stay, record s { sched = reset_slice s.sched })
          else do_context_switch b s s.table.current_pid next
    ])

unfoldable pub switch_to_next : Busy → System → Outcome × System
switch_to_next b s =
    if b.table_busy then (stay, s) else (elim (find_next_ready b s.table s.table.current_pid) [
      | none ↦ (stay, s)
      | some next ↦
          if next == s.table.current_pid
          then (stay, s)
          else do_context_switch b s s.table.current_pid next
    ])

unfoldable pub yield_now : Busy → System → Outcome × System
yield_now b s = if s.table.current_pid == 0 then (stay, s) else schedule b s

unfoldable pub restart_current : Busy → System → Outcome × System
restart_current b s =
    if s.table.current_pid == 0
    then (stay, s)
    else do_context_switch b s s.table.current_pid s.table.current_pid

abbrev pub zombie_current : ProcessTable → Bool
zombie_current t = elim (get t t.current_pid) [ none ↦ false | some p ↦ is_zombie p.state ]

-- The slice is counted down, and a tick that does not reschedule delivers the pending signals.
unfoldable pub on_timer_tick : Busy → System → Outcome × System
on_timer_tick b s =
    if b.sched_busy
    then (stay, s)
    else (if s.sched.active
        then (let s1 = record s {
          sched = record s.sched { current_slice = s.sched.current_slice - 1 };
        } in
            if s1.sched.current_slice == 0
            then schedule b s1
            else (if b.table_busy
                then (stay, s1)
                else (if s1.table.current_pid == 0
                    then (stay, s1)
                    else (let s2 = record s1 { table = deliver_pending_into s1.table } in
                        if zombie_current s2.table then schedule b s2 else (stay, s2)))))
        else (stay, s))

unfoldable pub start_scheduler : System → System
start_scheduler s = record s { sched = record s.sched { active = true } }

-- The stack of a slot below 32, and the words written to its memory.
unfoldable pub init_process_stack : System → ℕ → ℕ → System × List ℕ
init_process_stack s slot entry_point =
    let (stack, words) = setup_initial_context entry_point (get_or s.stacks slot no_stack) in
    (record s { stacks = set s.stacks slot stack }, words)
