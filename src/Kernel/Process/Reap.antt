-- ===== src/Kernel/Process/Reap.antt =====
-- The end of a process in kernel/src/process.rs: `mark_exit`, `free` and `reap_zombies`.
use flutter_os.Prelude.{
  ℕ, ◌+◌, ◌<◌, ◌≡◌, refl, ◌≢◌, inl, inr, true, Option, none, some, List, [], ◌∷◌, length,
  Bool-cases, ◌==◌, ==_iff, if◌then◌else◌, arith, ◌∙◌,
}
use flutter_os.Prelude.Int.{ℤ}
use flutter_os.Prelude.Slots
use flutter_os.Prelude.Slots.{Below, Absent, Distinct, live}
use flutter_os.Kernel.Process.{
  Process, ProcessTable, zombie, pid_of, empty, free_process, get, is_zombie, dealloc_proc_space,
  mark_exit, reap_slot, reap_all, reap_zombies,
}
use flutter_os.Kernel.Process.Laws.{
  IsValid, SlotOk, SlotsOk, SlotsOk-update, modify-IsValid, get-modify,
}

pid-empty : empty.pid ≡ 0
unfolding empty
pid-empty = refl

empty-SlotOk : SlotOk empty
unfolding empty
empty-SlotOk = refl

module _ (t : ProcessTable) (pid : ℕ) (p : Process) (v : IsValid t) (h : pid ≢ 0)
    (e : get t pid ≡ some p) where
  freed : ProcessTable
  freed = record t { processes = Slots.update pid_of pid (λ _. empty) t.processes }

  free_process_eq : free_process t pid ≡ (true, freed, dealloc_proc_space p.cr3)
  unfolding free_process freed get
  free_process_eq = rw (e, free_process)

  freed-IsValid : IsValid freed
  unfolding freed get
  freed-IsValid = record {
    full = Slots.length-update pid_of pid (λ _. empty) t.processes ∙ v.full;
    fresh_pid = v.fresh_pid;
    below =
        Slots.Below-update pid_of t.next_pid pid (λ _. empty) t.processes p e
          (rw pid-empty v.fresh_pid) v.below;
    distinct =
        Slots.Distinct-update pid_of pid (λ _. empty) t.processes p e (inl pid-empty) v.distinct;
    slots = SlotsOk-update pid (λ _. empty) t.processes p e empty-SlotOk v.slots;
  }

  get-freed : (j : ℕ) → j ≢ 0 → get freed j ≡ (if j == pid then none else get t j)
  unfolding freed get
  get-freed j nz = elim (Bool-cases (j == pid)) [
    | inl at ↦
        rw (at, (==_iff j pid).0 at)
          (Slots.find-update_gone pid_of pid (λ _. empty) t.processes p e h
            (rw pid-empty (λ z. h (ground (arith, z)))) v.distinct)
    | inr off ↦ rw off (
        Slots.find-update_ne pid_of j pid (λ _. empty) t.processes p e (ground (arith, off))
          (rw pid-empty (λ z. nz (ground (arith, z)))))
  ]

  live-freed : live pid_of freed.processes + 1 ≡ live pid_of t.processes
  unfolding freed get
  live-freed = ground (
    arith,
    Slots.live-update pid_of pid (λ _. empty) t.processes p e,
    pid-empty,
    Slots.find-key pid_of pid t.processes p e,
  )

  -- Freeing an existing process of a valid table removes it and no other: its pid is unknown
  -- afterwards, one slot more is unused, its address space is handed back, and the table is valid.
  pub free_process_lem :
      let (done, t', spaces) = free_process t pid in
      (done ≡ true)
      × ((j : ℕ) → j ≢ 0 → get t' j ≡ (if j == pid then none else get t j))
      × (live pid_of t'.processes + 1 ≡ live pid_of t.processes)
      × (spaces ≡ dealloc_proc_space p.cr3)
      × IsValid t'
  free_process_lem = rw free_process_eq (refl, get-freed, live-freed, refl, freed-IsValid)

Absent-reap :
    (k : ℕ) (ps : List Process) → k ≢ 0 → Absent pid_of k ps → Absent pid_of k (reap_all ps).0
unfolding reap_all reap_slot empty
Absent-reap k [] h b = tt
Absent-reap k (p ∷ ps) h b = ground (arith, Absent-reap k ps)

-- What reaping leaves of the process that a pid names.
abbrev pub survivor : Option Process → Option Process
survivor none = none
survivor (some p) = if is_zombie p.state then none else some p

find-reap :
    (k : ℕ) (ps : List Process)
    → k ≢ 0
    → Distinct pid_of ps
    → Slots.find pid_of k (reap_all ps).0 ≡ survivor (Slots.find pid_of k ps)
unfolding reap_all reap_slot Slots.find empty
find-reap k [] h d = refl
find-reap k (p ∷ ps) h d =
    ground
      (arith, find-reap k ps h d.1, Absent-reap k ps, Slots.find-Absent pid_of k (reap_all ps).0)

Below-reap :
    (n : ℕ) (ps : List Process) → 0 < n → Below pid_of n ps → Below pid_of n (reap_all ps).0
unfolding reap_all reap_slot empty
Below-reap n [] h b = tt
Below-reap n (p ∷ ps) h b = ground (arith, Below-reap n ps)

Distinct-reap : (ps : List Process) → Distinct pid_of ps → Distinct pid_of (reap_all ps).0
unfolding reap_all reap_slot empty
Distinct-reap [] d = tt
Distinct-reap (p ∷ ps) d = ground (arith, Distinct-reap ps, Absent-reap p.pid ps)

SlotsOk-reap : (ps : List Process) → SlotsOk ps → SlotsOk (reap_all ps).0
unfolding reap_all reap_slot empty
SlotsOk-reap [] s = tt
SlotsOk-reap (p ∷ ps) s = ground (arith, SlotsOk-reap ps)

length-reap : (ps : List Process) → length (reap_all ps).0 ≡ length ps
unfolding reap_all
length-reap [] = refl
length-reap (p ∷ ps) = omega (arith, length-reap ps)

-- Reaping a valid table removes the zombies and no other process, and keeps the table valid.
pub reap_zombies_lem :
    (t : ProcessTable)
    → IsValid t
    → let (t', spaces) = reap_zombies t in
      ((j : ℕ) → j ≢ 0 → get t' j ≡ survivor (get t j)) × IsValid t'
unfolding reap_zombies get
reap_zombies_lem t v = (
  λ j h. find-reap j t.processes h v.distinct,
  record {
    full = length-reap t.processes ∙ v.full;
    fresh_pid = v.fresh_pid;
    below = Below-reap t.next_pid t.processes v.fresh_pid v.below;
    distinct = Distinct-reap t.processes v.distinct;
    slots = SlotsOk-reap t.processes v.slots;
  },
)

-- On a valid table exiting turns an existing process into a zombie with that exit code and changes
-- no other, and the table stays valid.
pub mark_exit_lem :
    (t : ProcessTable) (pid : ℕ) (code : ℤ) (p : Process)
    → IsValid t
    → pid ≢ 0
    → get t pid ≡ some p
    → let (done, t') = mark_exit t pid code in
      (done ≡ true)
      × ((j : ℕ)
          → get t' j
            ≡ (if j == pid then some (record p { state = zombie; exit_code = code }) else get t j))
      × IsValid t'
unfolding mark_exit
mark_exit_lem t pid code p v h e =
    let exited : Process → Process = λ q. record q { state = zombie; exit_code = code } in
    let same : p.pid ≡ pid = unfold get in Slots.find-key pid_of pid t.processes p e in
    rw (e, mark_exit)
      (
        refl,
        λ j. get-modify t pid j exited p e same,
        modify-IsValid t pid exited p v e same (ground (arith, same)),
      )
