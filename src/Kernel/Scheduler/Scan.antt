-- ===== src/Kernel/Scheduler/Scan.antt =====
-- The round-robin choice of kernel/src/scheduler.rs: which process `find_next_ready` picks.
use flutter_os.Prelude.{
  ℕ, zero, suc, ◌+◌, ◌-◌, ◌%◌, ◌<◌, ◌≤◌, ◌≡◌, refl, ◌≢◌, ◌⊎◌, length, true, false, none, some, List,
  [], ◌∷◌, ◌==◌, arith, Bool-cases, ltb, inl, inr, subst,
}
use flutter_os.Kernel.Process.{Process, ProcessTable, ProcessState, ready, is_ready}
use flutter_os.Kernel.Scheduler.{
  Busy, slot_at, is_runnable, position, scan, start_slot, find_next_ready,
}

scan-some :
    (n i start : ℕ) (ps : List Process) (pid : ℕ)
    → scan n i start ps ≡ some pid
    → (k : ℕ) × (i ≤ k)
      × (k < i + n)
      × (is_runnable (slot_at ps ((start + k) % 32)) ≡ true)
      × ((slot_at ps ((start + k) % 32)).pid ≡ pid)
      × ((j : ℕ) → i ≤ j → j < k → is_runnable (slot_at ps ((start + j) % 32)) ≡ false)
unfolding scan
scan-some zero i start ps pid e = absurd (ground arith)
scan-some (suc n) i start ps pid e =
    elim (Bool-cases (is_runnable (slot_at ps ((start + i) % 32)))) [
      | inl hit ↦
          (i, omega arith, omega arith, hit, ground (arith, hit), λ j lo hi. absurd (omega arith))
      | inr miss ↦
          let (k, lo, hi, at, same, before) =
            scan-some n (i + 1) start ps pid (ground (arith, miss)) in
          (
            k,
            omega arith,
            omega arith,
            at,
            same,
            λ j lo' hi'. elim (Bool-cases (i == j)) [
              | inl first ↦ ground (arith, first, miss)
              | inr later ↦ before j (ground (arith, later)) hi'
            ],
          )
    ]

scan-none :
    (n i start : ℕ) (ps : List Process) (j : ℕ)
    → scan n i start ps ≡ none
    → i ≤ j
    → j < i + n
    → is_runnable (slot_at ps ((start + j) % 32)) ≡ false
unfolding scan
scan-none zero i start ps j e lo hi = absurd (omega arith)
scan-none (suc n) i start ps j e lo hi =
    elim (Bool-cases (is_runnable (slot_at ps ((start + i) % 32)))) [
      | inl hit ↦ absurd (ground (arith, hit))
      | inr miss ↦ elim (Bool-cases (i == j)) [
        | inl first ↦ ground (arith, first, miss)
        | inr later ↦
            scan-none n (i + 1) start ps j (ground (arith, miss)) (ground (arith, later))
              (omega arith)
      ]
    ]

scan_choice :
    (b : Busy) (t : ProcessTable) (after pid : ℕ)
    → find_next_ready b t after ≡ some pid
    → let start = start_slot after t.processes in
      (k : ℕ) × (1 ≤ k)
      × (k ≤ 32)
      × (is_runnable (slot_at t.processes ((start + k) % 32)) ≡ true)
      × ((slot_at t.processes ((start + k) % 32)).pid ≡ pid)
      × ((j : ℕ) → 1 ≤ j → j < k → is_runnable (slot_at t.processes ((start + j) % 32)) ≡ false)
unfolding find_next_ready
scan_choice b t after pid e =
    let (k, lo, hi, at, same, before) =
      scan-some 32 1 (start_slot after t.processes) t.processes pid (ground arith) in
    (k, lo, omega arith, at, same, before)

-- The slot behind which the search begins: the first that holds the pid, or slot 0 if none does.
abbrev pub StartsAt : ℕ → List Process → ℕ → Type 0
StartsAt pid ps start =
    ((start < length ps)
      × ((slot_at ps start).pid ≡ pid)
      × ((j : ℕ) → j < start → (slot_at ps j).pid ≢ pid))
    ⊎ ((start ≡ 0) × ((j : ℕ) → j < length ps → (slot_at ps j).pid ≢ pid))

-- A ready process in use.
abbrev pub Runnable : Process → Type 0
Runnable p = (p.pid ≢ 0) × (p.state ≡ ready)

position_cases :
    (pid : ℕ) (ps : List Process)
    → ((i : ℕ) × (position pid ps ≡ some i)
        × (i < length ps)
        × ((slot_at ps i).pid ≡ pid)
        × ((j : ℕ) → j < i → (slot_at ps j).pid ≢ pid))
      ⊎ ((position pid ps ≡ none) × ((j : ℕ) → j < length ps → (slot_at ps j).pid ≢ pid))
unfolding position
position_cases pid [] = inr (refl, λ j h. absurd (omega (arith, h)))
position_cases pid (p ∷ ps) = elim (Bool-cases (p.pid == pid)) [
  | inl hit ↦
      inl
        (0, ground (arith, hit), omega arith, ground (arith, hit), λ j h. absurd (omega (arith, h)))
  | inr miss ↦ elim (position_cases pid ps) [
    | inl (i, at, inside, same, before) ↦
        inl (suc i, ground (arith, miss, at), omega (arith, inside), same, behind miss i before)
    | inr (gone, before) ↦ inr (ground (arith, miss, gone), behind miss (length ps) before)
  ]
]
  where
    behind :
        (p.pid == pid) ≡ false
        → (n : ℕ) → ((j : ℕ) → j < n → (slot_at ps j).pid ≢ pid)
        → (j : ℕ) → j < suc n
        → (slot_at (p ∷ ps) j).pid ≢ pid
    behind miss n before zero h z = absurd (ground (arith, miss, z))
    behind miss n before (suc j) h z = before j (omega (arith, h)) z

start_slot-StartsAt : (pid : ℕ) (ps : List Process) → StartsAt pid ps (start_slot pid ps)
start_slot-StartsAt pid ps = elim (position_cases pid ps) [
  | inl (i, at, inside, same, before) ↦ rw at (inl (inside, same, before))
  | inr (gone, before) ↦ rw gone (inr (refl, before))
]

is_ready-ready : (s : ProcessState) → is_ready s ≡ true → s ≡ ready
is_ready-ready ready e = refl
is_ready-ready _ e = absurd (ground (arith, e))

is_runnable-Runnable : (p : Process) → is_runnable p ≡ true → Runnable p
is_runnable-Runnable p e = (ground (arith, e), is_ready-ready p.state (ground (arith, e)))

not_Runnable : (p : Process) → is_runnable p ≡ false → ¬ Runnable p
not_Runnable p e (nz, r) = absurd (ground (arith, e, nz, r))

-- The choice is round robin: the process that `find_next_ready` picks is ready and the first such
-- behind the slot that holds the given pid (slot 0 if none does), the slots taken cyclically and that
-- slot itself last.
pub find_next_ready-some :
    (b : Busy) (t : ProcessTable) (after pid : ℕ)
    → find_next_ready b t after ≡ some pid
    → (start : ℕ) × StartsAt after t.processes start
      × ((k : ℕ) × (1 ≤ k)
          × (k ≤ 32)
          × Runnable (slot_at t.processes ((start + k) % 32))
          × ((slot_at t.processes ((start + k) % 32)).pid ≡ pid)
          × ((j : ℕ) → 1 ≤ j → j < k → ¬ Runnable (slot_at t.processes ((start + j) % 32))))
find_next_ready-some b t after pid e =
    let start = start_slot after t.processes in
    let (k, lo, hi, at, same, before) = scan_choice b t after pid e in
    (
      start,
      start_slot-StartsAt after t.processes,
      (
        k,
        lo,
        hi,
        is_runnable-Runnable (slot_at t.processes ((start + k) % 32)) at,
        same,
        λ j l h. not_Runnable (slot_at t.processes ((start + j) % 32)) (before j l h),
      ),
    )

-- With the table free, `find_next_ready` gives up only if no slot at all holds a runnable process.
-- (The slot from which it counts is one of the 32.)
pub find_next_ready-none :
    (b : Busy) (t : ProcessTable) (after j : ℕ)
    → b.table_busy ≡ false
    → find_next_ready b t after ≡ none
    → start_slot after t.processes < 32
    → j < 32
    → is_runnable (slot_at t.processes j) ≡ false
unfolding find_next_ready
find_next_ready-none b t after j free e h hj =
    elim (Bool-cases (ltb (start_slot after t.processes) j)) [
      | inl below ↦
          at (j - start_slot after t.processes) (ground (arith, below)) (ground (arith, below))
            (ground (arith, below))
      | inr above ↦
          at (j + 32 - start_slot after t.processes) (ground (arith, above)) (ground (arith, above))
            (ground (arith, above))
    ]
  where
    at :
        (k : ℕ)
        → 1 ≤ k
        → k ≤ 32
        → (start_slot after t.processes + k) % 32 ≡ j
        → is_runnable (slot_at t.processes j) ≡ false
    at k lo hi same =
        subst (λ i. is_runnable (slot_at t.processes i) ≡ false) same
          (scan-none 32 1 (start_slot after t.processes) t.processes k (ground (arith, free)) lo
            (omega arith))
