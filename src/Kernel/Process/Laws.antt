-- ===== src/Kernel/Process/Laws.antt =====
-- The invariant of the process table of kernel/src/process.rs, and `alloc`, `free` and `get`.
use flutter_os.Prelude.{
  ℕ, ◌+◌, ◌%◌, ◌^◌, ◌<◌, ◌-◌, ◌++◌, min, take, set-padded, ap, ◌≡◌, refl, ◌≢◌, inl, inr, none, some,
  List, [], ◌∷◌, length, Bool-cases, ◌==◌, if◌then◌else◌, arith, replicate, zero, suc, ◌∙◌, ==_iff,
  subst,
}
use flutter_os.Prelude.Slots
use flutter_os.Prelude.Slots.{Below, Absent, Distinct, live}
use flutter_os.Prelude.Int.{pos}
use flutter_os.Kernel.Fd
use flutter_os.Kernel.Fd.{stream, free}
use flutter_os.Kernel.Process.{
  set_name, blocked, zero_context, Process, ProcessTable, pid_of, empty, new, alloc, get, modify,
  fresh, is_free,
}

-- A slot is in use exactly when its process is in a state other than Free.
abbrev pub SlotOk : Process → Type 0
SlotOk p = is_free p.state ≡ (p.pid == 0)

abbrev pub SlotsOk : List Process → Type 0
SlotsOk [] = Unit {0}
SlotsOk (p ∷ ps) = SlotOk p × SlotsOk ps

pub record IsValid (t : ProcessTable) : Type 0 where
  pub full : length t.processes ≡ 32
  pub fresh_pid : 0 < t.next_pid
  pub below : Below pid_of t.next_pid t.processes
  pub distinct : Distinct pid_of t.processes
  pub slots : SlotsOk t.processes

pub SlotsOk-update :
    (k : ℕ) (f : Process → Process) (ps : List Process) (p : Process)
    → Slots.find pid_of k ps ≡ some p
    → SlotOk (f p)
    → SlotsOk ps
    → SlotsOk (Slots.update pid_of k f ps)
unfolding Slots.find Slots.update
SlotsOk-update k f [] q e g s = tt
SlotsOk-update k f (p ∷ ps) q e g s = ground (arith, SlotsOk-update k f ps q)

pub SlotsOk-find :
    (k : ℕ) (ps : List Process) (p : Process)
    → Slots.find pid_of k ps ≡ some p
    → SlotsOk ps
    → SlotOk p
unfolding Slots.find
SlotsOk-find k [] q e s = cc
SlotsOk-find k (p ∷ ps) q e s = ground (arith, SlotsOk-find k ps q)

pub SlotsOk-replicate : (n : ℕ) → SlotsOk (replicate n empty)
unfolding empty
SlotsOk-replicate zero = tt
SlotsOk-replicate (suc n) = (refl, SlotsOk-replicate n)

pub new-IsValid : IsValid new
unfolding new
new-IsValid = record {
  full = refl;
  fresh_pid = omega arith;
  below = unfold empty in omega arith;
  distinct = unfold empty in omega arith;
  slots = SlotsOk-replicate 32;
}

-- Changing a process in place without touching its pid.
pub modify-IsValid :
    (t : ProcessTable) (k : ℕ) (f : Process → Process) (p : Process)
    → IsValid t
    → get t k ≡ some p
    → (f p).pid ≡ k
    → SlotOk (f p)
    → IsValid (modify t k f)
unfolding modify get
modify-IsValid t k f p v e same ok = record {
  full = Slots.length-update pid_of k f t.processes ∙ v.full;
  fresh_pid = v.fresh_pid;
  below =
      Slots.Below-update pid_of t.next_pid k f t.processes p e
        (rw same (Slots.find-Below pid_of t.next_pid k t.processes p e v.below)) v.below;
  distinct = Slots.Distinct-update_key pid_of k f t.processes p e same v.distinct;
  slots = SlotsOk-update k f t.processes p e ok v.slots;
}

-- What `get` shows after a change in place that keeps the pid.
pub get-modify :
    (t : ProcessTable) (k j : ℕ) (f : Process → Process) (p : Process)
    → get t k ≡ some p
    → (f p).pid ≡ k
    → get (modify t k f) j ≡ (if j == k then some (f p) else get t j)
unfolding modify get
get-modify t k j f p e same = elim (Bool-cases (j == k)) [
  | inl hit ↦
      let at : j ≡ k = (==_iff j k).0 hit in
      rw (hit, at) (Slots.find-update_self pid_of k f t.processes p e same)
  | inr miss ↦ rw miss (
      Slots.find-update_ne pid_of j k f t.processes p e (ground (arith, miss))
        (ground (arith, miss)))
]

-- On a valid table whose 32 slots are all in use `alloc` returns 0 and changes nothing.
pub alloc_full :
    (t : ProcessTable) (parent_pid : ℕ) (name : List ℕ)
    → IsValid t
    → live pid_of t.processes ≡ 32
    → alloc t parent_pid name ≡ (0, t)
unfolding alloc
alloc_full t parent_pid name v h =
    rw (Slots.find_full pid_of t.processes (omega (arith, v.full)), alloc)

fresh_eq :
    (pid parent_pid : ℕ) (name : List ℕ) (p : Process)
    → fresh pid parent_pid name p ≡ fresh pid parent_pid name empty
unfolding fresh
fresh_eq pid parent_pid name p = refl

pid-fresh :
    (pid parent_pid : ℕ) (name : List ℕ) (p : Process) → (fresh pid parent_pid name p).pid ≡ pid
unfolding fresh
pid-fresh pid parent_pid name p = refl

fresh-SlotOk :
    (pid parent_pid : ℕ) (name : List ℕ) (p : Process)
    → 0 < pid
    → SlotOk (fresh pid parent_pid name p)
unfolding fresh
fresh-SlotOk pid parent_pid name p h = ground arith

-- The table after a successful `alloc`.
abbrev after_alloc : ProcessTable → ℕ → List ℕ → ProcessTable
after_alloc t parent_pid name = record t {
  processes = Slots.update pid_of 0 (fresh t.next_pid parent_pid name) t.processes;
  next_pid = (t.next_pid + 1) % 2 ^ 32;
}

module _ (t : ProcessTable) (parent_pid : ℕ) (name : List ℕ) (v : IsValid t)
    (nowrap : t.next_pid + 1 < 2 ^ 32) (p : Process)
    (hit : Slots.find pid_of 0 t.processes ≡ some p) where
  new-Absent : Absent pid_of t.next_pid t.processes
  new-Absent = Slots.Below-Absent pid_of t.next_pid t.next_pid t.processes (omega arith) v.below

  raised : Below pid_of (t.next_pid + 1) (after_alloc t parent_pid name).processes
  raised =
      Slots.Below-update pid_of (t.next_pid + 1) 0 (fresh t.next_pid parent_pid name) t.processes p
        hit (rw pid-fresh (omega arith))
        (Slots.Below-mono pid_of t.next_pid (t.next_pid + 1) t.processes (omega arith) v.below)

  after_alloc-IsValid : IsValid (after_alloc t parent_pid name)
  after_alloc-IsValid = record {
    full = Slots.length-update pid_of 0 (fresh t.next_pid parent_pid name) t.processes ∙ v.full;
    fresh_pid = omega arith;
    below =
        subst (λ n. Below pid_of n (after_alloc t parent_pid name).processes) (omega arith) raised;
    distinct =
        Slots.Distinct-update pid_of 0 (fresh t.next_pid parent_pid name) t.processes p hit
          (inr (rw (pid-fresh t.next_pid parent_pid name p) new-Absent)) v.distinct;
    slots =
        SlotsOk-update 0 (fresh t.next_pid parent_pid name) t.processes p hit
          (fresh-SlotOk t.next_pid parent_pid name p v.fresh_pid) v.slots;
  }

  get-after_alloc :
      (j : ℕ)
      → j ≢ 0
      → get (after_alloc t parent_pid name) j
        ≡ (if j == t.next_pid then some (fresh t.next_pid parent_pid name empty) else get t j)
  unfolding get
  get-after_alloc j h = elim (Bool-cases (j == t.next_pid)) [
    | inl at ↦
        rw (at, (==_iff j t.next_pid).0 at, ← fresh_eq t.next_pid parent_pid name p)
          (Slots.find-update_new pid_of t.next_pid 0 (fresh t.next_pid parent_pid name) t.processes
            p hit (pid-fresh t.next_pid parent_pid name p) new-Absent)
    | inr off ↦ rw off (
        Slots.find-update_ne pid_of j 0 (fresh t.next_pid parent_pid name) t.processes p hit h
          (rw pid-fresh (ground (arith, off))))
  ]

  live-after_alloc :
      live pid_of (after_alloc t parent_pid name).processes ≡ live pid_of t.processes + 1
  live-after_alloc = ground (
    arith,
    Slots.live-update pid_of 0 (fresh t.next_pid parent_pid name) t.processes p hit,
    pid-fresh t.next_pid parent_pid name p,
    Slots.find-key pid_of 0 t.processes p hit,
    v.fresh_pid,
  )

  alloc_eq : alloc t parent_pid name ≡ (t.next_pid, after_alloc t parent_pid name)
  unfolding alloc
  alloc_eq = rw (hit, alloc)

-- A process as `alloc` starts it: blocked, without an address space, with the three standard streams
-- open, and with its name cut to 15 bytes and ended by a zero.
abbrev pub newborn : ℕ → ℕ → List ℕ → Process
newborn pid parent_pid name = record {
  pid = pid;
  parent_pid = parent_pid;
  state = blocked;
  context = zero_context;
  entry_point = 0;
  user_rsp = 0;
  cr3 = 0;
  fd_table = record { entries = stream ∷ stream ∷ stream ∷ replicate 125 free };
  pending_signals = 0;
  signal_mask = 0;
  exit_code = pos 0;
  name = take 15 name ++ replicate (16 - min (length name) 15) 0;
}

fresh-newborn :
    (pid parent_pid : ℕ) (name : List ℕ)
    → fresh pid parent_pid name empty ≡ newborn pid parent_pid name
unfolding fresh set_name Fd.new
fresh-newborn pid parent_pid name =
    ap (λ n. record (newborn pid parent_pid name) { name = n }) (set-padded 15 name 0)

-- While a slot is free, `alloc` on a valid table returns the next pid, which no process had. Under
-- it stands a blocked process with that parent, no address space, only the standard streams, and
-- the name given, cut to 15 bytes; every other process is as before, one more slot is in use, and the table stays valid. (The pid
-- counter is assumed not to wrap.)
pub alloc-some :
    (t : ProcessTable) (parent_pid : ℕ) (name : List ℕ)
    → IsValid t
    → t.next_pid + 1 < 2 ^ 32
    → live pid_of t.processes < 32
    → let (pid, t') = alloc t parent_pid name in
      (pid ≡ t.next_pid)
      × (get t pid ≡ none)
      × ((j : ℕ)
          → j ≢ 0
          → get t' j ≡ (if j == pid then some (newborn pid parent_pid name) else get t j))
      × (live pid_of t'.processes ≡ live pid_of t.processes + 1)
      × IsValid t'
alloc-some t parent_pid name v nowrap h =
    let (p, hit) = Slots.find_empty pid_of t.processes (omega (arith, v.full)) in
    rw (alloc_eq t parent_pid name v nowrap p hit) (
      refl,
      unfold get in
          Slots.find-Absent pid_of t.next_pid t.processes
            (new-Absent t parent_pid name v nowrap p hit),
      λ j nz.
          subst
            (λ q.
              get (after_alloc t parent_pid name) j ≡ (if j == t.next_pid then some q else get t j))
            (fresh-newborn t.next_pid parent_pid name)
            (get-after_alloc t parent_pid name v nowrap p hit j nz),
      live-after_alloc t parent_pid name v nowrap p hit,
      after_alloc-IsValid t parent_pid name v nowrap p hit,
    )
