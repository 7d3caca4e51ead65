-- ===== src/Kernel/Scheduler/Lone.antt =====
-- Slots of which at most the current one holds a running process, and the slot of a pid.
use flutter_os.Prelude.{
  ℕ, ◌≡◌, refl, ◌≢◌, inl, inr, false, not, ◌&&◌, none, some, List, [], ◌∷◌, ◌==◌, arith, Bool-cases,
  Option-cases,
}
use flutter_os.Prelude.Slots
use flutter_os.Prelude.Slots.{Absent, Distinct}
use flutter_os.Kernel.Process.{Process, pid_of, is_running}
use flutter_os.Kernel.Process.Laws.{SlotsOk}
use flutter_os.Kernel.Scheduler.{position, demote, promote}

-- No process runs but the one with this pid.
abbrev pub Lone : ℕ → List Process → Type 0
Lone cur [] = Unit {0}
Lone cur (p ∷ ps) = ((is_running p.state && not (p.pid == cur)) ≡ false) × Lone cur ps

abbrev pub Quiet : List Process → Type 0
Quiet [] = Unit {0}
Quiet (p ∷ ps) = (is_running p.state ≡ false) × Quiet ps

pub Quiet-Absent : (cur : ℕ) (ps : List Process) → Lone cur ps → Absent pid_of cur ps → Quiet ps
Quiet-Absent cur [] l a = tt
Quiet-Absent cur (p ∷ ps) l a = ground (arith, Quiet-Absent cur ps)

pub Quiet-zero : (ps : List Process) → Lone 0 ps → SlotsOk ps → Quiet ps
Quiet-zero [] l s = tt
Quiet-zero (p ∷ ps) l s = ground (arith, Quiet-zero ps)

pub Absent-none : (k : ℕ) (ps : List Process) → Slots.find pid_of k ps ≡ none → Absent pid_of k ps
unfolding Slots.find
Absent-none k [] e = tt
Absent-none k (p ∷ ps) e = ground (arith, Absent-none k ps)

pub Quiet-demote :
    (cur : ℕ) (ps : List Process)
    → cur ≢ 0
    → Lone cur ps
    → Distinct pid_of ps
    → Quiet (Slots.update pid_of cur demote ps)
unfolding Slots.update demote
Quiet-demote cur [] h l d = tt
Quiet-demote cur (p ∷ ps) h l d =
    ground (arith, Quiet-demote cur ps h l.1 d.1, Quiet-Absent cur ps l.1)

pub Quiet-Lone : (cur : ℕ) (ps : List Process) → Quiet ps → Lone cur ps
Quiet-Lone cur [] q = tt
Quiet-Lone cur (p ∷ ps) q = ground (arith, Quiet-Lone cur ps q.1)

pub Lone-promote :
    (new : ℕ) (ps : List Process) → Quiet ps → Lone new (Slots.update pid_of new promote ps)
unfolding Slots.update promote
Lone-promote new [] q = tt
Lone-promote new (p ∷ ps) q = ground (arith, Lone-promote new ps q.1, Quiet-Lone new ps q.1)

-- A change in place that starts no process.
pub Lone-update :
    (cur k : ℕ) (f : Process → Process) (ps : List Process)
    → ((p : Process) → (f p).pid ≡ p.pid)
    → ((p : Process) → is_running p.state ≡ false → is_running (f p).state ≡ false)
    → Lone cur ps
    → Lone cur (Slots.update pid_of k f ps)
unfolding Slots.update
Lone-update cur k f [] same keep l = tt
Lone-update cur k f (p ∷ ps) same keep l =
    ground (arith, same p, keep p, Lone-update cur k f ps same keep l.1)

pub position-none :
    (pid : ℕ) (ps : List Process) → position pid ps ≡ none → Slots.find pid_of pid ps ≡ none
unfolding position Slots.find
position-none pid [] e = refl
position-none pid (p ∷ ps) e = ground (arith, position-none pid ps)

pub position-some :
    (pid i : ℕ) (ps : List Process)
    → position pid ps ≡ some i
    → (p : Process) × (Slots.find pid_of pid ps ≡ some p)
unfolding position Slots.find
position-some pid i [] e = absurd (ground arith)
position-some pid i (p ∷ ps) e = elim (Bool-cases (p.pid == pid)) [
  | inl hit ↦ (p, rw hit)
  | inr miss ↦ elim (Option-cases (position pid ps)) [
    | inl missing ↦ absurd (ground (arith, miss, missing))
    | inr (k, at) ↦ let (q, e') = position-some pid k ps at in (q, ground (arith, miss, e'))
  ]
]
