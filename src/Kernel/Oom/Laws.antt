-- ===== src/Kernel/Oom/Laws.antt =====
-- Safety and progress of the out-of-memory handler of kernel/src/oom.rs.
use flutter_os.Prelude.{
  ◌+◌, ◌<◌, ◌≡◌, ◌≢◌, refl, ◌⊎◌, inl, inr, true, false, none, some, List, [], ◌∷◌, arith,
  Option-cases, Bool-cases, ltb,
}
use flutter_os.Prelude.Slots.{live}
use flutter_os.Kernel.Process.{
  Process, ProcessTable, ProcessState, zombie, ready, is_ready, pid_of, empty, is_zombie, reap_all,
  reap_slot, reap_zombies,
}
use flutter_os.Kernel.Process.Laws.{IsValid, SlotsOk}
use flutter_os.Kernel.Oom.{count_zombies, is_victim, oom_killed, kill_first, handle_oom}

-- Reaping frees one slot for each zombie.
live-reap :
    (ps : List Process)
    → SlotsOk ps
    → live pid_of (reap_all ps).0 + count_zombies ps ≡ live pid_of ps
unfolding live reap_all reap_slot count_zombies empty
live-reap [] s = refl
live-reap (p ∷ ps) s = ground (arith, live-reap ps)

-- A slot is reclaimed only from a zombie or from a ready process with a pid above 2, and every other
-- slot is as it was.
abbrev pub Spared : List Process → List Process → Type 0
Spared [] [] = Unit {0}
Spared [] (q ∷ qs) = ⊥
Spared (p ∷ ps) [] = ⊥
Spared (p ∷ ps) (q ∷ qs) =
    ((q ≡ p) ⊎ ((q ≡ empty) × ((p.state ≡ zombie) ⊎ ((2 < p.pid) × (p.state ≡ ready)))))
    × Spared ps qs

is_zombie-zombie : (s : ProcessState) → is_zombie s ≡ true → s ≡ zombie
is_zombie-zombie zombie e = refl
is_zombie-zombie _ e = absurd (ground (arith, e))

state-zombie : (p : Process) → is_zombie p.state ≡ true → p.state ≡ zombie
state-zombie p e = is_zombie-zombie p.state e

is_ready-ready : (s : ProcessState) → is_ready s ≡ true → s ≡ ready
is_ready-ready ready e = refl
is_ready-ready _ e = absurd (ground (arith, e))

is_victim-ready : (p : Process) → is_victim p ≡ true → (2 < p.pid) × (p.state ≡ ready)
is_victim-ready p e = (ground (arith, e), is_ready-ready p.state (ground (arith, e)))

reap-Spared : (ps : List Process) → Spared ps (reap_all ps).0
unfolding reap_all reap_slot
reap-Spared [] = tt
reap-Spared (p ∷ ps) = elim (Bool-cases (is_zombie p.state)) [
  | inl dead ↦ ground (arith, dead, reap-Spared ps, state-zombie p dead)
  | inr alive ↦ ground (arith, alive, reap-Spared ps)
]

no_zombies-reap : (ps : List Process) → count_zombies ps ≡ 0 → (reap_all ps).0 ≡ ps
unfolding reap_all reap_slot count_zombies
no_zombies-reap [] h = refl
no_zombies-reap (p ∷ ps) h = ground (arith, no_zombies-reap ps)

killed_zombie : (p : Process) → reap_slot (oom_killed p) ≡ empty
unfolding oom_killed reap_slot
killed_zombie p = refl

kill_inv :
    (p : Process) (ps qs : List Process)
    → kill_first (p ∷ ps) ≡ some qs
    → ((is_victim p ≡ true) × (qs ≡ oom_killed p ∷ ps))
      ⊎ ((is_victim p ≡ false) × ((rs : List Process) × (kill_first ps ≡ some rs) × (qs ≡ p ∷ rs)))
unfolding kill_first
kill_inv p ps qs e = elim (Bool-cases (is_victim p)) [
  | inl hit ↦ inl (hit, ground (arith, hit))
  | inr miss ↦ elim (Option-cases (kill_first ps)) [
    | inl stuck ↦ absurd (ground (arith, miss, stuck))
    | inr (rs, more) ↦ inr (miss, (rs, more, ground (arith, miss, more)))
  ]
]

kill-Spared : (ps qs : List Process) → kill_first ps ≡ some qs → Spared ps (reap_all qs).0
unfolding reap_all reap_slot
kill-Spared [] qs e = unfold kill_first in cc
kill-Spared (p ∷ ps) qs e = elim (kill_inv p ps qs e) [
  | inl (hit, at) ↦ rw at (inr (killed_zombie p, inr (is_victim-ready p hit)), reap-Spared ps)
  | inr (miss, (rs, more, at)) ↦ rw at (ground arith, kill-Spared ps rs more)
]

kill-SlotsOk : (ps qs : List Process) → kill_first ps ≡ some qs → SlotsOk ps → SlotsOk qs
kill-SlotsOk [] qs e s = unfold kill_first in cc
kill-SlotsOk (p ∷ ps) qs e s = elim (kill_inv p ps qs e) [
  | inl (hit, at) ↦ rw at (unfold oom_killed in ground (arith, hit), s.1)
  | inr (miss, (rs, more, at)) ↦ rw at (s.0, kill-SlotsOk ps rs more s.1)
]

live-kill :
    (ps qs : List Process)
    → kill_first ps ≡ some qs
    → (live pid_of qs ≡ live pid_of ps) × (0 < count_zombies qs)
unfolding live count_zombies
live-kill [] qs e = unfold kill_first in cc
live-kill (p ∷ ps) qs e = elim (kill_inv p ps qs e) [
  | inl (hit, at) ↦ rw at (unfold oom_killed in ground arith, unfold oom_killed in omega arith)
  | inr (miss, (rs, more, at)) ↦
      rw at (ground (arith, live-kill ps rs more), ground (arith, live-kill ps rs more))
]

-- No process is a zombie, and none with a pid above 2 is ready.
abbrev pub NoVictim : List Process → Type 0
NoVictim [] = Unit {0}
NoVictim (p ∷ ps) = (p.state ≢ zombie) × (2 < p.pid → p.state ≢ ready) × NoVictim ps

kill-NoVictim : (ps : List Process) → count_zombies ps ≡ 0 → kill_first ps ≡ none → NoVictim ps
unfolding kill_first count_zombies
kill-NoVictim [] c e = tt
kill-NoVictim (p ∷ ps) c e = elim (Bool-cases (is_victim p)) [
  | inl hit ↦ absurd (ground (arith, hit))
  | inr miss ↦ (
    λ z. absurd (ground (arith, c, z)),
    λ h z. absurd (ground (arith, miss, h, z)),
    kill-NoVictim ps (ground (arith, c)) (ground (arith, miss)),
  )
]

-- On a valid table the handler reports success only if it has made room: it then leaves fewer
-- processes, having emptied slots only of zombies and of ready processes with a pid above 2, and
-- every other slot is as it was. It reports failure only if there is no such process, and then
-- changes nothing.
pub handle_oom_lem :
    (t : ProcessTable)
    → IsValid t
    → let (ok, t', spaces) = handle_oom t in
      (ok ≡ true
        → (live pid_of t'.processes < live pid_of t.processes) × Spared t.processes t'.processes)
      × (ok ≡ false → (t' ≡ t) × (spaces ≡ []) × NoVictim t.processes)
unfolding handle_oom reap_zombies
handle_oom_lem t v = elim (Bool-cases (ltb 0 (count_zombies t.processes))) [
  | inl some_zombie ↦ rw some_zombie (
    λ _. (ground (arith, some_zombie, live-reap t.processes v.slots), reap-Spared t.processes),
    λ e. cc,
  )
  | inr clean ↦ elim (Option-cases (kill_first t.processes)) [
    | inl stuck ↦
        rw (clean, stuck, handle_oom)
          (λ e. cc, λ _. (refl, refl, kill-NoVictim t.processes (ground (arith, clean)) stuck))
    | inr (ps, killed) ↦
        rw (clean, killed, handle_oom)
          (
            λ _. (
              omega (
                arith,
                live-reap ps (kill-SlotsOk t.processes ps killed v.slots),
                live-kill t.processes ps killed,
              ),
              kill-Spared t.processes ps killed,
            ),
            λ e. cc,
          )
  ]
]
