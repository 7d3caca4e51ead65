-- ===== src/Kernel/Perm/Laws.antt =====
-- Who is granted what by kernel/src/perm.rs.
use flutter_os.Prelude.{
  ℕ, ◌≡◌, refl, ◌≢◌, ◌⊎◌, inl, inr, ◌↔◌, true, false, some, arith, Option-cases, ◌==◌, Bool-cases,
}
use flutter_os.Kernel.Process.{Process, ProcessTable, get, is_free}
use flutter_os.Kernel.Perm.{
  user, Resource, framebuffer, input_events, file_read, file_write, process_control, exec,
  get_privilege_level, allowed, check_permission,
}

-- A process asks for a resource with success exactly if it is the kernel, or it exists and either
-- was started by the kernel or asks for files or for `exec` only.
abbrev pub IsGranted : ProcessTable → ℕ → Resource → Type 0
IsGranted t pid r =
    (pid ≡ 0)
    ⊎ ((p : Process) × (get t pid ≡ some p)
        × (is_free p.state ≡ false)
        × ((p.parent_pid ≡ 0) ⊎ ((r ≢ framebuffer) × (r ≢ input_events) × (r ≢ process_control))))

user_lem :
    (r : Resource)
    → (allowed user r ≡ true) ↔ ((r ≢ framebuffer) × (r ≢ input_events) × (r ≢ process_control))
unfolding allowed
user_lem framebuffer = (λ e. cc, λ h. absurd (h.0 refl))
user_lem input_events = (λ e. cc, λ h. absurd (h.1 refl))
user_lem file_read = (λ _. (λ e. cc, λ e. cc, λ e. cc), λ _. refl)
user_lem file_write = (λ _. (λ e. cc, λ e. cc, λ e. cc), λ _. refl)
user_lem process_control = (λ e. cc, λ h. absurd (h.2 refl))
user_lem exec = (λ _. (λ e. cc, λ e. cc, λ e. cc), λ _. refl)

-- `check_permission` grants a resource exactly to the kernel, to every process that the kernel
-- started, and to any other existing process if it is neither the framebuffer, nor input events,
-- nor process control; a pid that names no process is denied everything.
pub check_permission_iff :
    (t : ProcessTable) (pid : ℕ) (r : Resource)
    → (check_permission t pid r ≡ true) ↔ IsGranted t pid r
unfolding check_permission get_privilege_level allowed
check_permission_iff t pid r = (to, from)
  where
    to : check_permission t pid r ≡ true → IsGranted t pid r
    to e = elim (Bool-cases (pid == 0)) [
      | inl z ↦ inl (ground (arith, z))
      | inr nz ↦ elim (Option-cases (get t pid)) [
        | inl missing ↦ absurd (ground (arith, nz, missing))
        | inr (p, found) ↦
            inr (p, found, ground (arith, nz, found), ground (arith, nz, found, user_lem r))
      ]
    ]

    from : IsGranted t pid r → check_permission t pid r ≡ true
    from (inl z) = ground arith
    from (inr (p, found, live, h)) = ground (arith, user_lem r)
