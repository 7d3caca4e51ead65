-- ===== src/Kernel/Syscall/Gate.antt =====
-- The permission checks before the system calls of kernel/src/syscalls/mod.rs.
use flutter_os.Prelude.{ℕ, ◌≡◌, refl, ◌≢◌, ◌⊎◌, inl, inr, Bool, false, some, List, arith}
use flutter_os.Fs.Result.{FileOps}
use flutter_os.Kernel.Perm.{
  Resource, framebuffer, input_events, process_control, user, allowed, check_permission,
  get_privilege_level,
}
use flutter_os.Kernel.Scheduler.{Busy}
use flutter_os.Kernel.Syscall.Number.{
  SyscallNum, sc_get_framebuffer_info, sc_fb_commit, sc_poll_input, sc_kill, from_u64,
  perm_resource,
}
use flutter_os.Kernel.Syscall.World.{World, Reply, returns, eperm, table_of}
use flutter_os.Kernel.Syscall.Dispatch.{Args, check_perm, dispatch}

gated-denied :
    (s : SyscallNum)
    → (s ≡ sc_get_framebuffer_info) ⊎ (s ≡ sc_fb_commit) ⊎ (s ≡ sc_poll_input) ⊎ (s ≡ sc_kill)
    → (r : Resource) × (perm_resource s ≡ some r) × (allowed user r ≡ false)
unfolding perm_resource allowed
gated-denied s (inl e) = rw e (framebuffer, refl, refl)
gated-denied s (inr (inl e)) = rw e (framebuffer, refl, refl)
gated-denied s (inr (inr (inl e))) = rw e (input_events, refl, refl)
gated-denied s (inr (inr (inr e))) = rw e (process_control, refl, refl)

module _ {F : Type 0} (is_utf8 : List ℕ → Bool) (o : FileOps F) (b : Busy)
    (rest : SyscallNum → World F → Args → Reply × World F) where
  denied :
      (w : World F) (r : Resource)
      → (table_of w).current_pid ≢ 0
      → get_privilege_level (table_of w) (table_of w).current_pid ≡ user
      → allowed user r ≡ false
      → check_perm w r ≡ false
  unfolding check_perm check_permission
  denied w r ne level e = ground (arith, ne, level, e)

  -- A user process that asks for the framebuffer's data, commits a rectangle to it, polls for input
  -- or calls kill, also on itself, gets EPERM and changes nothing, whatever the arguments are.
  pub dispatch-denied :
      (w : World F) (num : ℕ) (a : Args) (s : SyscallNum)
      → (table_of w).current_pid ≢ 0
      → get_privilege_level (table_of w) (table_of w).current_pid ≡ user
      → from_u64 num ≡ some s
      → (s ≡ sc_get_framebuffer_info) ⊎ (s ≡ sc_fb_commit) ⊎ (s ≡ sc_poll_input) ⊎ (s ≡ sc_kill)
      → dispatch is_utf8 o b rest w num a ≡ (returns eperm, w)
  unfolding dispatch
  dispatch-denied w num a s ne level known which =
      let (r, gated, refused) = gated-denied s which in
      ground (arith, known, gated, denied w r ne level refused)
