-- ===== src/Kernel/Paging/Space.antt =====
-- What a new address space maps: `new_user` of kernel/src/memory/page_table.rs.
use flutter_os.Prelude.{
  ℕ, zero, suc, ◌+◌, ◌^◌, ◌<◌, ◌≡◌, ◌≢◌, refl, ap, ◌∙◌, Bool, false, not, ◌&&◌, none, some, ltb,
  leb, ◌==◌, if◌then◌else◌, Bool-cases, inl, inr, arith,
}
use flutter_os.Kernel.Paging.{
  Entries, Physical, FrameSource, Mapper, ok, index_of, copy_kernel, new_user, translate,
  zero_frame, set_entry, space_in,
}

pub index_of-low : (vaddr : ℕ) → vaddr < 2 ^ 39 → index_of 4 vaddr ≡ 0
unfolding index_of
index_of-low vaddr h = omega arith

module _ {E F A : Type 0} (x : Entries E F) (s : FrameSource A) (k : Mapper E F A) where
  -- An entry of the kernel's that a new space shares.
  abbrev pub is_shared : E → Bool
  is_shared e = x.is_present e && not (x.is_user e)

  -- One round of the loop.
  abbrev step : ℕ → ℕ → ℕ → Physical E A → Physical E A
  step kernel f i m =
      let e = m.table kernel i in
      if x.is_present e && not (x.is_user e) then set_entry x s k f i e m else m

  step_lem :
      (kernel f i : ℕ) (m : Physical E A) (t j : ℕ)
      → (step kernel f i m).table t j ≡ (
          if is_shared (m.table kernel i) && ((f == t) && (i == j))
          then m.table kernel i
          else m.table t j)
  step_lem kernel f i m t j = elim (Bool-cases (is_shared (m.table kernel i))) [
    | inl h ↦ rw h refl
    | inr h ↦ rw h refl
  ]

  step-other :
      (kernel f i : ℕ) (m : Physical E A) (t j : ℕ)
      → f ≢ t
      → (step kernel f i m).table t j ≡ m.table t j
  step-other kernel f i m t j ne = step_lem kernel f i m t j ∙ ground arith

  -- The loop leaves every other table as it is.
  copy_kernel-other :
      (n i kernel f : ℕ) (m : Physical E A) (t j : ℕ)
      → f ≢ t
      → (copy_kernel x s k n i kernel f m).table t j ≡ m.table t j
  unfolding copy_kernel
  copy_kernel-other zero i kernel f m t j ne = refl
  copy_kernel-other (suc n) i kernel f m t j ne =
      copy_kernel-other n (i + 1) kernel f (step kernel f i m) t j ne
      ∙ step-other kernel f i m t j ne

  -- How the first round and the later ones join, on a row of entries.
  pick :
      (n i j f : ℕ) (e : ℕ → E) (d : E)
      → (if leb (i + 1) j && (ltb j (i + 1 + n) && is_shared (e j))
          then e j
          else (if is_shared (e i) && ((f == f) && (i == j)) then e i else d))
        ≡ (if leb i j && (ltb j (i + suc n) && is_shared (e j)) then e j else d)
  pick n i j f e d = grind arith

  copy_kernel_lem :
      (n i kernel f : ℕ) (m : Physical E A) (j : ℕ)
      → f ≢ kernel
      → (copy_kernel x s k n i kernel f m).table f j ≡ (
          if leb i j && (ltb j (i + n) && is_shared (m.table kernel j))
          then m.table kernel j
          else m.table f j)
  unfolding copy_kernel
  copy_kernel_lem zero i kernel f m j ne = ground arith
  copy_kernel_lem (suc n) i kernel f m j ne =
      copy_kernel_lem n (i + 1) kernel f (step kernel f i m) j ne
      ∙ rw (step-other kernel f i m kernel j ne, step_lem kernel f i m f j)
          (pick n i j f (m.table kernel) (m.table f j))

  -- The outcome when a frame is free.
  new_user-some :
      (kernel f : ℕ) (fs : A) (m : Physical E A)
      → s.alloc_frame m.frames ≡ (some f, fs)
      → new_user x s k kernel m
        ≡ (ok f, copy_kernel x s k 511 1 kernel f (zero_frame x s k f (record m { frames = fs })))
  unfolding new_user
  new_user-some kernel f fs m ha = ap (space_in x s k kernel m) ha

  -- A space is made with the frame that is free; its table has the kernel's entries from 1 on that
  -- users may not reach, and no other; every other table stays as it is.
  pub new_user_lem :
      (kernel f : ℕ) (fs : A) (m : Physical E A)
      → s.alloc_frame m.frames ≡ (some f, fs)
      → f ≢ kernel
      → let (r, m') = new_user x s k kernel m in
        (r ≡ ok f)
        × ((j : ℕ)
            → j < 512
            → m'.table f j
              ≡ (if leb 1 j && is_shared (m.table kernel j) then m.table kernel j else x.unused))
        × ((t j : ℕ) → f ≢ t → m'.table t j ≡ m.table t j)
  new_user_lem kernel f fs m ha ne =
      let m0 = zero_frame x s k f (record m { frames = fs }) in
      rw (new_user-some kernel f fs m ha) (
        refl,
        (λ j hj. copy_kernel_lem 511 1 kernel f m0 j ne ∙ ground arith),
        (λ t j h. copy_kernel-other 511 1 kernel f m0 t j h ∙ ground arith),
      )

  translate-absent :
      (m : Physical E A) (pml4 vaddr : ℕ)
      → x.is_present (m.table pml4 (index_of 4 vaddr)) ≡ false
      → translate x s k m pml4 vaddr ≡ none
  unfolding translate
  translate-absent m pml4 vaddr h = rw h refl

  -- No address below 2 ^ 39, where programs are loaded, is mapped in a new space.
  pub new_user-translate :
      (kernel f vaddr : ℕ) (fs : A) (m : Physical E A)
      → x.is_present x.unused ≡ false
      → s.alloc_frame m.frames ≡ (some f, fs)
      → f ≢ kernel
      → vaddr < 2 ^ 39
      → translate x s k ((new_user x s k kernel m).1) f vaddr ≡ none
  new_user-translate kernel f vaddr fs m hu ha ne hv =
      let (_, t, _) = new_user_lem kernel f fs m ha ne in
      translate-absent ((new_user x s k kernel m).1) f vaddr
        (rw (index_of-low vaddr hv, t 0 (omega arith)) hu)
