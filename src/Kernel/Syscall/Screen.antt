-- ===== src/Kernel/Syscall/Screen.antt =====
-- The calls on the framebuffer of kernel/src/syscalls/mod.rs: get_framebuffer_info and fb_commit.
use flutter_os.Prelude.{
  ℕ, zero, suc, ◌+◌, ◌*◌, ◌%◌, ◌^◌, ◌||◌, none, some, List, [], ◌∷◌, ltb, leb, ◌==◌, if◌then◌else◌,
}
use flutter_os.Prelude.Int.{pos}
use flutter_os.Kernel.Syscall.World.{
  World, Framebuffer, Reply, returns, efault, einval, enosys, store, load, to_bytes,
}

-- Words written one after the other, as `*ptr.add(k) = …` does.
abbrev pub store_words : ℕ → List ℕ → (ℕ → ℕ) → ℕ → ℕ
store_words at [] memory = memory
store_words at (n ∷ ns) memory = store_words (at + 8) ns (store at (to_bytes 8 n) memory)

-- `x.checked_add(w).unwrap_or(limit)`
abbrev pub checked_end : ℕ → ℕ → ℕ → ℕ
checked_end x w limit = if ltb (x + w) (2 ^ 64) then x + w else limit

-- The rows of the loop of `sys_fb_commit`, from `row` on; it stops at a row that leaves the buffer.
-- The arithmetic wraps at 2 ^ 64, as in the release build.
unfoldable pub copy_rows : ℕ → ℕ → Framebuffer → ℕ → ℕ → ℕ → ℕ → (ℕ → ℕ) → ℕ → ℕ
copy_rows zero row fb src x y row_bytes memory = memory
copy_rows (suc rows) row fb src x y row_bytes memory =
    let from = (src + row * row_bytes) % 2 ^ 64 in
    let to = ((y + row) * fb.stride + x) * fb.bpp % 2 ^ 64 in
    let rest =
      copy_rows rows (row + 1) fb src x y row_bytes
        (store ((fb.address + to) % 2 ^ 64) (load memory from row_bytes) memory) in
    if ltb fb.len ((to + row_bytes) % 2 ^ 64) then memory else rest

module _ {F : Type 0} where
  unfoldable pub sys_get_framebuffer_info : World F → ℕ → Reply × World F
  sys_get_framebuffer_info w info = if info == 0 then (returns efault, w) else (elim w.screen [
    | none ↦ (returns enosys, w)
    | some fb ↦ (
      returns (pos 0),
      record w {
        memory =
            store_words info
              (fb.address ∷ fb.width ∷ fb.height ∷ fb.stride ∷ fb.bpp ∷ fb.format ∷ fb.len ∷ [])
              w.memory;
      },
    )
  ])

  unfoldable pub sys_fb_commit : World F → ℕ → ℕ → ℕ → ℕ → ℕ → Reply × World F
  sys_fb_commit w buf x y width height =
      if buf == 0
      then (returns efault, w)
      else if (width == 0) || (height == 0)
      then (returns einval, w)
      else (elim w.screen [
        | none ↦ (returns enosys, w)
        | some fb ↦
            if leb fb.width x || leb fb.height y
            then (returns einval, w)
            else if ltb fb.width (checked_end x width fb.width)
                || ltb fb.height (checked_end y height fb.height)
            then (returns einval, w)
            else (
              returns (pos 0),
              record w {
                memory = copy_rows height 0 fb buf x y (width * fb.bpp % 2 ^ 64) w.memory;
              },
            )
      ])
