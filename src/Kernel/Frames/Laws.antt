-- ===== src/Kernel/Frames/Laws.antt =====
-- kernel/src/memory/frame_allocator.rs: a freed frame is the next one given out.
use flutter_os.Prelude.{
  ℕ, ◌+◌, ◌%◌, ◌^◌, ◌<◌, ◌≡◌, ◌&&◌, some, leb, ltb, if◌then◌else◌, arith, length, get_or-set_self,
}
use flutter_os.Kernel.Frames.{FrameAllocator, allocate_frame, deallocate_frame, free_count}

-- While the stack has room, a frame that is freed is the next one to be allocated: the allocator
-- then holds as many free frames as before, the frame's 4096 bytes are zero, and no other byte of
-- memory has changed.
pub free-reuse :
    (physical_offset : ℕ) (memory : ℕ → ℕ) (t : FrameAllocator) (frame : ℕ)
    → length t.free_stack ≡ 32768
    → free_count t < 32768
    → let (got, memory', t') = allocate_frame physical_offset memory (deallocate_frame t frame) in
      (got ≡ some frame)
      × (free_count t' ≡ free_count t)
      × ((a : ℕ)
          → memory' a ≡ (
              if leb ((physical_offset + frame) % 2 ^ 64) a
                && ltb a ((physical_offset + frame) % 2 ^ 64 + 4096)
              then 0
              else memory a))
unfolding allocate_frame deallocate_frame
free-reuse po memory t frame full room = ground (arith, get_or-set_self t.free_stack t.top frame 0)
