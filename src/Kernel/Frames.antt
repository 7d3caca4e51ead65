-- ===== src/Kernel/Frames.antt =====
-- kernel/src/memory/frame_allocator.rs: the stack of free physical frames. Physical memory is a
-- function from addresses to bytes.
pub mod Laws
use flutter_os.Prelude.{
  ℕ, zero, suc, ◌+◌, ◌-◌, ◌*◌, ◌/◌, ◌%◌, ◌^◌, Bool, true, false, not, ◌&&◌, Option, none, some,
  List, [], ◌∷◌, get_or, set, replicate, ltb, leb, ◌==◌, if◌then◌else◌, length,
}

abbrev pub max_frames : ℕ
max_frames = 32768

pub record FrameAllocator : Type 0 where
  pub free_stack : List ℕ
  pub top : ℕ

unfoldable pub new : FrameAllocator
new = record { free_stack = replicate max_frames 0; top = 0 }

-- A region of the boot loader's map, and whether its kind is `Usable`.
pub record MemoryRegion : Type 0 where
  pub usable : Bool
  pub start : ℕ
  pub end : ℕ

-- `(start + 4095) & !4095` on 64 bits.
abbrev pub align_up : ℕ → ℕ
align_up a = (a + 4095) % 2 ^ 64 / 4096 * 4096

-- The frames of one region, `n` rounds at most; the writes stay inside the stack as long as
-- `top` is the count. The result holds the allocator and the count.
unfoldable pub push_frames : ℕ → ℕ → ℕ → ℕ → FrameAllocator → FrameAllocator × ℕ
push_frames zero addr end count t = (t, count)
push_frames (suc n) addr end count t =
    let rest =
      push_frames n ((addr + 4096) % 2 ^ 64) end (count + 1)
        record { free_stack = set t.free_stack t.top addr; top = t.top + 1 } in
    if leb ((addr + 4096) % 2 ^ 64) end && ltb count max_frames then rest else (t, count)

unfoldable pub init_regions : List MemoryRegion → ℕ → FrameAllocator → FrameAllocator
init_regions [] count t = t
init_regions (r ∷ rs) count t =
    let pushed = push_frames (max_frames - count) (align_up r.start) r.end count t in
    let skipped = init_regions rs count t in
    let rest = init_regions rs pushed.1 pushed.0 in
    if not r.usable then skipped else if leb max_frames pushed.1 then pushed.0 else rest

-- `init` of an allocator that `new` made.
unfoldable pub init : List MemoryRegion → FrameAllocator
init regions = init_regions regions 0 new

-- `write_bytes(base, 0, 4096)`
abbrev pub zero_frame : (ℕ → ℕ) → ℕ → ℕ → ℕ
zero_frame memory base a = if leb base a && ltb a (base + 4096) then 0 else memory a

unfoldable pub allocate_frame : ℕ → (ℕ → ℕ) → FrameAllocator → Option ℕ × (ℕ → ℕ) × FrameAllocator
allocate_frame physical_offset memory t =
    let pa = get_or t.free_stack (t.top - 1) 0 in
    if t.top == 0 then (none, memory, t) else (
      some pa,
      zero_frame memory ((physical_offset + pa) % 2 ^ 64),
      record { free_stack = t.free_stack; top = t.top - 1 },
    )

unfoldable pub deallocate_frame : FrameAllocator → ℕ → FrameAllocator
deallocate_frame t frame =
    if leb max_frames t.top
    then t
    else record { free_stack = set t.free_stack t.top frame; top = t.top + 1 }

abbrev pub free_count : FrameAllocator → ℕ
free_count t = t.top
