-- ===== src/Kernel/Paging/Tests.antt =====
-- Address spaces over entries that are words of the page tables: bit 0 present, bit 2 for users,
-- bit 7 huge, the address above bit 12. The table at 4096 is the kernel's.
use flutter_os.Prelude.{
  ℕ, ◌+◌, ◌*◌, ◌/◌, ◌%◌, ◌≡◌, ◌≢◌, refl, false, Option, none, some, List, [], ◌∷◌, ◌==◌,
  if◌then◌else◌, arith, ◌&&◌,
}
use mathlib.Core.List.{Mem}
use flutter_os.Kernel.Paging.{
  Entries, Physical, FrameSource, Mapper, err, new_user, translate, owned, index_of,
  map_user_page_alloc, out_of_frames,
}
use flutter_os.Kernel.Paging.Space.{new_user-translate}
use flutter_os.Kernel.Paging.Dealloc.{IsSmall, translate-owned}

abbrev words : Entries ℕ ℕ
words = record {
  is_present = λ e. e % 2 == 1;
  is_user = λ e. e / 4 % 2 == 1;
  is_huge = λ e. e / 128 % 2 == 1;
  addr = λ e. e / 4096 * 4096;
  frame = λ e. if e % 2 == 1 then some (e / 4096 * 4096) else none;
  flags = λ e. e % 4096;
  unused = 0;
}

abbrev pop : List ℕ → Option ℕ × List ℕ
pop [] = (none, [])
pop (f ∷ fs) = (some f, fs)

abbrev stack : FrameSource (List ℕ)
stack = record { alloc_frame = pop; dealloc_frame = λ fs f. f ∷ fs }

-- A mapper that refuses every page.
abbrev refuses : Mapper ℕ ℕ (List ℕ)
refuses = record { map_to = λ m pml4 vpage frame flags. (false, m) }

-- The kernel's entry 1 is its own, entry 255 a user's.
abbrev kernel_row : ℕ → ℕ
kernel_row j = if j == 1 then 4096 * 9 + 3 else if j == 255 then 4096 * 9 + 7 else 0

abbrev before : Physical ℕ (List ℕ)
before = record {
  table = λ t j. if t == 4096 then kernel_row j else 77;
  page = λ u o. 0;
  frames = 8192 ∷ 12288 ∷ [];
}

kernel-ne : ◌≢◌ {A = ℕ} 8192 4096
kernel-ne = omega arith

-- The address 0x400000, where programs are loaded.
new_user-translate_example :
    translate words stack refuses ((new_user words stack refuses 4096 before).1) 8192 4194304 ≡ none
new_user-translate_example =
    new_user-translate words stack refuses 4096 8192 4194304 (12288 ∷ []) before refl refl kernel-ne
      (omega arith)

-- A space whose tables stand in the frames 1 to 4 and map 0x400000 to frame 5.
abbrev mapped : Physical ℕ (List ℕ)
mapped = record {
  table = λ t j.
      if (t == 4096) && (j == 0)
      then 8192 + 7
      else if (t == 8192) && (j == 0)
      then 12288 + 7
      else if (t == 12288) && (j == 2)
      then 16384 + 7
      else if (t == 16384) && (j == 0)
      then 20480 + 7
      else 0;
  page = λ u o. 0;
  frames = [];
}

never_huge : (t j : ℕ) → words.is_huge (mapped.table t j) ≡ false
never_huge t j = ground arith

mapped-IsSmall : IsSmall words stack refuses mapped 4096 0
mapped-IsSmall = (
  λ i h p. never_huge (words.addr (mapped.table 4096 0)) i,
  λ i j h l p q. never_huge (words.addr (mapped.table (words.addr (mapped.table 4096 0)) i)) j,
)

translate-owned_example :
    (f : ℕ) × (20483 ≡ f + 4194307 % 4096) × Mem f (owned words stack refuses mapped 4096)
unfolding translate index_of
translate-owned_example =
    translate-owned words stack refuses mapped 4096 4194307 20483 mapped-IsSmall (omega arith) refl

unused_frames :
    map_user_page_alloc words stack refuses 4096 4194304 7 mapped ≡ (err out_of_frames, mapped)
unfolding map_user_page_alloc
unused_frames = refl
