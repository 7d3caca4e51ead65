-- ===== src/Kernel/Paging.antt =====
-- kernel/src/memory/page_table.rs: address spaces. The entries of page tables and the mapper belong to
-- the crate x86_64 and stand as parameters, as do the frames of kernel/src/memory/frame_allocator.rs.
-- A table or a page is named by its physical address; the window at PHYSICAL_OFFSET is the way to it.
pub mod Space
pub mod Dealloc
mod Tests
use flutter_os.Prelude.{
  ℕ, zero, suc, ◌+◌, ◌-◌, ◌*◌, ◌/◌, ◌%◌, ◌^◌, Bool, true, false, not, ◌&&◌, ◌||◌, Option, none,
  some, List, [], ◌∷◌, ◌++◌, ltb, leb, ◌==◌, if◌then◌else◌,
}

-- What the code uses of PageTableEntry. `unused` is an entry of zeros.
pub record Entries (E F : Type 0) : Type 0 where
  pub is_present : E → Bool
  pub is_user : E → Bool
  pub is_huge : E → Bool
  pub addr : E → ℕ
  pub frame : E → Option ℕ
  pub flags : E → F
  pub unused : E

-- Physical memory: a frame read as a table, and as a page; and the frames that are free.
pub record Physical (E A : Type 0) : Type 0 where
  pub table : ℕ → ℕ → E
  pub page : ℕ → ℕ → ℕ
  pub frames : A

pub record FrameSource (A : Type 0) : Type 0 where
  pub alloc_frame : A → Option ℕ × A
  pub dealloc_frame : A → ℕ → A

-- The error texts.
pub data PagingError : Type 0 where
  out_of_frames map_failed huge_page no_frame : PagingError

pub data Result (B : Type 0) : Type 0 where
  ok : B → Result B
  err : PagingError → Result B

-- `map_to` of the mapper for a table of level 4: whether it maps the page to the frame.
pub record Mapper (E F A : Type 0) : Type 0 where
  pub map_to : Physical E A → ℕ → ℕ → ℕ → F → Bool × Physical E A

-- `for i in i..i + n`, up to the first error.
unfoldable pub each :
    {S : Type 0} → ℕ → ℕ → (ℕ → S → Result (Unit {0}) × S) → S → Result (Unit {0}) × S
each zero i body s = (ok tt, s)
each (suc n) i body s =
    let (r, s') = body i s in elim r [ err e ↦ (err e, s') | ok _ ↦ each n (i + 1) body s' ]

-- The index in the table of a level, from 1 to 4, and the offset below it.
unfoldable pub index_of : ℕ → ℕ → ℕ
index_of level vaddr = vaddr / 2 ^ (3 + 9 * level) % 512

-- A frame must be aligned; the null frame stands for no address space.
unfoldable pub from_cr3 : ℕ → Option ℕ
from_cr3 cr3 = if (cr3 == 0) || not (cr3 % 4096 == 0) then none else some cr3

module _ {E F A : Type 0} (x : Entries E F) (s : FrameSource A) (k : Mapper E F A) where
  abbrev pub set_entry : ℕ → ℕ → E → Physical E A → Physical E A
  set_entry t i e m = record m { table = λ u j. if (t == u) && (i == j) then e else m.table u j }

  abbrev pub zero_frame : ℕ → Physical E A → Physical E A
  zero_frame t m = record m {
    table = λ u j. if t == u then x.unused else m.table u j;
    page = λ u o. if t == u then 0 else m.page u o;
  }

  -- The loop of `new_user` over the kernel's entries.
  unfoldable pub copy_kernel : ℕ → ℕ → ℕ → ℕ → Physical E A → Physical E A
  copy_kernel zero i kernel_pml4 new_pml4 m = m
  copy_kernel (suc n) i kernel_pml4 new_pml4 m =
      let e = m.table kernel_pml4 i in
      copy_kernel n (i + 1) kernel_pml4 new_pml4
        (if x.is_present e && not (x.is_user e) then set_entry new_pml4 i e m else m)

  -- The space for a frame that the allocator gives, or its failure.
  abbrev pub space_in : ℕ → Physical E A → Option ℕ × A → Result ℕ × Physical E A
  space_in kernel_pml4 m (none, frames) = (err out_of_frames, record m { frames = frames })
  space_in kernel_pml4 m (some f, frames) =
      (ok f, copy_kernel 511 1 kernel_pml4 f (zero_frame f (record m { frames = frames })))

  -- The table that CR3 names is the kernel's.
  unfoldable pub new_user : ℕ → Physical E A → Result ℕ × Physical E A
  new_user kernel_pml4 m = space_in kernel_pml4 m (s.alloc_frame m.frames)

  unfoldable pub map_user_page : ℕ → ℕ → ℕ → F → Physical E A → Result (Unit {0}) × Physical E A
  map_user_page pml4 vpage f flags m =
      let (done, m') = k.map_to m pml4 vpage f flags in (if done then ok tt else err map_failed, m')

  unfoldable pub map_user_page_alloc : ℕ → ℕ → F → Physical E A → Result ℕ × Physical E A
  map_user_page_alloc pml4 vpage flags m =
      let (frame, frames) = s.alloc_frame m.frames in
      elim frame [
        | none ↦ (err out_of_frames, record m { frames = frames })
        | some f ↦
            let (r, m') = map_user_page pml4 vpage f flags (record m { frames = frames }) in
            elim r [ err e ↦ (err e, m') | ok _ ↦ (ok f, m') ]
      ]

  unfoldable pub translate : Physical E A → ℕ → ℕ → Option ℕ
  translate m pml4 vaddr =
      let e4 = m.table pml4 (index_of 4 vaddr) in
      let e3 = m.table (x.addr e4) (index_of 3 vaddr) in
      let e2 = m.table (x.addr e3) (index_of 2 vaddr) in
      let e1 = m.table (x.addr e2) (index_of 1 vaddr) in
      if not (x.is_present e4)
      then none
      else if not (x.is_present e3)
      then none
      else if x.is_huge e3
      then some (x.addr e3 + vaddr % 2 ^ 30)
      else if not (x.is_present e2)
      then none
      else if x.is_huge e2
      then some (x.addr e2 + vaddr % 2 ^ 21)
      else if not (x.is_present e1)
      then none
      else some (x.addr e1 + vaddr % 2 ^ 12)

  -- The frames that `dealloc_user` gives back, in its order: the pages of a table from an index on.
  unfoldable pub pages_of : ℕ → ℕ → Physical E A → ℕ → List ℕ
  pages_of zero i m pt = []
  pages_of (suc n) i m pt =
      let rest = pages_of n (i + 1) m pt in
      let e1 = m.table pt i in if x.is_present e1 then x.addr e1 ∷ rest else rest

  unfoldable pub tables_of : ℕ → ℕ → Physical E A → ℕ → List ℕ
  tables_of zero i m pd = []
  tables_of (suc n) i m pd =
      let rest = tables_of n (i + 1) m pd in
      let e2 = m.table pd i in
      if not (x.is_present e2) || x.is_huge e2
      then rest
      else pages_of 512 0 m (x.addr e2) ++ (x.addr e2 ∷ rest)

  unfoldable pub directories_of : ℕ → ℕ → Physical E A → ℕ → List ℕ
  directories_of zero i m pdpt = []
  directories_of (suc n) i m pdpt =
      let rest = directories_of n (i + 1) m pdpt in
      let e3 = m.table pdpt i in
      if not (x.is_present e3) || x.is_huge e3
      then rest
      else tables_of 512 0 m (x.addr e3) ++ (x.addr e3 ∷ rest)

  unfoldable pub owned : Physical E A → ℕ → List ℕ
  owned m pml4 =
      let e4 = m.table pml4 0 in
      if not (x.is_present e4)
      then pml4 ∷ []
      else directories_of 512 0 m (x.addr e4) ++ (x.addr e4 ∷ pml4 ∷ [])

  -- A frame that is not aligned is passed over.
  unfoldable pub dealloc_all : List ℕ → A → A
  dealloc_all [] frames = frames
  dealloc_all (f ∷ fs) frames =
      dealloc_all fs (if f % 4096 == 0 then s.dealloc_frame frames f else frames)

  unfoldable pub dealloc_user : ℕ → Physical E A → Physical E A
  dealloc_user pml4 m = record m { frames = dealloc_all (owned m pml4) m.frames }

  abbrev copy_page : ℕ → ℕ → Physical E A → Physical E A
  copy_page from to m = record m { page = λ u o. if to == u then m.page from o else m.page u o }

  -- The body of the innermost loop of `clone_user_space`, at the page of an address.
  unfoldable pub clone_page : ℕ → ℕ → ℕ → ℕ → Physical E A → Result (Unit {0}) × Physical E A
  clone_page new base pt i m =
      let l1 = m.table pt i in
      if not (x.is_present l1) || not (x.is_user l1) then (ok tt, m) else (elim (x.frame l1) [
        | none ↦ (err no_frame, m)
        | some src ↦
            let (r, m') = map_user_page_alloc new (base + i * 2 ^ 12) (x.flags l1) m in
            elim r [ err e ↦ (err e, m') | ok dst ↦ (ok tt, copy_page src dst m') ]
      ])

  -- The table below an entry, for the loops of the two levels in the middle.
  abbrev pub below :
      E
      → (ℕ → Physical E A → Result (Unit {0}) × Physical E A)
      → Physical E A
      → Result (Unit {0}) × Physical E A
  below e body m =
      if not (x.is_present e)
      then (ok tt, m)
      else if x.is_huge e
      then (err huge_page, m)
      else (elim (x.frame e) [ none ↦ (err no_frame, m) | some t ↦ body t m ])

  unfoldable pub clone_table : ℕ → ℕ → ℕ → ℕ → Physical E A → Result (Unit {0}) × Physical E A
  clone_table new base pd i m =
      below (m.table pd i) (λ pt. each 512 0 (clone_page new (base + i * 2 ^ 21) pt)) m

  unfoldable pub clone_directory : ℕ → ℕ → ℕ → ℕ → Physical E A → Result (Unit {0}) × Physical E A
  clone_directory new base pdpt i m =
      below (m.table pdpt i) (λ pd. each 512 0 (clone_table new (base + i * 2 ^ 30) pd)) m

  unfoldable pub clone_entry : ℕ → ℕ → ℕ → Physical E A → Result (Unit {0}) × Physical E A
  clone_entry new pml4 i m =
      let l4 = m.table pml4 i in
      if x.is_present l4 && not (x.is_user l4)
      then (ok tt, m)
      else below l4 (λ pdpt. each 512 0 (clone_directory new (i * 2 ^ 39) pdpt)) m

  unfoldable pub clone_user_space : ℕ → ℕ → Physical E A → Result ℕ × Physical E A
  clone_user_space kernel_pml4 pml4 m =
      let (r, m') = new_user kernel_pml4 m in
      elim r [
        | err e ↦ (err e, m')
        | ok new ↦
            let (done, m'') = each 512 0 (clone_entry new pml4) m' in
            elim done [ err e ↦ (err e, m'') | ok _ ↦ (ok new, m'') ]
      ]
