-- ===== src/Kernel/Paging/Dealloc.antt =====
-- What `dealloc_user` of kernel/src/memory/page_table.rs gives back.
use flutter_os.Prelude.{
  ℕ, zero, suc, ◌+◌, ◌%◌, ◌^◌, ◌<◌, ◌≡◌, Bool, true, false, not, ◌||◌, none, some, [], ◌∷◌, ◌++◌,
  if◌then◌else◌, arith, subst, sym, if_elim,
}
use mathlib.Core.List.{Mem, mem-cons_self, mem-cons_of_mem, mem-append_right, mem-append_left}
use flutter_os.Kernel.Paging.{
  Entries, Physical, FrameSource, Mapper, index_of, translate, pages_of, tables_of, directories_of,
  owned,
}
use flutter_os.Kernel.Paging.Space.{index_of-low}

module _ {E F A : Type 0} (x : Entries E F) (s : FrameSource A) (k : Mapper E F A) where
  -- The frame of a present entry is among the pages.
  Mem-pages_of :
      (n d i j : ℕ) (m : Physical E A) (pt : ℕ)
      → d < n
      → i + d ≡ j
      → x.is_present (m.table pt j) ≡ true
      → Mem (x.addr (m.table pt j)) (pages_of x s k n i m pt)
  unfolding pages_of
  Mem-pages_of zero d i j m pt h e p = absurd (omega arith)
  Mem-pages_of (suc n) zero i j m pt h e p =
      let q : j ≡ i = omega arith in
      rw (q, subst (λ t. x.is_present (m.table pt t) ≡ true) q p) mem-cons_self
  Mem-pages_of (suc n) (suc d) i j m pt h e p =
      let rest = Mem-pages_of n d (i + 1) j m pt (omega arith) (omega arith) p in
      if_elim (Mem (x.addr (m.table pt j))) (x.is_present (m.table pt i))
        (x.addr (m.table pt i) ∷ pages_of x s k n (i + 1) m pt) (pages_of x s k n (i + 1) m pt)
        (mem-cons_of_mem (x.addr (m.table pt i)) rest) rest

  -- An entry that leads to a table.
  abbrev leads : E → Bool
  leads e = not (x.is_present e) || x.is_huge e

  Mem-tables_of :
      (n d i j : ℕ) (m : Physical E A) (pd f : ℕ)
      → d < n
      → i + d ≡ j
      → leads (m.table pd j) ≡ false
      → Mem f (pages_of x s k 512 0 m (x.addr (m.table pd j)))
      → Mem f (tables_of x s k n i m pd)
  unfolding tables_of
  Mem-tables_of zero d i j m pd f h e p q = absurd (omega arith)
  Mem-tables_of (suc n) zero i j m pd f h e p q =
      let r : j ≡ i = omega arith in
      rw (subst (λ t. leads (m.table pd t) ≡ false) r p) (
        mem-append_left (x.addr (m.table pd i) ∷ tables_of x s k n (i + 1) m pd)
          (subst (λ t. Mem f (pages_of x s k 512 0 m (x.addr (m.table pd t)))) r q))
  Mem-tables_of (suc n) (suc d) i j m pd f h e p q =
      let rest = Mem-tables_of n d (i + 1) j m pd f (omega arith) (omega arith) p q in
      let t = x.addr (m.table pd i) in
      if_elim (Mem f) (leads (m.table pd i)) (tables_of x s k n (i + 1) m pd)
        (pages_of x s k 512 0 m t ++ (t ∷ tables_of x s k n (i + 1) m pd)) rest
        (mem-append_right (pages_of x s k 512 0 m t) (mem-cons_of_mem t rest))

  Mem-directories_of :
      (n d i j : ℕ) (m : Physical E A) (pdpt f : ℕ)
      → d < n
      → i + d ≡ j
      → leads (m.table pdpt j) ≡ false
      → Mem f (tables_of x s k 512 0 m (x.addr (m.table pdpt j)))
      → Mem f (directories_of x s k n i m pdpt)
  unfolding directories_of
  Mem-directories_of zero d i j m pdpt f h e p q = absurd (omega arith)
  Mem-directories_of (suc n) zero i j m pdpt f h e p q =
      let r : j ≡ i = omega arith in
      rw (subst (λ t. leads (m.table pdpt t) ≡ false) r p) (
        mem-append_left (x.addr (m.table pdpt i) ∷ directories_of x s k n (i + 1) m pdpt)
          (subst (λ t. Mem f (tables_of x s k 512 0 m (x.addr (m.table pdpt t)))) r q))
  Mem-directories_of (suc n) (suc d) i j m pdpt f h e p q =
      let rest = Mem-directories_of n d (i + 1) j m pdpt f (omega arith) (omega arith) p q in
      let t = x.addr (m.table pdpt i) in
      if_elim (Mem f) (leads (m.table pdpt i)) (directories_of x s k n (i + 1) m pdpt)
        (tables_of x s k 512 0 m t ++ (t ∷ directories_of x s k n (i + 1) m pdpt)) rest
        (mem-append_right (tables_of x s k 512 0 m t) (mem-cons_of_mem t rest))

  -- The entries on the way to an address.
  abbrev entry4 : Physical E A → ℕ → ℕ → E
  entry4 m pml4 vaddr = m.table pml4 (index_of 4 vaddr)

  abbrev entry3 : Physical E A → ℕ → ℕ → E
  entry3 m pml4 vaddr = m.table (x.addr (entry4 m pml4 vaddr)) (index_of 3 vaddr)

  abbrev entry2 : Physical E A → ℕ → ℕ → E
  entry2 m pml4 vaddr = m.table (x.addr (entry3 m pml4 vaddr)) (index_of 2 vaddr)

  abbrev entry1 : Physical E A → ℕ → ℕ → E
  entry1 m pml4 vaddr = m.table (x.addr (entry2 m pml4 vaddr)) (index_of 1 vaddr)

  index_of-bound : (level vaddr : ℕ) → index_of level vaddr < 512
  unfolding index_of
  index_of-bound level vaddr = omega arith

  -- The tests of `translate`, when no entry is huge.
  tests-some :
      (p4 p3 h3 p2 h2 p1 : Bool) (big mid addr p : ℕ)
      → (p3 ≡ true → h3 ≡ false)
      → (p3 ≡ true → p2 ≡ true → h2 ≡ false)
      → (if not p4
          then none
          else if not p3
          then none
          else if h3
          then some big
          else if not p2
          then none
          else if h2
          then some mid
          else if not p1
          then none
          else some addr)
        ≡ some p
      → (p4 ≡ true) × ((not p3 || h3) ≡ false) × ((not p2 || h2) ≡ false) × (p1 ≡ true) × (p ≡ addr)
  tests-some p4 p3 h3 p2 h2 p1 big mid addr p a b h = ground (arith, a, b)

  -- The present entries of the directory under one entry of the top table, and of the tables below
  -- that directory, are not huge.
  abbrev pub IsSmall : Physical E A → ℕ → ℕ → Type 0
  IsSmall m pml4 n =
      let e3 : ℕ → E = λ i. m.table (x.addr (m.table pml4 n)) i in
      let e2 : ℕ → ℕ → E = λ i j. m.table (x.addr (e3 i)) j in
      ((i : ℕ) → i < 512 → x.is_present (e3 i) ≡ true → x.is_huge (e3 i) ≡ false)
      × ((i j : ℕ)
          → i < 512
          → j < 512
          → x.is_present (e3 i) ≡ true
          → x.is_present (e2 i j) ≡ true
          → x.is_huge (e2 i j) ≡ false)

  -- A translation through pages of 4 KiB only walks through entries that are present.
  translate-some :
      (m : Physical E A) (pml4 vaddr p : ℕ)
      → IsSmall m pml4 (index_of 4 vaddr)
      → translate x s k m pml4 vaddr ≡ some p
      → (x.is_present (entry4 m pml4 vaddr) ≡ true)
        × (leads (entry3 m pml4 vaddr) ≡ false)
        × (leads (entry2 m pml4 vaddr) ≡ false)
        × (x.is_present (entry1 m pml4 vaddr) ≡ true)
        × (p ≡ x.addr (entry1 m pml4 vaddr) + vaddr % 4096)
  unfolding translate
  translate-some m pml4 vaddr p hh h =
      let e3 = entry3 m pml4 vaddr in
      let e2 = entry2 m pml4 vaddr in
      let e1 = entry1 m pml4 vaddr in
      tests-some (x.is_present (entry4 m pml4 vaddr)) (x.is_present e3) (x.is_huge e3)
        (x.is_present e2) (x.is_huge e2) (x.is_present e1) (x.addr e3 + vaddr % 2 ^ 30)
        (x.addr e2 + vaddr % 2 ^ 21) (x.addr e1 + vaddr % 2 ^ 12) p
        (hh.0 (index_of 3 vaddr) (index_of-bound 3 vaddr))
        (hh.1 (index_of 3 vaddr) (index_of 2 vaddr) (index_of-bound 3 vaddr)
          (index_of-bound 2 vaddr))
        h

  -- Every page that a space maps below 2 ^ 39 is among the frames given back, if no present entry of
  -- the space's own tables under entry 0 of its top table is a huge page.
  pub translate-owned :
      (m : Physical E A) (pml4 vaddr p : ℕ)
      → IsSmall m pml4 0
      → vaddr < 2 ^ 39
      → translate x s k m pml4 vaddr ≡ some p
      → (f : ℕ) × (p ≡ f + vaddr % 4096) × Mem f (owned x s k m pml4)
  unfolding owned
  translate-owned m pml4 vaddr p hh hv h =
      let (p4, p3, p2, p1, e) =
        translate-some m pml4 vaddr p (subst (IsSmall m pml4) (sym (index_of-low vaddr hv)) hh) h in
      let top = subst (λ i. x.is_present (m.table pml4 i) ≡ true) (index_of-low vaddr hv) p4 in
      let pages =
        Mem-pages_of 512 (index_of 1 vaddr) 0 (index_of 1 vaddr) m (x.addr (entry2 m pml4 vaddr))
          (index_of-bound 1 vaddr) (omega arith) p1 in
      let tables =
        Mem-tables_of 512 (index_of 2 vaddr) 0 (index_of 2 vaddr) m (x.addr (entry3 m pml4 vaddr))
          (x.addr (entry1 m pml4 vaddr)) (index_of-bound 2 vaddr) (omega arith) p2 pages in
      let directories =
        Mem-directories_of 512 (index_of 3 vaddr) 0 (index_of 3 vaddr) m
          (x.addr (entry4 m pml4 vaddr)) (x.addr (entry1 m pml4 vaddr)) (index_of-bound 3 vaddr)
          (omega arith) p3 tables in
      (
        x.addr (entry1 m pml4 vaddr),
        e,
        rw top (
            mem-append_left (x.addr (m.table pml4 0) ∷ pml4 ∷ []) (
              subst
                (λ i.
                  Mem (x.addr (entry1 m pml4 vaddr))
                    (directories_of x s k 512 0 m (x.addr (m.table pml4 i))))
                (index_of-low vaddr hv) directories)),
      )
