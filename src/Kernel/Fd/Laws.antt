-- ===== src/Kernel/Fd/Laws.antt =====
-- What the descriptor table of kernel/src/syscalls/fd.rs promises to open, read and close.
use flutter_os.Prelude.{
  ℕ, zero, suc, ◌+◌, ◌≤◌, ◌<◌, ◌≡◌, refl, ◌≢◌, inl, inr, true, false, Option, none, some, List,
  get_or, set, length, length-set, get_or-set_self, get_or-set_ne, Bool-cases, Option-cases, arith,
  if◌then◌else◌,
}
use flutter_os.Kernel.Fd.{
  FdKind, stream, file, vfs_file, framebuffer, free, is_free, FdTable, new, first_free, alloc, get,
}

-- The table has its full length, and the standard streams stay open.
pub record IsValid (t : FdTable) : Type 0 where
  pub full : length t.entries ≡ 128
  pub std :
      (is_free (get_or t.entries 0 free) ≡ false)
      × (is_free (get_or t.entries 1 free) ≡ false)
      × (is_free (get_or t.entries 2 free) ≡ false)

pub new-IsValid : IsValid new
unfolding new
new-IsValid = record { full = refl; std = (refl, refl, refl) }

-- The scan stops at the first free index.
pub first_free-some :
    (n i : ℕ) (es : List FdKind) (k : ℕ)
    → first_free n i es ≡ some k
    → (i ≤ k) × (k < i + n) × (is_free (get_or es k free) ≡ true)
unfolding first_free
first_free-some zero i es k e = cc
first_free-some (suc n) i es k e = ground (arith, first_free-some n (i + 1) es k)

pub first_free_least :
    (n i : ℕ) (es : List FdKind) (k j : ℕ)
    → first_free n i es ≡ some k
    → i ≤ j
    → j < k
    → is_free (get_or es j free) ≡ false
unfolding first_free
first_free_least zero i es k j e h g = cc
first_free_least (suc n) i es k j e h g = elim (Bool-cases (is_free (get_or es i free))) [
  | inl hit ↦ ground (arith, hit)
  | inr miss ↦ elim (Bool-cases (is_free (get_or es j free))) [
    | inr b ↦ b
    | inl b ↦ ground (arith, miss, first_free_least n (i + 1) es k j)
  ]
]

pub first_free-none :
    (n i : ℕ) (es : List FdKind) (j : ℕ)
    → first_free n i es ≡ none
    → i ≤ j
    → j < i + n
    → is_free (get_or es j free) ≡ false
unfolding first_free
first_free-none zero i es j e h g = absurd (omega arith)
first_free-none (suc n) i es j e h g = elim (Bool-cases (is_free (get_or es j free))) [
  | inr b ↦ b
  | inl b ↦ ground (arith, first_free-none n (i + 1) es j)
]

pub free_eq : (k : FdKind) → is_free k ≡ true → k ≡ free
free_eq stream e = cc
free_eq (file s o z) e = cc
free_eq (vfs_file m i o) e = cc
free_eq framebuffer e = cc
free_eq free e = refl

pub set-IsValid :
    (t : FdTable) (i : ℕ) (k : FdKind)
    → 3 ≤ i
    → IsValid t
    → IsValid (record { entries = set t.entries i k })
set-IsValid t i k h v = record {
  full = rw (length-set t.entries i k) v.full;
  std = (
    rw (get_or-set_ne t.entries i 0 k free (omega arith)) v.std.0,
    rw (get_or-set_ne t.entries i 1 k free (omega arith)) v.std.1,
    rw (get_or-set_ne t.entries i 2 k free (omega arith)) v.std.2,
  );
}

-- The entry that `get` shows, as a function of the index.
abbrev pub shown : FdKind → Option FdKind
shown k = if is_free k then none else some k

pub get_lem : (t : FdTable) (fd : ℕ) → fd < 128 → get t fd ≡ shown (get_or t.entries fd free)
unfolding get
get_lem t fd h = ground arith

pub get_outside : (t : FdTable) (fd : ℕ) → 128 ≤ fd → get t fd ≡ none
unfolding get
get_outside t fd h = ground arith

pub get-set_ne :
    (t : FdTable) (i j : ℕ) (k : FdKind)
    → i ≢ j
    → get (record { entries = set t.entries i k }) j ≡ get t j
unfolding get
get-set_ne t i j k h = rw (get_or-set_ne t.entries i j k free h)

pub alloc_inv :
    (t t' : FdTable) (kind : FdKind) (fd : ℕ)
    → alloc t kind ≡ (some fd, t')
    → (first_free 125 3 t.entries ≡ some fd) × (t' ≡ record { entries = set t.entries fd kind })
unfolding alloc
alloc_inv t t' kind fd e = ground arith

-- A successful `alloc` of an entry other than Free on a valid table takes the lowest descriptor
-- from 3 on that was closed, which then shows the new entry; every other descriptor is as before,
-- and the table stays valid.
pub alloc_lowest :
    (t t' : FdTable) (kind : FdKind) (fd : ℕ)
    → IsValid t
    → is_free kind ≡ false
    → alloc t kind ≡ (some fd, t')
    → (3 ≤ fd)
      × (fd < 128)
      × (get t fd ≡ none)
      × ((j : ℕ) → 3 ≤ j → j < fd → get t j ≢ none)
      × (get t' fd ≡ some kind)
      × ((j : ℕ) → fd ≢ j → get t' j ≡ get t j)
      × IsValid t'
alloc_lowest t t' kind fd v nf e = (
  r.0,
  r.1,
  ground (arith, get_lem t fd r.1, r.2),
  λ j lo hi. ground (arith, get_lem t j, first_free_least 125 3 t.entries fd j q.0 lo hi, r.1),
  rw q.1 (
      ground (
        arith,
        get_lem (record { entries = set t.entries fd kind }) fd r.1,
        get_or-set_self t.entries fd kind free,
        v.full,
        r.1,
        nf,
      )),
  λ j ne. rw q.1 (get-set_ne t fd j kind ne),
  rw q.1 (set-IsValid t fd kind r.0 v),
)
  where
    q : (first_free 125 3 t.entries ≡ some fd) × (t' ≡ record { entries = set t.entries fd kind })
    q = alloc_inv t t' kind fd e

    r : (3 ≤ fd) × (fd < 3 + 125) × (is_free (get_or t.entries fd free) ≡ true)
    r = first_free-some 125 3 t.entries fd q.0

-- `alloc` fails only on a table whose descriptors from 3 on are all open, and then changes nothing.
pub alloc-none :
    (t t' : FdTable) (kind : FdKind)
    → alloc t kind ≡ (none, t')
    → (t' ≡ t) × ((j : ℕ) → 3 ≤ j → j < 128 → get t j ≢ none)
unfolding alloc
alloc-none t t' kind e = elim (Option-cases (first_free 125 3 t.entries)) [
  | inl full ↦ (
    ground (arith, full),
    λ j lo hi. ground (arith, get_lem t j hi, first_free-none 125 3 t.entries j full lo hi),
  )
  | inr (i, hit) ↦ absurd (ground (arith, hit))
]
