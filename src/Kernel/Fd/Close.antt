-- ===== src/Kernel/Fd/Close.antt =====
-- Closing and counting descriptors in the table of kernel/src/syscalls/fd.rs.
use flutter_os.Prelude.{
  ℕ, zero, suc, ◌+◌, ◌≤◌, ◌<◌, ◌≡◌, refl, ◌≢◌, inl, inr, true, false, none, some, List, [], ◌∷◌,
  get_or, set, drop, length, length-set, get_or-set_self, get_or-set_ne, set-set, set-get_or,
  Bool-cases, arith, if◌then◌else◌, ◌==◌, ◌&&◌, ◌↔◌, subst, ◌∙◌, leb, ltb, ==_iff, length-drop,
}
use flutter_os.Kernel.Fd.{
  FdKind, free, is_free, FdTable, alloc, get, close, count_open, open_count, clear_from, clear,
}
use flutter_os.Kernel.Fd.Laws.{IsValid, set-IsValid, alloc_inv, free_eq, first_free-some}

-- Closing the descriptor that `alloc` returned for an entry other than Free restores the valid table
-- that it was called on.
pub close-alloc :
    (t t' : FdTable) (kind : FdKind) (fd : ℕ)
    → IsValid t
    → is_free kind ≡ false
    → alloc t kind ≡ (some fd, t')
    → close t' fd ≡ (true, t)
unfolding close
close-alloc t t' kind fd v nf e =
    let q = alloc_inv t t' kind fd e in
    let r = first_free-some 125 3 t.entries fd q.0 in
    let back : set t.entries fd free ≡ t.entries =
      subst (λ k. set t.entries fd k ≡ t.entries) (free_eq _ r.2) (set-get_or t.entries fd free) in
    rw q.1 (
      ground (
        arith,
        r,
        nf,
        v.full,
        back,
        get_or-set_self t.entries fd kind free,
        set-set t.entries fd kind free,
      ))

-- On a valid table `close` succeeds exactly on the open descriptors from 3 on; it closes that one,
-- leaves the others as they are, and on failure changes nothing.
pub close_lem :
    (t : FdTable) (fd j : ℕ)
    → IsValid t
    → (get (close t fd).1 j ≡ (if (close t fd).0 && (fd == j) then none else get t j))
      × (((close t fd).0 ≡ true) ↔ ((3 ≤ fd) × (get t fd ≢ none)))
      × IsValid (close t fd).1
unfolding close get
close_lem t fd j v = (
  ground (arith, get_or-set_ne t.entries fd j free free, get_or-set_self t.entries fd free free),
  (λ e. ground arith, λ e. ground arith),
  ground (arith, set-IsValid t fd free),
)

get_or-set_free : (es : List FdKind) (i : ℕ) → get_or (set es i free) i free ≡ free
get_or-set_free [] i = refl
get_or-set_free (e ∷ es) zero = refl
get_or-set_free (e ∷ es) (suc i) = get_or-set_free es i

get_or-clear_from :
    (n i : ℕ) (es : List FdKind) (j : ℕ)
    → get_or (clear_from n i es) j free
      ≡ (if leb i j && ltb j (i + n) then free else get_or es j free)
unfolding clear_from
get_or-clear_from zero i es j = ground arith
get_or-clear_from (suc n) i es j = elim (Bool-cases (i == j)) [
  | inl hit ↦
      let at : i ≡ j = (==_iff i j).0 hit in
      ground (arith, get_or-clear_from n (i + 1) (set es i free) j, get_or-set_free es i, at)
  | inr miss ↦
      ground
        (arith, get_or-clear_from n (i + 1) (set es i free) j, get_or-set_ne es i j free free, miss)
]

length-clear_from : (n i : ℕ) (es : List FdKind) → length (clear_from n i es) ≡ length es
unfolding clear_from
length-clear_from zero i es = refl
length-clear_from (suc n) i es = length-clear_from n (i + 1) (set es i free) ∙ length-set es i free

count_all_free : (es : List FdKind) → ((j : ℕ) → get_or es j free ≡ free) → count_open es ≡ 0
count_all_free [] h = refl
count_all_free (e ∷ es) h = ground (arith, h 0, count_all_free es (λ j. h (suc j)))

get_or-drop_three :
    (es : List FdKind) (j : ℕ) → get_or (drop 3 es) j free ≡ get_or es (suc (suc (suc j))) free
get_or-drop_three [] j = refl
get_or-drop_three (a ∷ []) j = refl
get_or-drop_three (a ∷ b ∷ []) j = refl
get_or-drop_three (a ∷ b ∷ c ∷ es) j = refl

get_or_beyond : (es : List FdKind) (j : ℕ) → length es ≤ j → get_or es j free ≡ free
get_or_beyond [] j h = refl
get_or_beyond (e ∷ es) zero h = absurd (omega arith)
get_or_beyond (e ∷ es) (suc j) h = get_or_beyond es j (omega arith)

-- The second table is the first with the entries from 3 to 127 free.
abbrev pub Closed : FdTable → FdTable → Type 0
Closed before after =
    (j : ℕ)
    → get_or after.entries j free
      ≡ (if leb 3 j && ltb j 128 then free else get_or before.entries j free)

pub clear-Closed : (t : FdTable) → Closed t (clear t)
unfolding clear
clear-Closed t j = get_or-clear_from 125 3 t.entries j

clear_entry :
    (t : FdTable) (j : ℕ)
    → length t.entries ≡ 128
    → get_or (clear t).entries j free ≡ (if leb 3 j then free else get_or t.entries j free)
unfolding clear
clear_entry t j v = elim (Bool-cases (ltb j 128)) [
  | inl inside ↦ ground (arith, inside, get_or-clear_from 125 3 t.entries j)
  | inr outside ↦
      ground (arith, outside, get_or-clear_from 125 3 t.entries j, get_or_beyond t.entries j)
]

-- On a valid table `clear` closes every descriptor from 3 on, and no other: none is open
-- afterwards, the standard streams are as they were, and the table stays valid.
pub clear_lem :
    (t : FdTable)
    → IsValid t
    → ((j : ℕ) → get (clear t) j ≡ (if leb 3 j then none else get t j))
      × (open_count (clear t) ≡ 0)
      × IsValid (clear t)
unfolding open_count get
clear_lem t v = (
  λ j. ground (arith, clear_entry t j v.full),
  count_all_free (drop 3 (clear t).entries) (λ j.
      get_or-drop_three (clear t).entries j
      ∙ clear_entry t (suc (suc (suc j))) v.full
      ∙ ground arith),
  record {
    full = unfold clear in (length-clear_from 125 3 t.entries ∙ v.full);
    std = (
      rw (clear_entry t 0 v.full) v.std.0,
      rw (clear_entry t 1 v.full) v.std.1,
      rw (clear_entry t 2 v.full) v.std.2,
    );
  },
)

count-set :
    (es : List FdKind) (i : ℕ) (k : FdKind)
    → i < length es
    → count_open (set es i k) + (if is_free (get_or es i free) then 0 else 1)
      ≡ count_open es + (if is_free k then 0 else 1)
count-set [] i k h = absurd (omega arith)
count-set (e ∷ es) zero k h = ground arith
count-set (e ∷ es) (suc i) k h = ground (arith, count-set es i k)

drop_three-set :
    (es : List FdKind) (i : ℕ) (k : FdKind)
    → drop 3 (set es (suc (suc (suc i))) k) ≡ set (drop 3 es) i k
drop_three-set [] i k = refl
drop_three-set (a ∷ []) i k = refl
drop_three-set (a ∷ b ∷ []) i k = refl
drop_three-set (a ∷ b ∷ c ∷ es) i k = refl

open_count-set :
    (t : FdTable) (i : ℕ) (k : FdKind)
    → length t.entries ≡ 128
    → 3 ≤ i
    → i < 128
    → open_count (record { entries = set t.entries i k })
        + (if is_free (get_or t.entries i free) then 0 else 1)
      ≡ open_count t + (if is_free k then 0 else 1)
unfolding open_count
open_count-set t zero k v lo hi = absurd (omega arith)
open_count-set t (suc zero) k v lo hi = absurd (omega arith)
open_count-set t (suc (suc zero)) k v lo hi = absurd (omega arith)
open_count-set t (suc (suc (suc i))) k v lo hi =
    rw (drop_three-set t.entries i k, ← get_or-drop_three t.entries i)
      (count-set (drop 3 t.entries) i k (omega (arith, length-drop 3 t.entries)))

-- On a valid table a successful `alloc` of an entry other than Free opens one descriptor more, and
-- a successful `close` one less.
pub open_count_lem :
    (t : FdTable) (kind : FdKind) (fd : ℕ)
    → IsValid t
    → is_free kind ≡ false
    → ((alloc t kind).0 ≡ some fd → open_count (alloc t kind).1 ≡ open_count t + 1)
      × ((close t fd).0 ≡ true → open_count (close t fd).1 + 1 ≡ open_count t)
unfolding alloc close
open_count_lem t kind fd v nf = (
  λ e. ground (arith, first_free-some 125 3 t.entries fd, open_count-set t fd kind v.full, nf),
  λ e. ground (arith, open_count-set t fd free v.full),
)
