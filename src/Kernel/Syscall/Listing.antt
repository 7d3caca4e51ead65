-- ===== src/Kernel/Syscall/Listing.antt =====
-- What getdents of kernel/src/syscalls/mod.rs writes to the caller's buffer.
use flutter_os.Prelude.{
  ℕ, zero, suc, ◌+◌, ◌-◌, ◌*◌, ◌≤◌, ◌<◌, ◌≡◌, refl, min, List, [], ◌∷◌, ltb, leb, ◌&&◌, length,
  take, replicate, get_or, get_elem?, some, arith, Bool-cases, inl, inr, ◌∙◌, ◌⊎◌, length-take, ap,
  if◌then◌else◌, ◌==◌, get_or-take, get_or-replicate,
}
use flutter_os.Fs.Result.{DirEntry, FileType, regular, directory, char_device, block_device}
use flutter_os.Kernel.Syscall.World.{store}
use flutter_os.Kernel.Syscall.Memory.{store_within}
use flutter_os.Kernel.Syscall.Names.{type_byte, store_entry, store_entries}

store_entry_outside :
    (at : ℕ) (e : DirEntry) (m : ℕ → ℕ) (a : ℕ)
    → (a < at) ⊎ (at + 72 ≤ a)
    → store_entry at e m a ≡ m a
unfolding store_entry
store_entry_outside at e m a h =
    let n = min (length e.name) 63 in
    let m1 = store at (type_byte e.file_type ∷ []) m in
    let m2 = store (at + 1) (take n e.name) m1 in
    let m3 = store (at + 1 + n) (0 ∷ []) m2 in
    store_within at 72 (at + 65) (replicate 7 0) m3 a (omega arith) (omega arith) h
    ∙ (store_within at 72 (at + 1 + n) (0 ∷ []) m2 a (omega arith) (omega arith) h
        ∙ (store_within at 72 (at + 1) (take n e.name) m1 a (omega arith)
              (omega (arith, length-take n e.name)) h
            ∙ store_within at 72 at (type_byte e.file_type ∷ []) m a (omega arith) (omega arith) h))

-- The number that stands for a file type in an entry.
abbrev pub dirent_type : FileType → ℕ
dirent_type regular = 1
dirent_type directory = 2
dirent_type char_device = 3
dirent_type block_device = 4

-- Byte o of an entry of 72 bytes: the type, at most 63 bytes of the name and a zero behind them, what
-- was there before up to byte 65, and zeros.
abbrev pub entry_byte : DirEntry → ℕ → ℕ → ℕ
entry_byte e before o =
    if o == 0
    then dirent_type e.file_type
    else if leb 65 o
    then 0
    else if leb o (min (length e.name) 63)
    then get_or e.name (o - 1) 0
    else if o == min (length e.name) 63 + 1
    then 0
    else before

dirent_type_eq : (t : FileType) → type_byte t ≡ dirent_type t
dirent_type_eq regular = refl
dirent_type_eq directory = refl
dirent_type_eq char_device = refl
dirent_type_eq block_device = refl

-- A byte within a stored region, at an offset from a point before it.
store_at :
    (at from : ℕ) (bytes : List ℕ) (m : ℕ → ℕ) (o : ℕ)
    → store (at + from) bytes m (at + o) ≡ (
        if leb from o && ltb o (from + length bytes) then get_or bytes (o - from) 0 else m (at + o))
unfolding store
store_at at from bytes m o =
    let lo : leb (at + from) (at + o) ≡ leb from o = ground arith in
    let hi : ltb (at + o) (at + from + length bytes) ≡ ltb o (from + length bytes) = ground arith in
    let off : at + o - (at + from) ≡ o - from = omega arith in rw (lo, hi, off) refl

store_entry_inside :
    (at : ℕ) (e : DirEntry) (m : ℕ → ℕ) (o : ℕ)
    → o < 72
    → store_entry at e m (at + o) ≡ entry_byte e (m (at + o)) o
unfolding store_entry
store_entry_inside at e m o h =
    let n = min (length e.name) 63 in
    let short : length (take n e.name) ≡ n = length-take n e.name ∙ omega arith in
    let m1 = store at (type_byte e.file_type ∷ []) m in
    let m2 = store (at + 1) (take n e.name) m1 in
    let zero_at : at + 1 + n ≡ at + (1 + n) = omega arith in
    let m3 = store (at + (1 + n)) (0 ∷ []) m2 in
    let start : at ≡ at + 0 = omega arith in
    let kind : m1 (at + o) ≡ (
        if leb 0 o && ltb o (0 + 1)
        then get_or (type_byte e.file_type ∷ []) (o - 0) 0
        else m (at + o)) =
      ap (λ a. store a (type_byte e.file_type ∷ []) m (at + o)) start
      ∙ store_at at 0 (type_byte e.file_type ∷ []) m o in
    ap (λ a. store (at + 65) (replicate 7 0) (store a (0 ∷ []) m2) (at + o)) zero_at
    ∙ (store_at at 65 (replicate 7 0) m3 o
        ∙ ground (
          arith,
          h,
          short,
          kind,
          get_or-replicate {A = ℕ} 7 (o - 65) 0,
          store_at at (1 + n) (0 ∷ []) m2 o,
          store_at at 1 (take n e.name) m1 o,
          get_or-take n e.name (o - 1) 0,
          dirent_type_eq e.file_type,
        ))

module _ (buf count : ℕ) where
  -- What is known of the entries that the loop writes behind the first `written` bytes.
  abbrev pub IsListing : ℕ → List DirEntry → (ℕ → ℕ) → ℕ × (ℕ → ℕ) → Type 0
  IsListing written es m r =
      (k : ℕ) × (r.0 ≡ written + 72 * k)
      × (r.0 ≤ count)
      × ((k ≡ length es) ⊎ ((k < length es) × (count < r.0 + 72)))
      × ((j o : ℕ) (e : DirEntry)
          → j < k
          → o < 72
          → get_elem? es j ≡ some e
          → r.1 (buf + written + 72 * j + o) ≡ entry_byte e (m (buf + written + 72 * j + o)) o)
      × ((a : ℕ) → (a < buf + written) ⊎ (buf + r.0 ≤ a) → r.1 a ≡ m a)

  step-IsListing :
      (written : ℕ) (e : DirEntry) (es : List DirEntry) (m : ℕ → ℕ) (r : ℕ × (ℕ → ℕ))
      → IsListing (written + 72) es (store_entry (buf + written) e m) r
      → IsListing written (e ∷ es) m r
  step-IsListing written e es m r (k, sum, le, all, bytes, out) = (
    suc k,
    omega (arith, sum),
    le,
    elim all [
      | inl every ↦ inl (ap (λ i. suc i) every)
      | inr (more, full) ↦ inr (omega (arith, more), full)
    ],
    each,
    λ a h.
        out a (elim h [ inl l ↦ inl (omega (arith, l)) | inr l ↦ inr l ])
        ∙ store_entry_outside (buf + written) e m a
            (elim h [ inl l ↦ inl l | inr l ↦ inr (omega (arith, l, sum)) ]),
  )
    where
      each :
          (j o : ℕ) (d : DirEntry)
          → j < suc k
          → o < 72
          → get_elem? (e ∷ es) j ≡ some d
          → r.1 (buf + written + 72 * j + o) ≡ entry_byte d (m (buf + written + 72 * j + o)) o
      each zero o d l h found =
          let here : buf + written + 72 * 0 + o ≡ buf + written + o = omega arith in
          let same : e ≡ d = ground (arith, found) in
          rw (here, ← same)
            (out (buf + written + o) (inl (omega (arith, h)))
              ∙ store_entry_inside (buf + written) e m o h)
      each (suc j) o d l h found =
          let there : buf + written + 72 * suc j + o ≡ buf + (written + 72) + 72 * j + o =
            omega arith in
          rw there (
            bytes j o d (omega (arith, l)) h found
            ∙ ap (λ b. entry_byte d b o)
                (store_entry_outside (buf + written) e m (buf + (written + 72) + 72 * j + o)
                  (inr (omega arith))))

  -- getdents writes whole entries of 72 bytes and as many as fit: the bytes written are at most `count`,
  -- and either every entry is written or there is no room for the next one. Each entry written holds
  -- the type's number, at most 63 bytes of the name and a zero behind them, and zeros from byte 65 on;
  -- the rest of it, and all memory outside the entries written, is as before.
  pub store_entries_lem :
      (written : ℕ) (es : List DirEntry) (m : ℕ → ℕ)
      → written ≤ count
      → IsListing written es m (store_entries buf count written es m)
  unfolding store_entries
  store_entries_lem written [] m h =
      (0, omega arith, h, inl refl, λ j o e l. absurd (omega (arith, l)), λ a k. refl)
  store_entries_lem written (e ∷ es) m h = elim (Bool-cases (ltb count (written + 72))) [
    | inl full ↦ rw full (
      0,
      omega arith,
      h,
      inr (omega arith, ground (arith, full)),
      λ j o e l. absurd (omega (arith, l)),
      λ a k. refl,
    )
    | inr room ↦
        let fits : written + 72 ≤ count = ground (arith, room) in
        rw room (
          step-IsListing written e es m
            (store_entries buf count (written + 72) es (store_entry (buf + written) e m))
            (store_entries_lem (written + 72) es (store_entry (buf + written) e m) fits))
  ]
