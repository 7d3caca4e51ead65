-- ===== src/Fs/Fat/Entries.antt =====
-- Directory entries of kernel/src/fs/fat32.rs in memory and on disk.
use flutter_os.Prelude.{
  ℕ, zero, suc, ◌+◌, ◌^◌, ◌<◌, ◌≤◌, ◌≡◌, refl, List, [], ◌∷◌, ◌++◌, length, take, drop, get_or,
  arith, ap, ◌∙◌, sym, length-append,
}
use flutter_os.Kernel.Bytes.{le_bytes, to_bytes, slice}
use flutter_os.Fs.Fat.{RawDirEntry, entry_at, pack_entry}
use flutter_os.Fs.Fat.Slots.{put_entry}

-- The fields have the sizes that their types give them.
pub record IsEntry (e : RawDirEntry) : Type 0 where
  pub name_size : length e.name ≡ 11
  pub crt_time_in : e.crt_time < 2 ^ 16
  pub crt_date_in : e.crt_date < 2 ^ 16
  pub lst_acc_date_in : e.lst_acc_date < 2 ^ 16
  pub fst_clus_hi_in : e.fst_clus_hi < 2 ^ 16
  pub wrt_time_in : e.wrt_time < 2 ^ 16
  pub wrt_date_in : e.wrt_date < 2 ^ 16
  pub fst_clus_lo_in : e.fst_clus_lo < 2 ^ 16
  pub file_size_in : e.file_size < 2 ^ 32

drop-past : (xs ys : List ℕ) (m k : ℕ) → m ≡ length xs + k → drop m (xs ++ ys) ≡ drop k ys
drop-past [] ys m k h = ap (λ n. drop n ys) (omega (arith, h))
drop-past (x ∷ xs) ys zero k h = absurd (omega (arith, h))
drop-past (x ∷ xs) ys (suc m) k h = drop-past xs ys m k (omega (arith, h))

get_or-past : (xs ys : List ℕ) (m k : ℕ) → m ≡ length xs + k → get_or (xs ++ ys) m 0 ≡ get_or ys k 0
get_or-past [] ys m k h = ap (λ n. get_or ys n 0) (omega (arith, h))
get_or-past (x ∷ xs) ys zero k h = absurd (omega (arith, h))
get_or-past (x ∷ xs) ys (suc m) k h = get_or-past xs ys m k (omega (arith, h))

take-whole : (xs ys : List ℕ) (n : ℕ) → length xs ≡ n → take n (xs ++ ys) ≡ xs
take-whole [] ys zero h = refl
take-whole [] ys (suc n) h = absurd (omega (arith, h))
take-whole (x ∷ xs) ys zero h = absurd (omega (arith, h))
take-whole (x ∷ xs) ys (suc n) h = ap (λ l. x ∷ l) (take-whole xs ys n (omega (arith, h)))

length-front : (off : ℕ) (buf : List ℕ) → off ≤ length buf → length (take off buf) ≡ off
length-front zero buf h = refl
length-front (suc off) [] h = absurd (omega (arith, h))
length-front (suc off) (x ∷ buf) h =
    let rest = length-front off buf (omega (arith, h)) in omega (arith, rest)

append_assoc : (xs ys zs : List ℕ) → (xs ++ ys) ++ zs ≡ xs ++ (ys ++ zs)
append_assoc [] ys zs = refl
append_assoc (x ∷ xs) ys zs = ap (λ l. x ∷ l) (append_assoc xs ys zs)

half_lem : (v : ℕ) → v < 2 ^ 16 → le_bytes (to_bytes 2 v) ≡ v
half_lem v h = omega (arith, h)

-- The bytes after the name.
abbrev fields : RawDirEntry → List ℕ
fields e =
    (e.attr ∷ e.nt_res ∷ e.crt_time_tenth ∷ [])
    ++ to_bytes 2 e.crt_time
    ++ to_bytes 2 e.crt_date
    ++ to_bytes 2 e.lst_acc_date
    ++ to_bytes 2 e.fst_clus_hi
    ++ to_bytes 2 e.wrt_time
    ++ to_bytes 2 e.wrt_date
    ++ to_bytes 2 e.fst_clus_lo
    ++ to_bytes 4 e.file_size

put_entry_eq :
    (buf : List ℕ) (off : ℕ) (e : RawDirEntry)
    → put_entry buf off e ≡ take off buf ++ (e.name ++ (fields e ++ drop (off + 32) buf))
unfolding put_entry pack_entry
put_entry_eq buf off e =
    ap (λ l. take off buf ++ l) (append_assoc e.name (fields e) (drop (off + 32) buf))

-- An entry that is put into a slot of a cluster's bytes is read back there.
pub entry_at-put_entry :
    (buf : List ℕ) (off : ℕ) (e : RawDirEntry)
    → IsEntry e
    → off ≤ length buf
    → entry_at (put_entry buf off e) off ≡ e
unfolding entry_at
entry_at-put_entry buf off e is within =
    let front = length-front off buf within in
    let tail = drop (off + 32) buf in
    let before = take off buf ++ e.name in
    let after = fields e ++ tail in
    let split : put_entry buf off e ≡ before ++ after =
      put_entry_eq buf off e ∙ sym (append_assoc (take off buf) e.name after) in
    let size : length before ≡ off + 11 =
      let both = length-append (take off buf) e.name in omega (arith, both, front, is.name_size) in
    let name : take 11 (drop off (put_entry buf off e)) ≡ e.name =
      rw
        (
          put_entry_eq buf off e,
          drop-past (take off buf) (e.name ++ after) off 0 (omega (arith, front)),
        )
        (take-whole e.name after 11 is.name_size) in
    let byte : (k : ℕ) → get_or (before ++ after) (off + (11 + k)) 0 ≡ get_or after k 0 =
      λ k. get_or-past before after (off + (11 + k)) k (omega (arith, size)) in
    let part : (n k : ℕ) → slice (before ++ after) (off + (11 + k)) n ≡ take n (drop k after) =
      λ n k. ap (λ l. take n l) (drop-past before after (off + (11 + k)) k (omega (arith, size))) in
    let word : le_bytes (to_bytes 4 e.file_size) ≡ e.file_size = omega (arith, is.file_size_in) in
    rw
      (
        name,
        split,
        byte 0,
        byte 1,
        byte 2,
        part 2 3,
        half_lem e.crt_time is.crt_time_in,
        part 2 5,
        half_lem e.crt_date is.crt_date_in,
        part 2 7,
        half_lem e.lst_acc_date is.lst_acc_date_in,
        part 2 9,
        half_lem e.fst_clus_hi is.fst_clus_hi_in,
        part 2 11,
        half_lem e.wrt_time is.wrt_time_in,
        part 2 13,
        half_lem e.wrt_date is.wrt_date_in,
        part 2 15,
        half_lem e.fst_clus_lo is.fst_clus_lo_in,
        part 4 17,
        word,
      )
      refl
