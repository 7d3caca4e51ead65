-- ===== src/Fs/Result.antt =====
-- What the operations of kernel/src/fs share: their results, and the trait FileOps.
use flutter_os.Prelude.{ℕ, Bool, true, false, List, ◌≡◌, refl, ◌⊎◌, inl, inr}

-- The error texts of the file systems, and a panic.
pub data FsError : Type 0 where
  inode_not_found not_regular not_directory file_not_found already_exists dir_exists : FsError
  no_mount unknown_device unaligned_write not_writable : FsError
  no_new_device no_device_size no_device_removal : FsError
  ata_read_failed ata_write_failed out_of_clusters : FsError
  no_free_slot empty_chain flush_failed : FsError

pub data Result {ℓ} (A : Type ℓ) : Type ℓ where
  ok : A → Result A
  err : FsError → Result A
  panicked : Result A

pub Result-cases {ℓ} :
    {A : Type ℓ} (r : Result A)
    → ((a : A) × (r ≡ ok a)) ⊎ (((e : FsError) × (r ≡ err e)) ⊎ (r ≡ panicked))
Result-cases (ok a) = inl (a, refl)
Result-cases (err e) = inr (inl (e, refl))
Result-cases panicked = inr (inr refl)

-- The operator `?` of code that changes a state.
abbrev pub and_then : {S A B : Type 0} → Result A × S → (A → S → Result B × S) → Result B × S
and_then (ok a, s) next = next a s
and_then (err e, s) next = (err e, s)
and_then (panicked, s) next = (panicked, s)

pub data FileType : Type 0 where
  regular directory char_device block_device : FileType

abbrev pub is_directory : FileType → Bool
is_directory directory = true
is_directory _ = false

abbrev pub is_regular : FileType → Bool
is_regular regular = true
is_regular _ = false

-- Names and paths are their bytes.
abbrev pub Name : Type 0
Name = List ℕ

pub record DirEntry : Type 0 where
  pub name : Name
  pub inode_id : ℕ
  pub file_type : FileType

-- The trait FileOps over the state of a file system. The methods take `&self` and change it by
-- interior mutability, so they return it. `read` is given the length of the buffer and returns the
-- bytes that it writes to its front.
pub record FileOps (F : Type 0) : Type 0 where
  pub read : F → ℕ → ℕ → ℕ → Result (List ℕ) × F
  pub write : F → ℕ → ℕ → List ℕ → Result ℕ × F
  pub size : F → ℕ → ℕ
  pub file_type : F → ℕ → FileType
  pub readdir : F → ℕ → Result (List DirEntry) × F
  pub lookup : F → ℕ → Name → Result ℕ × F
  pub create : F → ℕ → Name → Result ℕ × F
  pub mkdir : F → ℕ → Name → Result ℕ × F
  pub truncate : F → ℕ → ℕ → Result (Unit {0}) × F
  pub unlink : F → ℕ → Name → Result (Unit {0}) × F
