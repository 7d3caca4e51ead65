-- ===== src/Kernel/Elf.antt =====
-- kernel/src/exec.rs: the ELF64 header check and the loop over the program headers. Offsets are
-- 64-bit and wrap. A slice whose start lies behind its end panics. Log lines are left out.
pub mod Laws
use flutter_os.Prelude.{
  ℕ, zero, suc, ◌+◌, ◌*◌, ◌%◌, ◌^◌, Bool, not, ◌&&◌, Option, none, some, List, [], ◌∷◌, get_or, ltb,
  ◌==◌, if◌then◌else◌, length,
}
use flutter_os.Kernel.Bytes.{le_bytes, slice}

pub record Elf64Phdr : Type 0 where
  pub p_type : ℕ
  pub p_flags : ℕ
  pub p_offset : ℕ
  pub p_vaddr : ℕ
  pub p_paddr : ℕ
  pub p_filesz : ℕ
  pub p_memsz : ℕ
  pub p_align : ℕ

pub data ElfError : Type 0 where
  too_small : ElfError
  invalid_magic : ElfError
  not_elf64 : ElfError
  not_little_endian : ElfError
  not_executable : ElfError
  not_x86_64 : ElfError

-- `LoadResult`, an error, or a panic.
pub data LoadResult : Type 0 where
  loaded : (entry segments_loaded : ℕ) → LoadResult
  refused : ElfError → LoadResult
  panicked : LoadResult

unfoldable pub validate_header_raw : List ℕ → ℕ → ℕ → Option ElfError
validate_header_raw ident e_type e_machine =
    if not (
      (get_or ident 0 0 == 127)
      && (get_or ident 1 0 == 69)
      && (get_or ident 2 0 == 76)
      && (get_or ident 3 0 == 70))
    then some invalid_magic
    else if not (get_or ident 4 0 == 2)
    then some not_elf64
    else if not (get_or ident 5 0 == 1)
    then some not_little_endian
    else if not (e_type == 2)
    then some not_executable
    else if not (e_machine == 62)
    then some not_x86_64
    else none

unfoldable pub parse_phdr : List ℕ → Option Elf64Phdr
parse_phdr buf =
    if ltb (length buf) 56
    then none
    else some record {
      p_type = le_bytes (slice buf 0 4);
      p_flags = le_bytes (slice buf 4 4);
      p_offset = le_bytes (slice buf 8 8);
      p_vaddr = le_bytes (slice buf 16 8);
      p_paddr = le_bytes (slice buf 24 8);
      p_filesz = le_bytes (slice buf 32 8);
      p_memsz = le_bytes (slice buf 40 8);
      p_align = le_bytes (slice buf 48 8);
    }

-- What one round of the loop does: `break`, a panic, `continue`, or a segment counted.
pub data Round : Type 0 where
  stop : Round
  crash : Round
  skip : Round
  count : Round

abbrev pub phdr_round : List ℕ → Elf64Phdr → Round
phdr_round buf p =
    if p.p_type == 1
    then (if ltb (length buf) ((p.p_offset + p.p_filesz) % 2 ^ 64) then skip else count)
    else skip

unfoldable pub round : List ℕ → ℕ → ℕ → ℕ → Round
round buf base size i =
    let offset = (base + i * size) % 2 ^ 64 in
    let end = (offset + size) % 2 ^ 64 in
    if ltb (length buf) end
    then stop
    else if ltb end offset
    then crash
    else elim (parse_phdr (slice buf offset size)) [ none ↦ skip | some p ↦ phdr_round buf p ]

unfoldable pub load_segments : List ℕ → ℕ → ℕ → ℕ → ℕ → ℕ → ℕ → LoadResult
load_segments buf base size entry zero i segs = loaded entry segs
load_segments buf base size entry (suc n) i segs = elim (round buf base size i) [
  | stop ↦ loaded entry segs
  | crash ↦ panicked
  | skip ↦ load_segments buf base size entry n (i + 1) segs
  | count ↦ load_segments buf base size entry n (i + 1) (segs + 1)
]

-- The header's fields by their offsets in the file.
abbrev pub e_type : List ℕ → ℕ
e_type buf = le_bytes (slice buf 16 2)

abbrev pub e_machine : List ℕ → ℕ
e_machine buf = le_bytes (slice buf 18 2)

abbrev pub e_entry : List ℕ → ℕ
e_entry buf = le_bytes (slice buf 24 8)

abbrev pub e_phoff : List ℕ → ℕ
e_phoff buf = le_bytes (slice buf 32 8)

abbrev pub e_phentsize : List ℕ → ℕ
e_phentsize buf = le_bytes (slice buf 54 2)

abbrev pub e_phnum : List ℕ → ℕ
e_phnum buf = le_bytes (slice buf 56 2)

unfoldable pub load_elf : List ℕ → LoadResult
load_elf buf =
    if ltb (length buf) 64
    then refused too_small
    else elim (validate_header_raw (slice buf 0 16) (e_type buf) (e_machine buf)) [
      | some e ↦ refused e
      | none ↦ load_segments buf (e_phoff buf) (e_phentsize buf) (e_entry buf) (e_phnum buf) 0 0
    ]
