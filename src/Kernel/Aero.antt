-- ===== src/Kernel/Aero.antt =====
-- kernel/src/aero_format.rs: the .aero application package. The name's start, which
-- `parse_header` also returns, is always 7; the serial log line of `load_aero` is left out.
pub mod Laws
use flutter_os.Prelude.{
  ℕ, ◌+◌, Bool, not, ◌&&◌, Option, none, some, List, [], ◌∷◌, get_or, ltb, ◌==◌, if◌then◌else◌,
  length,
}
use flutter_os.Kernel.Bytes.{le_bytes, slice}

abbrev pub aero_version : ℕ
aero_version = 1

pub record AeroHeader : Type 0 where
  pub version : ℕ
  pub name_len : ℕ
  pub icon_color : ℕ
  pub elf_len : ℕ
  pub resource_count : ℕ

pub data AeroError : Type 0 where
  invalid_header : AeroError
  unsupported_version : AeroError
  elf_truncated : AeroError

pub data AeroResult : Type 0 where
  ok : List ℕ → AeroResult
  error : AeroError → AeroResult

-- `&buf[0..4] == AERO_MAGIC`, the letters A E R O.
abbrev pub has_magic : List ℕ → Bool
has_magic buf =
    (get_or buf 0 0 == 65)
    && (get_or buf 1 0 == 69)
    && (get_or buf 2 0 == 82)
    && (get_or buf 3 0 == 79)

unfoldable pub parse_header : List ℕ → Option (AeroHeader × ℕ)
parse_header buf =
    let name_len = get_or buf 6 0 in
    let name_end = 7 + name_len in
    if ltb (length buf) 7
    then none
    else if not (has_magic buf)
    then none
    else if ltb (length buf) (name_end + 10)
    then none
    else some (
      record {
        version = le_bytes (slice buf 4 2);
        name_len = name_len;
        icon_color = le_bytes (slice buf name_end 4);
        elf_len = le_bytes (slice buf (name_end + 4) 4);
        resource_count = le_bytes (slice buf (name_end + 8) 2);
      },
      7,
    )

abbrev pub elf_offset : AeroHeader → ℕ × ℕ
elf_offset h = (7 + h.name_len + 10, h.elf_len)

unfoldable pub extract_name : List ℕ → AeroHeader → List ℕ
extract_name buf h = if ltb (length buf) (7 + h.name_len) then [] else slice buf 7 h.name_len

abbrev pub load_body : List ℕ → AeroHeader → AeroResult
load_body buf h =
    if not (h.version == aero_version)
    then error unsupported_version
    else if ltb (length buf) ((elf_offset h).0 + (elf_offset h).1)
    then error elf_truncated
    else ok (slice buf (elf_offset h).0 (elf_offset h).1)

unfoldable pub load_aero : List ℕ → AeroResult
load_aero buf = elim (parse_header buf) [ none ↦ error invalid_header | some h ↦ load_body buf h.0 ]
