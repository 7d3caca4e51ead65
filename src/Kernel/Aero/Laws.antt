-- ===== src/Kernel/Aero/Laws.antt =====
-- kernel/src/aero_format.rs: what loading a package gives.
use flutter_os.Prelude.{
  drop-append, take-append, ℕ, ◌+◌, ◌≤◌, ◌≡◌, refl, none, some, List, [], ◌∷◌, ◌++◌, length, arith,
  ap, sym, ◌∙◌, drop, length-append, zero, suc,
}
use flutter_os.Kernel.Bytes.{le_bytes, slice}
use flutter_os.Kernel.Aero.{
  AeroHeader, ok, error, invalid_header, parse_header, load_body, load_aero,
}

-- Four bytes of a number.
abbrev pub four : ℕ → ℕ → ℕ → ℕ → List ℕ
four a b c d = a ∷ b ∷ c ∷ d ∷ []

-- A package of version 1 in the order in which the code reads it, from the fields behind the name
-- on: the icon's color, the ELF length, the resource count, the ELF binary and the resources. (The
-- source's module comment has the resource count behind the ELF binary.)
abbrev pub packed : List ℕ → List ℕ → List ℕ
packed name fields = 65 ∷ 69 ∷ 82 ∷ 79 ∷ 1 ∷ 0 ∷ length name ∷ (name ++ fields)

abbrev pub header_of : ℕ → List ℕ → AeroHeader
header_of n fields = record {
  version = 1;
  name_len = n;
  icon_color = le_bytes (slice fields 0 4);
  elf_len = le_bytes (slice fields 4 4);
  resource_count = le_bytes (slice fields 8 2);
}

abbrev nothing : List ℕ
nothing = []

drop-nil : (n : ℕ) → drop n (nothing) ≡ nothing
drop-nil zero = refl
drop-nil (suc n) = refl

zero_add : (n : ℕ) → 0 + n ≡ n
zero_add n = omega arith

suc_add : (m n : ℕ) → suc m + n ≡ suc (m + n)
suc_add m n = omega arith

drop-add : (m n : ℕ) (xs : List ℕ) → drop (m + n) xs ≡ drop n (drop m xs)
drop-add zero n xs = rw (zero_add n) refl
drop-add (suc m) n [] = rw (suc_add m n) (sym (drop-nil n))
drop-add (suc m) n (x ∷ xs) = rw (suc_add m n) (drop-add m n xs)

-- Bytes from behind the name on.
behind_name :
    (name fields : List ℕ) (k : ℕ) → drop (7 + length name + k) (packed name fields) ≡ drop k fields
behind_name name fields k =
    rw
      (
        drop-add (7 + length name) k (packed name fields),
        drop-add 7 (length name) (packed name fields),
      )
      (ap (drop k) (drop-append name fields))

behind_start : (name fields : List ℕ) → drop (7 + length name) (packed name fields) ≡ fields
behind_start name fields =
    rw (drop-add 7 (length name) (packed name fields)) (drop-append name fields)

parse-packed :
    (name fields : List ℕ)
    → 10 ≤ length fields
    → parse_header (packed name fields) ≡ some (header_of (length name) fields, 7)
unfolding parse_header
parse-packed name fields h =
    let long = length-append name fields in
    rw (behind_name name fields 4, behind_name name fields 8, behind_start name fields)
      (ground (arith, long))

elf_part :
    (name fields elf rest : List ℕ)
    → drop 10 fields ≡ elf ++ rest
    → slice (packed name fields) (7 + length name + 10) (length elf) ≡ elf
elf_part name fields elf rest h = rw (behind_name name fields 10, h) (take-append elf rest)

load_body-packed :
    (name fields elf rest : List ℕ)
    → drop 10 fields ≡ elf ++ rest
    → le_bytes (slice fields 4 4) ≡ length elf
    → 10 + length elf ≤ length fields
    → load_body (packed name fields) (header_of (length name) fields) ≡ ok elf
load_body-packed name fields elf rest h n long =
    let size = length-append name fields in
    rw n (rw (elf_part name fields elf rest h) (ground (arith, size)))

load-parsed :
    (buf : List ℕ) (h : AeroHeader × ℕ)
    → parse_header buf ≡ some h
    → load_aero buf ≡ load_body buf h.0
unfolding load_aero
load-parsed buf h e =
    ap (λ o. elim o [ none ↦ error invalid_header | some g ↦ load_body buf g.0 ]) e

-- Loading a package whose fields stand in the order in which the code reads them, the resource count
-- before the ELF binary, yields exactly that binary, whatever the name, the icon and the resources
-- are, if its length stands in the header. (The module comment has the count behind the binary.)
pub load-packed :
    (name elf resources : List ℕ) (i0 i1 i2 i3 l0 l1 l2 l3 r0 r1 : ℕ)
    → le_bytes (four l0 l1 l2 l3) ≡ length elf
    → load_aero
        (packed name (four i0 i1 i2 i3 ++ four l0 l1 l2 l3 ++ (r0 ∷ r1 ∷ []) ++ elf ++ resources))
      ≡ ok elf
load-packed name elf resources i0 i1 i2 i3 l0 l1 l2 l3 r0 r1 h =
    let fields = four i0 i1 i2 i3 ++ four l0 l1 l2 l3 ++ (r0 ∷ r1 ∷ []) ++ elf ++ resources in
    load-parsed (packed name fields) (header_of (length name) fields, 7)
      (parse-packed name fields (omega arith))
    ∙ load_body-packed name fields elf resources refl h (omega (arith, length-append elf resources))
