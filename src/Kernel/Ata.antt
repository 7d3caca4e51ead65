-- ===== src/Kernel/Ata.antt =====
-- The disk: read_sectors and write_sectors of kernel/src/ata.rs. The transfer of up to 256 sectors
-- through the ports of the controller is a parameter.
pub mod Laws
use flutter_os.Prelude.{
  ℕ, zero, suc, ◌+◌, ◌-◌, ◌*◌, ◌/◌, ◌%◌, ◌^◌, min, Bool, true, false, not, ◌||◌, Option, none, some,
  List, [], ◌∷◌, ◌++◌, ltb, leb, ◌==◌, if◌then◌else◌, length, take, drop,
}

-- A read of so many sectors from a sector on, and a write of the bytes of whole sectors.
pub record Controller (D : Type 0) : Type 0 where
  pub disk_present : D → Bool
  pub transfer_in : D → ℕ → ℕ → Option (List ℕ)
  pub transfer_out : D → ℕ → List ℕ → Option D

-- The bytes of a chunk and of the chunks behind it, unless one fails.
abbrev pub joined : Option (List ℕ) → Option (List ℕ) → Option (List ℕ)
joined none rest = none
joined (some bytes) none = none
joined (some bytes) (some more) = some (bytes ++ more)

module _ {D : Type 0} (c : Controller D) where
  -- What both calls refuse: no disk, a sector beyond 28 bits, and a length that is not of sectors.
  abbrev pub refused : D → ℕ → ℕ → Bool
  refused d lba len =
      not (c.disk_present d) || (leb (2 ^ 28) lba || ((len / 512 == 0) || not (len % 512 == 0)))

  -- A read of 256 sectors at most.
  unfoldable pub read_once : D → ℕ → ℕ → Option (List ℕ)
  read_once d lba len = if refused d lba len then none else c.transfer_in d lba (len / 512)

  -- The loop over the chunks of 255 sectors, from a chunk on, of so many rounds.
  unfoldable pub read_chunks : ℕ → ℕ → D → ℕ → ℕ → Option (List ℕ)
  read_chunks zero chunk d lba sectors = some []
  read_chunks (suc n) chunk d lba sectors =
      let start = chunk * 255 in
      let rest = read_chunks n (chunk + 1) d lba sectors in
      joined (read_once d (lba + start) (min (sectors - start) 255 * 512)) rest

  unfoldable pub read_sectors : D → ℕ → ℕ → Option (List ℕ)
  read_sectors d lba len =
      let sectors = len / 512 in
      if refused d lba len
      then none
      else if ltb 256 sectors
      then read_chunks ((sectors + 254) / 255) 0 d lba sectors
      else c.transfer_in d lba sectors

  unfoldable pub write_once : D → ℕ → List ℕ → Option D
  write_once d lba bytes = if refused d lba (length bytes) then none else c.transfer_out d lba bytes

  -- The bytes of a chunk are cut out of all that are written.
  unfoldable pub write_chunks : ℕ → ℕ → D → ℕ → List ℕ → Option D
  write_chunks zero chunk d lba bytes = some d
  write_chunks (suc n) chunk d lba bytes =
      let start = chunk * 255 in
      let count = min (length bytes / 512 - start) 255 in
      elim (write_once d (lba + start) (take (count * 512) (drop (start * 512) bytes))) [
        | none ↦ none
        | some d' ↦ write_chunks n (chunk + 1) d' lba bytes
      ]

  unfoldable pub write_sectors : D → ℕ → List ℕ → Option D
  write_sectors d lba bytes =
      let sectors = length bytes / 512 in
      if refused d lba (length bytes)
      then none
      else if ltb 256 sectors
      then write_chunks ((sectors + 254) / 255) 0 d lba bytes
      else c.transfer_out d lba bytes
