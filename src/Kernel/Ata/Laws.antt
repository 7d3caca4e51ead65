-- ===== src/Kernel/Ata/Laws.antt =====
-- Reads of any length: kernel/src/ata.rs.
use flutter_os.Prelude.{
  ℕ, zero, suc, ◌+◌, ◌-◌, ◌*◌, ◌/◌, ◌^◌, ◌≤◌, ◌<◌, ◌≡◌, sym, ap, ap₂, ◌∙◌, min, true, false, some,
  ◌++◌, ltb, leb, arith, Bool-cases, inl, inr, ◌⊎◌,
}
use flutter_os.Fs.Dev.{bytes_from}
use flutter_os.Fs.Dev.Laws.{bytes_from-append, along}
use flutter_os.Kernel.Ata.{Controller, refused, read_once, joined, read_chunks, read_sectors}

-- Where no bytes are left, the place of them does not matter.
same_tail :
    (content : ℕ → ℕ) (a b r : ℕ)
    → (r ≡ 0) ⊎ (a ≡ b)
    → bytes_from content a r ≡ bytes_from content b r
unfolding bytes_from
same_tail content a b r (inl e) = ap (bytes_from content a) e ∙ sym (ap (bytes_from content b) e)
same_tail content a b r (inr e) = ap (λ q. bytes_from content q r) e

module _ {D : Type 0} (c : Controller D) where
  -- The transfer delivers what the disk has there.
  abbrev pub Delivers : (ℕ → ℕ) → D → Type 0
  Delivers content d =
      (lba n : ℕ)
      → 0 < n
      → n ≤ 256
      → lba + n ≤ 2 ^ 28
      → c.transfer_in d lba n ≡ some (bytes_from content (lba * 512) (n * 512))

  accepted :
      (d : D) (lba n : ℕ)
      → c.disk_present d ≡ true
      → 0 < n
      → lba < 2 ^ 28
      → refused c d lba (n * 512) ≡ false
  accepted d lba n p hn hl = rw p (ground arith)

  read_once_lem :
      (content : ℕ → ℕ) (d : D) (lba n : ℕ)
      → Delivers content d
      → c.disk_present d ≡ true
      → 0 < n
      → n ≤ 256
      → lba + n ≤ 2 ^ 28
      → read_once c d lba (n * 512) ≡ some (bytes_from content (lba * 512) (n * 512))
  unfolding read_once
  read_once_lem content d lba n h p hn hm hl =
      let count : n * 512 / 512 ≡ n = omega arith in
      rw (accepted d lba n p hn (omega (arith, hn, hl)), count) (h lba n hn hm hl)

  read_chunks_lem :
      (content : ℕ → ℕ) (d : D) (lba sectors : ℕ)
      → Delivers content d
      → c.disk_present d ≡ true
      → lba + sectors ≤ 2 ^ 28
      → (n chunk : ℕ) → n + chunk ≡ (sectors + 254) / 255
      → read_chunks c n chunk d lba sectors
        ≡ some (bytes_from content ((lba + chunk * 255) * 512) ((sectors - chunk * 255) * 512))
  unfolding read_chunks bytes_from
  read_chunks_lem content d lba sectors h p hl zero chunk e = ap some (
      along (bytes_from content ((lba + chunk * 255) * 512)) 0 ((sectors - chunk * 255) * 512)
        (omega (arith, e)))
  read_chunks_lem content d lba sectors h p hl (suc n) chunk e =
      let start = chunk * 255 in
      let count = min (sectors - start) 255 in
      let left : 0 < sectors - start = omega (arith, e) in
      let small : count ≤ 255 = ground arith in
      let part : count ≤ sectors - start = ground arith in
      let positive : 0 < count = ground (arith, left) in
      let here =
        read_once_lem content d (lba + start) count h p positive (omega (arith, small))
          (omega (arith, part, hl, left)) in
      let later = read_chunks_lem content d lba sectors h p hl n (chunk + 1) (omega (arith, e)) in
      let from = (lba + start) * 512 in
      let rest = (sectors - (chunk + 1) * 255) * 512 in
      ap₂ joined here later
      ∙ ap some (
          ap (λ xs. bytes_from content from (count * 512) ++ xs)
            (same_tail content ((lba + (chunk + 1) * 255) * 512) (from + count * 512) rest
              (elim (Bool-cases (leb 255 (sectors - start))) [
                | inl whole ↦ inr (ground (arith, whole))
                | inr last ↦ inl (ground (arith, last))
              ]))
          ∙ bytes_from-append content (count * 512) rest from
          ∙ along (bytes_from content from) (count * 512 + rest) ((sectors - start) * 512)
              (ground arith))

  -- A read of any number of sectors returns the bytes that stand there, in one transfer or in chunks,
  -- if the disk is there, the sectors are numbered in 28 bits, and a transfer of up to 256 sectors
  -- delivers what stands on the disk.
  pub read_sectors_lem :
      (content : ℕ → ℕ) (d : D) (lba n : ℕ)
      → Delivers content d
      → c.disk_present d ≡ true
      → 0 < n
      → lba + n ≤ 2 ^ 28
      → read_sectors c d lba (n * 512) ≡ some (bytes_from content (lba * 512) (n * 512))
  unfolding read_sectors
  read_sectors_lem content d lba n h p hn hl =
      let count : n * 512 / 512 ≡ n = omega arith in
      let fine = accepted d lba n p hn (omega (arith, hn, hl)) in
      elim (Bool-cases (ltb 256 n)) [
        | inl long ↦
            rw (fine, count, long)
              (read_chunks_lem content d lba n h p hl ((n + 254) / 255) 0 (omega arith)
                ∙ ap some (ap₂ (bytes_from content) (omega arith) (omega arith)))
        | inr short ↦ rw (fine, count, short) (h lba n hn (ground (arith, short)) hl)
      ]
