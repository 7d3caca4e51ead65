-- ===== src/Kernel/Tests/Bytes.antt =====
-- Runs of the memory functions and of the disk.
use flutter_os.Fs.Dev.{bytes_from}
use flutter_os.Kernel.Ata.{Controller, read_sectors}
use flutter_os.Kernel.Ata.Laws.{read_sectors_lem}
use flutter_os.Prelude.{
  refl, ℕ, true, none, some, ◌*◌, arith, ◌+◌, ◌-◌, ◌%◌, ◌≡◌, ◌&&◌, ltb, leb, if◌then◌else◌, ◌==◌,
}
use flutter_os.Kernel.Mem.{Memory, memmove}
use flutter_os.Kernel.Mem.Laws.{memmove_lem}

-- Address a holds the byte a, up to a zero at 70.
abbrev ramp : Memory
ramp a = if a == 70 then 0 else a % 256

memmove_lem_example :
    memmove 12 10 8 ramp 15
    ≡ (if leb 12 15 && ltb 15 (12 + 8) then ramp (10 + (15 - 12)) else ramp 15)
memmove_lem_example = memmove_lem 12 10 8 ramp 15

-- A disk whose bytes count up, read across the border of a transfer.
abbrev disk_content : ℕ → ℕ
disk_content a = a % 251

abbrev disk : Controller (Unit {0})
disk = record {
  disk_present = λ d. true;
  transfer_in = λ d lba n. some (bytes_from disk_content (lba * 512) (n * 512));
  transfer_out = λ d lba bytes. none;
}

read_sectors_lem_example :
    read_sectors disk tt 7 (300 * 512) ≡ some (bytes_from disk_content (7 * 512) (300 * 512))
read_sectors_lem_example =
    read_sectors_lem disk disk_content tt 7 300 (λ lba n lo hi l. refl) refl (omega arith)
      (omega arith)
