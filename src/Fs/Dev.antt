-- ===== src/Fs/Dev.antt =====
-- The device files: kernel/src/fs/devfs.rs. The disk is that of the file system FAT32, the keyboard's
-- bytes are those of the ring of scancodes; `is_utf8` is the test of core::str::from_utf8.
pub mod Keyboard
pub mod Laws
mod Tests
use flutter_os.Prelude.{
  ℕ, zero, suc, ◌+◌, ◌-◌, ◌*◌, ◌/◌, ◌%◌, ◌^◌, min, Bool, true, false, not, Option, none, some, List,
  [], ◌∷◌, ◌++◌, ltb, leb, ◌==◌, if◌then◌else◌, length, take, drop, get_or,
}
use flutter_os.Fs.Result.{
  FsError, unknown_device, unaligned_write, not_writable, no_new_device, no_device_size,
  no_device_removal, ata_write_failed, not_directory, Result, ok, err, FileType, directory,
  char_device, block_device, Name, DirEntry, FileOps,
}
use flutter_os.Prelude.Dict.{text_same}
use flutter_os.Fs.Fat.Disk.{Disk}
use flutter_os.Fs.Vfs.{Vfs, mount}
use flutter_os.Input.Ring.{ScancodeBuffer, pop}

abbrev pub dir_inode : ℕ
dir_inode = 1

abbrev pub hda_inode : ℕ
hda_inode = 2

abbrev pub kbd_inode : ℕ
kbd_inode = 3

abbrev pub serial_inode : ℕ
serial_inode = 4

abbrev pub fb_inode : ℕ
fb_inode = 5

pub data DevKind : Type 0 where
  block_disk keyboard serial framebuffer : DevKind

pub record Device : Type 0 where
  pub id : ℕ
  pub name : Name
  pub kind : DevKind

-- The table that `Devfs::new` makes, which nothing changes: hda, kbd, serial and framebuffer.
abbrev pub devices : List Device
devices =
    record { id = hda_inode; name = 104 ∷ 100 ∷ 97 ∷ []; kind = block_disk }
    ∷ record { id = kbd_inode; name = 107 ∷ 98 ∷ 100 ∷ []; kind = keyboard }
    ∷ record { id = serial_inode; name = 115 ∷ 101 ∷ 114 ∷ 105 ∷ 97 ∷ 108 ∷ []; kind = serial }
    ∷ record {
      id = fb_inode;
      name = 102 ∷ 114 ∷ 97 ∷ 109 ∷ 101 ∷ 98 ∷ 117 ∷ 102 ∷ 102 ∷ 101 ∷ 114 ∷ [];
      kind = framebuffer;
    }
    ∷ []

abbrev pub kind_of : ℕ → List Device → Option DevKind
kind_of id [] = none
kind_of id (d ∷ ds) = if d.id == id then some d.kind else kind_of id ds

abbrev pub id_of : Name → List Device → Option ℕ
id_of name [] = none
id_of name (d ∷ ds) = if text_same d.name name then some d.id else id_of name ds

-- What the devices are: the framebuffer's address and length, if it is mapped.
pub record Machine (D : Type 0) : Type 0 where
  pub disk : D
  pub total_sectors : ℕ
  pub ring : ScancodeBuffer
  pub output : List ℕ
  pub memory : ℕ → ℕ
  pub framebuffer_info : Option (ℕ × ℕ)

-- So many bytes of memory from an address on.
unfoldable pub bytes_from : (ℕ → ℕ) → ℕ → ℕ → List ℕ
bytes_from memory base zero = []
bytes_from memory base (suc n) = memory base ∷ bytes_from memory (base + 1) n

unfoldable pub store_bytes : (ℕ → ℕ) → ℕ → List ℕ → ℕ → ℕ
store_bytes memory base bytes a =
    if leb base a
    then if ltb a (base + length bytes) then get_or bytes (a - base) 0 else memory a
    else memory a

-- The bytes of the framebuffer that a read at an offset copies. The end wraps around as the sum does,
-- and so does the difference.
unfoldable pub read_frame : (ℕ → ℕ) → ℕ → ℕ → ℕ → ℕ → List ℕ
read_frame memory base len offset count =
    let start = min offset len in
    let end = min ((offset + count) % 2 ^ 64) len in
    bytes_from memory (base + start) ((end + 2 ^ 64 - start) % 2 ^ 64)

unfoldable pub write_frame : (ℕ → ℕ) → ℕ → ℕ → ℕ → List ℕ → ℕ × (ℕ → ℕ)
write_frame memory base len offset bytes =
    let start = min offset len in
    let n = min (len - start) (length bytes) in
    (n, store_bytes memory (base + start) (take n bytes))

-- A ring that gives nothing ends the loop.
abbrev pub taken : ScancodeBuffer → Option ℕ → List ℕ × ScancodeBuffer → List ℕ × ScancodeBuffer
taken b none later = ([], b)
taken b (some c) (rest, b') = (c ∷ rest, b')

-- The scancodes that fill a buffer, or all there are.
unfoldable pub drain : ℕ → ScancodeBuffer → List ℕ × ScancodeBuffer
drain zero b = ([], b)
drain (suc n) b = let (sc, b') = pop b in let later = drain n b' in taken b sc later

abbrev pub size_of_fb : Option (ℕ × ℕ) → ℕ
size_of_fb none = 0
size_of_fb (some (base, len)) = len

abbrev pub frame_bytes : (ℕ → ℕ) → Option (ℕ × ℕ) → ℕ → ℕ → List ℕ
frame_bytes memory none offset count = []
frame_bytes memory (some (base, len)) offset count = read_frame memory base len offset count

abbrev pub frame_written : (ℕ → ℕ) → Option (ℕ × ℕ) → ℕ → List ℕ → ℕ × (ℕ → ℕ)
frame_written memory none offset bytes = (0, memory)
frame_written memory (some (base, len)) offset bytes = write_frame memory base len offset bytes

module _ {D : Type 0} (k : Disk D) (is_utf8 : List ℕ → Bool) where
  -- The loop over the sectors, of so many rounds, up to the first that cannot be read. As a round
  -- takes a byte at least, as many rounds as bytes are enough.
  unfoldable pub read_block : ℕ → D → ℕ → ℕ → List ℕ
  read_block zero d pos left = []
  read_block (suc n) d pos left =
      let in_sector = pos % 512 in
      let count = min (512 - in_sector) left in
      let rest = read_block n d ((pos + count) % 2 ^ 64) (left - count) in
      if left == 0 then [] else (elim (k.read_sectors d (pos / 512) 512) [
        | none ↦ []
        | some sector ↦ take count (drop in_sector sector) ++ rest
      ])

  unfoldable pub read_device : DevKind → Machine D → ℕ → ℕ → List ℕ × Machine D
  read_device block_disk m offset count = (read_block count m.disk offset count, m)
  read_device keyboard m offset count =
      let (bytes, ring) = drain count m.ring in (bytes, record m { ring = ring })
  read_device serial m offset count = ([], m)
  read_device framebuffer m offset count = (frame_bytes m.memory m.framebuffer_info offset count, m)

  unfoldable pub read : Machine D → ℕ → ℕ → ℕ → Result (List ℕ) × Machine D
  read m id offset count = elim (kind_of id devices) [
    | none ↦ (err unknown_device, m)
    | some kind ↦ let (bytes, m') = read_device kind m offset count in (ok bytes, m')
  ]

  -- A text that is not UTF-8 is printed as the empty text.
  unfoldable pub write_device : DevKind → Machine D → ℕ → List ℕ → Result ℕ × Machine D
  write_device block_disk m offset bytes =
      if not (offset % 512 == 0)
      then (err unaligned_write, m)
      else (elim (k.write_sectors m.disk (offset / 512) bytes) [
        | none ↦ (err ata_write_failed, m)
        | some d ↦ (ok (length bytes), record m { disk = d })
      ])
  write_device keyboard m offset bytes = (err not_writable, m)
  write_device serial m offset bytes = (
    ok (length bytes),
    record m { output = if is_utf8 bytes then m.output ++ bytes else m.output },
  )
  write_device framebuffer m offset bytes =
      let (n, memory) = frame_written m.memory m.framebuffer_info offset bytes in
      (ok n, record m { memory = memory })

  unfoldable pub write : Machine D → ℕ → ℕ → List ℕ → Result ℕ × Machine D
  write m id offset bytes = elim (kind_of id devices) [
    | none ↦ (err unknown_device, m)
    | some kind ↦ write_device kind m offset bytes
  ]

  unfoldable pub size : Machine D → ℕ → ℕ
  size m id =
      if id == hda_inode
      then m.total_sectors * 512 % 2 ^ 64
      else if id == fb_inode
      then size_of_fb m.framebuffer_info
      else 0

  unfoldable pub file_type : Machine D → ℕ → FileType
  file_type m id = if id == dir_inode then directory else char_device

  abbrev pub listed : DevKind → FileType
  listed block_disk = block_device
  listed _ = char_device

  abbrev pub entries : List Device → List DirEntry
  entries [] = []
  entries (d ∷ ds) =
      record { name = d.name; inode_id = d.id; file_type = listed d.kind } ∷ entries ds

  unfoldable pub lookup : ℕ → Name → Result ℕ
  lookup dir name =
      if not (dir == dir_inode)
      then err not_directory
      else (elim (id_of name devices) [ none ↦ err unknown_device | some id ↦ ok id ])

  -- The last four fail for every device.
  abbrev pub ops : FileOps (Machine D)
  ops = record {
    read = read;
    write = write;
    size = size;
    file_type = file_type;
    readdir = λ m id. (ok (entries devices), m);
    lookup = λ m dir name. (lookup dir name, m);
    create = λ m dir name. (err no_new_device, m);
    mkdir = λ m dir name. (err no_new_device, m);
    truncate = λ m id n. (err no_device_size, m);
    unlink = λ m dir name. (err no_device_removal, m);
  }

  -- Mounting the devices, made a file system of the kind of the others, at /dev.
  unfoldable pub init : {F : Type 0} → (Machine D → F) → Machine D → Vfs F → Vfs F
  init box m v = mount v (47 ∷ 100 ∷ 101 ∷ 118 ∷ []) dir_inode (box m)
