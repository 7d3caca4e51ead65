-- ===== src/Fs/Dev/Tests.antt =====
-- The device files at concrete inputs: a disk of four sectors whose bytes count up from each address,
-- two scancodes that wait, and a framebuffer of 16 bytes at address 100.
use flutter_os.Prelude.{
  ℕ, ◌*◌, ◌%◌, ◌≡◌, refl, Bool, true, ltb, if◌then◌else◌, none, some, List, [], ◌∷◌, take, drop,
  arith,
}
use flutter_os.Fs.Result.{ok, err, unaligned_write, unknown_device}
use flutter_os.Fs.Fat.Disk.{Disk}
use flutter_os.Input.Ring as Ring
use flutter_os.Input.Ring.{ScancodeBuffer}
use flutter_os.Input.Ring.Laws.{IsValid, contents, new-IsValid, push_lem}
use flutter_os.Fs.Dev.{Machine, bytes_from, hda_inode, kbd_inode, read, write, write_device, lookup}
use flutter_os.Fs.Dev.Laws.{read-hda}
use flutter_os.Fs.Dev.Keyboard.{read-keyboard}

abbrev content : ℕ → ℕ
content a = a % 251

abbrev disk : Disk (Unit {0})
disk = record {
  read_sectors = λ d lba n. if ltb lba 4 then some (bytes_from content (lba * 512) n) else none;
  write_sectors = λ d lba bytes. none;
}

abbrev all_utf8 : List ℕ → Bool
all_utf8 bytes = true

abbrev machine : Machine (Unit {0})
machine = record {
  disk = tt;
  total_sectors = 4;
  ring = Ring.new;
  output = [];
  memory = λ a. 0;
  framebuffer_info = some (100, 16);
}

-- A read across the end of the first sector.
read-hda_example :
    read disk all_utf8 machine hda_inode 510 4 ≡ (ok (bytes_from content 510 4), machine)
read-hda_example =
    read-hda disk all_utf8 content 4 machine 510 4 (λ lba h. ground (arith, h)) (omega arith)
      (omega arith)

abbrev pressed : Machine (Unit {0})
pressed = record machine { ring = Ring.push (Ring.push Ring.new 30) 158 }

pressed-IsValid : IsValid pressed.ring
pressed-IsValid = (push_lem (Ring.push Ring.new 30) 158 (push_lem Ring.new 30 new-IsValid).1).1

read-keyboard_example :
    let (r, m') = read disk all_utf8 pressed kbd_inode 0 1 in
    (r ≡ ok (take 1 (contents pressed.ring)))
    × (contents m'.ring ≡ drop 1 (contents pressed.ring))
    × IsValid m'.ring
read-keyboard_example = read-keyboard disk all_utf8 pressed 0 1 pressed-IsValid

missing : read disk all_utf8 machine 9 0 4 ≡ (err unknown_device, machine)
unfolding read
missing = refl

unaligned : write disk all_utf8 machine hda_inode 100 (1 ∷ []) ≡ (err unaligned_write, machine)
unfolding write write_device
unaligned = refl

found : lookup disk all_utf8 1 (107 ∷ 98 ∷ 100 ∷ []) ≡ ok kbd_inode
unfolding lookup
found = refl
