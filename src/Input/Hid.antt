-- ===== src/Input/Hid.antt =====
-- kernel/src/usb/hid.rs: boot reports of USB keyboards and mice; and `scancode_to_ascii` of
-- kernel/src/lib.rs.
pub mod Laws
use flutter_os.Prelude.{
  ℕ, ◌+◌, ◌-◌, ◌%◌, Bool, ◌&&◌, Option, none, some, List, [], ◌∷◌, ◌==◌, if◌then◌else◌, get_elem?,
  leb,
}
use flutter_os.Prelude.Int.{ℤ, pos, ◌-ℤ◌}
use flutter_os.Input.Ring
use flutter_os.Input.Ring.{ScancodeBuffer}
use flutter_os.Input.Mouse.{MouseState, saturating_add}

-- The codes of the keys from HID usage 0x04 to 0x2c, in order.
abbrev pub hid_codes : List ℕ
hid_codes =
    0x1e ∷ 0x30 ∷ 0x2e ∷ 0x20 ∷ 0x12 ∷ 0x21 ∷ 0x22 ∷ 0x23 ∷ 0x17 ∷ 0x24 ∷ 0x25 ∷ 0x26 ∷ 0x32 ∷ 0x31
    ∷ 0x18 ∷ 0x19 ∷ 0x10 ∷ 0x13 ∷ 0x1f ∷ 0x14 ∷ 0x16 ∷ 0x2f ∷ 0x11 ∷ 0x2d ∷ 0x15 ∷ 0x2c ∷ 0x02
    ∷ 0x03 ∷ 0x04 ∷ 0x05 ∷ 0x06 ∷ 0x07 ∷ 0x08 ∷ 0x09 ∷ 0x0a ∷ 0x0b ∷ 0x1c ∷ 0x01 ∷ 0x0e ∷ 0x0f
    ∷ 0x39 ∷ []

-- The arrow keys, from 0x4f.
abbrev pub arrow_codes : List ℕ
arrow_codes = 0x50 ∷ 0x4d ∷ 0x4b ∷ 0x48 ∷ []

unfoldable pub hid_to_scancode : ℕ → Option ℕ
hid_to_scancode kc =
    if leb 0x04 kc && leb kc 0x2c
    then get_elem? hid_codes (kc - 0x04)
    else (if leb 0x4f kc && leb kc 0x52 then get_elem? arrow_codes (kc - 0x4f) else none)

-- One round of the loop over the keycodes of a report, and the loop.
unfoldable pub report_key : ScancodeBuffer → ℕ → ScancodeBuffer
report_key b kc =
    if kc == 0 then b else (elim (hid_to_scancode kc) [ none ↦ b | some sc ↦ Ring.push b sc ])

unfoldable pub process_keycodes : ScancodeBuffer → List ℕ → ScancodeBuffer
process_keycodes b [] = b
process_keycodes b (kc ∷ kcs) = process_keycodes (report_key b kc) kcs

-- The six keycodes; the modifiers are not read.
pub record KeyboardReport : Type 0 where
  pub modifiers : ℕ
  pub keycodes : List ℕ

unfoldable pub process_keyboard_report : ScancodeBuffer → KeyboardReport → ScancodeBuffer
process_keyboard_report b r = process_keycodes b r.keycodes

pub record MouseReport : Type 0 where
  pub buttons : ℕ
  pub dx : ℤ
  pub dy : ℤ
  pub wheel : ℤ

unfoldable pub process_mouse_report : MouseState → MouseReport → MouseState
process_mouse_report m r = record m {
  dx = saturating_add m.dx r.dx;
  dy = saturating_add m.dy (pos 0 -ℤ r.dy);
  buttons = r.buttons % 8;
}

-- The keys from scancode 0x02 to 0x1c, 0x1e to 0x29, and 0x2b to 0x35.
abbrev pub upper_row : List ℕ
upper_row =
    b'1' ∷ b'2' ∷ b'3' ∷ b'4' ∷ b'5' ∷ b'6' ∷ b'7' ∷ b'8' ∷ b'9' ∷ b'0' ∷ b'-' ∷ b'=' ∷ 0x08 ∷ 0x09
    ∷ b'q' ∷ b'w' ∷ b'e' ∷ b'r' ∷ b't' ∷ b'y' ∷ b'u' ∷ b'i' ∷ b'o' ∷ b'p' ∷ b'[' ∷ b']' ∷ 0x0a ∷ []

abbrev pub middle_row : List ℕ
middle_row = b'a' ∷ b's' ∷ b'd' ∷ b'f' ∷ b'g' ∷ b'h' ∷ b'j' ∷ b'k' ∷ b'l' ∷ b';' ∷ 0x27 ∷ 0x60 ∷ []

abbrev pub lower_row : List ℕ
lower_row = 0x5c ∷ b'z' ∷ b'x' ∷ b'c' ∷ b'v' ∷ b'b' ∷ b'n' ∷ b'm' ∷ b',' ∷ b'.' ∷ b'/' ∷ []

unfoldable pub scancode_to_ascii : ℕ → Option ℕ
scancode_to_ascii sc =
    if leb 0x02 sc && leb sc 0x1c
    then get_elem? upper_row (sc - 0x02)
    else (if leb 0x1e sc && leb sc 0x29
        then get_elem? middle_row (sc - 0x1e)
        else (if leb 0x2b sc && leb sc 0x35
            then get_elem? lower_row (sc - 0x2b)
            else (if sc == 0x39 then some b' ' else none)))
