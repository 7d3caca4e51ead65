-- ===== src/Input/Mouse.antt =====
-- kernel/src/interrupts/mouse.rs: PS/2 packets are gathered byte by byte into motion and buttons.
pub mod Laws
use flutter_os.Prelude.{
  ℕ, ◌+◌, ◌-◌, ◌%◌, ◌^◌, Bool, not, ◌&&◌, List, [], ◌∷◌, ◌==◌, ltb, leb, if◌then◌else◌, get_or, set,
}
use flutter_os.Prelude.Int.{ℤ, pos, negsuc, ◌+ℤ◌, ◌-ℤ◌, max_ℤ, min_ℤ}
use flutter_os.Kernel.Process.{has_bit}

pub record MouseState : Type 0 where
  pub buttons : ℕ
  pub dx : ℤ
  pub dy : ℤ
  pub packet : List ℕ
  pub packet_idx : ℕ

unfoldable pub new : MouseState
new = record { buttons = 0; dx = pos 0; dy = pos 0; packet = 0 ∷ 0 ∷ 0 ∷ []; packet_idx = 0 }

-- `byte as i8 as i16`
abbrev pub signed8 : ℕ → ℤ
signed8 b = if ltb b 128 then pos b else negsuc (255 - b)

-- `i16::saturating_add`
unfoldable pub saturating_add : ℤ → ℤ → ℤ
saturating_add a b = min_ℤ (max_ℤ (a +ℤ b) (negsuc 32767)) (pos 32767)

-- The motion that a packet reports.
unfoldable pub x_motion : ℕ → ℕ → ℤ
x_motion status raw =
    if has_bit 6 status then (if has_bit 4 status then negsuc 255 else pos 255) else signed8 raw

unfoldable pub y_motion : ℕ → ℕ → ℤ
y_motion status raw =
    if has_bit 7 status
    then (if has_bit 5 status then pos 255 else negsuc 255)
    else pos 0 -ℤ signed8 raw

unfoldable pub complete_packet : MouseState → MouseState
complete_packet m =
    let status = get_or m.packet 0 0 in
    record m {
      dx = saturating_add m.dx (x_motion status (get_or m.packet 1 0));
      dy = saturating_add m.dy (y_motion status (get_or m.packet 2 0));
      buttons = status % 8;
    }

unfoldable pub on_byte : MouseState → ℕ → MouseState
on_byte m byte =
    if m.packet_idx == 0 && not (has_bit 3 byte)
    then m
    else (let m1 = record m {
      packet = set m.packet m.packet_idx byte;
      packet_idx = m.packet_idx + 1;
    } in
        if leb 3 m1.packet_idx then record (complete_packet m1) { packet_idx = 0 } else m1)

unfoldable pub drain : MouseState → (ℤ × ℤ × ℕ) × MouseState
drain m = ((m.dx, m.dy, m.buttons), record m { dx = pos 0; dy = pos 0 })
