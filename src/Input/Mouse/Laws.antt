-- ===== src/Input/Mouse/Laws.antt =====
-- Packets and resynchronisation in kernel/src/interrupts/mouse.rs.
use flutter_os.Prelude.{
  ℕ, ◌+◌, ◌%◌, ◌<◌, ◌≡◌, refl, true, false, not, ◌&&◌, List, [], ◌∷◌, length, length-set, leb, set,
  ◌==◌, arith, if_elim, if_cases, ◌∙◌,
}
use flutter_os.Prelude.Int.{ℤ, max_ℤ, min_ℤ, IsI16}
use flutter_os.Kernel.Process.{has_bit}
use flutter_os.Input.Mouse.{
  MouseState, saturating_add, x_motion, y_motion, complete_packet, on_byte,
}

pub record IsValid (m : MouseState) : Type 0 where
  pub three : length m.packet ≡ 3
  pub idx_in : m.packet_idx < 3
  pub dx_in : IsI16 m.dx
  pub dy_in : IsI16 m.dy
  pub buttons_in : m.buttons < 8

saturating-IsI16 : (a b : ℤ) → IsI16 (saturating_add a b)
unfolding saturating_add max_ℤ min_ℤ
saturating-IsI16 a b = ground arith

complete-IsValid :
    (m : MouseState) → length m.packet ≡ 3 → IsValid (record (complete_packet m) { packet_idx = 0 })
unfolding complete_packet
complete-IsValid m h = record {
  three = h;
  idx_in = omega arith;
  dx_in = saturating-IsI16 _ _;
  dy_in = saturating-IsI16 _ _;
  buttons_in = omega arith;
}

-- No byte stream makes the driver write outside its packet buffer or overflow its counters.
pub on_byte-IsValid : (m : MouseState) (byte : ℕ) → IsValid m → IsValid (on_byte m byte)
unfolding on_byte
on_byte-IsValid m byte v = if_elim IsValid (m.packet_idx == 0 && not (has_bit 3 byte)) _ _ v (
    if_cases IsValid (leb 3 (m.packet_idx + 1)) _ _
      (λ _. complete-IsValid _ (length-set m.packet m.packet_idx byte ∙ v.three))
      (λ more. record {
        three = length-set m.packet m.packet_idx byte ∙ v.three;
        idx_in = ground (arith, more);
        dx_in = v.dx_in;
        dy_in = v.dy_in;
        buttons_in = v.buttons_in;
      }))

first_byte :
    (m : MouseState) (b : ℕ)
    → m.packet_idx ≡ 0
    → has_bit 3 b ≡ true
    → on_byte m b ≡ record m { packet = set m.packet 0 b; packet_idx = 1 }
unfolding on_byte
first_byte m b at ok = rw (at, ok) refl

second_byte :
    (m : MouseState) (b : ℕ)
    → m.packet_idx ≡ 1
    → on_byte m b ≡ record m { packet = set m.packet 1 b; packet_idx = 2 }
unfolding on_byte
second_byte m b at = rw at refl

third_byte :
    (m : MouseState) (b : ℕ)
    → m.packet_idx ≡ 2
    → on_byte m b
      ≡ record (complete_packet (record m { packet = set m.packet 2 b; packet_idx = 3 })) {
        packet_idx = 0;
      }
unfolding on_byte
third_byte m b at = rw at refl

-- The buffer holds the three bytes in order.
three_bytes :
    (p : List ℕ) (b0 b1 b2 : ℕ)
    → length p ≡ 3
    → set (set (set p 0 b0) 1 b1) 2 b2 ≡ b0 ∷ b1 ∷ b2 ∷ []
three_bytes [] b0 b1 b2 h = absurd (omega (arith, h))
three_bytes (a ∷ []) b0 b1 b2 h = absurd (omega (arith, h))
three_bytes (a ∷ b ∷ []) b0 b1 b2 h = absurd (omega (arith, h))
three_bytes (a ∷ b ∷ c ∷ []) b0 b1 b2 h = refl
three_bytes (a ∷ b ∷ c ∷ d ∷ p) b0 b1 b2 h = absurd (omega (arith, h))

-- A packet whose first byte has bit 3 set, read from a packet boundary, adds its motion and sets
-- the buttons, and the driver is at a packet boundary again; any other first byte is dropped.
pub packet_lem :
    (m : MouseState) (b0 b1 b2 : ℕ)
    → IsValid m
    → m.packet_idx ≡ 0
    → let m' = on_byte (on_byte (on_byte m b0) b1) b2 in
      (has_bit 3 b0 ≡ true
        → (m'.dx ≡ saturating_add m.dx (x_motion b0 b1))
          × (m'.dy ≡ saturating_add m.dy (y_motion b0 b2))
          × (m'.buttons ≡ b0 % 8)
          × (m'.packet_idx ≡ 0))
      × (has_bit 3 b0 ≡ false → on_byte m b0 ≡ m)
packet_lem m b0 b1 b2 v at = (λ ok. whole ok, λ bad. unfold on_byte in ground (arith, bad))
  where
    whole :
        has_bit 3 b0 ≡ true
        → let m' = on_byte (on_byte (on_byte m b0) b1) b2 in
          (m'.dx ≡ saturating_add m.dx (x_motion b0 b1))
          × (m'.dy ≡ saturating_add m.dy (y_motion b0 b2))
          × (m'.buttons ≡ b0 % 8)
          × (m'.packet_idx ≡ 0)
    whole ok =
        rw
          (
            first_byte m b0 at ok,
            second_byte (record m { packet = set m.packet 0 b0; packet_idx = 1 }) b1 refl,
          )
          (rw
            (third_byte (record m { packet = set (set m.packet 0 b0) 1 b1; packet_idx = 2 }) b2
              refl)
            (unfold complete_packet in
              rw (three_bytes m.packet b0 b1 b2 v.three) (refl, refl, refl, refl)))
