-- ===== src/Wm/Cursor.antt =====
-- wm/src/cursor.rs: the cursor's position and buttons.
pub mod Draw
use flutter_os.Prelude.{ℕ, ◌-◌, ◌/◌, ◌%◌, ◌<◌, ◌^◌, ◌≡◌, Bool, true, ◌==◌, arith}
use flutter_os.Prelude.Int.{ℤ, pos, ◌+ℤ◌, ◌-ℤ◌, ◌≤ℤ◌, ◌<ℤ◌, max_ℤ, min_ℤ, wrap32, signed32}

pub record Cursor : Type 0 where
  pub x : ℤ
  pub y : ℤ
  pub buttons : ℕ
  pub visible : Bool

unfoldable pub new : Cursor
new = record { x = pos 0; y = pos 0; buttons = 0; visible = true }

-- `(v + d).max(0).min(size as i32 - 1)`
unfoldable pub clamp : ℤ → ℤ → ℕ → ℤ
clamp v d size = min_ℤ (max_ℤ (wrap32 (v +ℤ d)) (pos 0)) (wrap32 (signed32 size -ℤ pos 1))

unfoldable pub apply_delta : Cursor → ℤ → ℤ → ℕ → ℕ → ℕ → Cursor
apply_delta c dx dy buttons fb_width fb_height = record c {
  x = clamp c.x dx fb_width;
  y = clamp c.y dy fb_height;
  buttons = buttons;
}

unfoldable pub set_position : Cursor → ℤ → ℤ → Cursor
set_position c x y = record c { x = x; y = y }

unfoldable pub left_button : Cursor → Bool
left_button c = c.buttons % 2 == 1

unfoldable pub right_button : Cursor → Bool
right_button c = c.buttons / 2 % 2 == 1

-- The last column or row of the screen.
screen_edge :
    (size : ℕ) → 0 < size → size < 2 ^ 31 → wrap32 (signed32 size -ℤ pos 1) ≡ pos (size - 1)
unfolding wrap32 ◌-ℤ◌
screen_edge size h k = ground arith

within :
    (u : ℤ) (n : ℕ)
    → (pos 0 ≤ℤ min_ℤ (max_ℤ u (pos 0)) (pos n)) × (min_ℤ (max_ℤ u (pos 0)) (pos n) ≤ℤ pos n)
unfolding max_ℤ min_ℤ
within u n = ground arith

clamp_bounds :
    (v d : ℤ) (size : ℕ)
    → 0 < size
    → size < 2 ^ 31
    → (pos 0 ≤ℤ clamp v d size) × (clamp v d size <ℤ pos size)
unfolding clamp
clamp_bounds v d size h k =
    rw (screen_edge size h k)
      (let b = within (wrap32 (v +ℤ d)) (size - 1) in (b.0, omega (arith, b.1)))

-- Whatever the motion, the cursor stays on a screen of a positive size below 2 ^ 31, and takes the
-- reported buttons.
pub apply_delta_bounds :
    (c : Cursor) (dx dy : ℤ) (buttons fb_width fb_height : ℕ)
    → 0 < fb_width
    → fb_width < 2 ^ 31
    → 0 < fb_height
    → fb_height < 2 ^ 31
    → let c' = apply_delta c dx dy buttons fb_width fb_height in
      (pos 0 ≤ℤ c'.x)
      × (c'.x <ℤ pos fb_width)
      × (pos 0 ≤ℤ c'.y)
      × (c'.y <ℤ pos fb_height)
      × (c'.buttons ≡ buttons)
unfolding apply_delta
apply_delta_bounds c dx dy buttons w h pw hw ph hh =
    ground (arith, clamp_bounds c.x dx w pw hw, clamp_bounds c.y dy h ph hh)
