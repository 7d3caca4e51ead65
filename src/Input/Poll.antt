-- ===== src/Input/Poll.antt =====
-- `poll_next` of kernel/src/syscalls/input.rs: the keyboard first, then the mouse.
-- The recursion that skips prefix bytes runs on fuel; a ring holds at most 255 bytes.
pub mod Laws
use flutter_os.Prelude.{
  ℕ, zero, suc, ◌%◌, Bool, not, ◌&&◌, ◌||◌, Option, none, some, ◌==◌, leb, if◌then◌else◌,
}
use mathlib.Core.Option
use flutter_os.Prelude.Int.{ℤ, pos, negsuc}
use flutter_os.Input.Event.{InputEvent, event_keyboard, event_mouse}
use flutter_os.Input.Ring.{ScancodeBuffer}
use flutter_os.Input.Ring
use flutter_os.Input.Mouse.{MouseState, drain}
use flutter_os.Input.Hid.{scancode_to_ascii}

pub record Devices : Type 0 where
  pub ring : ScancodeBuffer
  pub mouse : MouseState

abbrev pub is_zero : ℤ → Bool
is_zero (pos n) = n == 0
is_zero (negsuc n) = Bool.false

abbrev pub key_event : ℕ → InputEvent
key_event scancode = record {
  event_type = event_keyboard;
  keycode = scancode % 128;
  key_char = Option.get_or (scancode_to_ascii (scancode % 128)) 0;
  key_pressed = if leb 128 scancode then 0 else 1;
  mouse_buttons = 0;
  mouse_dx = pos 0;
  mouse_dy = pos 0;
}

abbrev pub mouse_event : ℤ → ℤ → ℕ → InputEvent
mouse_event dx dy buttons = record {
  event_type = event_mouse;
  keycode = 0;
  key_char = 0;
  key_pressed = 0;
  mouse_buttons = buttons;
  mouse_dx = dx;
  mouse_dy = dy;
}

-- The second half: the return value 1 with its event, or 0.
unfoldable pub poll_mouse : Devices → Option InputEvent × Devices
poll_mouse d =
    let ((dx, dy, buttons), m) = drain d.mouse in
    (
      if not (is_zero dx) || not (is_zero dy) || not (buttons == 0)
          then some (mouse_event dx dy buttons)
          else none,
      record d { mouse = m },
    )

abbrev pub is_prefix : ℕ → Bool
is_prefix scancode = scancode == 0xe0 || scancode == 0xe1

-- `none` when the fuel runs out.
unfoldable pub poll : ℕ → Devices → Option (Option InputEvent × Devices)
poll zero d = none
poll (suc fuel) d = elim (Ring.pop d.ring).0 [
  | none ↦ some (poll_mouse d)
  | some scancode ↦
      let d' : Devices = record d { ring = (Ring.pop d.ring).1 } in
      let rest = poll fuel d' in
      if is_prefix scancode then rest else some (some (key_event scancode), d')
]

unfoldable pub poll_next : Devices → Option (Option InputEvent × Devices)
poll_next d = poll 256 d
