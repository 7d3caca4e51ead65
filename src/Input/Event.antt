-- ===== src/Input/Event.antt =====
-- The structured events of kernel/src/syscalls/input.rs, which wm/src/syscalls.rs mirrors.
use flutter_os.Prelude.{ℕ}
use flutter_os.Prelude.Int.{ℤ}

abbrev pub event_keyboard : ℕ
event_keyboard = 0

abbrev pub event_mouse : ℕ
event_mouse = 1

pub record InputEvent : Type 0 where
  pub event_type : ℕ
  pub keycode : ℕ
  pub key_char : ℕ
  pub key_pressed : ℕ
  pub mouse_buttons : ℕ
  pub mouse_dx : ℤ
  pub mouse_dy : ℤ
