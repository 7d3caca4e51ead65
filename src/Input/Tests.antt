-- ===== src/Input/Tests.antt =====
-- Runs of the input devices and of the event queue.
use flutter_os.Prelude.{
  ◌≡◌, refl, Option, some, [], ◌∷◌, ◌++◌, arith, ◌==◌, if◌then◌else◌, replicate,
}
use flutter_os.Prelude.Int.{pos, negsuc}
use flutter_os.Input.Event.{InputEvent}
use flutter_os.Input.Ring
use flutter_os.Input.Ring.{ScancodeBuffer, push, pop}
use flutter_os.Input.Ring.Laws.{used, contents, Popped, push_lem, pop_lem}
use flutter_os.Input.Mouse
use flutter_os.Input.Mouse.{MouseState, on_byte, saturating_add, x_motion, y_motion}
use flutter_os.Input.Mouse.Laws.{packet_lem, on_byte-IsValid}
use flutter_os.Input.Poll.{Devices, poll_next}
use flutter_os.Input.Poll.Laws.{IsPolled, poll_next_lem}
use flutter_os.Input.Hid.{hid_to_scancode}

-- A prefix byte and the A key wait, round the end of the buffer.
abbrev ring : ScancodeBuffer
ring = record { buf = 30 ∷ replicate 254 0 ++ (224 ∷ []); head = 1; tail = 255 }

ring-IsValid : Ring.Laws.IsValid ring
ring-IsValid = record { full = refl; head_in = omega arith; tail_in = omega arith }

push_lem_example :
    (contents (push ring 31)
      ≡ (if used ring == 255 then contents ring else contents ring ++ (31 ∷ [])))
    × Ring.Laws.IsValid (push ring 31)
push_lem_example = push_lem ring 31 ring-IsValid

abbrev mouse : MouseState
mouse = record {
  buttons = 1;
  dx = pos 32760;
  dy = negsuc 9;
  packet = 0 ∷ 0 ∷ 0 ∷ [];
  packet_idx = 0;
}

mouse-IsValid : Mouse.Laws.IsValid mouse
mouse-IsValid = record {
  three = refl;
  idx_in = omega arith;
  dx_in = omega arith;
  dy_in = omega arith;
  buttons_in = omega arith;
}

abbrev devices : Devices
devices = record { ring = ring; mouse = mouse }

poll_next_lem_example :
    (r : Option InputEvent × Devices) × (poll_next devices ≡ some r)
    × IsPolled devices (contents ring) r
    × Ring.Laws.IsValid r.1.ring
poll_next_lem_example = poll_next_lem devices ring-IsValid

abbrev no_key : ScancodeBuffer
no_key = record { buf = replicate 256 0; head = 7; tail = 7 }

no_key-IsValid : Ring.Laws.IsValid no_key
no_key-IsValid = record { full = refl; head_in = omega arith; tail_in = omega arith }

up_key : hid_to_scancode 82 ≡ some 72
unfolding hid_to_scancode
up_key = refl
