-- ===== src/Flutter/Input.antt =====
-- Input events for the embedder: flutter_adapter/src/input.rs. What the system calls `read` and
-- `clock_gettime` answer is an argument. Positions, which the code holds in f64, are whole numbers, exact
-- there below 2 ^ 53.
pub mod Laws
use flutter_os.Prelude.{
  ℕ, zero, suc, ◌+◌, ◌-◌, ◌*◌, ◌/◌, ◌%◌, ◌^◌, Bool, true, false, ◌||◌, ◌&&◌, not, Option, none,
  some, List, [], ◌∷◌, ◌++◌, ltb, leb, ◌==◌, if◌then◌else◌, length, get_elem?,
}
use flutter_os.Prelude.Int.{ℤ, pos, negsuc}

pub data PointerPhase : Type 0 where
  cancel add hover down up remove : PointerPhase

pub data KeyPhase : Type 0 where
  down up repeat : KeyPhase

pub record FlutterPointerEvent : Type 0 where
  pub phase : PointerPhase
  pub x : ℕ
  pub y : ℕ
  pub timestamp : ℕ

pub record FlutterKeyEvent : Type 0 where
  pub phase : KeyPhase
  pub keycode : ℕ
  pub keychar : ℕ
  pub timestamp : ℕ

pub data InputEvent : Type 0 where
  pointer : FlutterPointerEvent → InputEvent
  key : FlutterKeyEvent → InputEvent

abbrev pub max_events : ℕ
max_events = 32

-- The events that an EventList holds, oldest first.
abbrev pub EventList : Type 0
EventList = List InputEvent

unfoldable pub push : EventList → InputEvent → EventList
push es e = if ltb (length es) max_events then es ++ (e ∷ []) else es

pub record InputAdapter : Type 0 where
  pub cursor_x : ℕ
  pub cursor_y : ℕ

abbrev pub new : InputAdapter
new = record { cursor_x = 0; cursor_y = 0 }

-- `init` reads a byte: whether the answer is accepted, or the error.
abbrev pub enosys : ℤ
enosys = negsuc 37

abbrev is_enosys : ℕ → Bool
is_enosys n = n == 37

unfoldable pub init : ℤ → Option ℤ
init (pos n) = none
init (negsuc n) = if is_enosys n then none else some (negsuc n)

-- The rows of the keyboard: the digits, and the three rows of letters.
abbrev digit_row : List ℕ
digit_row = 49 ∷ 50 ∷ 51 ∷ 52 ∷ 53 ∷ 54 ∷ 55 ∷ 56 ∷ 57 ∷ 48 ∷ 45 ∷ 61 ∷ []

abbrev upper_row : List ℕ
upper_row = 113 ∷ 119 ∷ 101 ∷ 114 ∷ 116 ∷ 121 ∷ 117 ∷ 105 ∷ 111 ∷ 112 ∷ 91 ∷ 93 ∷ []

abbrev middle_row : List ℕ
middle_row = 97 ∷ 115 ∷ 100 ∷ 102 ∷ 103 ∷ 104 ∷ 106 ∷ 107 ∷ 108 ∷ 59 ∷ 39 ∷ 96 ∷ []

abbrev lower_row : List ℕ
lower_row = 92 ∷ 122 ∷ 120 ∷ 99 ∷ 118 ∷ 98 ∷ 110 ∷ 109 ∷ 44 ∷ 46 ∷ 47 ∷ []

abbrev between : ℕ → ℕ → ℕ → Bool
between lo hi sc = leb lo sc && leb sc hi

unfoldable pub scancode_to_char : ℕ → Option ℕ
scancode_to_char sc =
    if between 2 13 sc
    then get_elem? digit_row (sc - 2)
    else if between 16 27 sc
    then get_elem? upper_row (sc - 16)
    else if between 30 41 sc
    then get_elem? middle_row (sc - 30)
    else if between 43 53 sc
    then get_elem? lower_row (sc - 43)
    else if sc == 57
    then some 32
    else if sc == 28
    then some 10
    else none

-- The answer of `clock_gettime` in microseconds.
unfoldable pub get_timestamp : ℤ → ℕ → ℕ → ℕ
get_timestamp (negsuc e) sec nsec = 0
get_timestamp (pos r) sec nsec = (sec * 1000000 + nsec / 1000) % 2 ^ 64

abbrev char_or_zero : Option ℕ → ℕ
char_or_zero none = 0
char_or_zero (some c) = c

-- The key event of a byte, whose bit 7 is set at a release.
unfoldable pub key_event : ℕ → ℕ → InputEvent
key_event sc stamp = key (record {
  phase = if leb 128 (sc % 256) then up else down;
  keycode = sc % 128;
  keychar = char_or_zero (scancode_to_char (sc % 128));
  timestamp = stamp;
})

abbrev pointer_event : PointerPhase → InputAdapter → ℕ → InputEvent
pointer_event phase a stamp =
    pointer (record { phase = phase; x = a.cursor_x; y = a.cursor_y; timestamp = stamp })

-- The pointer event that a press of an arrow key or of Enter makes, and the cursor behind it.
unfoldable pub pointer_for : ℕ → ℕ → InputAdapter → Option InputEvent × InputAdapter
pointer_for sc stamp a =
    let left = record a { cursor_x = a.cursor_x - 5 } in
    let right = record a { cursor_x = a.cursor_x + 5 } in
    let above = record a { cursor_y = a.cursor_y - 5 } in
    let below = record a { cursor_y = a.cursor_y + 5 } in
    if sc == 75
    then (some (pointer_event hover left stamp), left)
    else if sc == 77
    then (some (pointer_event hover right stamp), right)
    else if sc == 72
    then (some (pointer_event hover above stamp), above)
    else if sc == 80
    then (some (pointer_event hover below stamp), below)
    else if sc == 28
    then (some (pointer_event down a stamp), a)
    else (none, a)

abbrev push_option : EventList → Option InputEvent → EventList
push_option es none = es
push_option es (some e) = push es e

-- The body of the loop of `poll`: a prefix of an extended key is passed over.
unfoldable pub poll_byte : ℕ → ℕ → EventList × InputAdapter → EventList × InputAdapter
poll_byte sc stamp (es, a) =
    let keyed = push es (key_event sc stamp) in
    let (made, a') = pointer_for sc stamp a in
    if (sc == 224) || (sc == 225)
    then (es, a)
    else if leb 128 sc
    then (keyed, a)
    else (push_option keyed made, a')

-- The loop over the bytes that were read, at most 64, each with the time at which it is handled.
unfoldable pub poll_from : List (ℕ × ℕ) → EventList × InputAdapter → EventList × InputAdapter
poll_from [] s = s
poll_from ((sc, stamp) ∷ bytes) s = poll_from bytes (poll_byte sc stamp s)

-- Nothing read, or an error, makes no event.
unfoldable pub poll : List (ℕ × ℕ) → InputAdapter → EventList × InputAdapter
poll bytes a = poll_from bytes ([], a)
