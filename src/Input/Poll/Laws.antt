-- ===== src/Input/Poll/Laws.antt =====
-- What `poll_next` of kernel/src/syscalls/input.rs reports, and in which order.
use flutter_os.Prelude.{
  ap, leb, ◌==◌, ◌%◌, ◌||◌, ◌&&◌, true, none, ℕ, zero, suc, ◌<◌, ◌≡◌, refl, ◌≢◌, Option, some, List,
  [], ◌∷◌, length, if◌then◌else◌, arith, Bool-cases, inl, inr, subst,
}
use mathlib.Core.Option
use flutter_os.Prelude.Int.{ℤ, pos, negsuc}
use flutter_os.Input.Event.{InputEvent}
use flutter_os.Input.Ring.{ScancodeBuffer, pop}
use flutter_os.Input.Ring.Laws.{IsValid, contents, pop_lem, Popped, length-contents}
use flutter_os.Input.Mouse.{MouseState, drain}
use flutter_os.Input.Hid.{scancode_to_ascii}
use flutter_os.Input.Poll.{
  Devices, key_event, mouse_event, poll_mouse, is_prefix, is_zero, poll, poll_next,
}

-- What is reported of the mouse: nothing if it has not moved and no button is held, and otherwise one
-- event with the movement and the buttons.
abbrev pub IsMouseReport : MouseState → Option InputEvent → Type 0
IsMouseReport m r =
    (m.dx ≡ pos 0 → m.dy ≡ pos 0 → m.buttons ≡ 0 → r ≡ none)
    × (¬ ((m.dx ≡ pos 0) × (m.dy ≡ pos 0) × (m.buttons ≡ 0))
        → r
          ≡ some (record {
            event_type = 1;
            keycode = 0;
            key_char = 0;
            key_pressed = 0;
            mouse_buttons = m.buttons;
            mouse_dx = m.dx;
            mouse_dy = m.dy;
          }))

-- What a poll makes of the scancodes that wait: the prefix bytes in front are skipped, the first
-- other byte is reported as a key, and with none the mouse is asked.
-- (224 and 225 are the prefixes; a byte of 128 or more is the release of a key.)
abbrev pub IsPolled : Devices → List ℕ → Option InputEvent × Devices → Type 0
IsPolled d [] r =
    IsMouseReport d.mouse r.0
    × (contents r.1.ring ≡ [])
    × (r.1.mouse ≡ record d.mouse { dx = pos 0; dy = pos 0 })
IsPolled d (c ∷ cs) r =
    if (c == 224) || (c == 225)
    then IsPolled d cs r
    else (r.0
        ≡ some (record {
          event_type = 0;
          keycode = c % 128;
          key_char = Option.get_or (scancode_to_ascii (c % 128)) 0;
          key_pressed = if leb 128 c then 0 else 1;
          mouse_buttons = 0;
          mouse_dx = pos 0;
          mouse_dy = pos 0;
        }))
      × (contents r.1.ring ≡ cs)
      × (r.1.mouse ≡ d.mouse)

is_zero-zero : (a : ℤ) → is_zero a ≡ true → a ≡ pos 0
is_zero-zero (pos n) e = ap pos (ground (arith, e))
is_zero-zero (negsuc n) e = absurd (ground (arith, e))

zero-is_zero : (a : ℤ) → a ≡ pos 0 → is_zero a ≡ true
zero-is_zero a e = ap is_zero e

poll_mouse-IsMouseReport : (d : Devices) → IsMouseReport d.mouse (poll_mouse d).0
unfolding poll_mouse drain
poll_mouse-IsMouseReport d = (
  λ x y b. ground (arith, zero-is_zero d.mouse.dx x, zero-is_zero d.mouse.dy y, b),
  λ moved. elim (Bool-cases (is_zero d.mouse.dx && is_zero d.mouse.dy && d.mouse.buttons == 0)) [
    | inl still ↦ absurd (
        moved (
          is_zero-zero d.mouse.dx (ground (arith, still)),
          is_zero-zero d.mouse.dy (ground (arith, still)),
          ground (arith, still),
        ))
    | inr moves ↦ ground (arith, moves)
  ],
)

pop_at :
    (b : ScancodeBuffer) (cs : List ℕ)
    → IsValid b
    → contents b ≡ cs
    → Popped cs (pop b).0 (contents (pop b).1)
pop_at b cs v e = subst (λ l. Popped l (pop b).0 (contents (pop b).1)) e (pop_lem b v).0

IsPolled-ring :
    (d : Devices) (b : ScancodeBuffer) (cs : List ℕ) (r : Option InputEvent × Devices)
    → IsPolled (record d { ring = b }) cs r
    → IsPolled d cs r
unfolding poll_mouse
IsPolled-ring d b [] r h = h
IsPolled-ring d b (c ∷ cs) r h = elim (Bool-cases (is_prefix c)) [
  | inl skip ↦ simp skip (IsPolled-ring d b cs r (simp skip at h))
  | inr key ↦ simp key (simp key at h)
]

poll_lem :
    (fuel : ℕ) (d : Devices) (cs : List ℕ)
    → IsValid d.ring
    → contents d.ring ≡ cs
    → length cs < fuel
    → (r : Option InputEvent × Devices) × (poll fuel d ≡ some r)
      × IsPolled d cs r
      × IsValid r.1.ring
unfolding poll
poll_lem zero d cs v e h = absurd (omega arith)
poll_lem (suc fuel) d [] v e h =
    let p = pop_at d.ring [] v e in
    (
      poll_mouse d,
      rw (p.0, poll),
      unfold poll_mouse drain in (poll_mouse-IsMouseReport d, e, refl),
      unfold poll_mouse in v,
    )
poll_lem (suc fuel) d (c ∷ cs) v e h =
    let p = pop_at d.ring (c ∷ cs) v e in
    let w = (pop_lem d.ring v).1 in
    let d' : Devices = record d { ring = (pop d.ring).1 } in
    elim (Bool-cases (is_prefix c)) [
      | inl skip ↦
          let (r, at, polled, ok) = poll_lem fuel d' cs w p.1 (omega arith) in
          (
            r,
            ground (arith, p.0, skip, at),
            simp skip (IsPolled-ring d (pop d.ring).1 cs r polled),
            ok,
          )
      | inr key ↦
          ((some (key_event c), d'), ground (arith, p.0, key), simp key (refl, p.1, refl), w)
    ]

-- `poll_next` always answers. The prefix bytes 0xe0 and 0xe1 at the front of the queue are skipped;
-- the first other byte is reported as a key, released if it is 128 or more, and taken off the queue,
-- the mouse left alone. When none is left, a movement or held buttons of the mouse are reported, and
-- the movement is set back to 0. The ring stays valid.
pub poll_next_lem :
    (d : Devices)
    → IsValid d.ring
    → (r : Option InputEvent × Devices) × (poll_next d ≡ some r)
      × IsPolled d (contents d.ring) r
      × IsValid r.1.ring
unfolding poll_next
poll_next_lem d v = poll_lem 256 d (contents d.ring) v refl (omega (arith, length-contents d.ring))

-- The devices after n polls with no interrupt between them, and whether each reported an event.
abbrev pub Reports : ℕ → Devices → Type 0
Reports zero d = Unit {0}
Reports (suc n) d =
    (e : InputEvent) × (d' : Devices) × (poll_next d ≡ some (some e, d')) × Reports n d'

held_poll :
    (d : Devices)
    → IsValid d.ring
    → contents d.ring ≡ []
    → d.mouse.buttons ≢ 0
    → poll_next d
      ≡ some (some (mouse_event d.mouse.dx d.mouse.dy d.mouse.buttons), (poll_mouse d).1)
unfolding poll_next poll
held_poll d v e h =
    let p = pop_at d.ring [] v e in rw (p.0, poll) (unfold poll_mouse drain in ground arith)

-- While a mouse button is held down and no key waits, every poll reports an event, however often it
-- is repeated: a loop that polls until nothing is reported does not end before the button is let go.
pub held_button-Reports :
    (n : ℕ) (d : Devices)
    → IsValid d.ring
    → contents d.ring ≡ []
    → d.mouse.buttons ≢ 0
    → Reports n d
held_button-Reports zero d v e h = tt
held_button-Reports (suc n) d v e h = (
  mouse_event d.mouse.dx d.mouse.dy d.mouse.buttons,
  (poll_mouse d).1,
  held_poll d v e h,
  held_button-Reports n (poll_mouse d).1 (unfold poll_mouse in v) (unfold poll_mouse in e)
      (unfold poll_mouse drain in h),
)
