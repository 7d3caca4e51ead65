-- ===== src/Input/Ring.antt =====
-- `ScancodeBuffer` of kernel/src/interrupts/mod.rs: a ring of 256 bytes between the keyboard
-- interrupt and the readers.
pub mod Laws
use flutter_os.Prelude.{
  ℕ, ◌+◌, ◌%◌, Option, none, some, List, ◌==◌, if◌then◌else◌, get_or, set, replicate,
}

pub record ScancodeBuffer : Type 0 where
  pub buf : List ℕ
  pub head : ℕ
  pub tail : ℕ

unfoldable pub new : ScancodeBuffer
new = record { buf = replicate 256 0; head = 0; tail = 0 }

unfoldable pub push : ScancodeBuffer → ℕ → ScancodeBuffer
push b byte =
    let next = (b.head + 1) % 256 in
    if next == b.tail then b else record b { buf = set b.buf b.head byte; head = next }

unfoldable pub pop : ScancodeBuffer → Option ℕ × ScancodeBuffer
pop b =
    if b.head == b.tail
    then (none, b)
    else (some (get_or b.buf b.tail 0), record b { tail = (b.tail + 1) % 256 })
