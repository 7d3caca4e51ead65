-- ===== src/Fs/Dev/Keyboard.antt =====
-- Reading the keyboard: kernel/src/fs/devfs.rs over the ring of kernel/src/interrupts/mod.rs.
use flutter_os.Prelude.{ℕ, zero, suc, ◌≡◌, refl, ap, ◌∙◌, Option, List, [], ◌∷◌, Bool, take, drop}
use flutter_os.Fs.Result.{ok}
use flutter_os.Fs.Fat.Disk.{Disk}
use flutter_os.Input.Ring.{ScancodeBuffer, pop}
use flutter_os.Input.Ring.Laws.{IsValid, contents, Popped, pop_lem}
use flutter_os.Fs.Dev.{Machine, kbd_inode, taken, drain, read, read_device}

-- What `drain` leaves of a ring.
abbrev Drained : ℕ → ScancodeBuffer → List ℕ × ScancodeBuffer → Type 0
Drained n b (bytes, b') =
    (bytes ≡ take n (contents b)) × (contents b' ≡ drop n (contents b)) × IsValid b'

taken-Drained :
    (n : ℕ) (b b' : ScancodeBuffer) (sc : Option ℕ) (xs : List ℕ) (later : List ℕ × ScancodeBuffer)
    → IsValid b
    → contents b ≡ xs
    → Popped xs sc (contents b')
    → Drained n b' later
    → Drained (suc n) b (taken b sc later)
taken-Drained n b b' sc [] later v e (p, q) d = rw (p, e) (refl, refl, v)
taken-Drained n b b' sc (x ∷ xs) (rest, b'') v e (p, q) (d0, d1, d2) =
    rw (p, e) (ap (λ t. x ∷ t) (d0 ∙ ap (take n) q), d1 ∙ ap (drop n) q, d2)

drain-Drained : (n : ℕ) (b : ScancodeBuffer) → IsValid b → Drained n b (drain n b)
unfolding drain
drain-Drained zero b v = (refl, refl, v)
drain-Drained (suc n) b v =
    let (p, v') = pop_lem b v in
    taken-Drained n b (pop b).1 (pop b).0 (contents b) (drain n (pop b).1) v refl p
      (drain-Drained n (pop b).1 v')

module _ {D : Type 0} (k : Disk D) (is_utf8 : List ℕ → Bool) where
  -- A read of the keyboard takes the oldest scancodes out of the ring, as many as there are up to the
  -- length of the buffer, and leaves the others.
  pub read-keyboard :
      (m : Machine D) (offset count : ℕ)
      → IsValid m.ring
      → let (r, m') = read k is_utf8 m kbd_inode offset count in
        (r ≡ ok (take count (contents m.ring)))
        × (contents m'.ring ≡ drop count (contents m.ring))
        × IsValid m'.ring
  unfolding read read_device
  read-keyboard m offset count v = let (a, b, c) = drain-Drained count m.ring v in (ap ok a, b, c)
