-- ===== src/Input/Ring/Laws.antt =====
-- The ring of kernel/src/interrupts/mod.rs as a queue of at most 255 bytes.
use flutter_os.Prelude.{
  ℕ, zero, suc, ◌+◌, ◌-◌, ◌%◌, ◌<◌, ◌≡◌, refl, Option, none, some, List, [], ◌∷◌, ◌++◌, length,
  length-set, ◌==◌, ==_iff, if◌then◌else◌, get_or, set, get_or-set_self, get_or-set_ne, arith, ap,
  ap₂, ◌∙◌, Bool-cases, inl, inr, true, false,
}
use flutter_os.Input.Ring.{ScancodeBuffer, new, push, pop}

pub record IsValid (b : ScancodeBuffer) : Type 0 where
  pub full : length b.buf ≡ 256
  pub head_in : b.head < 256
  pub tail_in : b.tail < 256

pub new-IsValid : IsValid new
unfolding new
new-IsValid = record { full = refl; head_in = omega arith; tail_in = omega arith }

-- Number of bytes that wait.
abbrev pub used : ScancodeBuffer → ℕ
used b = (b.head + 256 - b.tail) % 256

-- The `n` bytes from an index on, going round at 256.
abbrev pub stretch : List ℕ → ℕ → ℕ → List ℕ
stretch buf i zero = []
stretch buf i (suc n) = get_or buf i 0 ∷ stretch buf ((i + 1) % 256) n

-- The bytes that wait, oldest first.
abbrev pub contents : ScancodeBuffer → List ℕ
contents b = stretch b.buf b.tail (used b)

length-stretch : (buf : List ℕ) (i n : ℕ) → length (stretch buf i n) ≡ n
length-stretch buf i zero = refl
length-stretch buf i (suc n) = ap suc (length-stretch buf ((i + 1) % 256) n)

pub length-contents : (b : ScancodeBuffer) → length (contents b) ≡ used b
length-contents b = length-stretch b.buf b.tail (used b)

-- A byte written right behind a stretch extends it.
stretch-set :
    (buf : List ℕ) (byte n i j : ℕ)
    → length buf ≡ 256
    → i < 256
    → n < 256
    → j ≡ (i + n) % 256
    → stretch (set buf j byte) i (suc n) ≡ stretch buf i n ++ (byte ∷ [])
stretch-set buf byte zero i j full hi hn e =
    let at : j ≡ i = omega arith in rw (at, get_or-set_self buf i byte 0 (omega arith))
stretch-set buf byte (suc n) i j full hi hn e =
    ap₂ ◌∷◌ (get_or-set_ne buf j i byte 0 (omega arith))
      (stretch-set buf byte n ((i + 1) % 256) j full (omega arith) (omega arith) (omega arith))

-- `push` appends the byte, or drops it when 255 bytes wait already; the ring stays valid.
pub push_lem :
    (b : ScancodeBuffer) (byte : ℕ)
    → IsValid b
    → (contents (push b byte) ≡ (if used b == 255 then contents b else contents b ++ (byte ∷ [])))
      × IsValid (push b byte)
unfolding push
push_lem b byte v = elim (Bool-cases ((b.head + 1) % 256 == b.tail)) [
  | inl stuck ↦
      let e : (b.head + 1) % 256 ≡ b.tail = (==_iff _ _).0 stuck in
      let n : (used b == 255) ≡ true =
        (==_iff (used b) 255).1 (omega (arith, v.head_in, v.tail_in)) in
      simp (stuck, n) (refl, v)
  | inr room ↦
      let n : (used b == 255) ≡ false = ground (arith, room, v.head_in, v.tail_in) in
      let more : ((b.head + 1) % 256 + 256 - b.tail) % 256 ≡ suc (used b) =
        ground (arith, room, v.head_in, v.tail_in) in
      rw (room, n, more)
        (
          stretch-set b.buf byte (used b) b.tail b.head v.full v.tail_in (omega arith)
              (omega (arith, v.head_in, v.tail_in)),
          record {
            full = length-set b.buf b.head byte ∙ v.full;
            head_in = omega arith;
            tail_in = v.tail_in;
          },
        )
]

-- What a pop gives of the bytes that wait, and what it leaves of them.
abbrev pub Popped : List ℕ → Option ℕ → List ℕ → Type 0
Popped [] out rest = (out ≡ none) × (rest ≡ [])
Popped (x ∷ xs) out rest = (out ≡ some x) × (rest ≡ xs)

-- `pop` takes the oldest byte, or reports an empty ring and changes nothing; the ring stays valid.
pub pop_lem :
    (b : ScancodeBuffer)
    → IsValid b
    → Popped (contents b) (pop b).0 (contents (pop b).1) × IsValid (pop b).1
unfolding pop
pop_lem b v = elim (Bool-cases (b.head == b.tail)) [
  | inl empty ↦
      let e : b.head ≡ b.tail = (==_iff _ _).0 empty in
      let n : used b ≡ 0 = omega (arith, v.tail_in) in simp (empty, n) ((refl, refl), v)
  | inr some' ↦
      let n : used b ≡ suc ((b.head + 256 - (b.tail + 1) % 256) % 256) =
        ground (arith, some', v.head_in, v.tail_in) in
      rw (some', n)
        ((refl, refl), record { full = v.full; head_in = v.head_in; tail_in = omega arith })
]
