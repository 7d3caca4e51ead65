-- ===== src/Prelude/Raster.antt =====
-- Pixels of a fixed number of bytes in a buffer, and the places of the pixels of a row-major grid.
use Prim.Native.Nat.{ℕ, ◌+◌, ◌*◌, ◌<◌}
use mathlib.Core.Path.{◌≡◌, ap}
use mathlib.Core.Logic.{◌≢◌, inl, inr}
use mathlib.Core.List.{List, [], ◌∷◌}
use native.Mathlib.Omega.{arith}
use flutter_os.Prelude.Tests.{ltb, ◌==◌, if◌then◌else◌, Bool-cases}

-- `buf[a] = v`
abbrev pub put : ℕ → ℕ → (ℕ → ℕ) → ℕ → ℕ
put a v buf b = if a == b then v else buf b

-- The four bytes from an offset on, and the same written.
abbrev pub bytes_at : ℕ → (ℕ → ℕ) → List ℕ
bytes_at o buf = buf o ∷ buf (o + 1) ∷ buf (o + 2) ∷ buf (o + 3) ∷ []

abbrev pub put_four : ℕ → ℕ → ℕ → ℕ → ℕ → (ℕ → ℕ) → ℕ → ℕ
put_four o a b c d buf = put (o + 3) d (put (o + 2) c (put (o + 1) b (put o a buf)))

row_below : (w x y j : ℕ) → x < w → y < j → y * w + x < j * w
row_below w x y j hx h = grind arith

-- Places of a row-major grid differ in the row or the column.
pub same_place : (w x y i j : ℕ) → x < w → i < w → y * w + x ≡ j * w + i → (y ≡ j) × (x ≡ i)
same_place w x y i j hx hi e = elim (Bool-cases (ltb y j)) [
  | inl below ↦
      let far = row_below w x y j hx (ground (arith, below)) in absurd (omega (arith, far, e))
  | inr above ↦ elim (Bool-cases (ltb j y)) [
    | inl below ↦
        let far = row_below w i j y hi (ground (arith, below)) in absurd (omega (arith, far, e))
    | inr same ↦
        let row : y ≡ j = ground (arith, above, same) in
        let at : y * w ≡ j * w = ap (λ r. r * w) row in (row, omega (arith, e, at))
  ]
]

pub place_in : (w h x y : ℕ) → x < w → y < h → y * w + x < w * h
place_in w h x y hx hy = grind arith

pub bytes_at-put_four_self :
    (o a b c d : ℕ) (buf : ℕ → ℕ) → bytes_at o (put_four o a b c d buf) ≡ a ∷ b ∷ c ∷ d ∷ []
bytes_at-put_four_self o a b c d buf = ground arith

pub bytes_at-put_four_ne :
    (o o' a b c d : ℕ) (buf : ℕ → ℕ)
    → o ≢ o'
    → bytes_at (o' * 4) (put_four (o * 4) a b c d buf) ≡ bytes_at (o' * 4) buf
bytes_at-put_four_ne o o' a b c d buf h = ground arith
