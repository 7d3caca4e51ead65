-- ===== src/Wm/Compositor/Pixels.antt =====
-- What `put_pixel` and `fill_rect` of wm/src/compositor.rs leave at each pixel of the screen.
use flutter_os.Prelude.{
  ℕ, zero, suc, ◌+◌, ◌-◌, ◌*◌, ◌%◌, ◌^◌, ◌≤◌, ◌<◌, ◌≡◌, ◌≢◌, refl, ap₂, Bool, true, false, ◌&&◌,
  ◌||◌, List, [], ◌∷◌, leb, ◌==◌, if◌then◌else◌, Bool-cases, inl, inr, arith,
}
use flutter_os.Prelude.Int.{
  ℤ, pos, negsuc, pos_part, neg_part, ◌+ℤ◌, ◌-ℤ◌, ltb_ℤ, leb_ℤ, signed32, +ℤ_parts,
}
use flutter_os.Prelude.Loops.{sweep, any, sweep-view, any_and}
use flutter_os.Prelude.Raster.{
  bytes_at, put_four, same_place, place_in, bytes_at-put_four_self, bytes_at-put_four_ne,
}
use flutter_os.Wm.Compositor.{
  Color, FramebufferInfo, buf_len, Offscreen, put_pixel, saturating_add, span, fill_rect,
}

-- The bytes of the pixel in a column and a row, and those of a color.
abbrev pub pixel : FramebufferInfo → ℕ → ℕ → Offscreen → List ℕ
pixel info i j buf = bytes_at ((j * info.width + i) * 4) buf

abbrev pub bytes_of : Color → List ℕ
bytes_of c = c.b ∷ c.g ∷ c.r ∷ 0 ∷ []

-- A screen of this size has its pixels in the off-screen buffer.
abbrev pub Fits : FramebufferInfo → Type 0
Fits info = info.width * info.height * 4 ≤ buf_len

abbrev pub same_ℤ : ℤ → ℤ → Bool
same_ℤ a b = leb_ℤ a b && leb_ℤ b a

abbrev pub between : ℤ → ℤ → ℤ → Bool
between a b x = leb_ℤ a x && ltb_ℤ x b

-- On the screen, a pixel is written at its place.
put_pixel_in :
    (info : FramebufferInfo) (x y : ℕ) (c : Color) (buf : Offscreen)
    → Fits info
    → x < info.width
    → y < info.height
    → put_pixel info (pos x) (pos y) c buf ≡ put_four ((y * info.width + x) * 4) c.b c.g c.r 0 buf
unfolding put_pixel
put_pixel_in info x y c buf fits hx hy =
    let place = place_in info.width info.height x y hx hy in
    let whole : (y * info.width + x) * 4 % 2 ^ 64 ≡ (y * info.width + x) * 4 =
      omega (arith, place, fits) in
    rw whole (ground (arith, place, fits, hx, hy))

-- Four bytes that are written at a pixel are there and change no other pixel.
pub place_lem :
    (info : FramebufferInfo) (x y v0 v1 v2 v3 i j : ℕ) (buf : Offscreen)
    → i < info.width
    → x < info.width
    → pixel info i j (put_four ((y * info.width + x) * 4) v0 v1 v2 v3 buf) ≡ (
        if same_ℤ (pos y) (pos j) && same_ℤ (pos x) (pos i)
        then v0 ∷ v1 ∷ v2 ∷ v3 ∷ []
        else pixel info i j buf)
place_lem info x y v0 v1 v2 v3 i j buf hi hx =
    let w = info.width in
    elim (Bool-cases (y * w + x == j * w + i)) [
      | inl same ↦
          let at : y * w + x ≡ j * w + i = ground (arith, same) in
          let (row, col) = same_place w x y i j hx hi at in
          let hit : (same_ℤ (pos y) (pos j) && same_ℤ (pos x) (pos i)) ≡ true =
            ground (arith, row, col) in
          rw (hit, at) (bytes_at-put_four_self ((j * w + i) * 4) v0 v1 v2 v3 buf)
      | inr other ↦
          let away : y * w + x ≢ j * w + i = λ e. ground (arith, other, e) in
          let miss : (same_ℤ (pos y) (pos j) && same_ℤ (pos x) (pos i)) ≡ false =
            elim (Bool-cases (same_ℤ (pos y) (pos j) && same_ℤ (pos x) (pos i))) [
              | inr no_hit ↦ no_hit
              | inl hit ↦
                  let row : y ≡ j = ground (arith, hit) in
                  let col : x ≡ i = ground (arith, hit) in
                  absurd (away (ap₂ (λ r s. r * w + s) row col))
            ] in
          rw miss (bytes_at-put_four_ne (y * w + x) (j * w + i) v0 v1 v2 v3 buf away)
    ]

on_screen_lem :
    (info : FramebufferInfo) (x y : ℕ) (c : Color) (i j : ℕ) (buf : Offscreen)
    → Fits info
    → i < info.width
    → j < info.height
    → x < info.width
    → y < info.height
    → pixel info i j (put_pixel info (pos x) (pos y) c buf) ≡ (
        if same_ℤ (pos y) (pos j) && same_ℤ (pos x) (pos i) then bytes_of c else pixel info i j buf)
on_screen_lem info x y c i j buf fits hi hj hx hy =
    rw (put_pixel_in info x y c buf fits hx hy) (place_lem info x y c.b c.g c.r 0 i j buf hi hx)

pub put_pixel_lem :
    (info : FramebufferInfo) (x y : ℤ) (c : Color) (i j : ℕ) (buf : Offscreen)
    → Fits info
    → i < info.width
    → j < info.height
    → pixel info i j (put_pixel info x y c buf)
      ≡ (if same_ℤ y (pos j) && same_ℤ x (pos i) then bytes_of c else pixel info i j buf)
unfolding put_pixel
put_pixel_lem info (negsuc x) y c i j buf fits hi hj =
    let off : (same_ℤ y (pos j) && same_ℤ (negsuc x) (pos i)) ≡ false = ground arith in
    rw off (ground arith)
put_pixel_lem info (pos x) (negsuc y) c i j buf fits hi hj =
    let off : (same_ℤ (negsuc y) (pos j) && same_ℤ (pos x) (pos i)) ≡ false = ground arith in
    rw off (ground arith)
put_pixel_lem info (pos x) (pos y) c i j buf fits hi hj =
    elim (Bool-cases (leb info.width x || leb info.height y)) [
      | inr on ↦
          on_screen_lem info x y c i j buf fits hi hj (ground (arith, on)) (ground (arith, on))
      | inl out ↦
          let off : (same_ℤ (pos y) (pos j) && same_ℤ (pos x) (pos i)) ≡ false =
            ground (arith, out) in
          rw (off, out) (ground arith)
    ]

span_lem : (x e : ℤ) → span x e ≡ pos_part e + neg_part x - (pos_part x + neg_part e)
unfolding ◌-ℤ◌
span_lem x e = ground arith

-- The rounds of `x..x_end` that reach a coordinate.
any-between :
    (n k : ℕ) (x e z : ℤ)
    → n ≡ span x e - k
    → any n k (λ d. same_ℤ (x +ℤ pos d) z) ≡ between (x +ℤ pos k) e z
unfolding any
any-between zero k x e z h = ground (arith, span_lem x e, +ℤ_parts x (pos k))
any-between (suc n) k x e z h =
    ground (
      arith,
      span_lem x e,
      +ℤ_parts x (pos k),
      +ℤ_parts x (pos (k + 1)),
      any-between n (k + 1) x e z,
    )

any-span : (x e z : ℤ) → any (span x e) 0 (λ d. same_ℤ (x +ℤ pos d) z) ≡ between x e z
any-span x e z =
    let rounds : span x e ≡ span x e - 0 = omega arith in
    let all = any-between (span x e) 0 x e z rounds in ground (arith, all, +ℤ_parts x (pos 0))

and_swap : (p q : Bool) → (p && q) ≡ (q && p)
and_swap p q = ground arith

-- One row of `fill_rect`.
row_lem :
    (info : FramebufferInfo) (x e y : ℤ) (c : Color) (i j : ℕ) (buf : Offscreen)
    → Fits info
    → i < info.width
    → j < info.height
    → pixel info i j (sweep (span x e) 0 (λ dx. put_pixel info (x +ℤ pos dx) y c) buf)
      ≡ (if between x e (pos i) && same_ℤ y (pos j) then bytes_of c else pixel info i j buf)
row_lem info x e y c i j buf fits hi hj =
    let row = same_ℤ y (pos j) in
    let hits = λ (d : ℕ). same_ℤ (x +ℤ pos d) (pos i) in
    let drawn =
      sweep-view (pixel info i j) (bytes_of c) (λ d. row && hits d)
        (λ d. put_pixel info (x +ℤ pos d) y c)
        (λ d s. put_pixel_lem info (x +ℤ pos d) y c i j s fits hi hj) (span x e) 0 buf in
    rw
      (
        drawn,
        any_and (span x e) 0 row hits,
        any-span x e (pos i),
        and_swap row (between x e (pos i)),
      )
      refl

-- `fill_rect` gives its color to the pixels of the screen that lie in the rectangle, whose right and
-- lower ends saturate, and to no other: for every position and size.
pub fill_rect_lem :
    (info : FramebufferInfo) (x y : ℤ) (w h : ℕ) (c : Color) (i j : ℕ) (buf : Offscreen)
    → Fits info
    → i < info.width
    → j < info.height
    → pixel info i j (fill_rect info x y w h c buf) ≡ (
        if between x (saturating_add x (signed32 w)) (pos i)
          && between y (saturating_add y (signed32 h)) (pos j)
        then bytes_of c
        else pixel info i j buf)
unfolding fill_rect
fill_rect_lem info x y w h c i j buf fits hi hj =
    let x_end = saturating_add x (signed32 w) in
    let y_end = saturating_add y (signed32 h) in
    let cols = between x x_end (pos i) in
    let hits = λ (d : ℕ). same_ℤ (y +ℤ pos d) (pos j) in
    let drawn =
      sweep-view (pixel info i j) (bytes_of c) (λ d. cols && hits d)
        (λ dy. sweep (span x x_end) 0 (λ dx. put_pixel info (x +ℤ pos dx) (y +ℤ pos dy) c))
        (λ d s. row_lem info x x_end (y +ℤ pos d) c i j s fits hi hj) (span y y_end) 0 buf in
    rw (drawn, any_and (span y y_end) 0 cols hits, any-span y y_end (pos j)) refl
