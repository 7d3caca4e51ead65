-- ===== src/Wm/Window.antt =====
-- wm/src/window.rs: windows, and the list of 16 slots. Coordinates are i32 with wrap-around.
pub mod Laws
pub mod ZOrder
pub mod Focus
pub mod Hit
use flutter_os.Prelude.{
  ℕ, ◌+◌, ◌-◌, ◌*◌, ◌%◌, ◌^◌, Bool, true, false, not, ◌&&◌, ◌||◌, Option, none, some, List, [], ◌∷◌,
  ◌++◌, take, drop, set, replicate, min, length, ◌==◌, leb, if◌then◌else◌,
}
use flutter_os.Prelude.Int.{ℤ, pos, ◌+ℤ◌, signed32, wrap32, leb_ℤ, ltb_ℤ}
use flutter_os.Prelude.Slots

abbrev pub max_windows : ℕ
max_windows = 16

abbrev pub title_bar_height : ℕ
title_bar_height = 24

abbrev pub border_width : ℕ
border_width = 2

pub record Window : Type 0 where
  pub id : ℕ
  pub x : ℤ
  pub y : ℤ
  pub width : ℕ
  pub height : ℕ
  pub z_order : ℕ
  pub visible : Bool
  pub focused : Bool
  pub draggable : Bool
  pub content_buf : ℕ
  pub content_len : ℕ
  pub title : List ℕ

unfoldable pub empty : Window
empty = record {
  id = 0;
  x = pos 0;
  y = pos 0;
  width = 0;
  height = 0;
  z_order = 0;
  visible = false;
  focused = false;
  draggable = true;
  content_buf = 0;
  content_len = 0;
  title = replicate 32 0;
}

unfoldable pub full_width : Window → ℕ
full_width w = (w.width + 2 * border_width) % 2 ^ 32

unfoldable pub full_height : Window → ℕ
full_height w = (w.height + title_bar_height + 2 * border_width) % 2 ^ 32

unfoldable pub contains_point : Window → ℤ → ℤ → Bool
contains_point w px py =
    leb_ℤ w.x px
    && ltb_ℤ px (wrap32 (w.x +ℤ signed32 (full_width w)))
    && leb_ℤ w.y py
    && ltb_ℤ py (wrap32 (w.y +ℤ signed32 (full_height w)))

unfoldable pub is_in_title_bar : Window → ℤ → ℤ → Bool
is_in_title_bar w px py =
    leb_ℤ w.x px
    && ltb_ℤ px (wrap32 (w.x +ℤ signed32 (full_width w)))
    && leb_ℤ w.y py
    && ltb_ℤ py (wrap32 (w.y +ℤ pos title_bar_height))

-- The bytes of `title` over the old ones, at most 31, and a zero behind them.
unfoldable pub set_title : List ℕ → Window → Window
set_title bytes w =
    let len = min (length bytes) 31 in
    record w { title = set (take len bytes ++ drop len w.title) len 0 }

-- The bytes up to the first zero.
unfoldable pub up_to_zero : List ℕ → List ℕ
up_to_zero [] = []
up_to_zero (b ∷ bs) = if b == 0 then [] else b ∷ up_to_zero bs

unfoldable pub title_bytes : Window → List ℕ
title_bytes w = up_to_zero w.title

pub record WindowList : Type 0 where
  pub windows : List Window
  pub count : ℕ
  pub next_id : ℕ
  pub next_z : ℕ

abbrev pub id_of : Window → ℕ
id_of w = w.id

unfoldable pub new : WindowList
new = record { windows = replicate 16 empty; count = 0; next_id = 1; next_z = 1 }

-- What a client asks for: position, size, title and content buffer.
pub record Request : Type 0 where
  pub at_x : ℤ
  pub at_y : ℤ
  pub content_width : ℕ
  pub content_height : ℕ
  pub name : List ℕ
  pub buf : ℕ
  pub len : ℕ

unfoldable pub opened : ℕ → ℕ → Request → Window
unfolding set_title
opened id z r = set_title r.name (record {
  id = id;
  x = r.at_x;
  y = r.at_y;
  width = r.content_width;
  height = r.content_height;
  z_order = z;
  visible = true;
  focused = false;
  draggable = true;
  content_buf = r.buf;
  content_len = r.len;
  title = replicate 32 0;
})

-- The next value of a u32 counter.
abbrev pub bump : ℕ → ℕ
bump n = (n + 1) % 2 ^ 32

unfoldable pub create : WindowList → Request → ℕ × WindowList
create l r = if leb max_windows l.count then (0, l) else (elim (Slots.find id_of 0 l.windows) [
  | none ↦ (0, l)
  | some _ ↦ (
    l.next_id,
    record {
      windows = Slots.update id_of 0 (λ _. opened l.next_id l.next_z r) l.windows;
      count = l.count + 1;
      next_id = bump l.next_id;
      next_z = bump l.next_z;
    },
  )
])

-- `count -= 1` on a usize of 64 bits.
unfoldable pub destroy : WindowList → ℕ → Bool × WindowList
destroy l id = elim (Slots.find id_of id l.windows) [
  | none ↦ (false, l)
  | some _ ↦ (
    true,
    record l {
      windows = Slots.update id_of id (λ _. empty) l.windows;
      count = (l.count + 2 ^ 64 - 1) % 2 ^ 64;
    },
  )
]

unfoldable pub move_window : WindowList → ℕ → ℤ → ℤ → Bool × WindowList
move_window l id x y = elim (Slots.find id_of id l.windows) [
  | none ↦ (false, l)
  | some _ ↦ (
    true,
    record l { windows = Slots.update id_of id (λ w. record w { x = x; y = y }) l.windows },
  )
]

unfoldable pub raise_to_top : WindowList → ℕ → Bool × WindowList
raise_to_top l id = elim (Slots.find id_of id l.windows) [
  | none ↦ (false, l)
  | some _ ↦ (
    true,
    record l {
      windows = Slots.update id_of id (λ w. record w { z_order = l.next_z }) l.windows;
      next_z = bump l.next_z;
    },
  )
]

unfoldable pub focus_all : ℕ → List Window → List Window
focus_all id [] = []
focus_all id (w ∷ ws) = record w { focused = w.id == id } ∷ focus_all id ws

unfoldable pub set_focus : WindowList → ℕ → WindowList
set_focus l id = record l { windows = focus_all id l.windows }

unfoldable pub first_focused : List Window → ℕ
first_focused [] = 0
first_focused (w ∷ ws) = if not (w.id == 0) && w.focused then w.id else first_focused ws

unfoldable pub focused_id : WindowList → ℕ
focused_id l = first_focused l.windows

-- A window that takes part in the hit test, and the loop with its two variables.
unfoldable pub is_hit : ℤ → ℤ → Window → Bool
is_hit px py w = not (w.id == 0 || not w.visible) && contains_point w px py

unfoldable pub hit_loop : ℤ → ℤ → ℕ → ℕ → List Window → ℕ
hit_loop px py top_z hit_id [] = hit_id
hit_loop px py top_z hit_id (w ∷ ws) =
    let better = hit_loop px py w.z_order w.id ws in
    let same = hit_loop px py top_z hit_id ws in
    if is_hit px py w && leb top_z w.z_order then better else same

unfoldable pub hit_test : WindowList → ℤ → ℤ → ℕ
hit_test l px py = hit_loop px py 0 0 l.windows

unfoldable pub get : WindowList → ℕ → Option Window
get l id = Slots.find id_of id l.windows
