-- ===== src/Wm/Window/ZOrder.antt =====
-- `iter_z_order` of wm/src/window.rs: the visible windows from the lowest to the highest.
pub mod Laws
use flutter_os.Prelude.{
  ℕ, ◌+◌, Bool, not, ◌&&◌, Option, none, some, List, [], ◌∷◌, ◌==◌, ltb, leb, if◌then◌else◌, length,
  get_or,
}
use flutter_os.Wm.Window.{Window, WindowList, empty}

abbrev pub is_shown : Window → Bool
is_shown w = not (w.id == 0) && w.visible

abbrev pub z_at : List Window → ℕ → ℕ
z_at ws i = (get_or ws i empty).z_order

-- The first loop: the indices of the visible windows, from index i on.
unfoldable pub shown_from : ℕ → List Window → List ℕ
shown_from i [] = []
shown_from i (w ∷ ws) = let rest = shown_from (i + 1) ws in if is_shown w then i ∷ rest else rest

-- The inner loop of the insertion sort, on the sorted prefix with its last index first.
unfoldable pub insert : (ℕ → ℕ) → ℕ → List ℕ → List ℕ
insert z key [] = key ∷ []
insert z key (x ∷ xs) =
    let rest = insert z key xs in if ltb (z key) (z x) then x ∷ rest else key ∷ x ∷ xs

-- The outer loop: the indices that are left go into the prefix.
unfoldable pub sort : (ℕ → ℕ) → List ℕ → List ℕ → List ℕ
sort z prefix [] = prefix
sort z prefix (k ∷ ks) = sort z (insert z k prefix) ks

-- The prefix in its own order, in front of other indices.
unfoldable pub in_order : List ℕ → List ℕ → List ℕ
in_order [] ys = ys
in_order (x ∷ xs) ys = in_order xs (x ∷ ys)

pub record ZOrderIter : Type 0 where
  pub windows : List Window
  pub indices : List ℕ
  pub pos : ℕ

unfoldable pub iter_z_order : WindowList → ZOrderIter
iter_z_order l = record {
  windows = l.windows;
  indices = in_order (sort (z_at l.windows) [] (shown_from 0 l.windows)) [];
  pos = 0;
}

unfoldable pub next : ZOrderIter → Option Window × ZOrderIter
next it = if leb (length it.indices) it.pos then (none, it) else (
  some (get_or it.windows (get_or it.indices it.pos 0) empty),
  record it { pos = it.pos + 1 },
)
