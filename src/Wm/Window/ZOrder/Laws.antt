-- ===== src/Wm/Window/ZOrder/Laws.antt =====
-- The drawing order of wm/src/window.rs is sorted and complete.
use flutter_os.Prelude.{
  ℕ, zero, suc, ◌+◌, ◌≤◌, ◌<◌, ◌≡◌, refl, List, [], ◌∷◌, ◌==◌, ltb, if◌then◌else◌, get_or, arith,
  max, Bool-cases, inl, inr,
}
use flutter_os.Wm.Window.{Window, WindowList, empty}
use flutter_os.Wm.Window.ZOrder.{is_shown, z_at, shown_from, insert, sort, in_order, iter_z_order}

-- The z values rise along the indices, from a bound on.
abbrev pub Rising : (ℕ → ℕ) → ℕ → List ℕ → Type 0
Rising z low [] = Unit {0}
Rising z low (x ∷ xs) = (low ≤ z x) × Rising z (z x) xs

abbrev Falling : (ℕ → ℕ) → ℕ → List ℕ → Type 0
Falling z high [] = Unit {0}
Falling z high (x ∷ xs) = (z x ≤ high) × Falling z (z x) xs

Rising-mono :
    (z : ℕ → ℕ) (low low' : ℕ) (xs : List ℕ) → low' ≤ low → Rising z low xs → Rising z low' xs
Rising-mono z low low' [] h r = tt
Rising-mono z low low' (x ∷ xs) h r = (omega (arith, r.0), r.1)

insert-Falling :
    (z : ℕ → ℕ) (high key : ℕ) (xs : List ℕ)
    → z key ≤ high
    → Falling z high xs
    → Falling z high (insert z key xs)
unfolding insert
insert-Falling z high key [] h f = (h, tt)
insert-Falling z high key (x ∷ xs) h f = elim (Bool-cases (ltb (z key) (z x))) [
  | inl before ↦ rw before (f.0, insert-Falling z (z x) key xs (ground (arith, before)) f.1)
  | inr behind ↦ rw behind (h, (ground (arith, behind), f.1))
]

sort-Falling :
    (z : ℕ → ℕ) (high : ℕ) (prefix ks : List ℕ)
    → ((k : ℕ) → z k ≤ high)
    → Falling z high prefix
    → Falling z high (sort z prefix ks)
unfolding sort
sort-Falling z high prefix [] h f = f
sort-Falling z high prefix (k ∷ ks) h f =
    sort-Falling z high (insert z k prefix) ks h (insert-Falling z high k prefix (h k) f)

in_order-Rising :
    (z : ℕ → ℕ) (high : ℕ) (xs ys : List ℕ)
    → Falling z high xs
    → Rising z high ys
    → Rising z 0 (in_order xs ys)
unfolding in_order
in_order-Rising z high [] ys f r = Rising-mono z high 0 ys (omega arith) r
in_order-Rising z high (x ∷ xs) ys f r =
    in_order-Rising z (z x) xs (x ∷ ys) f.1 (omega arith, Rising-mono z high (z x) ys f.0 r)

-- How often an index occurs.
abbrev pub times : ℕ → List ℕ → ℕ
times j [] = 0
times j (x ∷ xs) = if x == j then suc (times j xs) else times j xs

times-insert :
    (z : ℕ → ℕ) (j key : ℕ) (xs : List ℕ) → times j (insert z key xs) ≡ times j (key ∷ xs)
unfolding insert
times-insert z j key [] = refl
times-insert z j key (x ∷ xs) = ground (arith, times-insert z j key xs)

times-sort :
    (z : ℕ → ℕ) (j : ℕ) (prefix ks : List ℕ)
    → times j (sort z prefix ks) ≡ times j prefix + times j ks
unfolding sort
times-sort z j prefix [] = omega arith
times-sort z j prefix (k ∷ ks) =
    ground (arith, times-sort z j (insert z k prefix) ks, times-insert z j k prefix)

times-in_order : (j : ℕ) (xs ys : List ℕ) → times j (in_order xs ys) ≡ times j xs + times j ys
unfolding in_order
times-in_order j [] ys = omega arith
times-in_order j (x ∷ xs) ys = ground (arith, times-in_order j xs (x ∷ ys))

shown_below : (i j : ℕ) (ws : List Window) → j < i → times j (shown_from i ws) ≡ 0
unfolding shown_from
shown_below i j [] h = refl
shown_below i j (w ∷ ws) h = ground (arith, shown_below (i + 1) j ws)

times-shown :
    (i j d : ℕ) (ws : List Window)
    → j ≡ i + d
    → times j (shown_from i ws) ≡ (if is_shown (get_or ws d empty) then 1 else 0)
unfolding shown_from empty
times-shown i j d [] h = refl
times-shown i j zero (w ∷ ws) h = ground (arith, shown_below (i + 1) j ws)
times-shown i j (suc d) (w ∷ ws) h = ground (arith, times-shown (i + 1) j d ws (omega arith))

abbrev highest : List Window → ℕ
highest [] = 0
highest (w ∷ ws) = max w.z_order (highest ws)

z_at-highest : (ws : List Window) (i : ℕ) → z_at ws i ≤ highest ws
unfolding empty
z_at-highest [] i = omega arith
z_at-highest (w ∷ ws) zero = omega arith
z_at-highest (w ∷ ws) (suc i) = omega (arith, z_at-highest ws i)

-- The iterator goes through exactly the slots of the visible windows, each once, and their z values
-- rise.
pub iter_z_order_lem :
    (l : WindowList)
    → Rising (z_at l.windows) 0 (iter_z_order l).indices
      × ((j : ℕ)
          → times j (iter_z_order l).indices
            ≡ (if is_shown (get_or l.windows j empty) then 1 else 0))
unfolding iter_z_order
iter_z_order_lem l =
    let ws = l.windows in
    let z = z_at ws in
    let sorted = sort z [] (shown_from 0 ws) in
    (
      in_order-Rising z (highest ws) sorted []
          (sort-Falling z (highest ws) [] (shown_from 0 ws) (z_at-highest ws) tt) tt,
      λ j. omega (
        arith,
        times-in_order j sorted [],
        times-sort z j [] (shown_from 0 ws),
        times-shown 0 j j ws (omega arith),
      ),
    )
