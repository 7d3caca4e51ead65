-- ===== src/Wm/Window/Focus.antt =====
-- Focus, moving and raising in wm/src/window.rs.
use flutter_os.Prelude.{
  ℕ, ◌+◌, ◌^◌, ◌≤◌, ◌<◌, ◌≡◌, refl, ◌≢◌, inl, inr, Bool, none, some, List, [], ◌∷◌, length, ◌==◌,
  arith, Bool-cases, Option-cases, ==_iff, ◌∙◌,
}
use mathlib.Core.Option
use flutter_os.Prelude.Int.{ℤ}
use flutter_os.Prelude.Slots
use flutter_os.Prelude.Slots.{Below, Absent, Distinct, live}
use flutter_os.Wm.Window.{
  Window, WindowList, id_of, set_focus, focus_all, focused_id, first_focused, get, move_window,
  raise_to_top, bump,
}
use flutter_os.Wm.Window.Laws.{IsValid, ZBelow, ZBelow-update, ZBelow-mono}

abbrev pub refocused : Bool → Window → Window
refocused b w = record w { focused = b }

find-focus :
    (id j : ℕ) (ws : List Window)
    → Slots.find id_of j (focus_all id ws)
      ≡ Option.map (refocused (j == id)) (Slots.find id_of j ws)
unfolding focus_all Slots.find
find-focus id j [] = refl
find-focus id j (w ∷ ws) = elim (Bool-cases (w.id == j)) [
  | inl hit ↦ let at : w.id ≡ j = (==_iff w.id j).0 hit in rw (hit, ← at) refl
  | inr miss ↦ rw miss (find-focus id j ws)
]

first-focus :
    (id : ℕ) (ws : List Window)
    → id ≢ 0
    → first_focused (focus_all id ws) ≡ (elim (Slots.find id_of id ws) [ none ↦ 0 | some _ ↦ id ])
unfolding first_focused focus_all Slots.find
first-focus id [] h = refl
first-focus id (w ∷ ws) h = ground (arith, first-focus id ws h)

first-focus_zero : (ws : List Window) → first_focused (focus_all 0 ws) ≡ 0
unfolding first_focused focus_all
first-focus_zero [] = refl
first-focus_zero (w ∷ ws) = ground (arith, first-focus_zero ws)

-- Setting the focus gives it to the window of that id alone: that window is then the focused one
-- if it is open, no window is if it is not or if the id is 0, and each window changes in its focus
-- flag only.
pub set_focus_lem :
    (l : WindowList) (id : ℕ)
    → ((id ≢ 0) → focused_id (set_focus l id) ≡ (elim (get l id) [ none ↦ 0 | some _ ↦ id ]))
      × (focused_id (set_focus l 0) ≡ 0)
      × ((j : ℕ) → get (set_focus l id) j ≡ Option.map (refocused (j == id)) (get l j))
unfolding focused_id set_focus get
set_focus_lem l id =
    (λ h. first-focus id l.windows h, first-focus_zero l.windows, λ j. find-focus id j l.windows)

focus_length : (id : ℕ) (ws : List Window) → length (focus_all id ws) ≡ length ws
unfolding focus_all
focus_length id [] = refl
focus_length id (w ∷ ws) = omega (arith, focus_length id ws)

focus_live : (id : ℕ) (ws : List Window) → live id_of (focus_all id ws) ≡ live id_of ws
unfolding focus_all live
focus_live id [] = refl
focus_live id (w ∷ ws) = ground (arith, focus_live id ws)

focus-Below : (n id : ℕ) (ws : List Window) → Below id_of n ws → Below id_of n (focus_all id ws)
unfolding focus_all
focus-Below n id [] b = tt
focus-Below n id (w ∷ ws) b = (b.0, focus-Below n id ws b.1)

focus-Absent : (n id : ℕ) (ws : List Window) → Absent id_of n ws → Absent id_of n (focus_all id ws)
unfolding focus_all
focus-Absent n id [] b = tt
focus-Absent n id (w ∷ ws) b = (b.0, focus-Absent n id ws b.1)

focus-Distinct : (id : ℕ) (ws : List Window) → Distinct id_of ws → Distinct id_of (focus_all id ws)
unfolding focus_all
focus-Distinct id [] d = tt
focus-Distinct id (w ∷ ws) d = ground (arith, focus-Distinct id ws d.1, focus-Absent w.id id ws)

focus_z : (n id : ℕ) (ws : List Window) → ZBelow n ws → ZBelow n (focus_all id ws)
unfolding focus_all
focus_z n id [] b = tt
focus_z n id (w ∷ ws) b = (b.0, focus_z n id ws b.1)

pub set_focus-IsValid : (l : WindowList) (id : ℕ) → IsValid l → IsValid (set_focus l id)
unfolding set_focus
set_focus-IsValid l id v = record {
  full = focus_length id l.windows ∙ v.full;
  counted = omega (arith, focus_live id l.windows, v.counted);
  fresh_id = v.fresh_id;
  fresh_z = v.fresh_z;
  below = focus-Below l.next_id id l.windows v.below;
  distinct = focus-Distinct id l.windows v.distinct;
  z_below = focus_z l.next_z id l.windows v.z_below;
}

-- A change in place that keeps the id.
update-IsValid :
    (l : WindowList) (id n : ℕ) (f : Window → Window) (w : Window)
    → IsValid l
    → Slots.find id_of id l.windows ≡ some w
    → ((u : Window) → (f u).id ≡ u.id)
    → l.next_z ≤ n
    → ((u : Window) → u.z_order < n → (f u).z_order < n)
    → IsValid (record l { windows = Slots.update id_of id f l.windows; next_z = n })
update-IsValid l id n f w v e same le zs = record {
  full = Slots.length-update id_of id f l.windows ∙ v.full;
  counted = ground (arith, Slots.live-update id_of id f l.windows w e, same w, v.counted);
  fresh_id = v.fresh_id;
  fresh_z = omega (arith, v.fresh_z);
  below =
      Slots.Below-update id_of l.next_id id f l.windows w e
        (rw (same w, Slots.find-key id_of id l.windows w e)
          (Slots.find-Below id_of l.next_id id l.windows w e v.below))
        v.below;
  distinct =
      Slots.Distinct-update_key id_of id f l.windows w e
        (same w ∙ Slots.find-key id_of id l.windows w e) v.distinct;
  z_below = ZBelow-update n id f l.windows zs (ZBelow-mono l.next_z n l.windows le v.z_below);
}

pub move_window-IsValid :
    (l : WindowList) (id : ℕ) (x y : ℤ) → IsValid l → IsValid (move_window l id x y).1
unfolding move_window
move_window-IsValid l id x y v = elim (Option-cases (Slots.find id_of id l.windows)) [
  | inl gone ↦ rw (gone, move_window) v
  | inr (w, e) ↦
      rw (e, move_window)
        (update-IsValid l id l.next_z (λ u. record u { x = x; y = y }) w v e (λ u. refl)
          (omega arith) (λ u h. h))
]

pub raise_to_top-IsValid :
    (l : WindowList) (id : ℕ) → IsValid l → l.next_z + 1 < 2 ^ 32 → IsValid (raise_to_top l id).1
unfolding raise_to_top
raise_to_top-IsValid l id v nowrap = elim (Option-cases (Slots.find id_of id l.windows)) [
  | inl gone ↦ rw (gone, raise_to_top) v
  | inr (w, e) ↦
      rw (e, raise_to_top)
        (update-IsValid l id (bump l.next_z) (λ u. record u { z_order = l.next_z }) w v e
          (λ u. refl) (omega arith) (λ u h. omega arith))
]

first-raise :
    (id n : ℕ) (ws : List Window)
    → first_focused (Slots.update id_of id (λ u. record u { z_order = n }) ws) ≡ first_focused ws
unfolding first_focused Slots.update
first-raise id n [] = refl
first-raise id n (w ∷ ws) = ground (arith, first-raise id n ws)

-- Raising a window leaves the focus alone.
pub focused_id-raise : (l : WindowList) (id : ℕ) → focused_id (raise_to_top l id).1 ≡ focused_id l
unfolding focused_id raise_to_top
focused_id-raise l id = elim (Option-cases (Slots.find id_of id l.windows)) [
  | inl gone ↦ rw (gone, raise_to_top)
  | inr (w, e) ↦ rw (e, raise_to_top) (first-raise id l.next_z l.windows)
]
