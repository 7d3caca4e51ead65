-- ===== src/Wm/Window/Laws.antt =====
-- The invariant of the window list of wm/src/window.rs, and what creating, destroying and moving
-- windows do to it.
use flutter_os.Prelude.{
  false, ◌++◌, min, take, replicate, set-padded, ap, ℕ, ◌+◌, ◌-◌, ◌%◌, ◌^◌, ◌≤◌, ◌<◌, ◌≡◌, refl,
  ◌≢◌, inl, inr, true, none, some, List, [], ◌∷◌, length, ◌==◌, ==_iff, if◌then◌else◌, arith,
  Bool-cases, ◌∙◌, subst,
}
use flutter_os.Prelude.Slots
use flutter_os.Prelude.Slots.{Below, Absent, Distinct, live}
use flutter_os.Wm.Window.{
  Window, WindowList, Request, id_of, empty, new, opened, set_title, create, destroy, get, bump,
}

-- A window as `create` opens it: where and as large as it is asked for, visible, not focused, and
-- with its title cut to 31 bytes and ended by a zero.
abbrev pub asked_for : ℕ → ℕ → Request → Window
asked_for id z r = record {
  id = id;
  x = r.at_x;
  y = r.at_y;
  width = r.content_width;
  height = r.content_height;
  z_order = z;
  visible = true;
  focused = false;
  draggable = true;
  content_buf = r.buf;
  content_len = r.len;
  title = take 31 r.name ++ replicate (32 - min (length r.name) 31) 0;
}

opened-asked_for : (id z : ℕ) (r : Request) → opened id z r ≡ asked_for id z r
unfolding opened set_title
opened-asked_for id z r = ap (λ n. record (asked_for id z r) { title = n }) (set-padded 31 r.name 0)

-- Every window lies below the next z value.
abbrev pub ZBelow : ℕ → List Window → Type 0
ZBelow n [] = Unit {0}
ZBelow n (w ∷ ws) = (w.z_order < n) × ZBelow n ws

pub record IsValid (l : WindowList) : Type 0 where
  pub full : length l.windows ≡ 16
  pub counted : l.count ≡ live id_of l.windows
  pub fresh_id : 0 < l.next_id
  pub fresh_z : 0 < l.next_z
  pub below : Below id_of l.next_id l.windows
  pub distinct : Distinct id_of l.windows
  pub z_below : ZBelow l.next_z l.windows

pub new-IsValid : IsValid new
unfolding new
new-IsValid = record {
  full = refl;
  counted = unfold live empty in refl;
  fresh_id = omega arith;
  fresh_z = omega arith;
  below = unfold empty in omega arith;
  distinct = unfold empty in omega arith;
  z_below = unfold empty in omega arith;
}

pub ZBelow-update :
    (n k : ℕ) (f : Window → Window) (ws : List Window)
    → ((w : Window) → w.z_order < n → (f w).z_order < n)
    → ZBelow n ws
    → ZBelow n (Slots.update id_of k f ws)
unfolding Slots.update
ZBelow-update n k f [] h b = tt
ZBelow-update n k f (w ∷ ws) h b = ground (arith, h w, ZBelow-update n k f ws h b.1)

pub ZBelow-mono : (m n : ℕ) (ws : List Window) → m ≤ n → ZBelow m ws → ZBelow n ws
ZBelow-mono m n [] h b = tt
ZBelow-mono m n (w ∷ ws) h b = (omega arith, ZBelow-mono m n ws h b.1)

opened-id : (id z : ℕ) (r : Request) → (opened id z r).id ≡ id
unfolding opened
opened-id id z r = refl

opened-z : (id z : ℕ) (r : Request) → (opened id z r).z_order ≡ z
unfolding opened
opened-z id z r = refl

module _ (l : WindowList) (r : Request) (v : IsValid l) (ids : l.next_id + 1 < 2 ^ 32)
    (zs : l.next_z + 1 < 2 ^ 32) (w : Window) (hit : Slots.find id_of 0 l.windows ≡ some w)
    (room : l.count < 16) where
  abbrev created : WindowList
  created = record {
    windows = Slots.update id_of 0 (λ _. opened l.next_id l.next_z r) l.windows;
    count = l.count + 1;
    next_id = bump l.next_id;
    next_z = bump l.next_z;
  }

  create_eq : create l r ≡ (l.next_id, created)
  unfolding create
  create_eq = ground (arith, hit)

  Absent-id : Absent id_of l.next_id l.windows
  Absent-id = Slots.Below-Absent id_of l.next_id l.next_id l.windows (omega arith) v.below

  created_ids : Below id_of (l.next_id + 1) created.windows
  created_ids =
      Slots.Below-update id_of (l.next_id + 1) 0 (λ _. opened l.next_id l.next_z r) l.windows w hit
        (rw opened-id (omega arith))
        (Slots.Below-mono id_of l.next_id (l.next_id + 1) l.windows (omega arith) v.below)

  created_zs : ZBelow (l.next_z + 1) created.windows
  created_zs =
      ZBelow-update (l.next_z + 1) 0 (λ _. opened l.next_id l.next_z r) l.windows
        (λ _ _. rw opened-z (omega arith))
        (ZBelow-mono l.next_z (l.next_z + 1) l.windows (omega arith) v.z_below)

  created_live : live id_of created.windows ≡ live id_of l.windows + 1
  created_live = ground (
    arith,
    Slots.live-update id_of 0 (λ _. opened l.next_id l.next_z r) l.windows w hit,
    opened-id l.next_id l.next_z r,
    Slots.find-key id_of 0 l.windows w hit,
    v.fresh_id,
  )

  created-IsValid : IsValid created
  created-IsValid = record {
    full = Slots.length-update id_of 0 (λ _. opened l.next_id l.next_z r) l.windows ∙ v.full;
    counted = omega (arith, created_live, v.counted);
    fresh_id = omega arith;
    fresh_z = omega arith;
    below = subst (λ n. Below id_of n created.windows) (omega arith) created_ids;
    distinct =
        Slots.Distinct-update id_of 0 (λ _. opened l.next_id l.next_z r) l.windows w hit
          (inr (rw opened-id Absent-id)) v.distinct;
    z_below = subst (λ n. ZBelow n created.windows) (omega arith) created_zs;
  }

  get-created :
      (j : ℕ)
      → j ≢ 0
      → get created j ≡ (if j == l.next_id then some (opened l.next_id l.next_z r) else get l j)
  unfolding get
  get-created j h = elim (Bool-cases (j == l.next_id)) [
    | inl at ↦
        rw (at, (==_iff j l.next_id).0 at)
          (Slots.find-update_new id_of l.next_id 0 (λ _. opened l.next_id l.next_z r) l.windows w
            hit (opened-id l.next_id l.next_z r) Absent-id)
    | inr off ↦ rw off (
        Slots.find-update_ne id_of j 0 (λ _. opened l.next_id l.next_z r) l.windows w hit h
          (rw opened-id (ground (arith, off))))
  ]

  get-asked_for :
      (j : ℕ)
      → j ≢ 0
      → get created j ≡ (if j == l.next_id then some (asked_for l.next_id l.next_z r) else get l j)
  get-asked_for j nz =
      subst (λ q. get created j ≡ (if j == l.next_id then some q else get l j))
        (opened-asked_for l.next_id l.next_z r) (get-created j nz)

-- While fewer than 16 windows are open, `create` on a valid list opens one under an id that no
-- window had, with the position, size, title and content asked for, visible, unfocused and above all
-- others; the other windows stay as they are, and the
-- list stays valid, its count raised by one. (The two counters are assumed not to wrap.)
pub create_lem :
    (l : WindowList) (r : Request)
    → IsValid l
    → l.next_id + 1 < 2 ^ 32
    → l.next_z + 1 < 2 ^ 32
    → l.count < 16
    → let (id, l') = create l r in
      (id ≡ l.next_id)
      × (get l id ≡ none)
      × ((j : ℕ) → j ≢ 0 → get l' j ≡ (if j == id then some (asked_for id l.next_z r) else get l j))
      × ZBelow l.next_z l.windows
      × (l'.count ≡ l.count + 1)
      × IsValid l'
create_lem l r v ids zs room =
    let (w, hit) = Slots.find_empty id_of l.windows (omega (arith, v.full, v.counted)) in
    rw (create_eq l r v ids zs w hit room) (
      refl,
      unfold get in Slots.find-Absent id_of l.next_id l.windows (Absent-id l r v ids zs w hit room),
      get-asked_for l r v ids zs w hit room,
      v.z_below,
      refl,
      created-IsValid l r v ids zs w hit room,
    )

empty-id : empty.id ≡ 0
unfolding empty
empty-id = refl

-- Destroying an open window of a valid list closes it and no other, counts one less, and keeps the
-- list valid.
pub destroy_lem :
    (l : WindowList) (id : ℕ) (w : Window)
    → IsValid l
    → id ≢ 0
    → get l id ≡ some w
    → let (done, l') = destroy l id in
      (done ≡ true)
      × ((j : ℕ) → j ≢ 0 → get l' j ≡ (if j == id then none else get l j))
      × (l'.count + 1 ≡ l.count)
      × IsValid l'
unfolding destroy get
destroy_lem l id w v h e =
    rw (e, destroy)
      (
        refl,
        λ j nz. elim (Bool-cases (j == id)) [
          | inl at ↦
              rw (at, (==_iff j id).0 at)
                (Slots.find-update_gone id_of id (λ _. empty) l.windows w e h
                  (rw empty-id (λ z. h (ground (arith, z)))) v.distinct)
          | inr off ↦ rw off (
              Slots.find-update_ne id_of j id (λ _. empty) l.windows w e (ground (arith, off))
                (rw empty-id (λ z. nz (ground (arith, z)))))
        ],
        one_less,
        record {
          full = Slots.length-update id_of id (λ _. empty) l.windows ∙ v.full;
          counted = omega (arith, one_less, gone, v.counted);
          fresh_id = v.fresh_id;
          fresh_z = v.fresh_z;
          below =
              Slots.Below-update id_of l.next_id id (λ _. empty) l.windows w e
                (rw empty-id v.fresh_id) v.below;
          distinct =
              Slots.Distinct-update id_of id (λ _. empty) l.windows w e (inl empty-id) v.distinct;
          z_below =
              ZBelow-update l.next_z id (λ _. empty) l.windows (λ _ _. unfold empty in v.fresh_z)
                v.z_below;
        },
      )
  where
    gone : live id_of (Slots.update id_of id (λ _. empty) l.windows) + 1 ≡ live id_of l.windows
    gone = ground (
      arith,
      Slots.live-update id_of id (λ _. empty) l.windows w e,
      empty-id,
      Slots.find-key id_of id l.windows w e,
    )

    one_less : (l.count + 2 ^ 64 - 1) % 2 ^ 64 + 1 ≡ l.count
    one_less = omega (arith, gone, v.counted, v.full, Slots.live-le-length id_of l.windows)

-- `destroy 0` on a list with a free slot takes that slot for a window: it reports success and counts
-- one less, though no window was closed. With no window open the count becomes 2 ^ 64 - 1, and
-- every later `create` fails.
pub destroy_zero :
    (l : WindowList) (r : Request)
    → IsValid l
    → l.count ≡ 0
    → let (done, l') = destroy l 0 in
      (done ≡ true) × (l'.count ≡ 2 ^ 64 - 1) × (create l' r ≡ (0, l'))
unfolding destroy create
destroy_zero l r v h =
    let (w, e) = Slots.find_empty id_of l.windows (omega (arith, v.full, v.counted)) in
    ground (arith, e)
