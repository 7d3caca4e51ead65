-- ===== src/Fs/Vfs/Mounts.antt =====
-- Which mount a path of kernel/src/fs/mod.rs belongs to.
use flutter_os.Prelude.{
  ℕ, suc, ◌+◌, ◌≤◌, ◌≡◌, refl, true, false, some, List, [], ◌∷◌, ◌++◌, ltb, length, arith,
  Bool-cases, inl, inr, ◌∙◌, ap, ◌⊎◌,
}
use flutter_os.Prelude.Dict.{text_same, text_same_iff}
use flutter_os.Fs.Result.{Name}
use flutter_os.Fs.Path.{is_empty, root_path, matches, relative_to, components}
use flutter_os.Fs.Path.Laws.{IsName, parent_dir}
use flutter_os.Fs.Path.Parent.{matches-parent, relative-parent, rest_of_self}
use flutter_os.Fs.Vfs.{
  Mount, Vfs, insert_mount, sort_mounts, mount, find_from, find_mount, mount_at,
}

same-matches : (mp path : Name) → text_same path mp ≡ true → matches mp path ≡ true
unfolding matches
same-matches mp path h =
    let e = (text_same_iff path mp).0 h in
    elim (Bool-cases (text_same mp root_path)) [
      | inl top ↦ rw (top, e ∙ (text_same_iff mp root_path).0 top) refl
      | inr below ↦ ground (arith, below, h)
    ]

module _ {F : Type 0} where
  -- No mount point of the list is longer than so many bytes.
  abbrev pub Within : ℕ → List (Mount F) → Type 0
  Within n [] = Unit
  Within n (m ∷ ms) = (length m.mount_point ≤ n) × Within n ms

  -- The mount points get no longer along the list.
  abbrev pub IsSorted : List (Mount F) → Type 0
  IsSorted [] = Unit
  IsSorted (m ∷ ms) = Within (length m.mount_point) ms × IsSorted ms

  -- A mount of the list.
  abbrev pub In : Mount F → List (Mount F) → Type 0
  In m [] = ⊥
  In m (n ∷ ms) = (m ≡ n) ⊎ In m ms

  Within-mono : (k n : ℕ) (ms : List (Mount F)) → k ≤ n → Within k ms → Within n ms
  Within-mono k n [] h w = tt
  Within-mono k n (m ∷ ms) h (l, w) = (omega arith, Within-mono k n ms h w)

  Within-insert_mount :
      (k : ℕ) (m : Mount F) (ms : List (Mount F))
      → length m.mount_point ≤ k
      → Within k ms
      → Within k (insert_mount m ms)
  Within-insert_mount k m [] h w = (h, tt)
  Within-insert_mount k m (n ∷ ms) h (l, w) =
      elim (Bool-cases (ltb (length m.mount_point) (length n.mount_point))) [
        | inl shorter ↦ rw shorter (l, Within-insert_mount k m ms h w)
        | inr other ↦ rw other (h, (l, w))
      ]

  insert_mount-IsSorted :
      (m : Mount F) (ms : List (Mount F)) → IsSorted ms → IsSorted (insert_mount m ms)
  insert_mount-IsSorted m [] s = (tt, tt)
  insert_mount-IsSorted m (n ∷ ms) (w, s) =
      elim (Bool-cases (ltb (length m.mount_point) (length n.mount_point))) [
        | inl shorter ↦ rw shorter (
          Within-insert_mount (length n.mount_point) m ms (ground (arith, shorter)) w,
          insert_mount-IsSorted m ms s,
        )
        | inr other ↦
            let le : length n.mount_point ≤ length m.mount_point = ground (arith, other) in
            rw other
              ((le, Within-mono (length n.mount_point) (length m.mount_point) ms le w), (w, s))
      ]

  sort_mounts-IsSorted : (ms : List (Mount F)) → IsSorted (sort_mounts ms)
  sort_mounts-IsSorted [] = tt
  sort_mounts-IsSorted (m ∷ ms) = insert_mount-IsSorted m (sort_mounts ms) (sort_mounts-IsSorted ms)

  insert_mount-In : (x m : Mount F) (ms : List (Mount F)) → In x (m ∷ ms) → In x (insert_mount m ms)
  insert_mount-In x m [] h = h
  insert_mount-In x m (n ∷ ms) h =
      elim (Bool-cases (ltb (length m.mount_point) (length n.mount_point))) [
        | inl shorter ↦ rw shorter (elim h [
          | inl new ↦ inr (insert_mount-In x m ms (inl new))
          | inr old ↦ elim old [
            | inl here ↦ inl here
            | inr later ↦ inr (insert_mount-In x m ms (inr later))
          ]
        ])
        | inr other ↦ rw other h
      ]

  sort_mounts-In : (x : Mount F) (ms : List (Mount F)) → In x ms → In x (sort_mounts ms)
  sort_mounts-In x [] h = elim h [ ]
  sort_mounts-In x (m ∷ ms) (inl e) = insert_mount-In x m (sort_mounts ms) (inl e)
  sort_mounts-In x (m ∷ ms) (inr l) =
      insert_mount-In x m (sort_mounts ms) (inr (sort_mounts-In x ms l))

  append-In : (x : Mount F) (ms ns : List (Mount F)) → In x ms ⊎ In x ns → In x (ms ++ ns)
  append-In x [] ns (inl h) = elim h [ ]
  append-In x [] ns (inr r) = r
  append-In x (m ∷ ms) ns (inl (inl e)) = inl e
  append-In x (m ∷ ms) ns (inl (inr l)) = inr (append-In x ms ns (inl l))
  append-In x (m ∷ ms) ns (inr r) = inr (append-In x ms ns (inr r))

  -- Mounting sorts the mounts by falling length of their mount points and keeps the old ones and the
  -- new one.
  pub mount-IsSorted :
      (v : Vfs F) (point : Name) (root : ℕ) (fs : F)
      → let w = mount v point root fs in
        IsSorted w.mounts
        × In (record { mount_point = point; root_inode = root; fs = fs }) w.mounts
        × ((m : Mount F) → In m v.mounts → In m w.mounts)
  unfolding mount
  mount-IsSorted v point root fs =
      let new : Mount F = record { mount_point = point; root_inode = root; fs = fs } in
      let all = v.mounts ++ (new ∷ []) in
      (
        sort_mounts-IsSorted all,
        sort_mounts-In new all (append-In new v.mounts (new ∷ []) (inr (inl refl))),
        λ m l. sort_mounts-In m all (append-In m v.mounts (new ∷ []) (inl l)),
      )

  Within-In :
      (n : ℕ) (x : Mount F) (ms : List (Mount F)) → Within n ms → In x ms → length x.mount_point ≤ n
  Within-In n x [] _ h = elim h [ ]
  Within-In n x (m ∷ ms) (l, w) (inl e) = rw e l
  Within-In n x (m ∷ ms) (l, w) (inr r) = Within-In n x ms w r

  find_from_lem :
      (i : ℕ) (ms : List (Mount F)) (path : Name) (j : ℕ) (rest : Name)
      → IsSorted ms
      → find_from i ms path ≡ some (j, rest)
      → (m : Mount F) × (k : ℕ) × (j ≡ i + k)
        × (mount_at k ms ≡ some m)
        × (matches m.mount_point path ≡ true)
        × (rest ≡ relative_to m.mount_point path)
        × ((x : Mount F)
            → In x ms
            → matches x.mount_point path ≡ true
            → length x.mount_point ≤ length m.mount_point)
  find_from_lem i [] path j rest s e = absurd (ground (arith, e))
  find_from_lem i (m ∷ ms) path j rest (w, s) e = elim (Bool-cases (matches m.mount_point path)) [
    | inl hit ↦ (
      m,
      0,
      ground (arith, e, hit),
      refl,
      hit,
      ground (arith, e, hit),
      λ x l _. elim l [
        | inl same ↦ rw same (omega arith)
        | inr later ↦ Within-In (length m.mount_point) x ms w later
      ],
    )
    | inr miss ↦
        let (n, k, at, here, good, is, most) =
          find_from_lem (i + 1) ms path j rest s (ground (arith, e, miss)) in
        (
          n,
          suc k,
          omega (arith, at),
          here,
          good,
          is,
          λ x l y. elim l [
            | inl same ↦ absurd (ground (arith, miss, y, ap (λ q. matches q.mount_point path) same))
            | inr later ↦ most x later y
          ],
        )
  ]

  -- Where the mounts are sorted, as mounting leaves them, `find_mount` finds a mount whose mount point
  -- matches the path, with the rest of the path behind it, and no mount that matches has a longer
  -- mount point.
  pub find_mount_lem :
      (v : Vfs F) (path : Name) (i : ℕ) (rest : Name)
      → IsSorted v.mounts
      → find_mount v path ≡ some (i, rest)
      → (m : Mount F) × (mount_at i v.mounts ≡ some m)
        × (matches m.mount_point path ≡ true)
        × (rest ≡ relative_to m.mount_point path)
        × ((x : Mount F)
            → In x v.mounts
            → matches x.mount_point path ≡ true
            → length x.mount_point ≤ length m.mount_point)
  unfolding find_mount
  find_mount_lem v path i rest s e =
      let (m, k, at, here, good, is, most) = find_from_lem 0 v.mounts path i rest s e in
      let same : i ≡ k = omega (arith, at) in (m, rw same here, good, is, most)

  find-parent_from :
      (i : ℕ) (ms : List (Mount F)) (a name : Name) (j : ℕ) (rest : Name)
      → IsName name
      → find_from i ms (a ++ 47 ∷ name) ≡ some (j, rest)
      → is_empty rest ≡ false
      → (rest' : Name) × (find_from i ms (parent_dir a) ≡ some (j, rest'))
        × (components rest ≡ components rest' ++ (name ∷ []))
  find-parent_from i [] a name j rest n e full = absurd (ground (arith, e))
  find-parent_from i (m ∷ ms) a name j rest n e full =
      let mp = m.mount_point in
      let path = a ++ 47 ∷ name in
      elim (Bool-cases (matches mp path)) [
        | inl hit ↦ elim (Bool-cases (text_same path mp)) [
          | inl same ↦ absurd (ground (arith, e, hit, full, rest_of_self mp path same))
          | inr ne ↦ (
            relative_to mp (parent_dir a),
            ground (arith, e, hit, matches-parent mp a name n ne),
            ground (arith, e, hit, relative-parent mp a name n ne hit),
          )
        ]
        | inr miss ↦ elim (Bool-cases (text_same path mp)) [
          | inl same ↦ absurd (ground (arith, miss, same-matches mp path same))
          | inr ne ↦
              let (rest', at, parts) =
                find-parent_from (i + 1) ms a name j rest n (ground (arith, e, miss)) full in
              (rest', ground (arith, at, miss, matches-parent mp a name n ne), parts)
        ]
      ]

  -- A path that ends in a slash and a name, and is no mount point, lies on the mount of its parent, and
  -- its components there are the parent's and the name.
  pub find_mount-parent :
      (v : Vfs F) (a name : Name) (i : ℕ) (rest : Name)
      → IsName name
      → find_mount v (a ++ 47 ∷ name) ≡ some (i, rest)
      → is_empty rest ≡ false
      → (rest' : Name) × (find_mount v (parent_dir a) ≡ some (i, rest'))
        × (components rest ≡ components rest' ++ (name ∷ []))
  unfolding find_mount
  find_mount-parent v a name i rest n e full = find-parent_from 0 v.mounts a name i rest n e full
