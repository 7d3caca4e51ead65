-- ===== src/Fs/Path/Parent.antt =====
-- A path and its parent directory lie on the same mount.
use flutter_os.Prelude.{
  ℕ, ◌≡◌, refl, true, false, [], ◌∷◌, ◌++◌, if◌then◌else◌, length, drop, arith, Bool-cases, inl,
  inr, ◌∙◌, ap, subst,
}
use flutter_os.Prelude.Dict.{text_same, text_same_iff}
use flutter_os.Fs.Result.{Name}
use flutter_os.Fs.Path.{root_path, starts_with, matches, relative_to, components}
use flutter_os.Fs.Path.Laws.{
  IsName, parent_dir, starts_with-join, components_lem, components-join, pieces-name,
}

-- A path that a mount point begins, followed by a slash, is longer than the mount point.
drop-prefix :
    (mp a rest : Name)
    → starts_with (mp ++ root_path) a ≡ true
    → drop (length mp) (a ++ rest) ≡ drop (length mp) a ++ rest
drop-prefix [] a rest h = refl
drop-prefix (m ∷ mp) [] rest h = ground (arith, h)
drop-prefix (m ∷ mp) (c ∷ a) rest h = drop-prefix mp a rest (ground (arith, h))

drop_self : (a rest : Name) → drop (length a) (a ++ rest) ≡ rest
drop_self [] rest = refl
drop_self (c ∷ a) rest = drop_self a rest

longer : (a name : Name) → IsName name → text_same (a ++ 47 ∷ name) root_path ≡ false
longer [] [] n = ground (arith, n)
longer [] (c ∷ name) n = ground arith
longer (c ∷ []) name n = ground arith
longer (c ∷ d ∷ a) name n = ground arith

-- A mount point other than the path tests the path as it tests its parent.
pub matches-parent :
    (mp a name : Name)
    → IsName name
    → text_same (a ++ 47 ∷ name) mp ≡ false
    → matches mp (a ++ 47 ∷ name) ≡ matches mp (parent_dir a)
unfolding matches
matches-parent [] [] name n ne = ground arith
matches-parent (m ∷ []) [] name n ne = ground (arith, starts_with-join (m ∷ []) [] name)
matches-parent (m ∷ k ∷ mp) [] name n ne = ground (arith, n, starts_with-join (m ∷ k ∷ mp) [] name)
matches-parent mp (c ∷ a) name n ne = ground (arith, n, ne, starts_with-join mp (c ∷ a) name)

components-name : (name : Name) → IsName name → components name ≡ name ∷ []
components-name name (full, clean) =
    rw (components_lem name, pieces-name name clean) (ground (arith, full))

pub no_components : components [] ≡ []
no_components = components_lem []

pub root_components : components root_path ≡ []
root_components = components_lem root_path

-- What is left of a path, of one that does not end in a slash and of its parent.
rest_of :
    (mp path : Name)
    → text_same path mp ≡ false
    → relative_to mp path ≡ (if text_same mp root_path then drop 1 path else drop (length mp) path)
unfolding relative_to
rest_of mp path e = rw e refl

pub rest_of_self : (mp path : Name) → text_same path mp ≡ true → relative_to mp path ≡ []
unfolding relative_to
rest_of_self mp path e = rw e refl

under_root :
    (mp : Name) (c : ℕ) (a name : Name)
    → IsName name
    → text_same mp root_path ≡ true
    → text_same (c ∷ (a ++ 47 ∷ name)) mp ≡ false
    → components (relative_to mp (c ∷ (a ++ 47 ∷ name)))
      ≡ components (relative_to mp (c ∷ a)) ++ (name ∷ [])
under_root mp c a name n top ne =
    rw (rest_of mp (c ∷ (a ++ 47 ∷ name)) ne, top, components-join a name n)
      (elim (Bool-cases (text_same (c ∷ a) mp)) [
        | inl same ↦
            let e = (text_same_iff (c ∷ a) mp).0 same ∙ (text_same_iff mp root_path).0 top in
            let nothing : a ≡ [] = ap (λ s. drop 1 s) e in
            rw (rest_of_self mp (c ∷ a) same, nothing, no_components) refl
        | inr other ↦ rw (rest_of mp (c ∷ a) other, top) refl
      ])

under_mount :
    (mp a name : Name)
    → IsName name
    → text_same mp root_path ≡ false
    → text_same (a ++ 47 ∷ name) mp ≡ false
    → starts_with (mp ++ root_path) (a ++ 47 ∷ name) ≡ true
    → components (relative_to mp (a ++ 47 ∷ name)) ≡ components (relative_to mp a) ++ (name ∷ [])
under_mount mp a name n below ne h = elim (Bool-cases (text_same a mp)) [
  | inl same ↦
      let d =
        subst (λ k. drop (length k) (a ++ 47 ∷ name) ≡ 47 ∷ name) ((text_same_iff a mp).0 same)
          (drop_self a (47 ∷ name)) in
      rw
        (
          rest_of mp (a ++ 47 ∷ name) ne,
          below,
          d,
          components-join [] name n,
          rest_of_self mp a same,
        )
        refl
  | inr other ↦
      let begun : starts_with (mp ++ root_path) a ≡ true =
        ground (arith, n, h, other, starts_with-join mp a name) in
      rw
        (
          rest_of mp (a ++ 47 ∷ name) ne,
          below,
          drop-prefix mp a (47 ∷ name) begun,
          components-join (drop (length mp) a) name n,
          rest_of mp a other,
          below,
        )
        refl
]

-- The components of a path below a mount point are those of its parent and its name.
pub relative-parent :
    (mp a name : Name)
    → IsName name
    → text_same (a ++ 47 ∷ name) mp ≡ false
    → matches mp (a ++ 47 ∷ name) ≡ true
    → components (relative_to mp (a ++ 47 ∷ name))
      ≡ components (relative_to mp (parent_dir a)) ++ (name ∷ [])
unfolding matches relative_to
relative-parent [] [] name n ne h =
    ground (arith, n, components-join [] name n, no_components, root_components)
relative-parent (m ∷ []) [] name n ne h =
    ground (arith, n, starts_with-join (m ∷ []) [] name, components-name name n, no_components)
relative-parent (m ∷ k ∷ mp) [] name n ne h =
    ground (arith, n, h, starts_with-join (m ∷ k ∷ mp) [] name)
relative-parent mp (c ∷ a) name n ne h = elim (Bool-cases (text_same mp root_path)) [
  | inl top ↦ under_root mp c a name n top ne
  | inr below ↦ under_mount mp (c ∷ a) name n below ne (ground (arith, h, below, ne))
]
