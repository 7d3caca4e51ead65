-- ===== src/Fs/Path/Laws.antt =====
-- How a path divides into its components, its parent and its name.
use flutter_os.Prelude.{
  ℕ, suc, ◌+◌, ◌≡◌, refl, Bool, true, false, not, ◌&&◌, ◌||◌, none, some, List, [], ◌∷◌, ◌++◌, ◌==◌,
  if◌then◌else◌, length, take, drop, arith, Bool-cases, inl, inr, ◌∙◌, take-append,
}
use flutter_os.Prelude.Dict.{text_same}
use flutter_os.Fs.Result.{Name}
use flutter_os.Fs.Path.{
  is_empty, root_path, starts_with, trim_start, trim_end, pieces, split, non_empty, components,
  rfind, split_parent_name,
}

-- A name of a directory: not empty, and without a slash.
abbrev pub no_slash : Name → Bool
no_slash [] = true
no_slash (c ∷ s) = not (c == 47) && no_slash s

abbrev pub IsName : Name → Type 0
IsName name = (is_empty name ≡ false) × (no_slash name ≡ true)

-- A character before a text, trimmed, as `trim_end` adds it.
trim_step :
    (c : ℕ) (s t : Name)
    → (pieces t).0 ≡ (pieces s).0
    → non_empty (pieces t).1 ≡ non_empty (pieces s).1
    → let u = if is_empty t && (c == 47) then [] else c ∷ t in
      ((pieces u).0 ≡ (pieces (c ∷ s)).0) × (non_empty (pieces u).1 ≡ non_empty (pieces (c ∷ s)).1)
trim_step c s [] p q = (ground (arith, p, q), ground (arith, p, q))
trim_step c s (x ∷ t) p q = (ground (arith, p, q), ground (arith, p, q))

pieces-trim_end :
    (s : Name)
    → ((pieces (trim_end s)).0 ≡ (pieces s).0)
      × (non_empty (pieces (trim_end s)).1 ≡ non_empty (pieces s).1)
pieces-trim_end [] = (refl, refl)
pieces-trim_end (c ∷ s) = let (p, q) = pieces-trim_end s in trim_step c s (trim_end s) p q

split-trim_start : (s : Name) → non_empty (split (trim_start s)) ≡ non_empty (split s)
split-trim_start [] = refl
split-trim_start (c ∷ s) = elim (Bool-cases (c == 47)) [
  | inl slash ↦ ground (arith, slash, split-trim_start s)
  | inr other ↦ ground (arith, other)
]

-- The trimming of slashes changes no component, as empty pieces are left out.
pub components_lem : (r : Name) → components r ≡ non_empty (split r)
unfolding components
components_lem r = let (p, q) = pieces-trim_end (trim_start r) in rw (p, q) (split-trim_start r)

pieces-join :
    (a b : Name)
    → ((pieces (a ++ 47 ∷ b)).0 ≡ (pieces a).0)
      × ((pieces (a ++ 47 ∷ b)).1 ≡ (pieces a).1 ++ split b)
pieces-join [] b = (refl, refl)
pieces-join (c ∷ a) b = let (p, q) = pieces-join a b in (ground (arith, p, q), ground (arith, p, q))

pub pieces-name : (name : Name) → no_slash name ≡ true → pieces name ≡ (name, [])
pieces-name [] h = refl
pieces-name (c ∷ name) h = ground (arith, h, pieces-name name)

non_empty-append : (xs ys : List Name) → non_empty (xs ++ ys) ≡ non_empty xs ++ non_empty ys
non_empty-append [] ys = refl
non_empty-append (x ∷ xs) ys = ground (arith, non_empty-append xs ys)

starts_with-name :
    (mp name : Name) → no_slash name ≡ true → starts_with (mp ++ root_path) name ≡ false
starts_with-name [] [] h = refl
starts_with-name [] (c ∷ name) h = ground arith
starts_with-name (m ∷ mp) [] h = refl
starts_with-name (m ∷ mp) (c ∷ name) h = ground (arith, starts_with-name mp name)

pub starts_with-join :
    (mp a name : Name)
    → no_slash name ≡ true
    → starts_with (mp ++ root_path) (a ++ 47 ∷ name)
      ≡ (text_same a mp || starts_with (mp ++ root_path) a)
starts_with-join [] [] name h = refl
starts_with-join [] (c ∷ a) name h = ground arith
starts_with-join (m ∷ mp) [] name h = ground (arith, starts_with-name mp name h)
starts_with-join (m ∷ mp) (c ∷ a) name h = ground (arith, starts_with-join mp a name h)

pub components-join :
    (a name : Name) → IsName name → components (a ++ 47 ∷ name) ≡ components a ++ (name ∷ [])
components-join a name (full, clean) =
    let (p, q) = pieces-join a name in
    rw
      (
        components_lem (a ++ 47 ∷ name),
        components_lem a,
        p,
        q,
        non_empty-append (pieces a).1 (split name),
        pieces-name name clean,
      )
      (ground (arith, full))

rfind-name : (name : Name) → no_slash name ≡ true → rfind name ≡ none
unfolding rfind
rfind-name [] h = refl
rfind-name (c ∷ name) h = ground (arith, rfind-name name)

pub rfind-join : (a name : Name) → no_slash name ≡ true → rfind (a ++ 47 ∷ name) ≡ some (length a)
unfolding rfind
rfind-join [] name h = ground (arith, rfind-name name h)
rfind-join (c ∷ a) name h = ground (arith, rfind-join a name h)

drop-join : (a name : Name) → drop (length a + 1) (a ++ 47 ∷ name) ≡ name
drop-join [] name = refl
drop-join (c ∷ a) name =
    let e : length (c ∷ a) + 1 ≡ suc (length a + 1) = omega arith in rw e (drop-join a name)

-- The directory of a path whose last slash stands behind `a`.
abbrev pub parent_dir : Name → Name
parent_dir a = if is_empty a then root_path else a

split_parent_of :
    (path : Name) (i : ℕ)
    → rfind path ≡ some i
    → split_parent_name path
      ≡ (if i == 0 then (root_path, drop 1 path) else (take i path, drop (i + 1) path))
unfolding split_parent_name
split_parent_of path i e = ground (arith, e)

-- A path that ends in a slash and a name without one splits into that name and what stands before the
-- slash, the root where nothing stands there.
pub split_parent_name-join :
    (a name : Name)
    → no_slash name ≡ true
    → split_parent_name (a ++ 47 ∷ name) ≡ (parent_dir a, name)
split_parent_name-join [] name h = split_parent_of (47 ∷ name) 0 (rfind-join [] name h)
split_parent_name-join (c ∷ a) name h =
    let positive : (length (c ∷ a) == 0) ≡ false = ground arith in
    split_parent_of ((c ∷ a) ++ 47 ∷ name) (length (c ∷ a)) (rfind-join (c ∷ a) name h)
    ∙ (rw (positive, take-append (c ∷ a) (47 ∷ name), drop-join (c ∷ a) name) refl)
