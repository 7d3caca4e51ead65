-- ===== src/Prelude/Slots.antt =====
-- A fixed array of slots told apart by a numeric key, 0 for an empty slot: the shape of the
-- kernel's process table and of the window manager's window list.
use Prim.Native.Nat.{ℕ, suc, ◌+◌, ◌≤◌, ◌<◌}
use mathlib.Core.Path.{◌≡◌, refl}
use mathlib.Core.Logic.{◌≢◌, ◌⊎◌, inl, inr}
use mathlib.Core.List.{List, [], ◌∷◌}
use mathlib.Core.Option.{Option, none, some}
use native.Mathlib.Omega.{arith}
use flutter_os.Prelude.Tests.{◌==◌, if◌then◌else◌, Bool-cases}
use flutter_os.Prelude.Lists.{length}

module _ {ℓ} {A : Type ℓ} (key : A → ℕ) where
  -- The first slot that holds the key.
  unfoldable pub find : ℕ → List A → Option A
  find k [] = none
  find k (x ∷ xs) = if key x == k then some x else find k xs

  -- Change the first slot that holds the key, if one does.
  unfoldable pub update : ℕ → (A → A) → List A → List A
  update k f [] = []
  update k f (x ∷ xs) = if key x == k then f x ∷ xs else x ∷ update k f xs

  -- Number of slots in use.
  unfoldable pub live : List A → ℕ
  live [] = 0
  live (x ∷ xs) = if key x == 0 then live xs else suc (live xs)

  abbrev pub Below : ℕ → List A → Type 0
  Below n [] = Unit {0}
  Below n (x ∷ xs) = (key x < n) × Below n xs

  abbrev pub Absent : ℕ → List A → Type 0
  Absent k [] = Unit {0}
  Absent k (x ∷ xs) = (key x ≢ k) × Absent k xs

  -- No key but 0 stands in two slots.
  abbrev pub Distinct : List A → Type 0
  Distinct [] = Unit {0}
  Distinct (x ∷ xs) = ((key x ≡ 0) ⊎ Absent (key x) xs) × Distinct xs

  pub length-update : (k : ℕ) (f : A → A) (xs : List A) → length (update k f xs) ≡ length xs
  unfolding update
  length-update k f [] = refl
  length-update k f (x ∷ xs) = ground (arith, length-update k f xs)

  pub Below-mono : (m n : ℕ) (xs : List A) → m ≤ n → Below m xs → Below n xs
  Below-mono m n [] h b = tt
  Below-mono m n (x ∷ xs) h b = (omega arith, Below-mono m n xs h b.1)

  pub Below-Absent : (n k : ℕ) (xs : List A) → n ≤ k → Below n xs → Absent k xs
  Below-Absent n k [] h b = tt
  Below-Absent n k (x ∷ xs) h b = (omega arith, Below-Absent n k xs h b.1)

  pub find-Absent : (k : ℕ) (xs : List A) → Absent k xs → find k xs ≡ none
  unfolding find
  find-Absent k [] b = refl
  find-Absent k (x ∷ xs) b = ground (arith, find-Absent k xs b.1)

  pub find-key : (k : ℕ) (xs : List A) (x : A) → find k xs ≡ some x → key x ≡ k
  unfolding find
  find-key k [] y e = cc
  find-key k (x ∷ xs) y e = ground (arith, find-key k xs y)

  pub update-none : (k : ℕ) (f : A → A) (xs : List A) → find k xs ≡ none → update k f xs ≡ xs
  unfolding find update
  update-none k f [] e = refl
  update-none k f (x ∷ xs) e = ground (arith, update-none k f xs)

  -- Other keys are found as before.
  pub find-update_ne :
      (j k : ℕ) (f : A → A) (xs : List A) (x : A)
      → find k xs ≡ some x
      → j ≢ k
      → key (f x) ≢ j
      → find j (update k f xs) ≡ find j xs
  unfolding find update
  find-update_ne j k f [] y e h g = refl
  find-update_ne j k f (x ∷ xs) y e h g = ground (arith, find-update_ne j k f xs y)

  -- The changed slot is found under its key, if no slot held that key but the changed one.
  pub find-update_self :
      (k : ℕ) (f : A → A) (xs : List A) (x : A)
      → find k xs ≡ some x
      → key (f x) ≡ k
      → find k (update k f xs) ≡ some (f x)
  unfolding find update
  find-update_self k f [] y e g = cc
  find-update_self k f (x ∷ xs) y e g = ground (arith, find-update_self k f xs y)

  pub find-update_new :
      (j k : ℕ) (f : A → A) (xs : List A) (x : A)
      → find k xs ≡ some x
      → key (f x) ≡ j
      → Absent j xs
      → find j (update k f xs) ≡ some (f x)
  unfolding find update
  find-update_new j k f [] y e g b = cc
  find-update_new j k f (x ∷ xs) y e g b = ground (arith, find-update_new j k f xs y)

  pub Below-update :
      (n k : ℕ) (f : A → A) (xs : List A) (x : A)
      → find k xs ≡ some x
      → key (f x) < n
      → Below n xs
      → Below n (update k f xs)
  unfolding find update
  Below-update n k f [] y e g b = tt
  Below-update n k f (x ∷ xs) y e g b = ground (arith, Below-update n k f xs y)

  pub Absent-update :
      (n k : ℕ) (f : A → A) (xs : List A) (x : A)
      → find k xs ≡ some x
      → key (f x) ≢ n
      → Absent n xs
      → Absent n (update k f xs)
  unfolding find update
  Absent-update n k f [] y e g b = tt
  Absent-update n k f (x ∷ xs) y e g b = ground (arith, Absent-update n k f xs y)

  pub Distinct-update :
      (k : ℕ) (f : A → A) (xs : List A) (x : A)
      → find k xs ≡ some x
      → (key (f x) ≡ 0) ⊎ Absent (key (f x)) xs
      → Distinct xs
      → Distinct (update k f xs)
  unfolding find update
  Distinct-update k f [] y e g d = tt
  Distinct-update k f (x ∷ xs) y e g d =
      ground (arith, Absent-update (key x) k f xs y, Distinct-update k f xs y)

  pub live-update :
      (k : ℕ) (f : A → A) (xs : List A) (x : A)
      → find k xs ≡ some x
      → live (update k f xs) + (if key x == 0 then 0 else 1)
        ≡ live xs + (if key (f x) == 0 then 0 else 1)
  unfolding find update live
  live-update k f [] y e = cc
  live-update k f (x ∷ xs) y e = ground (arith, live-update k f xs y)

  pub live-le-length : (xs : List A) → live xs ≤ length xs
  unfolding live
  live-le-length [] = omega arith
  live-le-length (x ∷ xs) = ground (arith, live-le-length xs)

  -- An empty slot is found exactly while some slot is not in use.
  pub find_empty : (xs : List A) → live xs < length xs → (x : A) × (find 0 xs ≡ some x)
  unfolding find live
  find_empty [] h = absurd (omega arith)
  find_empty (x ∷ xs) h = elim (Bool-cases (key x == 0)) [
    | inl free ↦ (x, rw free)
    | inr used ↦ let (y, e) = find_empty xs (ground (arith, used)) in (y, ground (arith, used, e))
  ]

  pub find_full : (xs : List A) → live xs ≡ length xs → find 0 xs ≡ none
  unfolding find live
  find_full [] h = refl
  find_full (x ∷ xs) h = ground (arith, find_full xs, live-le-length xs)

  find-Absent_ne : (n k : ℕ) (xs : List A) (x : A) → find k xs ≡ some x → Absent n xs → n ≢ k
  unfolding find
  find-Absent_ne n k [] y e b = cc
  find-Absent_ne n k (x ∷ xs) y e b = ground (arith, find-Absent_ne n k xs y)

  pub Distinct-update_key :
      (k : ℕ) (f : A → A) (xs : List A) (x : A)
      → find k xs ≡ some x
      → key (f x) ≡ k
      → Distinct xs
      → Distinct (update k f xs)
  unfolding find update
  Distinct-update_key k f [] y e g d = tt
  Distinct-update_key k f (x ∷ xs) y e g d = ground (
    arith,
    Absent-update (key x) k f xs y,
    find-Absent_ne (key x) k xs y,
    Distinct-update_key k f xs y,
  )

  pub find-Below : (n k : ℕ) (xs : List A) (x : A) → find k xs ≡ some x → Below n xs → k < n
  unfolding find
  find-Below n k [] y e b = cc
  find-Below n k (x ∷ xs) y e b = ground (arith, find-Below n k xs y)

  -- With distinct keys, a key that is taken out of its slot is found no more.
  pub find-update_gone :
      (k : ℕ) (f : A → A) (xs : List A) (x : A)
      → find k xs ≡ some x
      → k ≢ 0
      → key (f x) ≢ k
      → Distinct xs
      → find k (update k f xs) ≡ none
  unfolding find update
  find-update_gone k f [] y e h g d = refl
  find-update_gone k f (x ∷ xs) y e h g d =
      ground (arith, find-update_gone k f xs y, find-Absent k xs)
