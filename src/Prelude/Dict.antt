-- ===== src/Prelude/Dict.antt =====
-- A map by its pairs in the order of the keys, as a BTreeMap holds and lists them.
use Prim.Native.Nat.{ℕ}
use mathlib.Core.Path.{◌≡◌, refl}
use mathlib.Core.Logic.{◌↔◌}
use mathlib.Core.Bool.{Bool, true, false, ◌&&◌}
use mathlib.Core.List.{List, [], ◌∷◌}
use mathlib.Core.Option.{Option, none, some}
use native.Mathlib.Omega.{arith}
use flutter_os.Prelude.Tests.{ltb, ◌==◌, ==_iff, if◌then◌else◌}

-- What a map asks of its keys: an equality test, and the order by which they are listed.
pub record Key {ℓ} (K : Type ℓ) : Type ℓ where
  pub same : K → K → Bool
  pub before : K → K → Bool
  pub same_iff : (a b : K) → (same a b ≡ true) ↔ (a ≡ b)

abbrev pub num_same : ℕ → ℕ → Bool
num_same a b = a == b

pub num_same_iff : (a b : ℕ) → (num_same a b ≡ true) ↔ (a ≡ b)
num_same_iff a b = ==_iff a b

instance abbrev pub num_key : Key ℕ
num_key = record { same = num_same; before = ltb; same_iff = num_same_iff }

-- Texts are their bytes.
abbrev pub text_same : List ℕ → List ℕ → Bool
text_same [] [] = true
text_same [] (y ∷ ys) = false
text_same (x ∷ xs) [] = false
text_same (x ∷ xs) (y ∷ ys) = (x == y) && text_same xs ys

abbrev pub text_before : List ℕ → List ℕ → Bool
text_before [] [] = false
text_before [] (y ∷ ys) = true
text_before (x ∷ xs) [] = false
text_before (x ∷ xs) (y ∷ ys) = let rest = text_before xs ys in if x == y then rest else ltb x y

pub text_same_iff : (a b : List ℕ) → (text_same a b ≡ true) ↔ (a ≡ b)
text_same_iff [] [] = ground arith
text_same_iff [] (y ∷ ys) = ground arith
text_same_iff (x ∷ xs) [] = ground arith
text_same_iff (x ∷ xs) (y ∷ ys) = ground (arith, text_same_iff xs ys)

instance abbrev pub text_key : Key (List ℕ)
text_key = record { same = text_same; before = text_before; same_iff = text_same_iff }

module _ {ℓ κ} {K : Type ℓ} {A : Type κ} ⦃o : Key K⦄ where
  unfoldable pub lookup : K → List (K × A) → Option A
  lookup k [] = none
  lookup k ((j, v) ∷ m) = if o.same j k then some v else lookup k m

  unfoldable pub insert : K → A → List (K × A) → List (K × A)
  insert k v [] = (k, v) ∷ []
  insert k v ((j, w) ∷ m) =
      let rest = insert k v m in
      if o.same j k then (k, v) ∷ m else if o.before k j then (k, v) ∷ (j, w) ∷ m else (j, w) ∷ rest

  unfoldable pub erase : K → List (K × A) → List (K × A)
  erase k [] = []
  erase k ((j, w) ∷ m) = let rest = erase k m in if o.same j k then rest else (j, w) ∷ rest

  pub lookup-insert :
      (k j : K) (v : A) (m : List (K × A))
      → lookup j (insert k v m) ≡ (if o.same k j then some v else lookup j m)
  unfolding lookup insert
  lookup-insert k j v [] = refl
  lookup-insert k j v ((i, w) ∷ m) =
      ground (arith, o.same_iff k j, o.same_iff i k, o.same_iff i j, lookup-insert k j v m)

  pub lookup-erase :
      (k j : K) (m : List (K × A))
      → lookup j (erase k m) ≡ (if o.same k j then none else lookup j m)
  unfolding lookup erase
  lookup-erase k j [] = ground arith
  lookup-erase k j ((i, w) ∷ m) =
      ground (arith, o.same_iff k j, o.same_iff i k, o.same_iff i j, lookup-erase k j m)
