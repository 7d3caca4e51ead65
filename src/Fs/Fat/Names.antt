-- ===== src/Fs/Fat/Names.antt =====
-- Short names of kernel/src/fs/fat32.rs, as their 11 bytes. The library's to_uppercase and the test
-- of core::str::from_utf8 are parameters.
use flutter_os.Prelude.{
  ℕ, zero, suc, ◌+◌, ◌-◌, ◌≤◌, ◌≡◌, Bool, Option, none, some, List, [], ◌∷◌, ◌++◌, ltb, ◌==◌,
  if◌then◌else◌, length, take, drop, replicate, arith, refl, length-replicate, length-append,
}
use flutter_os.Fs.Result.{Name}

-- `rfind('.')`
unfoldable pub rfind_dot : Name → Option ℕ
rfind_dot [] = none
rfind_dot (c ∷ name) = elim (rfind_dot name) [
  | some i ↦ some (suc i)
  | none ↦ if c == 46 then some 0 else none
]

-- The first bytes of a text in a field that spaces fill.
unfoldable pub field : ℕ → List ℕ → List ℕ
field n text = take n text ++ replicate (n - length (take n text)) 32

-- The short name of a text that is cut at a dot, if it is.
unfoldable pub cut_at : (Name → Name) → Name → Option ℕ → List ℕ
cut_at upper name none = field 8 (upper name) ++ replicate 3 32
cut_at upper name (some zero) = field 8 (upper name) ++ replicate 3 32
cut_at upper name (some (suc i)) =
    field 8 (upper (take (suc i) name)) ++ field 3 (upper (drop (suc i + 1) name))

unfoldable pub to_short_name : (Name → Name) → Name → List ℕ
to_short_name upper name = cut_at upper name (rfind_dot name)

-- The bytes before the first space.
unfoldable pub trimmed : List ℕ → List ℕ
trimmed [] = []
trimmed (c ∷ cs) = let rest = trimmed cs in if c == 32 then [] else c ∷ rest

abbrev pub text_or_empty : (List ℕ → Bool) → List ℕ → Name
text_or_empty is_utf8 bytes = if is_utf8 bytes then bytes else []

unfoldable pub from_short_name : (List ℕ → Bool) → List ℕ → Name
from_short_name is_utf8 short =
    let base = trimmed (take 8 short) in
    let ext = trimmed (take 3 (drop 8 short)) in
    text_or_empty is_utf8 base
    ++ (if ltb 0 (length ext) then 46 ∷ text_or_empty is_utf8 ext else [])

length-cut : (n : ℕ) (text : List ℕ) → length (take n text) ≤ n
length-cut zero text = omega arith
length-cut (suc n) [] = omega arith
length-cut (suc n) (c ∷ text) = let cut = length-cut n text in omega (arith, cut)

length-field : (n : ℕ) (text : List ℕ) → length (field n text) ≡ n
unfolding field
length-field n text =
    let cut = length-cut n text in
    let spaces = length-replicate {A = ℕ} (n - length (take n text)) 32 in
    rw (length-append (take n text) (replicate (n - length (take n text)) 32), spaces)
      (omega (arith, cut))

length-two : (a b : List ℕ) → length a ≡ 8 → length b ≡ 3 → length (a ++ b) ≡ 11
length-two a b ha hb = rw (length-append a b, ha, hb) refl

length-cut_at :
    (upper : Name → Name) (name : Name) (dot : Option ℕ) → length (cut_at upper name dot) ≡ 11
unfolding cut_at
length-cut_at upper name none = length-two _ (replicate 3 32) (length-field 8 (upper name)) refl
length-cut_at upper name (some zero) =
    length-two _ (replicate 3 32) (length-field 8 (upper name)) refl
length-cut_at upper name (some (suc i)) =
    length-two _ _ (length-field 8 (upper (take (suc i) name)))
      (length-field 3 (upper (drop (suc i + 1) name)))

-- A short name has 11 bytes, whatever the name is.
pub length-to_short_name :
    (upper : Name → Name) (name : Name) → length (to_short_name upper name) ≡ 11
unfolding to_short_name
length-to_short_name upper name = length-cut_at upper name (rfind_dot name)
