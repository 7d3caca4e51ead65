-- ===== src/Kernel/Syscall/Memory.antt =====
-- What user memory holds after the calls of kernel/src/syscalls/mod.rs have written to it.
use flutter_os.Prelude.{
  ℕ, zero, suc, ◌+◌, ◌-◌, ◌≤◌, ◌<◌, ◌≡◌, refl, Bool, true, not, ◌&&◌, some, List, [], ◌∷◌, ltb, leb,
  ◌==◌, length, get_or, arith, Option-cases, inl, inr, ◌∙◌, ap, ◌⊎◌,
}
use flutter_os.Kernel.Syscall.World.{store, cstring}

pub store_outside :
    (start : ℕ) (bytes : List ℕ) (m : ℕ → ℕ) (a : ℕ)
    → (a < start) ⊎ (start + length bytes ≤ a)
    → store start bytes m a ≡ m a
unfolding store
store_outside start bytes m a (inl h) = ground (arith, h)
store_outside start bytes m a (inr h) = ground (arith, h)

-- Bytes stored within a region leave what lies outside it.
pub store_within :
    (at size start : ℕ) (bytes : List ℕ) (m : ℕ → ℕ) (a : ℕ)
    → at ≤ start
    → start + length bytes ≤ at + size
    → (a < at) ⊎ (at + size ≤ a)
    → store start bytes m a ≡ m a
store_within at size start bytes m a lo hi (inl h) =
    store_outside start bytes m a (inl (omega (arith, lo, h)))
store_within at size start bytes m a lo hi (inr h) =
    store_outside start bytes m a (inr (omega (arith, hi, h)))

pub store_inside :
    (start : ℕ) (bytes : List ℕ) (m : ℕ → ℕ) (j : ℕ)
    → j < length bytes
    → store start bytes m (start + j) ≡ get_or bytes j 0
unfolding store
store_inside start bytes m j h =
    let back : start + j - start ≡ j = omega arith in
    let low : leb start (start + j) ≡ true = ground arith in
    let high : ltb (start + j) (start + length bytes) ≡ true = ground (arith, h) in
    rw (low, high, back) refl

-- Bytes that a string holds: none of them zero.
abbrev pub no_zero : List ℕ → Bool
no_zero [] = true
no_zero (b ∷ bytes) = not (b == 0) && no_zero bytes

-- A string that is read has no zero byte and is shorter than the limit.
pub cstring-no_zero :
    (n : ℕ) (m : ℕ → ℕ) (a : ℕ) (bytes : List ℕ)
    → cstring n m a ≡ some bytes
    → (no_zero bytes ≡ true) × (length bytes < n)
unfolding cstring
cstring-no_zero zero m a bytes e = absurd (ground (arith, e))
cstring-no_zero (suc n) m a [] e = (refl, omega arith)
cstring-no_zero (suc n) m a (b ∷ bytes) e = elim (Option-cases (cstring n m (a + 1))) [
  | inl missing ↦ absurd (ground (arith, e, missing))
  | inr (found, at) ↦
      let same : found ≡ bytes = ground (arith, e, at) in
      let (clean, short) = cstring-no_zero n m (a + 1) bytes (at ∙ ap (λ k. some k) same) in
      (ground (arith, e, at, clean), ground (arith, short))
]

-- Memory that holds the bytes and a zero behind them reads as that string.
pub cstring_held :
    (n : ℕ) (m : ℕ → ℕ) (a : ℕ) (bytes : List ℕ)
    → no_zero bytes ≡ true
    → length bytes < n
    → ((j : ℕ) → j < length bytes → m (a + j) ≡ get_or bytes j 0)
    → m (a + length bytes) ≡ 0
    → cstring n m a ≡ some bytes
unfolding cstring
cstring_held zero m a bytes c h held end = absurd (omega (arith, h))
cstring_held (suc n) m a [] c h held end =
    let start : a ≡ a + 0 = omega arith in let e : m a ≡ 0 = ap m start ∙ end in ground (arith, e)
cstring_held (suc n) m a (b ∷ bytes) c h held end =
    let start : a ≡ a + 0 = omega arith in
    let first : m a ≡ b = ap m start ∙ held 0 (ground arith) in
    let behind : a + 1 + length bytes ≡ a + length (b ∷ bytes) = omega arith in
    let rest : cstring n m (a + 1) ≡ some bytes =
      cstring_held n m (a + 1) bytes (ground (arith, c)) (ground (arith, h))
        (λ j l.
          let next : a + 1 + j ≡ a + suc j = omega arith in
          ap m next ∙ held (suc j) (omega (arith, l)))
        (ap m behind ∙ end) in
    ground (arith, c, first, rest)
