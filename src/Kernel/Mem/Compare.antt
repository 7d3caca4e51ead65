-- ===== src/Kernel/Mem/Compare.antt =====
-- What `memcmp` and `strlen` of kernel/src/mem.rs find.
use flutter_os.Prelude.{
  ℕ, zero, suc, ◌+◌, ◌≤◌, ◌<◌, ◌≡◌, ◌≢◌, ◌⊎◌, inl, inr, refl, Bool-cases, true, ltb, ◌==◌, arith,
}
use flutter_os.Prelude.Int.{ℤ, pos, sub_ℕ}
use flutter_os.Kernel.Mem.{Memory, compare_from, memcmp, strlen}

-- The ranges agree before some index, and the result is the difference of the bytes there; or they
-- agree everywhere, and the result is 0.
abbrev pub Compared : ℕ → ℕ → ℕ → ℕ → Memory → ℤ → Type 0
Compared i n s1 s2 m r =
    (((j : ℕ) → i ≤ j → j < i + n → m (s1 + j) ≡ m (s2 + j)) × (r ≡ pos 0))
    ⊎ ((k : ℕ) × (i ≤ k)
        × (k < i + n)
        × ((j : ℕ) → i ≤ j → j < k → m (s1 + j) ≡ m (s2 + j))
        × (m (s1 + k) ≢ m (s2 + k))
        × (r ≡ sub_ℕ (m (s1 + k)) (m (s2 + k))))

agree_from :
    (i e s1 s2 : ℕ) (m : Memory)
    → (m (s1 + i) == m (s2 + i)) ≡ true
    → ((j : ℕ) → i + 1 ≤ j → j < e → m (s1 + j) ≡ m (s2 + j))
    → (j : ℕ) → i ≤ j
    → j < e
    → m (s1 + j) ≡ m (s2 + j)
agree_from i e s1 s2 m same agree j lo hi = elim (Bool-cases (ltb i j)) [
  | inl above ↦ agree j (ground (arith, above)) hi
  | inr here ↦ let at : j ≡ i = ground (arith, here, lo) in rw at (ground (arith, same))
]

compare_from_lem : (n i s1 s2 : ℕ) (m : Memory) → Compared i n s1 s2 m (compare_from n i s1 s2 m)
unfolding compare_from
compare_from_lem zero i s1 s2 m = inl ((λ j lo hi. absurd (omega (arith, lo, hi))), refl)
compare_from_lem (suc n) i s1 s2 m = elim (Bool-cases (m (s1 + i) == m (s2 + i))) [
  | inr differ ↦ rw differ (
      inr (
        i,
        omega arith,
        omega arith,
        (λ j lo hi. absurd (omega (arith, lo, hi))),
        ground (arith, differ),
        refl,
      ))
  | inl same ↦ rw same (elim (compare_from_lem n (i + 1) s1 s2 m) [
    | inl (agree, r) ↦
        inl ((λ j lo hi. agree_from i (i + 1 + n) s1 s2 m same agree j lo (omega (arith, hi))), r)
    | inr (k, lo, hi, agree, differ, r) ↦
        inr (k, omega (arith, lo), omega (arith, hi), agree_from i k s1 s2 m same agree, differ, r)
  ])
]

-- `memcmp` tells the first bytes at which the ranges differ, if they do.
pub memcmp_lem : (s1 s2 n : ℕ) (m : Memory) → Compared 0 n s1 s2 m (memcmp s1 s2 n m)
unfolding memcmp
memcmp_lem s1 s2 n m = compare_from_lem n 0 s1 s2 m

strlen_from :
    (fuel len s k : ℕ) (m : Memory)
    → len ≤ k
    → k < len + fuel
    → m (s + k) ≡ 0
    → ((j : ℕ) → len ≤ j → j < k → m (s + j) ≢ 0)
    → strlen fuel len s m ≡ k
unfolding strlen
strlen_from zero len s k m lo hi z h = absurd (omega arith)
strlen_from (suc fuel) len s k m lo hi z h = elim (Bool-cases (m (s + len) == 0)) [
  | inl done ↦ ground (arith, done, h len)
  | inr more ↦ rw more (
      strlen_from fuel (len + 1) s k m (ground (arith, more, z, lo)) (omega arith) z
        (λ j l. h j (omega (arith, l))))
]

-- With fuel for the bytes up to the first zero, `strlen` returns their number.
pub strlen_lem :
    (fuel s k : ℕ) (m : Memory)
    → k < fuel
    → m (s + k) ≡ 0
    → ((j : ℕ) → j < k → m (s + j) ≢ 0)
    → strlen fuel 0 s m ≡ k
strlen_lem fuel s k m hi z h =
    strlen_from fuel 0 s k m (omega arith) (omega (arith, hi)) z (λ j lo. h j)
