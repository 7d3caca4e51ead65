-- ===== src/Prelude/Loops.antt =====
-- Counted loops, and what a loop of writes leaves at one place that is looked at.
use Prim.Native.Nat.{ℕ, zero, suc, ◌+◌}
use mathlib.Core.Path.{◌≡◌, refl}
use mathlib.Core.Bool.{Bool, true, false, ◌&&◌, ◌||◌}
use native.Mathlib.Omega.{arith}
use flutter_os.Prelude.Tests.{ltb, leb, ◌==◌, if◌then◌else◌, Bool-cases}
use mathlib.Core.Logic.{inl, inr}

-- `for k in i..i + n`
unfoldable pub sweep {κ} : {A : Type κ} (left first : ℕ) (round : ℕ → A → A) → A → A
sweep zero first round a = a
sweep (suc left) first round a = let next = round first a in sweep left (first + 1) round next

-- Whether a test holds at an index of `i..i + n`.
unfoldable pub any : ℕ → ℕ → (ℕ → Bool) → Bool
any zero i p = false
any (suc n) i p = p i || any n (i + 1) p

if_same {ℓ} : {A : Type ℓ} (b : Bool) (c : A) → (if b then c else c) ≡ c
if_same true c = refl
if_same false c = refl

-- `view` looks at one place. A body that writes c there in the rounds that p tells, and nothing in the
-- others, makes a loop that writes c there if p holds in some round.
pub sweep-view {ℓ κ} :
    {S : Type ℓ} {C : Type κ} (view : S → C) (c : C) (p : ℕ → Bool) (body : ℕ → S → S)
    → ((k : ℕ) (s : S) → view (body k s) ≡ (if p k then c else view s))
    → (n i : ℕ) (s : S) → view (sweep n i body s) ≡ (if any n i p then c else view s)
unfolding sweep any
sweep-view view c p body step zero i s = refl
sweep-view view c p body step (suc n) i s =
    let later = sweep-view view c p body step n (i + 1) (body i s) in
    elim (Bool-cases (p i)) [
      | inl hit ↦ rw (later, hit, step i s, hit) (if_same (any n (i + 1) p) c)
      | inr miss ↦ rw (later, miss, step i s, miss) refl
    ]

-- The rounds that reach one number.
pub any_at : (n i x j : ℕ) → any n i (λ k. x + k == j) ≡ (leb (x + i) j && ltb j (x + i + n))
unfolding any
any_at zero i x j = ground arith
any_at (suc n) i x j = ground (arith, any_at n (i + 1) x j)

pub any_and : (n i : ℕ) (q : Bool) (p : ℕ → Bool) → any n i (λ k. q && p k) ≡ (q && any n i p)
unfolding any
any_and zero i true p = refl
any_and zero i false p = refl
any_and (suc n) i q p = ground (arith, any_and n (i + 1) q p)
