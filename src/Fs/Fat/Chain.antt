-- ===== src/Fs/Fat/Chain.antt =====
-- Cluster chains of kernel/src/fs/fat32.rs.
use flutter_os.Prelude.{
  ℕ, zero, suc, ◌+◌, ◌-◌, ◌%◌, ◌^◌, ◌≤◌, ◌<◌, ◌≡◌, refl, ◌≢◌, Bool, true, false, ◌||◌, some, List,
  [], ◌∷◌, ltb, leb, ◌==◌, length, get_or, set, arith, Bool-cases, Option-cases, inl, inr, ◌∙◌, ap,
  sym, length-set, get_or-set_self, get_or-set_ne, set-set, set-get_or,
}
use flutter_os.Fs.Fat.{
  Fat32, fat_eoc, chain_from, cluster_chain, free_from, alloc_cluster, clear_all, free_chain,
}

-- Every cluster of the list is one of the table's, from 2 on, and the table links it to the next.
abbrev pub Linked : List ℕ → List ℕ → Type 0
Linked fat [] = Unit
Linked fat (c ∷ []) = (2 ≤ c) × (c < length fat)
Linked fat (c ∷ d ∷ cs) = (2 ≤ c) × (c < length fat) × (get_or fat c 0 ≡ d) × Linked fat (d ∷ cs)

abbrev pub outside : List ℕ → ℕ → Bool
outside fat c = ltb c 2 || leb (length fat) c

abbrev pub is_last : List ℕ → ℕ → Bool
is_last fat c = leb (fat_eoc - 1) (get_or fat c 0) || (get_or fat c 0 == 0)

pub chain_out :
    (n : ℕ) (fat : List ℕ) (c : ℕ) → outside fat c ≡ true → chain_from (suc n) fat c ≡ []
unfolding chain_from
chain_out n fat c h = rw (chain_from, h) refl

pub chain_last :
    (n : ℕ) (fat : List ℕ) (c : ℕ)
    → outside fat c ≡ false
    → is_last fat c ≡ true
    → chain_from (suc n) fat c ≡ c ∷ []
unfolding chain_from
chain_last n fat c h k = rw (chain_from, h, k) refl

pub chain_more :
    (n : ℕ) (fat : List ℕ) (c : ℕ)
    → outside fat c ≡ false
    → is_last fat c ≡ false
    → chain_from (suc n) fat c ≡ c ∷ chain_from n fat (get_or fat c 0)
unfolding chain_from
chain_more n fat c h k = rw (chain_from, h, k) refl

-- The list is empty or begins with the cluster.
abbrev Begins : ℕ → List ℕ → Type 0
Begins x [] = Unit
Begins x (d ∷ ds) = d ≡ x

chain-Begins : (n : ℕ) (fat : List ℕ) (c : ℕ) → Begins c (chain_from n fat c)
unfolding chain_from
chain-Begins zero fat c = tt
chain-Begins (suc n) fat c = elim (Bool-cases (outside fat c)) [
  | inl out ↦ rw (chain_out n fat c out) tt
  | inr good ↦ elim (Bool-cases (is_last fat c)) [
    | inl last ↦ rw (chain_last n fat c good last) refl
    | inr more ↦ rw (chain_more n fat c good more) refl
  ]
]

cons-Linked :
    (fat : List ℕ) (c x : ℕ) (rest : List ℕ)
    → 2 ≤ c
    → c < length fat
    → get_or fat c 0 ≡ x
    → Begins x rest
    → Linked fat rest
    → Linked fat (c ∷ rest)
cons-Linked fat c x [] lo hi e b l = (lo, hi)
cons-Linked fat c x (d ∷ rest) lo hi e b l = (lo, hi, e ∙ sym b, l)

-- A chain that is followed consists of clusters of the table, each linked to the next, and is no
-- longer than the number of rounds, whatever the table holds, cycles included.
pub chain_from-Linked :
    (n : ℕ) (fat : List ℕ) (c : ℕ)
    → Linked fat (chain_from n fat c) × (length (chain_from n fat c) ≤ n)
unfolding chain_from
chain_from-Linked zero fat c = (tt, omega arith)
chain_from-Linked (suc n) fat c = elim (Bool-cases (outside fat c)) [
  | inl out ↦ rw (chain_out n fat c out) (tt, omega arith)
  | inr good ↦
      let lo : 2 ≤ c = ground (arith, good) in
      let hi : c < length fat = ground (arith, good) in
      elim (Bool-cases (is_last fat c)) [
        | inl last ↦ rw (chain_last n fat c good last) ((lo, hi), omega arith)
        | inr more ↦
            let next = get_or fat c 0 in
            let (linked, short) = chain_from-Linked n fat next in
            rw (chain_more n fat c good more) (
              cons-Linked fat c next (chain_from n fat next) lo hi refl (chain-Begins n fat next)
                  linked,
              omega (arith, short),
            )
      ]
]

-- The scan stops at the first free cluster.
free_from-some :
    (n i : ℕ) (fat : List ℕ) (k : ℕ)
    → free_from n i fat ≡ some k
    → (i ≤ k) × (k < i + n) × (get_or fat k 0 ≡ 0) × ((j : ℕ) → i ≤ j → j < k → get_or fat j 0 ≢ 0)
unfolding free_from
free_from-some zero i fat k e = absurd (ground (arith, e))
free_from-some (suc n) i fat k e = elim (Bool-cases (get_or fat i 0 == 0)) [
  | inl hit ↦ (
    ground (arith, e, hit),
    ground (arith, e, hit),
    ground (arith, e, hit),
    λ j lo hi. absurd (ground (arith, e, hit, lo, hi)),
  )
  | inr miss ↦
      let (lo, hi, at, first) = free_from-some n (i + 1) fat k (ground (arith, e, miss)) in
      (
        omega (arith, lo),
        omega (arith, hi),
        at,
        λ j l h. elim (Bool-cases (i == j)) [
          | inl same ↦ ground (arith, same, miss)
          | inr other ↦ first j (ground (arith, l, other)) h
        ],
      )
]

alloc_inv :
    (f : Fat32) (i : ℕ) (f' : Fat32)
    → length f.fat_cache ≤ 2 ^ 32
    → alloc_cluster f ≡ (some i, f')
    → (free_from (length f.fat_cache - 2) 2 f.fat_cache ≡ some i)
      × (f' ≡ record f { fat_cache = set f.fat_cache i fat_eoc })
unfolding alloc_cluster
alloc_inv f i f' small e = elim (Option-cases (free_from (length f.fat_cache - 2) 2 f.fat_cache)) [
  | inl full ↦ absurd (ground (arith, e, full))
  | inr (k, hit) ↦
      let (_, hi, _, _) = free_from-some (length f.fat_cache - 2) 2 f.fat_cache k hit in
      let same : k % 2 ^ 32 ≡ k = omega (arith, small, hi) in ground (arith, e, hit, same)
]

-- An allocated cluster is the lowest free one from 2 on; it is marked as the end of a chain, and no
-- other entry of the table changes.
pub alloc_cluster_lem :
    (f : Fat32) (i : ℕ) (f' : Fat32)
    → length f.fat_cache ≤ 2 ^ 32
    → alloc_cluster f ≡ (some i, f')
    → (2 ≤ i)
      × (i < length f.fat_cache)
      × (get_or f.fat_cache i 0 ≡ 0)
      × ((j : ℕ) → 2 ≤ j → j < i → get_or f.fat_cache j 0 ≢ 0)
      × (get_or f'.fat_cache i 0 ≡ fat_eoc)
      × ((j : ℕ) → i ≢ j → get_or f'.fat_cache j 0 ≡ get_or f.fat_cache j 0)
alloc_cluster_lem f i f' small e =
    let (hit, is) = alloc_inv f i f' small e in
    let (lo, hi, at, first) = free_from-some (length f.fat_cache - 2) 2 f.fat_cache i hit in
    let below : i < length f.fat_cache = omega (arith, lo, hi) in
    (
      lo,
      below,
      at,
      first,
      rw is (get_or-set_self f.fat_cache i fat_eoc 0 below),
      λ j ne. rw is (get_or-set_ne f.fat_cache i j fat_eoc 0 ne),
    )

chain-end :
    (n : ℕ) (fat : List ℕ) (c : ℕ)
    → 2 ≤ c
    → c < length fat
    → get_or fat c 0 ≡ fat_eoc
    → chain_from (suc n) fat c ≡ c ∷ []
chain-end n fat c lo hi e = chain_last n fat c (ground (arith, lo, hi)) (ground (arith, e))

free_chain_one :
    (f : Fat32) (i : ℕ)
    → chain_from 1000000 f.fat_cache i ≡ i ∷ []
    → free_chain f i ≡ record f { fat_cache = set f.fat_cache i 0 }
unfolding free_chain cluster_chain clear_all
free_chain_one f i e = ap (λ cs. record f { fat_cache = clear_all cs f.fat_cache }) e

-- Freeing the chain of a cluster that was just allocated gives the table back.
pub free_chain-alloc_cluster :
    (f : Fat32) (i : ℕ) (f' : Fat32)
    → length f.fat_cache ≤ 2 ^ 32
    → alloc_cluster f ≡ (some i, f')
    → free_chain f' i ≡ f
free_chain-alloc_cluster f i f' small e =
    let (_, is) = alloc_inv f i f' small e in
    let (lo, hi, at, _, end, _) = alloc_cluster_lem f i f' small e in
    let fat = f.fat_cache in
    let within : i < length (set fat i fat_eoc) = rw (length-set fat i fat_eoc) hi in
    rw is (
      free_chain_one (record f { fat_cache = set fat i fat_eoc }) i
        (chain-end 999999 (set fat i fat_eoc) i lo within (get_or-set_self fat i fat_eoc 0 hi))
      ∙ ap (λ t. record f { fat_cache = t })
          (set-set fat i fat_eoc 0 ∙ (ap (λ k. set fat i k) (sym at) ∙ set-get_or fat i 0)))
