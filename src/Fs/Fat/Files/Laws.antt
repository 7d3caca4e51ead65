-- ===== src/Fs/Fat/Files/Laws.antt =====
-- What `truncate` leaves of a file's chain: kernel/src/fs/fat32.rs.
use flutter_os.Prelude.{
  ℕ, zero, suc, ◌+◌, ◌-◌, ◌≤◌, ◌<◌, ◌≡◌, ◌≢◌, refl, sym, ap, ◌∙◌, subst, false, List, [], ◌∷◌,
  length, get_or, set, take, drop, arith, Bool-cases, inl, inr, length-set, get_or-set_self,
  get_or-set_ne, get_or-drop, length-drop,
}
use flutter_os.Prelude.Dict.{num_key}
use flutter_os.Fs.Fat.{fat_eoc, fat_free, chain_from, clear_all}
use flutter_os.Fs.Fat.Chain.{Linked, outside, is_last, chain_out, chain_last, chain_more}

pub length-clear_all : (cs fat : List ℕ) → length (clear_all cs fat) ≡ length fat
unfolding clear_all
length-clear_all [] fat = refl
length-clear_all (c ∷ cs) fat = length-clear_all cs (set fat c fat_free) ∙ length-set fat c fat_free

-- A cluster that is not in the list keeps its entry.
clear_all-other :
    (cs fat : List ℕ) (x : ℕ)
    → ((j : ℕ) → j < length cs → get_or cs j 0 ≢ x)
    → get_or (clear_all cs fat) x 0 ≡ get_or fat x 0
unfolding clear_all
clear_all-other [] fat x h = refl
clear_all-other (c ∷ cs) fat x h =
    clear_all-other cs (set fat c fat_free) x (λ j l. h (suc j) (omega (arith, l)))
    ∙ get_or-set_ne fat c x fat_free 0 (h 0 (omega arith))

clear_all-zero : (cs fat : List ℕ) (x : ℕ) → get_or fat x 0 ≡ 0 → get_or (clear_all cs fat) x 0 ≡ 0
unfolding clear_all
clear_all-zero [] fat x h = h
clear_all-zero (c ∷ cs) fat x h = clear_all-zero cs (set fat c fat_free) x (set-zero fat c x h)
  where
    set-zero : (xs : List ℕ) (i j : ℕ) → get_or xs j 0 ≡ 0 → get_or (set xs i fat_free) j 0 ≡ 0
    set-zero [] i j h = refl
    set-zero (y ∷ ys) zero zero h = refl
    set-zero (y ∷ ys) zero (suc j) h = h
    set-zero (y ∷ ys) (suc i) zero h = h
    set-zero (y ∷ ys) (suc i) (suc j) h = set-zero ys i j h

-- The clusters of the list are free.
clear_all-free :
    (cs fat : List ℕ) (j : ℕ)
    → ((i : ℕ) → i < length cs → get_or cs i 0 < length fat)
    → j < length cs
    → get_or (clear_all cs fat) (get_or cs j 0) 0 ≡ 0
unfolding clear_all
clear_all-free [] fat j h l = absurd (omega (arith, l))
clear_all-free (c ∷ cs) fat zero h l =
    clear_all-zero cs (set fat c fat_free) c (get_or-set_self fat c fat_free 0 (h 0 (omega arith)))
clear_all-free (c ∷ cs) fat (suc j) h l =
    clear_all-free cs (set fat c fat_free) j
      (λ i b. rw (length-set fat c fat_free) (h (suc i) (omega (arith, b)))) (omega (arith, l))

chain-cons :
    (n : ℕ) (fat : List ℕ) (c : ℕ)
    → outside fat c ≡ false
    → (ys : List ℕ) × (chain_from (suc n) fat c ≡ c ∷ ys)
chain-cons n fat c inside = elim (Bool-cases (is_last fat c)) [
  | inl last ↦ ([], chain_last n fat c inside last)
  | inr more ↦ (chain_from n fat (get_or fat c 0), chain_more n fat c inside more)
]

-- A chain whose table is changed behind a place, where it is ended, is cut there.
pub chain-take :
    (n keep : ℕ) (fat fat' : List ℕ) (c : ℕ)
    → length fat' ≡ length fat
    → suc keep ≤ length (chain_from n fat c)
    → ((j : ℕ)
        → j < keep
        → get_or fat' (get_or (chain_from n fat c) j 0) 0
          ≡ get_or fat (get_or (chain_from n fat c) j 0) 0)
    → get_or fat' (get_or (chain_from n fat c) keep 0) 0 ≡ fat_eoc
    → chain_from n fat' c ≡ take (suc keep) (chain_from n fat c)
unfolding chain_from
chain-take zero keep fat fat' c hl hk same end = absurd (omega (arith, hk))
chain-take (suc n) zero fat fat' c hl hk same end = elim (Bool-cases (outside fat c)) [
  | inl out ↦ absurd (omega (arith, subst (λ t. 1 ≤ length t) (chain_out n fat c out) hk))
  | inr inside ↦
      let (ys, e) = chain-cons n fat c inside in
      let end' = subst (λ t. get_or fat' (get_or t 0 0) 0 ≡ fat_eoc) e end in
      chain_last n fat' c (rw hl inside) (rw end' refl) ∙ sym (ap (take 1) e)
]
chain-take (suc n) (suc keep) fat fat' c hl hk same end = elim (Bool-cases (outside fat c)) [
  | inl out ↦
      absurd (omega (arith, subst (λ t. suc (suc keep) ≤ length t) (chain_out n fat c out) hk))
  | inr inside ↦ elim (Bool-cases (is_last fat c)) [
    | inl last ↦
        absurd (
          omega (arith, subst (λ t. suc (suc keep) ≤ length t) (chain_last n fat c inside last) hk))
    | inr more ↦
        let e = chain_more n fat c inside more in
        let next = get_or fat c 0 in
        let first : get_or fat' c 0 ≡ next =
          subst (λ t. get_or fat' (get_or t 0 0) 0 ≡ get_or fat (get_or t 0 0) 0) e
            (same 0 (omega arith)) in
        chain_more n fat' c (rw hl inside) (rw first more)
        ∙ ap (λ t. c ∷ t)
            (ap (chain_from n fat') first
              ∙ chain-take n keep fat fat' next hl
                  (let l = subst (λ t. suc (suc keep) ≤ length t) e hk in omega (arith, l))
                  (λ j l.
                    subst
                      (λ t. get_or fat' (get_or t (suc j) 0) 0 ≡ get_or fat (get_or t (suc j) 0) 0)
                      e (same (suc j) (omega (arith, l))))
                  (subst (λ t. get_or fat' (get_or t (suc keep) 0) 0 ≡ fat_eoc) e end))
        ∙ sym (ap (take (suc (suc keep))) e)
  ]
]

Linked-below :
    (fat cs : List ℕ) (j : ℕ) → Linked fat cs → j < length cs → get_or cs j 0 < length fat
Linked-below fat [] j k l = absurd (omega (arith, l))
Linked-below fat (c ∷ []) zero (lo, hi) l = hi
Linked-below fat (c ∷ []) (suc j) k l = absurd (omega (arith, l))
Linked-below fat (c ∷ d ∷ cs) zero (lo, hi, e, k) l = hi
Linked-below fat (c ∷ d ∷ cs) (suc j) (lo, hi, e, k) l =
    Linked-below fat (d ∷ cs) j k (omega (arith, l))

-- No cluster comes twice.
abbrev pub AreDistinct : List ℕ → Type 0
AreDistinct cs = (i j : ℕ) → i < length cs → j < length cs → get_or cs i 0 ≡ get_or cs j 0 → i ≡ j

-- The table that `cut` leaves when it keeps a part of the chain, up to place `last`.
abbrev pub cut_table : List ℕ → List ℕ → ℕ → List ℕ
cut_table fat chain last = set (clear_all (drop (suc last) chain) fat) (get_or chain last 0) fat_eoc

-- The entry of a cluster of the chain.
abbrev pub entry : List ℕ → List ℕ → ℕ → ℕ
entry fat chain j = get_or fat (get_or chain j 0) 0

pub cut_table-kept :
    (fat chain : List ℕ) (last j : ℕ)
    → AreDistinct chain
    → last < length chain
    → j < last
    → entry (cut_table fat chain last) chain j ≡ entry fat chain j
cut_table-kept fat chain last j ne hl hj =
    get_or-set_ne (clear_all (drop (suc last) chain) fat) (get_or chain last 0) (get_or chain j 0)
      fat_eoc 0 (λ e. absurd (omega (arith, hj, ne last j hl (omega (arith, hl, hj)) e)))
    ∙ clear_all-other (drop (suc last) chain) fat (get_or chain j 0) (λ i l e.
      let e' = sym (get_or-drop (suc last) chain i 0) ∙ e in
      let l' : suc last + i < length chain = omega (arith, l, length-drop (suc last) chain) in
      absurd (omega (arith, hj, ne (suc last + i) j l' (omega (arith, hl, hj)) e')))

pub cut_table-last :
    (fat chain : List ℕ) (last : ℕ)
    → Linked fat chain
    → last < length chain
    → entry (cut_table fat chain last) chain last ≡ fat_eoc
cut_table-last fat chain last k hl =
    get_or-set_self (clear_all (drop (suc last) chain) fat) (get_or chain last 0) fat_eoc 0
      (rw (length-clear_all (drop (suc last) chain) fat) (Linked-below fat chain last k hl))

pub cut_table-dropped :
    (fat chain : List ℕ) (last j : ℕ)
    → AreDistinct chain
    → Linked fat chain
    → last < j
    → j < length chain
    → entry (cut_table fat chain last) chain j ≡ 0
cut_table-dropped fat chain last j ne k lo hi =
    let rest = drop (suc last) chain in
    let i = j - suc last in
    let at : get_or rest i 0 ≡ get_or chain j 0 =
      get_or-drop (suc last) chain i 0
      ∙ (let e : suc last + i ≡ j = omega arith in ap (λ p. get_or chain p 0) e) in
    let inside : i < length rest = omega (arith, lo, hi, length-drop (suc last) chain) in
    get_or-set_ne (clear_all rest fat) (get_or chain last 0) (get_or chain j 0) fat_eoc 0
      (λ e. absurd (omega (arith, lo, ne last j (omega (arith, lo, hi)) hi e)))
    ∙ subst (λ c. get_or (clear_all rest fat) c 0 ≡ 0) at
        (clear_all-free rest fat i
          (λ p l. rw (get_or-drop (suc last) chain p 0) (
            Linked-below fat chain (suc last + p) k
              (omega (arith, l, length-drop (suc last) chain))))
          inside)
