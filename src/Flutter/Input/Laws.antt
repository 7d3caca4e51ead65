-- ===== src/Flutter/Input/Laws.antt =====
-- What `poll` of flutter_adapter/src/input.rs returns, as a list without a bound.
use flutter_os.Prelude.{
  ℕ, zero, suc, ◌≡◌, refl, sym, ap, subst, ◌∙◌, true, false, ◌||◌, Option, none, some, List, [],
  ◌∷◌, ◌++◌, ltb, leb, ◌==◌, if◌then◌else◌, length, take, Bool-cases, inl, inr, arith,
}
use flutter_os.Flutter.Input.{
  InputEvent, InputAdapter, push, push_option, key_event, pointer_for, poll_byte, poll_from, poll,
}

-- The events of an option.
abbrev made : Option InputEvent → List InputEvent
made none = []
made (some e) = e ∷ []

-- The events that a byte makes, and the cursor behind it.
abbrev pub events_of : ℕ → ℕ → InputAdapter → List InputEvent × InputAdapter
events_of sc stamp a =
    let (e, a') = pointer_for sc stamp a in
    if (sc == 224) || (sc == 225)
    then ([], a)
    else if leb 128 sc
    then (key_event sc stamp ∷ [], a)
    else (key_event sc stamp ∷ made e, a')

-- All events of the bytes, however many, and the cursor behind them.
abbrev pub all_events : List (ℕ × ℕ) → InputAdapter → List InputEvent × InputAdapter
all_events [] a = ([], a)
all_events ((sc, stamp) ∷ bytes) a =
    let (here, a') = events_of sc stamp a in
    let (later, a'') = all_events bytes a' in (here ++ later, a'')

append-[] : (xs : List InputEvent) → xs ++ [] ≡ xs
append-[] [] = refl
append-[] (x ∷ xs) = ap (λ t. x ∷ t) (append-[] xs)

append_assoc : (xs ys zs : List InputEvent) → (xs ++ ys) ++ zs ≡ xs ++ (ys ++ zs)
append_assoc [] ys zs = refl
append_assoc (x ∷ xs) ys zs = ap (λ t. x ∷ t) (append_assoc xs ys zs)

take-nil : (n : ℕ) → take {A = InputEvent} n [] ≡ []
take-nil zero = refl
take-nil (suc n) = refl

-- The list keeps the first events that are pushed.
take-push :
    (n : ℕ) (xs : List InputEvent) (e : InputEvent)
    → (if ltb (length (take n xs)) n then take n xs ++ (e ∷ []) else take n xs)
      ≡ take n (xs ++ (e ∷ []))
take-push zero xs e = refl
take-push (suc n) [] e = rw (take-nil n) (ground arith)
take-push (suc n) (x ∷ xs) e =
    let kept = take n xs in
    let added = kept ++ (e ∷ []) in
    let ih : (if ltb (length kept) n then added else kept) ≡ take n (xs ++ (e ∷ [])) =
      take-push n xs e in
    elim (Bool-cases (ltb (length kept) n)) [
      | inl room ↦
          let room' : ltb (suc (length kept)) (suc n) ≡ true = ground (arith, room) in
          rw room' (
            ap (λ t. x ∷ t)
              (subst (λ b. (if b then added else kept) ≡ take n (xs ++ (e ∷ []))) room ih))
      | inr full ↦
          let full' : ltb (suc (length kept)) (suc n) ≡ false = ground (arith, full) in
          rw full' (
            ap (λ t. x ∷ t)
              (subst (λ b. (if b then added else kept) ≡ take n (xs ++ (e ∷ []))) full ih))
    ]

push-take : (xs : List InputEvent) (e : InputEvent) → push (take 32 xs) e ≡ take 32 (xs ++ (e ∷ []))
unfolding push
push-take xs e = take-push 32 xs e

push_option-take :
    (xs : List InputEvent) (k : InputEvent) (o : Option InputEvent)
    → push_option (push (take 32 xs) k) o ≡ take 32 (xs ++ (k ∷ made o))
push_option-take xs k none = push-take xs k
push_option-take xs k (some e) =
    ap (λ t. push t e) (push-take xs k)
    ∙ push-take (xs ++ (k ∷ [])) e
    ∙ ap (take 32) (append_assoc xs (k ∷ []) (e ∷ []))

poll_byte-take :
    (sc stamp : ℕ) (xs : List InputEvent) (a : InputAdapter)
    → poll_byte sc stamp (take 32 xs, a)
      ≡ (take 32 (xs ++ (events_of sc stamp a).0), (events_of sc stamp a).1)
unfolding poll_byte
poll_byte-take sc stamp xs a = elim (Bool-cases ((sc == 224) || (sc == 225))) [
  | inl passed ↦ rw passed (ap (λ t. (take 32 t, a)) (sym (append-[] xs)))
  | inr kept ↦ elim (Bool-cases (leb 128 sc)) [
    | inl release ↦ rw (kept, release) (ap (λ t. (t, a)) (push-take xs (key_event sc stamp)))
    | inr press ↦
        rw (kept, press)
          (ap (λ t. (t, (pointer_for sc stamp a).1))
            (push_option-take xs (key_event sc stamp) (pointer_for sc stamp a).0))
  ]
]

poll_from-take :
    (bytes : List (ℕ × ℕ)) (xs : List InputEvent) (a : InputAdapter)
    → poll_from bytes (take 32 xs, a)
      ≡ (take 32 (xs ++ (all_events bytes a).0), (all_events bytes a).1)
unfolding poll_from
poll_from-take [] xs a = ap (λ t. (take 32 t, a)) (sym (append-[] xs))
poll_from-take ((sc, stamp) ∷ bytes) xs a =
    let (here, a') = events_of sc stamp a in
    ap (poll_from bytes) (poll_byte-take sc stamp xs a)
    ∙ poll_from-take bytes (xs ++ here) a'
    ∙ ap (λ t. (take 32 t, (all_events bytes a').1)) (append_assoc xs here (all_events bytes a').0)

-- `poll` returns the first 32 of the events that the bytes make, in their order, and moves the cursor
-- by all of the bytes.
pub poll_lem :
    (bytes : List (ℕ × ℕ)) (a : InputAdapter)
    → poll bytes a ≡ (take 32 (all_events bytes a).0, (all_events bytes a).1)
unfolding poll
poll_lem bytes a = poll_from-take bytes [] a
