-- ===== src/Input/Hid/Laws.antt =====
-- Which keys a USB keyboard types, by kernel/src/usb/hid.rs and `scancode_to_ascii`.
use flutter_os.Prelude.{
  ℕ, zero, suc, ◌+◌, ◌<◌, ◌≡◌, refl, Bool, true, false, ◌&&◌, Option, none, some, List, [], ◌∷◌,
  ◌==◌, ltb, arith, Option-cases, if_elim, Bool-cases, ◌≤◌, inl, inr,
}
use flutter_os.Input.Ring.{ScancodeBuffer}
use flutter_os.Input.Ring.Laws.{IsValid, push_lem}
use flutter_os.Input.Hid.{hid_to_scancode, scancode_to_ascii, report_key, process_keycodes}

-- The test of `count` keys, from `first` upwards.
keys_pass : (test : ℕ → Bool) (count first : ℕ) → Bool
keys_pass test zero first = true
keys_pass test (suc count) first = keys_pass test count (first + 1) && test first

key_passes :
    (test : ℕ → Bool) (count first key : ℕ)
    → first ≤ key
    → key < first + count
    → keys_pass test count first ≡ true
    → test key ≡ true
unfolding keys_pass
key_passes test zero first key low high table = absurd (omega arith)
key_passes test (suc count) first key low high table = elim (Bool-cases (first == key)) [
  | inl here ↦ ground (arith, table)
  | inr later ↦ key_passes test count (first + 1) key (ground arith) (omega arith) (ground arith)
]

-- The character that a key types.
abbrev pub typed : ℕ → Option ℕ
typed kc = elim (hid_to_scancode kc) [ none ↦ none | some sc ↦ scancode_to_ascii sc ]

-- The test that the table below makes of a key.
letter_ok : ℕ → Bool
letter_ok k = elim (typed (k + 4)) [ none ↦ false | some c ↦ c == k + 97 ]

letters_table : keys_pass letter_ok 26 0 ≡ true
unfolding keys_pass letter_ok hid_to_scancode scancode_to_ascii
letters_table = refl

-- The 26 letter keys of a USB keyboard type the letters a to z.
pub letters : (k : ℕ) → k < 26 → typed (k + 4) ≡ some (k + 97)
unfolding letter_ok
letters k h = ground (arith, key_passes letter_ok 26 0 k (omega arith) (omega arith) letters_table)

code_ok : ℕ → Bool
code_ok k = elim (hid_to_scancode k) [ none ↦ true | some sc ↦ ltb 0 sc && ltb sc 128 ]

codes_table : keys_pass code_ok 256 0 ≡ true
unfolding keys_pass code_ok hid_to_scancode
codes_table = refl

-- Every scancode that a USB key is turned into is a make code: neither a release nor a prefix byte.
pub make_codes : (kc sc : ℕ) → kc < 256 → hid_to_scancode kc ≡ some sc → (0 < sc) × (sc < 128)
unfolding code_ok
make_codes kc sc h e =
    ground (arith, key_passes code_ok 256 0 kc (omega arith) (omega arith) codes_table)

report_key-IsValid : (b : ScancodeBuffer) (kc : ℕ) → IsValid b → IsValid (report_key b kc)
unfolding report_key
report_key-IsValid b kc v =
    if_elim IsValid (kc == 0) _ _ v (elim (Option-cases (hid_to_scancode kc)) [
      | inl unknown ↦ rw unknown v
      | inr (sc, e) ↦ rw e (push_lem b sc v).1
    ])

pub process_keycodes-IsValid :
    (b : ScancodeBuffer) (kcs : List ℕ) → IsValid b → IsValid (process_keycodes b kcs)
unfolding process_keycodes
process_keycodes-IsValid b [] v = v
process_keycodes-IsValid b (kc ∷ kcs) v =
    process_keycodes-IsValid (report_key b kc) kcs (report_key-IsValid b kc v)
