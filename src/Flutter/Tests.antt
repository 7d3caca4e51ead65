-- ===== src/Flutter/Tests.antt =====
-- Input events at concrete bytes: the key a, an arrow key and its release.
use flutter_os.Prelude.{ℕ, ◌≡◌, refl, some, none, List, [], ◌∷◌, take}
use flutter_os.Flutter.Input.{new, scancode_to_char, pointer_for, poll_byte, poll_from, poll}
use flutter_os.Flutter.Input.Laws.{all_events, poll_lem}

abbrev typed : List (ℕ × ℕ)
typed = (30, 100) ∷ (224, 101) ∷ (77, 102) ∷ (205, 103) ∷ []

poll_lem_example : poll typed new ≡ (take 32 (all_events typed new).0, (all_events typed new).1)
poll_lem_example = poll_lem typed new

moved : (poll typed new).1 ≡ record { cursor_x = 5; cursor_y = 0 }
unfolding poll poll_from poll_byte pointer_for
moved = refl

letter : scancode_to_char 30 ≡ some 97
unfolding scancode_to_char
letter = refl

nothing : scancode_to_char 1 ≡ none
unfolding scancode_to_char
nothing = refl
