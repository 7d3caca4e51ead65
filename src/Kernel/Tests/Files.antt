-- ===== src/Kernel/Tests/Files.antt =====
-- Runs of the descriptor table.
use flutter_os.Prelude.{ℕ, ◌≤◌, ◌<◌, ◌≡◌, refl, ◌≢◌, none, some, ◌∷◌, replicate}
use flutter_os.Kernel.Fd
use flutter_os.Kernel.Fd.{FdTable, FdKind, is_free}
use flutter_os.Kernel.Fd.Laws.{alloc_lowest, alloc-none}
use flutter_os.Kernel.Fd.{stream, free}
use flutter_os.Kernel.Fd.Laws

abbrev screen : FdKind
screen = Fd.framebuffer

abbrev opened_table : FdTable
opened_table = record { entries = stream ∷ stream ∷ stream ∷ screen ∷ replicate 124 free }

new_opens : Fd.alloc Fd.new screen ≡ (some 3, opened_table)
unfolding Fd.alloc Fd.new Fd.first_free
new_opens = refl

alloc_lowest_example :
    (3 ≤ 3)
    × (3 < 128)
    × (Fd.get Fd.new 3 ≡ none)
    × ((j : ℕ) → 3 ≤ j → j < 3 → Fd.get Fd.new j ≢ none)
    × (Fd.get opened_table 3 ≡ some screen)
    × ((j : ℕ) → 3 ≢ j → Fd.get opened_table j ≡ Fd.get Fd.new j)
    × Fd.Laws.IsValid opened_table
alloc_lowest_example = alloc_lowest Fd.new opened_table screen 3 Fd.Laws.new-IsValid refl new_opens

opened-IsValid : Fd.Laws.IsValid opened_table
opened-IsValid = record { full = refl; std = (refl, refl, refl) }
