-- ===== src/Kernel/Tests/Images.antt =====
-- Runs of the frame allocator and of the image loaders.
use flutter_os.Prelude.{ℕ, ◌≤◌, ◌≡◌, refl, List, [], ◌∷◌, ◌++◌, replicate}
use flutter_os.Kernel.Aero.{load_aero, ok}
use flutter_os.Kernel.Aero.Laws.{packed, four, load-packed}
use flutter_os.Kernel.Elf.{
  load_elf, loaded, e_entry, e_phnum, validate_header_raw, load_segments, round, parse_phdr,
}
use flutter_os.Kernel.Elf.Laws.{load_elf_lem, IsExecutable}

abbrev elf : List ℕ
elf = 127 ∷ 69 ∷ 76 ∷ []

abbrev letters_a : List ℕ
letters_a = b'a' ∷ []

load-packed_example :
    load_aero (packed letters_a (four 255 0 0 0 ++ four 3 0 0 0 ++ (0 ∷ 0 ∷ []) ++ elf ++ (9 ∷ [])))
    ≡ ok elf
load-packed_example = load-packed letters_a elf (9 ∷ []) 255 0 0 0 3 0 0 0 0 0 refl

-- A header with entry point 4096 and one program header behind it.
abbrev program : List ℕ
program =
    127
    ∷ 69
    ∷ 76
    ∷ 70
    ∷ 2
    ∷ 1
    ∷ (replicate 10 0
        ++ (2
            ∷ 0
            ∷ 62
            ∷ 0
            ∷ (replicate 5 0
                ++ (16
                    ∷ (replicate 6 0
                        ++ (64
                            ∷ (replicate 21 0
                                ++ (56 ∷ 0 ∷ 1 ∷ 0 ∷ (replicate 6 0 ++ (1 ∷ replicate 55 0))))))))))

program_loads : load_elf program ≡ loaded 4096 1
unfolding load_elf validate_header_raw load_segments round parse_phdr
program_loads = refl

load_elf_lem_example : IsExecutable program × (4096 ≡ e_entry program) × (1 ≤ e_phnum program)
load_elf_lem_example = load_elf_lem program 4096 1 program_loads
