-- ===== src/Kernel/Elf/Laws.antt =====
-- kernel/src/exec.rs: what the loader accepts and counts.
use flutter_os.Prelude.{ℕ, zero, suc, ◌+◌, ◌≤◌, ◌≡◌, refl, none, List, arith, subst, length, get_or}
use flutter_os.Kernel.Bytes.{slice}
use flutter_os.Kernel.Elf.{
  LoadResult, loaded, refused, panicked, Round, stop, crash, skip, count, round, load_segments,
  load_elf, validate_header_raw, e_type, e_machine, e_entry, e_phoff, e_phentsize, e_phnum,
}

-- What a loaded result says.
abbrev pub Counts : ℕ → ℕ → LoadResult → Type 0
Counts entry n (loaded e k) = (e ≡ entry) × (k ≤ n)
Counts entry n (refused x) = Unit {0}
Counts entry n panicked = Unit {0}

Counts-mono : (entry m n : ℕ) (r : LoadResult) → m ≤ n → Counts entry m r → Counts entry n r
Counts-mono entry m n (loaded e k) h c = (c.0, omega (arith, c.1))
Counts-mono entry m n (refused x) h c = tt
Counts-mono entry m n panicked h c = tt

after_round :
    (entry n segs : ℕ) (r : Round) (skipped counted : LoadResult)
    → segs ≤ n
    → Counts entry n skipped
    → Counts entry n counted
    → Counts entry n
        (elim r [ stop ↦ loaded entry segs | crash ↦ panicked | skip ↦ skipped | count ↦ counted ])
after_round entry n segs stop s c h x y = (refl, h)
after_round entry n segs crash s c h x y = tt
after_round entry n segs skip s c h x y = x
after_round entry n segs count s c h x y = y

segments_lem :
    (buf : List ℕ) (base size entry n i segs : ℕ)
    → Counts entry (segs + n) (load_segments buf base size entry n i segs)
unfolding load_segments
segments_lem buf base size entry zero i segs = (refl, omega arith)
segments_lem buf base size entry (suc n) i segs =
    after_round entry (segs + suc n) segs (round buf base size i) _ _ (omega arith)
      (Counts-mono entry (segs + n) (segs + suc n) _ (omega arith)
        (segments_lem buf base size entry n (i + 1) segs))
      (Counts-mono entry (segs + 1 + n) (segs + suc n) _ (omega arith)
        (segments_lem buf base size entry n (i + 1) (segs + 1)))

-- The properties of an image that the loader accepts: the header is complete and names a
-- little-endian 64-bit executable for x86-64.
pub record IsExecutable (buf : List ℕ) : Type 0 where
  pub long : 64 ≤ length buf
  pub magic :
      (get_or (slice buf 0 16) 0 0 ≡ 127)
      × (get_or (slice buf 0 16) 1 0 ≡ 69)
      × (get_or (slice buf 0 16) 2 0 ≡ 76)
      × (get_or (slice buf 0 16) 3 0 ≡ 70)
  pub class64 : get_or (slice buf 0 16) 4 0 ≡ 2
  pub little : get_or (slice buf 0 16) 5 0 ≡ 1
  pub exec : e_type buf ≡ 2
  pub machine : e_machine buf ≡ 62

header_ok :
    (ident : List ℕ) (t m : ℕ)
    → validate_header_raw ident t m ≡ none
    → ((get_or ident 0 0 ≡ 127)
        × (get_or ident 1 0 ≡ 69)
        × (get_or ident 2 0 ≡ 76)
        × (get_or ident 3 0 ≡ 70))
      × (get_or ident 4 0 ≡ 2)
      × (get_or ident 5 0 ≡ 1)
      × (t ≡ 2)
      × (m ≡ 62)
unfolding validate_header_raw
header_ok ident t m e = ground arith

accepted :
    (buf : List ℕ) (entry segs : ℕ)
    → load_elf buf ≡ loaded entry segs
    → (64 ≤ length buf)
      × (validate_header_raw (slice buf 0 16) (e_type buf) (e_machine buf) ≡ none)
      × (load_segments buf (e_phoff buf) (e_phentsize buf) (e_entry buf) (e_phnum buf) 0 0
          ≡ loaded entry segs)
unfolding load_elf
accepted buf entry segs e = ground arith

-- An image that loads has the header of an executable for this machine; the result carries the
-- entry point of its header, and counts at most as many segments as it has program headers.
pub load_elf_lem :
    (buf : List ℕ) (entry segs : ℕ)
    → load_elf buf ≡ loaded entry segs
    → IsExecutable buf × (entry ≡ e_entry buf) × (segs ≤ e_phnum buf)
load_elf_lem buf entry segs e =
    let (long, valid, rest) = accepted buf entry segs e in
    let (magic, class64, little, exec, machine) =
      header_ok (slice buf 0 16) (e_type buf) (e_machine buf) valid in
    let counts =
      subst (Counts (e_entry buf) (0 + e_phnum buf)) rest
        (segments_lem buf (e_phoff buf) (e_phentsize buf) (e_entry buf) (e_phnum buf) 0 0) in
    (
      record {
        long = long;
        magic = magic;
        class64 = class64;
        little = little;
        exec = exec;
        machine = machine;
      },
      counts.0,
      omega (arith, counts.1),
    )
