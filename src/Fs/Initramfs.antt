-- ===== src/Fs/Initramfs.antt =====
-- The files that the kernel starts with: the helpers at the end of kernel/src/fs/tmpfs.rs, and init of
-- kernel/src/fs/initramfs.rs. The contents of the files are arguments.
use flutter_os.Prelude.{ℕ, none, some, List, [], ◌∷◌}
use flutter_os.Fs.Result.{Result, ok, err, no_mount, and_then, Name, FileOps}
use flutter_os.Fs.Path.{split_parent_name, root_path}
use flutter_os.Fs.Vfs.{Vfs, find_mount, resolve, call, mount}
use flutter_os.Fs.Tmpfs as Tmpfs
use flutter_os.Fs.Tmpfs.{Tmpfs}

abbrev pub bin : Name
bin = 47 ∷ 98 ∷ 105 ∷ 110 ∷ []

abbrev pub bin_hello : Name
bin_hello = 47 ∷ 98 ∷ 105 ∷ 110 ∷ 47 ∷ 104 ∷ 101 ∷ 108 ∷ 108 ∷ 111 ∷ []

abbrev pub bin_forktest : Name
bin_forktest = 47 ∷ 98 ∷ 105 ∷ 110 ∷ 47 ∷ 102 ∷ 111 ∷ 114 ∷ 107 ∷ 116 ∷ 101 ∷ 115 ∷ 116 ∷ []

abbrev pub bin_sysutils : Name
bin_sysutils = 47 ∷ 98 ∷ 105 ∷ 110 ∷ 47 ∷ 115 ∷ 121 ∷ 115 ∷ 117 ∷ 116 ∷ 105 ∷ 108 ∷ 115 ∷ []

abbrev pub readme : Name
readme = 47 ∷ 82 ∷ 69 ∷ 65 ∷ 68 ∷ 77 ∷ 69 ∷ []

-- What the image has in its files.
pub record Images : Type 0 where
  pub hello_elf : List ℕ
  pub forktest_elf : List ℕ
  pub sysutils_elf : List ℕ
  pub readme_text : List ℕ

module _ {F : Type 0} (o : FileOps F) where
  -- `tmpfs::init`: an empty file system, made one of the kind of the others, is mounted at the root.
  unfoldable pub mount_root : (Tmpfs → F) → Vfs F → Vfs F
  mount_root box v = mount v root_path 1 (box Tmpfs.new)

  -- The file system of the path, and its parent directory.
  abbrev pub at_parent :
      {A : Type 0} → Vfs F → Name → (ℕ → ℕ → Vfs F → Result A × Vfs F) → Result A × Vfs F
  at_parent v path next = elim (find_mount v path) [
    | none ↦ (err no_mount, v)
    | some (i, _) ↦ and_then (resolve o v (split_parent_name path).0) (λ dir w. next i dir.1 w)
  ]

  unfoldable pub create_file_with_data : Vfs F → Name → List ℕ → Result (Unit {0}) × Vfs F
  create_file_with_data v path bytes =
      let name = (split_parent_name path).1 in
      at_parent v path (λ i parent w.
        and_then (call w i (λ fs. o.create fs parent name))
          (λ inode x. and_then (call x i (λ fs. o.write fs inode 0 bytes)) (λ n y. (ok tt, y))))

  unfoldable pub mkdir : Vfs F → Name → Result (Unit {0}) × Vfs F
  mkdir v path =
      let name = (split_parent_name path).1 in
      at_parent v path
        (λ i parent w. and_then (call w i (λ fs. o.mkdir fs parent name)) (λ inode x. (ok tt, x)))

  -- The first failure ends the start of the files; it is only printed.
  unfoldable pub init : Images → Vfs F → Result (Unit {0}) × Vfs F
  init images v = and_then (mkdir v bin) (λ _ v1.
      and_then (create_file_with_data v1 bin_hello images.hello_elf) (λ _ v2.
        and_then (create_file_with_data v2 bin_forktest images.forktest_elf) (λ _ v3.
          and_then (create_file_with_data v3 bin_sysutils images.sysutils_elf)
            (λ _ v4. create_file_with_data v4 readme images.readme_text))))
