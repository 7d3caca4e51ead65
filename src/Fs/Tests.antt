-- ===== src/Fs/Tests.antt =====
-- Runs of the file systems.
use flutter_os.Prelude.{
  ℕ, ◌+◌, ◌≤◌, ◌≡◌, refl, ◌≢◌, true, ◌&&◌, none, some, [], ◌∷◌, ◌++◌, arith, ◌==◌, if◌then◌else◌,
  length,
}
use flutter_os.Prelude.Dict
use flutter_os.Prelude.Dict.{text_key, text_same}
use flutter_os.Fs.Result.{ok, err, file_not_found, already_exists, regular, directory, Name}
use flutter_os.Fs.Tmpfs
use flutter_os.Fs.Tmpfs.{Inode, Tmpfs, blank, get, lookup, add, unlink, read, write, ops}
use flutter_os.Fs.Tmpfs.Laws.{read-write}
use flutter_os.Fs.Tmpfs.Tree.{IsValid, new-IsValid}
use flutter_os.Fs.Tmpfs.Names.{add_lem}
use flutter_os.Fs.Tmpfs.Unlink.{unlink_lem}
use flutter_os.Fs.Tmpfs.Reach.{start, then_do, created, wrote, Reach-IsValid}
use flutter_os.Fs.Initramfs
use flutter_os.Fs.Initramfs.{Images, mount_root, create_file_with_data, bin_hello}
use flutter_os.Fs.Path
use flutter_os.Fs.Path.{root_path, matches, relative_to, is_empty}
use flutter_os.Fs.Path.Laws.{parent_dir}
use flutter_os.Fs.Vfs
use flutter_os.Fs.Vfs.{
  Mount, Vfs, find_mount, mount_at, with_fs, resolve, open_file, read_loop, read_all,
}
use flutter_os.Fs.Vfs.Mounts.{In, find_mount_lem}
use flutter_os.Fs.Vfs.Create.{new_file, open_file-create}
use flutter_os.Fs.Vfs.ReadAll.{read_loop_fuel, read_all_lem}

-- A tree with one file "a" of two bytes.
abbrev file_inode : Inode
file_inode = record { file_type = regular; content = 104 ∷ 105 ∷ []; children = [] }

abbrev top_inode : Inode
top_inode = record { file_type = directory; content = []; children = ((97 ∷ []), 2) ∷ [] }

abbrev tree : Tmpfs
tree = record { inodes = (1, top_inode) ∷ (2, file_inode) ∷ []; next_inode = 3 }

get-file : get tree 2 ≡ some file_inode
unfolding get Dict.lookup
get-file = refl

get-top : get tree 1 ≡ some top_inode
unfolding get Dict.lookup
get-top = refl

named-file : Dict.lookup (97 ∷ []) top_inode.children ≡ some 2
unfolding Dict.lookup
named-file = refl

tree-IsValid : IsValid tree
unfolding get Dict.lookup
tree-IsValid = record {
  root = (top_inode, refl, refl);
  below = λ id f e. ground arith;
  children = λ id c name f e k. ground arith;
}

read-write_example : read (write tree 2 1 (7 ∷ 8 ∷ [])).1 2 1 2 ≡ ok (7 ∷ 8 ∷ [])
read-write_example = read-write tree 2 1 (7 ∷ 8 ∷ []) file_inode get-file refl (omega arith)

get-new : get Tmpfs.new 1 ≡ some (blank directory)
unfolding get Tmpfs.new Dict.lookup
get-new = refl

next-new : Tmpfs.new.next_inode ≡ 2
unfolding Tmpfs.new
next-new = refl

no_names : Dict.lookup (97 ∷ []) (blank directory).children ≡ none
unfolding Dict.lookup
no_names = refl

add_lem_example :
    let (r, t') = add regular already_exists Tmpfs.new 1 (97 ∷ []) in
    let next = Tmpfs.new.next_inode in
    (r ≡ ok next)
    × (get Tmpfs.new next ≡ none)
    × (get t' next ≡ some (record { file_type = regular; content = []; children = [] }))
    × ((dir' : ℕ) (name' : Name)
        → dir' ≢ next
        → lookup t' dir' name' ≡ (
            if (1 == dir') && text_same (97 ∷ []) name'
            then ok next
            else lookup Tmpfs.new dir' name'))
    × IsValid t'
add_lem_example =
    add_lem regular already_exists Tmpfs.new 1 (97 ∷ []) (blank directory) new-IsValid
      (omega (arith, next-new)) get-new refl no_names

unlink_lem_example :
    let (r, t') = unlink tree 1 (97 ∷ []) in
    (r ≡ ok tt)
    × (get t' 2 ≡ none)
    × ((dir' : ℕ) (name' : Name)
        → dir' ≢ 2
        → lookup t' dir' name' ≡ (
            if (1 == dir') && text_same (97 ∷ []) name'
            then err file_not_found
            else lookup tree dir' name'))
    × IsValid t'
unlink_lem_example =
    unlink_lem tree 1 (97 ∷ []) 2 top_inode tree-IsValid get-top refl named-file (omega arith)

Reach-IsValid_example :
    let t = (Tmpfs.write (Tmpfs.create Tmpfs.new 1 (97 ∷ [])).1 2 0 (5 ∷ [])).1 in
    IsValid t × (t.next_inode ≤ 2 + 2)
Reach-IsValid_example =
    Reach-IsValid 2 (Tmpfs.write (Tmpfs.create Tmpfs.new 1 (97 ∷ [])).1 2 0 (5 ∷ [])).1
      (then_do (then_do start (created 1 (97 ∷ []))) (wrote 2 0 (5 ∷ []))) (omega arith)

-- The tree at "/mnt", and at "/".
abbrev mnt : Name
mnt = 47 ∷ 109 ∷ 110 ∷ 116 ∷ []

abbrev tree_mount : Mount Tmpfs
tree_mount = record { mount_point = mnt; root_inode = 1; fs = tree }

abbrev root_mount : Mount Tmpfs
root_mount = record { mount_point = root_path; root_inode = 1; fs = tree }

abbrev vfs : Vfs Tmpfs
vfs = record { mounts = tree_mount ∷ root_mount ∷ [] }

found-mnt : find_mount vfs (mnt ++ (47 ∷ 97 ∷ [])) ≡ some (0, (47 ∷ 97 ∷ []))
unfolding find_mount matches relative_to
found-mnt = refl

find_mount_lem_example :
    (m : Mount Tmpfs) × (mount_at 0 vfs.mounts ≡ some m)
    × (matches m.mount_point (mnt ++ (47 ∷ 97 ∷ [])) ≡ true)
    × ((47 ∷ 97 ∷ []) ≡ relative_to m.mount_point (mnt ++ (47 ∷ 97 ∷ [])))
    × ((x : Mount Tmpfs)
        → In x vfs.mounts
        → matches x.mount_point (mnt ++ (47 ∷ 97 ∷ [])) ≡ true
        → length x.mount_point ≤ length m.mount_point)
find_mount_lem_example =
    find_mount_lem vfs (mnt ++ (47 ∷ 97 ∷ [])) 0 (47 ∷ 97 ∷ []) ((omega arith, tt), (tt, tt))
      found-mnt

resolved-file : resolve ops vfs (mnt ++ (47 ∷ 97 ∷ [])) ≡ (ok (0, 2), vfs)
unfolding resolve find_mount matches relative_to Vfs.walk Path.components lookup Tmpfs.file_type get
    Dict.lookup
resolved-file = refl

read_all_lem_example : read_all ops vfs (mnt ++ (47 ∷ 97 ∷ [])) ≡ (ok (104 ∷ 105 ∷ []), vfs)
read_all_lem_example =
    read_all_lem vfs (mnt ++ (47 ∷ 97 ∷ [])) 0 2 tree_mount file_inode resolved-file refl get-file
      refl (omega arith)

read_loop_fuel_example :
    read_loop ops 5 vfs (new_file 0 2) 2 [] ≡ read_loop ops 2 vfs (new_file 0 2) 2 []
read_loop_fuel_example = read_loop_fuel ops 5 2 vfs (new_file 0 2) 2 [] (omega arith) (omega arith)

found-new : find_mount vfs (mnt ++ 47 ∷ (98 ∷ [])) ≡ some (0, (47 ∷ 98 ∷ []))
unfolding find_mount matches relative_to
found-new = refl

resolved-mnt : resolve ops vfs (parent_dir mnt) ≡ (ok (0, 1), vfs)
unfolding resolve find_mount matches relative_to
resolved-mnt = refl

free-name : Dict.lookup (98 ∷ []) top_inode.children ≡ none
unfolding Dict.lookup
free-name = refl

open_file-create_example :
    let path = mnt ++ 47 ∷ (98 ∷ []) in
    let w = with_fs vfs 0 (Tmpfs.create tree 1 (98 ∷ [])).1 in
    (resolve ops vfs path ≡ (err file_not_found, vfs))
    × (open_file ops vfs path true ≡ (ok (new_file 0 3), w))
    × (get (Tmpfs.create tree 1 (98 ∷ [])).1 3
        ≡ some (record { file_type = regular; content = []; children = [] }))
    × (resolve ops w path ≡ (ok (0, 3), w))
open_file-create_example =
    open_file-create vfs mnt (98 ∷ []) 0 1 (47 ∷ 98 ∷ []) tree_mount top_inode (refl, refl)
      found-new refl refl resolved-mnt tree-IsValid (omega arith) get-top refl free-name

-- The start of the files with small images: the program is found under its path.
abbrev images : Images
images = record {
  hello_elf = 127 ∷ 69 ∷ [];
  forktest_elf = 70 ∷ [];
  sysutils_elf = [];
  readme_text = 82 ∷ [];
}

abbrev empty_vfs : Vfs Tmpfs
empty_vfs = Vfs.new

hello_found :
    let (r, v) = Initramfs.init ops images (mount_root ops (λ t. t) empty_vfs) in
    (r ≡ ok tt) × ((resolve ops v bin_hello).0 ≡ ok (0, 3))
unfolding Initramfs.init mount_root Initramfs.mkdir create_file_with_data find_mount resolve
    Vfs.walk Vfs.call Vfs.mount Vfs.new matches Path.split_parent_name Path.rfind relative_to
    Tmpfs.mkdir add get Dict.lookup Tmpfs.new Tmpfs.add_child Dict.insert Path.components
    Tmpfs.file_type Tmpfs.put lookup Tmpfs.create write Tmpfs.write_bytes
hello_found = (refl, refl)
