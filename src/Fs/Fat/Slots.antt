-- ===== src/Fs/Fat/Slots.antt =====
-- Slots and entries of directories: kernel/src/fs/fat32.rs.
use flutter_os.Prelude.{
  ℕ, zero, suc, ◌+◌, ◌*◌, ◌/◌, ◌%◌, ◌^◌, Bool, true, false, not, ◌&&◌, ◌||◌, Option, none, some,
  List, [], ◌∷◌, ◌++◌, ◌==◌, if◌then◌else◌, take, drop, get_or,
}
use flutter_os.Prelude.Dict
use flutter_os.Prelude.Dict.{num_key, text_same}
use flutter_os.Kernel.Bytes.{slice}
use flutter_os.Fs.Result.{
  inode_not_found, not_directory, file_not_found, Result, ok, err, FileType, regular, directory,
  DirEntry,
}
use flutter_os.Fs.Fat.{
  RawDirEntry, FatInode, Fat32, attr_lfn, is_free, is_lfn, is_dir, first_cluster, pack_entry,
  intern_inode,
}
use flutter_os.Fs.Fat.Names.{from_short_name}

abbrev pub attr_archive : ℕ
attr_archive = 32

-- An entry of a name, attributes and a first cluster.
abbrev pub plain_entry : List ℕ → ℕ → ℕ → RawDirEntry
plain_entry name attr cluster = record {
  name = name;
  attr = attr;
  nt_res = 0;
  crt_time_tenth = 0;
  crt_time = 0;
  crt_date = 0;
  lst_acc_date = 0;
  fst_clus_hi = cluster / 2 ^ 16 % 2 ^ 16;
  wrt_time = 0;
  wrt_date = 0;
  fst_clus_lo = cluster % 2 ^ 16;
  file_size = 0;
}

-- The first slot that is free, from number i on, of so many.
unfoldable pub free_slot : ℕ → ℕ → List ℕ → Option ℕ
free_slot zero i buf = none
free_slot (suc n) i buf =
    let rest = free_slot n (i + 1) buf in
    if (get_or buf (i * 32) 0 == 0) || (get_or buf (i * 32) 0 == 229) then some i else rest

-- The first slot with a name; a slot that was never used ends the directory.
unfoldable pub named_slot : List ℕ → ℕ → ℕ → List ℕ → Result (Option ℕ)
named_slot short zero i buf = ok none
named_slot short (suc n) i buf =
    let rest = named_slot short n (i + 1) buf in
    let off = i * 32 in
    if get_or buf off 0 == 0
    then err file_not_found
    else if (get_or buf off 0 == 229)
        || ((get_or buf (off + 11) 0 == attr_lfn) || not (text_same (slice buf off 11) short))
    then rest
    else ok (some i)

unfoldable pub put_entry : List ℕ → ℕ → RawDirEntry → List ℕ
put_entry buf off e = take off buf ++ (pack_entry e ++ drop (off + 32) buf)

-- The entry of a short name that `lookup`, `create`, `mkdir` and `unlink` look for.
unfoldable pub find_entry : List ℕ → List RawDirEntry → Option RawDirEntry
find_entry short [] = none
find_entry short (e ∷ es) =
    let rest = find_entry short es in
    if not (is_free e) && (not (is_lfn e) && text_same e.name short) then some e else rest

abbrev pub type_of : RawDirEntry → FileType
type_of e = if is_dir e then directory else regular

-- The loop of `readdir`.
unfoldable pub list_entries : (List ℕ → Bool) → List RawDirEntry → Fat32 → List DirEntry × Fat32
list_entries is_utf8 [] f = ([], f)
list_entries is_utf8 (e ∷ es) f = elim (is_free e || (is_lfn e || (get_or e.name 0 0 == 46))) [
  | true ↦ list_entries is_utf8 es f
  | false ↦
      let (id, f') = intern_inode f (first_cluster e) e.file_size (is_dir e) in
      let (rest, f'') = list_entries is_utf8 es f' in
      (
        record { name = from_short_name is_utf8 e.name; inode_id = id; file_type = type_of e }
            ∷ rest,
        f'',
      )
]

-- The directory of an inode number.
abbrev pub directory_of : Fat32 → ℕ → Result FatInode
directory_of f id = elim (Dict.lookup id f.inodes) [
  | none ↦ err inode_not_found
  | some dir ↦ if dir.is_directory then ok dir else err not_directory
]
