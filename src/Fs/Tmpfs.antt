-- ===== src/Fs/Tmpfs.antt =====
-- kernel/src/fs/tmpfs.rs: files in memory. Offsets are 64-bit and their sum with a length wraps; a
-- slice whose start lies behind its end panics.
pub mod Laws
pub mod Tree
pub mod Names
pub mod Unlink
pub mod Reach
use flutter_os.Prelude.{
  ◌&&◌, ◌||◌, ℕ, ◌+◌, ◌-◌, ◌%◌, ◌^◌, ◌≤◌, min, Bool, true, false, not, Option, none, some, List, [],
  ◌∷◌, ◌++◌, map, ltb, leb, if◌then◌else◌, length, take, drop, replicate,
}
use flutter_os.Prelude.Dict
use flutter_os.Prelude.Dict.{num_key, text_key}
use flutter_os.Fs.Result.{
  FsError, inode_not_found, not_regular, not_directory, file_not_found, already_exists, dir_exists,
  Result, ok, err, panicked, FileType, regular, directory, is_directory, is_regular, Name, DirEntry,
  FileOps,
}

pub record Inode : Type 0 where
  pub file_type : FileType
  pub content : List ℕ
  pub children : List (Name × ℕ)

pub record Tmpfs : Type 0 where
  pub inodes : List (ℕ × Inode)
  pub next_inode : ℕ

-- A new inode of a type, with no content and no children.
abbrev pub blank : FileType → Inode
blank t = record { file_type = t; content = []; children = [] }

abbrev pub root_inode : ℕ
root_inode = 1

unfoldable pub new : Tmpfs
new = record { inodes = (1, blank directory) ∷ []; next_inode = 2 }

unfoldable pub get : Tmpfs → ℕ → Option Inode
get t id = Dict.lookup id t.inodes

-- `get_mut` and a change in place.
unfoldable pub put : Tmpfs → ℕ → Inode → Tmpfs
put t id n = record t { inodes = Dict.insert id n t.inodes }

-- `Vec::resize` with zeros, and `copy_from_slice` into the bytes from `start` on.
abbrev pub resize : List ℕ → ℕ → List ℕ
resize bytes n = take n bytes ++ replicate (n - length bytes) 0

abbrev pub splice : List ℕ → ℕ → List ℕ → List ℕ
splice bytes start buf = take start bytes ++ (buf ++ drop (start + length buf) bytes)

unfoldable pub read_bytes : List ℕ → ℕ → ℕ → Result (List ℕ)
read_bytes bytes start n =
    let end = min ((start + n) % 2 ^ 64) (length bytes) in
    if leb (length bytes) start
    then ok []
    else if ltb end start
    then panicked
    else ok (take (end - start) (drop start bytes))

unfoldable pub read : Tmpfs → ℕ → ℕ → ℕ → Result (List ℕ)
read t id offset n = elim (get t id) [
  | none ↦ err inode_not_found
  | some f ↦ if is_regular f.file_type then read_bytes f.content offset n else err not_regular
]

-- A resize to 2 ^ 63 bytes or more, at which a Vec panics for its capacity.
abbrev pub grows_too_far : List ℕ → ℕ → Bool
grows_too_far bytes n = ltb (length bytes) n && leb (2 ^ 63) n

unfoldable pub write_bytes : List ℕ → ℕ → List ℕ → Option (List ℕ)
write_bytes bytes start buf =
    let end = (start + length buf) % 2 ^ 64 in
    let grown = if ltb (length bytes) end then resize bytes end else bytes in
    if ltb end start || grows_too_far bytes end then none else some (splice grown start buf)

unfoldable pub write : Tmpfs → ℕ → ℕ → List ℕ → Result ℕ × Tmpfs
write t id offset buf = elim (get t id) [
  | none ↦ (err inode_not_found, t)
  | some f ↦
      if is_regular f.file_type
      then (elim (write_bytes f.content offset buf) [
        | none ↦ (panicked, t)
        | some bytes ↦ (ok (length buf), put t id (record f { content = bytes }))
      ])
      else (err not_regular, t)
]

unfoldable pub size : Tmpfs → ℕ → ℕ
size t id = elim (get t id) [ none ↦ 0 | some f ↦ length f.content ]

unfoldable pub file_type : Tmpfs → ℕ → FileType
file_type t id = elim (get t id) [ none ↦ regular | some f ↦ f.file_type ]

abbrev pub entry_of : Tmpfs → Name × ℕ → DirEntry
entry_of t c = record { name = c.0; inode_id = c.1; file_type = file_type t c.1 }

unfoldable pub readdir : Tmpfs → ℕ → Result (List DirEntry)
readdir t id = elim (get t id) [
  | none ↦ err inode_not_found
  | some d ↦
      if is_directory d.file_type then ok (map (entry_of t) d.children) else err not_directory
]

unfoldable pub lookup : Tmpfs → ℕ → Name → Result ℕ
lookup t dir name = elim (get t dir) [
  | none ↦ err inode_not_found
  | some d ↦
      if is_directory d.file_type
      then (elim (Dict.lookup name d.children) [ none ↦ err file_not_found | some id ↦ ok id ])
      else err not_directory
]

-- The second half of `create` and `mkdir`: a new inode, and its entry in the directory.
unfoldable pub add_child : Tmpfs → ℕ → Name → FileType → Result ℕ × Tmpfs
add_child t dir name type =
    let grown : Tmpfs = record {
      inodes = Dict.insert t.next_inode (blank type) t.inodes;
      next_inode = (t.next_inode + 1) % 2 ^ 64;
    } in
    elim (get grown dir) [
      | none ↦ (panicked, grown)
      | some d ↦ (
        ok t.next_inode,
        put grown dir (record d { children = Dict.insert name t.next_inode d.children }),
      )
    ]

-- `create` and `mkdir` differ in the type and in the error of a name that is taken.
unfoldable pub add : FileType → FsError → Tmpfs → ℕ → Name → Result ℕ × Tmpfs
add type taken t dir name = elim (get t dir) [
  | none ↦ (err inode_not_found, t)
  | some d ↦
      if is_directory d.file_type
      then (elim (Dict.lookup name d.children) [
        | none ↦ add_child t dir name type
        | some _ ↦ (err taken, t)
      ])
      else (err not_directory, t)
]

unfoldable pub create : Tmpfs → ℕ → Name → Result ℕ × Tmpfs
create = add regular already_exists

unfoldable pub mkdir : Tmpfs → ℕ → Name → Result ℕ × Tmpfs
mkdir = add directory dir_exists

unfoldable pub truncate : Tmpfs → ℕ → ℕ → Result (Unit {0}) × Tmpfs
truncate t id n = elim (get t id) [
  | none ↦ (err inode_not_found, t)
  | some f ↦
      if is_regular f.file_type
      then (if grows_too_far f.content n
          then (panicked, t)
          else (ok tt, put t id (record f { content = resize f.content n })))
      else (err not_regular, t)
]

unfoldable pub unlink : Tmpfs → ℕ → Name → Result (Unit {0}) × Tmpfs
unlink t dir name = elim (get t dir) [
  | none ↦ (err inode_not_found, t)
  | some d ↦
      if is_directory d.file_type
      then (elim (Dict.lookup name d.children) [
        | none ↦ (err file_not_found, t)
        | some id ↦ (
          ok tt,
          record t {
            inodes =
                Dict.erase id
                  (Dict.insert dir (record d { children = Dict.erase name d.children }) t.inodes);
          },
        )
      ])
      else (err not_directory, t)
]

-- The methods as the trait's.
abbrev pub ops : FileOps Tmpfs
ops = record {
  read = λ t id offset n. (read t id offset n, t);
  write = write;
  size = size;
  file_type = file_type;
  readdir = λ t id. (readdir t id, t);
  lookup = λ t dir name. (lookup t dir name, t);
  create = create;
  mkdir = mkdir;
  truncate = truncate;
  unlink = unlink;
}
