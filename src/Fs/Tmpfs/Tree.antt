-- ===== src/Fs/Tmpfs/Tree.antt =====
-- The directories of kernel/src/fs/tmpfs.rs: creating, finding and removing names.
use flutter_os.Prelude.{
  ℕ, ◌+◌, ◌%◌, ◌^◌, ◌<◌, ◌≡◌, refl, true, none, some, List, ◌==◌, if◌then◌else◌, arith, Bool-cases,
  Option-cases, inl, inr,
}
use flutter_os.Prelude.Dict
use flutter_os.Prelude.Dict.{num_key, text_key, text_same, text_same_iff}
use flutter_os.Fs.Result.{FileType, directory, is_directory, Name}
use flutter_os.Fs.Tmpfs.{Inode, Tmpfs, blank, new, get, put, resize, write_bytes, write, truncate}
use flutter_os.Fs.Tmpfs.Laws.{get-put}

-- The root is a directory, inode numbers lie below the next one, and every name of a directory
-- stands for an inode number that was given out, never that of the root.
pub record IsValid (t : Tmpfs) : Type 0 where
  pub root : (d : Inode) × (get t 1 ≡ some d) × (is_directory d.file_type ≡ true)
  pub below : (id : ℕ) (f : Inode) → get t id ≡ some f → id < t.next_inode
  pub children :
      (id c : ℕ) (name : Name) (f : Inode)
      → get t id ≡ some f
      → Dict.lookup name f.children ≡ some c
      → (1 < c) × (c < t.next_inode)

pub new-IsValid : IsValid new
unfolding new get Dict.lookup
new-IsValid = record {
  root = (blank directory, refl, refl);
  below = λ id f e. ground arith;
  children = λ id c name f e k. ground arith;
}

pub next-put : (t : Tmpfs) (id : ℕ) (g : Inode) → (put t id g).next_inode ≡ t.next_inode
unfolding put
next-put t id g = refl

-- The inode of a number changes, but not its type, and its names stay good.
pub put-IsValid :
    (t : Tmpfs) (id : ℕ) (f g : Inode)
    → IsValid t
    → get t id ≡ some f
    → g.file_type ≡ f.file_type
    → ((c : ℕ) (name : Name) → Dict.lookup name g.children ≡ some c → (1 < c) × (c < t.next_inode))
    → IsValid (put t id g)
put-IsValid t id f g v e same good = record {
  root =
      let (d, at, dir) = v.root in
      elim (Bool-cases (id == 1)) [
        | inl here ↦ (g, ground (arith, here, get-put t id 1 g), ground (arith, here))
        | inr other ↦ (d, ground (arith, other, get-put t id 1 g), dir)
      ];
  below = λ j h e'. elim (Bool-cases (id == j)) [
    | inl here ↦ ground (arith, here, next-put t id g, v.below id f e)
    | inr other ↦ ground (arith, other, get-put t id j g, next-put t id g, v.below j h)
  ];
  children = λ j c name h e' k. elim (Bool-cases (id == j)) [
    | inl here ↦ ground (arith, here, get-put t id j g, next-put t id g, good c name)
    | inr other ↦ ground (arith, other, get-put t id j g, next-put t id g, v.children j c name h)
  ];
}

-- Only the content changes.
pub content-IsValid :
    (t : Tmpfs) (id : ℕ) (f : Inode) (bytes : List ℕ)
    → IsValid t
    → get t id ≡ some f
    → IsValid (put t id (record f { content = bytes }))
content-IsValid t id f bytes v e =
    put-IsValid t id f (record f { content = bytes }) v e refl
      (λ c name k. v.children id c name f e k)

pub write-IsValid :
    (t : Tmpfs) (id offset : ℕ) (buf : List ℕ) → IsValid t → IsValid (write t id offset buf).1
unfolding write
write-IsValid t id offset buf v = elim (Option-cases (get t id)) [
  | inl missing ↦ ground (arith, missing)
  | inr (f, e) ↦ elim (Option-cases (write_bytes f.content offset buf)) [
    | inl crash ↦ ground (arith, e, crash)
    | inr (bytes, w) ↦ ground (arith, e, w, content-IsValid t id f bytes v e)
  ]
]

pub truncate-IsValid : (t : Tmpfs) (id n : ℕ) → IsValid t → IsValid (truncate t id n).1
unfolding truncate
truncate-IsValid t id n v = elim (Option-cases (get t id)) [
  | inl missing ↦ ground (arith, missing)
  | inr (f, e) ↦ ground (arith, e, content-IsValid t id f (resize f.content n) v e)
]

-- The tree with a blank inode under the next number.
abbrev pub grown : Tmpfs → FileType → Tmpfs
grown t type = record {
  inodes = Dict.insert t.next_inode (blank type) t.inodes;
  next_inode = (t.next_inode + 1) % 2 ^ 64;
}

pub get-grown :
    (t : Tmpfs) (type : FileType) (j : ℕ)
    → get (grown t type) j ≡ (if t.next_inode == j then some (blank type) else get t j)
unfolding get
get-grown t type j = Dict.lookup-insert t.next_inode j (blank type) t.inodes

pub no_child : (name : Name) (type : FileType) → Dict.lookup name (blank type).children ≡ none
unfolding Dict.lookup
no_child name type = refl

pub fresh_inode : (t : Tmpfs) → IsValid t → get t t.next_inode ≡ none
fresh_inode t v = elim (Option-cases (get t t.next_inode)) [
  | inl missing ↦ missing
  | inr (f, e) ↦ absurd (omega (arith, v.below t.next_inode f e))
]

pub grown-IsValid :
    (t : Tmpfs) (type : FileType) → IsValid t → t.next_inode + 1 < 2 ^ 64 → IsValid (grown t type)
grown-IsValid t type v h =
    let up : (t.next_inode + 1) % 2 ^ 64 ≡ t.next_inode + 1 = omega arith in
    record {
      root =
          let (d, at, dir) = v.root in (d, ground (arith, get-grown t type 1, v.below 1 d at), dir);
      below = λ j f e. elim (Bool-cases (t.next_inode == j)) [
        | inl here ↦ ground (arith, here, up)
        | inr other ↦ ground (arith, other, up, get-grown t type j, v.below j f)
      ];
      children = λ j c name f e k. elim (Bool-cases (t.next_inode == j)) [
        | inl here ↦ ground (arith, here, up, get-grown t type j, no_child name type)
        | inr other ↦ ground (arith, other, up, get-grown t type j, v.children j c name f)
      ];
    }
