-- ===== src/Fs/Tmpfs/Unlink.antt =====
-- Removing names in kernel/src/fs/tmpfs.rs, and all its operations in sequence.
use flutter_os.Prelude.{
  ℕ, ◌<◌, ◌≡◌, refl, ◌≢◌, true, ◌&&◌, none, some, ◌==◌, if◌then◌else◌, arith, Bool-cases,
  Option-cases, inl, inr, subst, ==_iff,
}
use flutter_os.Prelude.Dict
use flutter_os.Prelude.Dict.{num_key, text_key, text_same}
use flutter_os.Fs.Result.{file_not_found, ok, err, is_directory, Name}
use flutter_os.Fs.Tmpfs.{Inode, Tmpfs, get, put, lookup, unlink}
use flutter_os.Fs.Tmpfs.Laws.{get-put}
use flutter_os.Fs.Tmpfs.Tree.{IsValid, put-IsValid}
use flutter_os.Fs.Tmpfs.Names.{without_name, lookup-same, lookup_of}

-- The tree without the inode of a number.
abbrev without_inode : Tmpfs → ℕ → Tmpfs
without_inode t id = record t { inodes = Dict.erase id t.inodes }

get-without_inode :
    (t : Tmpfs) (id j : ℕ) → get (without_inode t id) j ≡ (if id == j then none else get t j)
unfolding get
get-without_inode t id j = Dict.lookup-erase id j t.inodes

next-without_inode : (t : Tmpfs) (id : ℕ) → (without_inode t id).next_inode ≡ t.next_inode
next-without_inode t id = refl

unlink_eq :
    (t : Tmpfs) (dir : ℕ) (name : Name) (c : ℕ) (d : Inode)
    → get t dir ≡ some d
    → is_directory d.file_type ≡ true
    → Dict.lookup name d.children ≡ some c
    → unlink t dir name ≡ (ok tt, without_inode (put t dir (without_name d name)) c)
unfolding unlink put
unlink_eq t dir name c d e isdir k = ground (arith, e, isdir, k)

without_inode-IsValid : (t : Tmpfs) (c : ℕ) → IsValid t → 1 < c → IsValid (without_inode t c)
without_inode-IsValid t c v h = record {
  root = let (d, at, dir) = v.root in (d, ground (arith, get-without_inode t c 1), dir);
  below = λ j f e. ground (arith, e, get-without_inode t c j, v.below j f);
  children = λ j k name f e l. ground (arith, e, l, get-without_inode t c j, v.children j k name f);
}

unlinked-IsValid :
    (t : Tmpfs) (dir : ℕ) (name : Name) (c : ℕ) (d : Inode)
    → IsValid t
    → get t dir ≡ some d
    → Dict.lookup name d.children ≡ some c
    → IsValid (without_inode (put t dir (without_name d name)) c)
unlinked-IsValid t dir name c d v e k =
    let (past, _) = v.children dir c name d e k in
    without_inode-IsValid (put t dir (without_name d name)) c
      (put-IsValid t dir d (without_name d name) v e refl
        (λ b n l. ground (arith, l, Dict.lookup-erase name n d.children, v.children dir b n d e)))
      past

lookup-without :
    (t u : Tmpfs) (dir : ℕ) (name name' : Name) (d : Inode)
    → get t dir ≡ some d
    → get u dir ≡ some (without_name d name)
    → is_directory d.file_type ≡ true
    → lookup u dir name' ≡ (if text_same name name' then err file_not_found else lookup t dir name')
lookup-without t u dir name name' d e e' isdir = ground (
  arith,
  lookup_of t dir name' d e isdir,
  lookup_of u dir name' (without_name d name) e' isdir,
  Dict.lookup-erase name name' d.children,
)

-- Removing a name of a directory of a valid tree, the name of another inode, succeeds. The inode is
-- gone, the name is not found any more, every other name of every remaining directory is found as
-- before, and the tree stays valid.
pub unlink_lem :
    (t : Tmpfs) (dir : ℕ) (name : Name) (c : ℕ) (d : Inode)
    → IsValid t
    → get t dir ≡ some d
    → is_directory d.file_type ≡ true
    → Dict.lookup name d.children ≡ some c
    → c ≢ dir
    → let (r, t') = unlink t dir name in
      (r ≡ ok tt)
      × (get t' c ≡ none)
      × ((dir' : ℕ) (name' : Name)
          → dir' ≢ c
          → lookup t' dir' name' ≡ (
              if (dir == dir') && text_same name name'
              then err file_not_found
              else lookup t dir' name'))
      × IsValid t'
unlink_lem t dir name c d v e isdir k ne =
    let d' = without_name d name in
    let u = without_inode (put t dir d') c in
    let here : get u dir ≡ some d' =
      ground (arith, ne, get-without_inode (put t dir d') c dir, get-put t dir dir d') in
    rw (unlink_eq t dir name c d e isdir k) (
      refl,
      ground (arith, get-without_inode (put t dir d') c c),
      λ dir' name' far. elim (Bool-cases (dir == dir')) [
        | inl same ↦ rw same (
            subst
              (λ j.
                lookup u j name'
                ≡ (if text_same name name' then err file_not_found else lookup t j name'))
              ((==_iff dir dir').0 same) (lookup-without t u dir name name' d e here isdir))
        | inr other ↦ rw other (
            lookup-same t u dir' name' (
              ground (
                arith,
                other,
                far,
                get-without_inode (put t dir d') c dir',
                get-put t dir dir' d',
              )))
      ],
      unlinked-IsValid t dir name c d v e k,
    )

pub unlink-IsValid : (t : Tmpfs) (dir : ℕ) (name : Name) → IsValid t → IsValid (unlink t dir name).1
unfolding unlink
unlink-IsValid t dir name v = elim (Option-cases (get t dir)) [
  | inl missing ↦ ground (arith, missing)
  | inr (d, e) ↦ elim (Option-cases (Dict.lookup name d.children)) [
    | inl absent ↦ ground (arith, e, absent)
    | inr (c, k) ↦ elim (Bool-cases (is_directory d.file_type)) [
      | inl isdir ↦ rw (unlink_eq t dir name c d e isdir k) (unlinked-IsValid t dir name c d v e k)
      | inr other ↦ ground (arith, e, other)
    ]
  ]
]
