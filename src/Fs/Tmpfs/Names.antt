-- ===== src/Fs/Tmpfs/Names.antt =====
-- Creating, finding and removing names in kernel/src/fs/tmpfs.rs.
use flutter_os.Prelude.{
  [], ℕ, ◌+◌, ◌%◌, ◌^◌, ◌<◌, ◌≡◌, refl, ◌≢◌, true, ◌&&◌, none, some, ◌==◌, if◌then◌else◌, arith,
  Bool-cases, inl, inr, subst, ==_iff,
}
use flutter_os.Prelude.Dict
use flutter_os.Prelude.Dict.{num_key, text_key, text_same, text_same_iff}
use flutter_os.Fs.Result.{FsError, file_not_found, ok, err, FileType, is_directory, Name}
use flutter_os.Fs.Tmpfs.{Inode, Tmpfs, get, put, lookup, add_child, add}
use flutter_os.Fs.Tmpfs.Laws.{get-put}
use flutter_os.Fs.Tmpfs.Tree.{IsValid, grown, get-grown, fresh_inode, grown-IsValid, put-IsValid}

-- The directory with one name more, and with one name less.
abbrev pub with_name : Inode → Name → ℕ → Inode
with_name d name c = record d { children = Dict.insert name c d.children }

abbrev pub without_name : Inode → Name → Inode
without_name d name = record d { children = Dict.erase name d.children }

pub add_eq :
    (type : FileType) (taken : FsError) (t : Tmpfs) (dir : ℕ) (name : Name) (d : Inode)
    → IsValid t
    → get t dir ≡ some d
    → is_directory d.file_type ≡ true
    → Dict.lookup name d.children ≡ none
    → add type taken t dir name
      ≡ (ok t.next_inode, put (grown t type) dir (with_name d name t.next_inode))
unfolding add add_child
add_eq type taken t dir name d v e isdir free =
    let at : get (grown t type) dir ≡ some d =
      ground (arith, get-grown t type dir, v.below dir d e) in
    ground (arith, at)

pub lookup_of :
    (t : Tmpfs) (dir : ℕ) (name : Name) (d : Inode)
    → get t dir ≡ some d
    → is_directory d.file_type ≡ true
    → lookup t dir name
      ≡ (elim (Dict.lookup name d.children) [ none ↦ err file_not_found | some id ↦ ok id ])
unfolding lookup
lookup_of t dir name d e isdir = ground arith

pub lookup-same :
    (t u : Tmpfs) (dir : ℕ) (name : Name)
    → get u dir ≡ get t dir
    → lookup u dir name ≡ lookup t dir name
unfolding lookup
lookup-same t u dir name e = rw (lookup, e) refl

lookup-with :
    (t u : Tmpfs) (dir : ℕ) (name name' : Name) (c : ℕ) (d : Inode)
    → get t dir ≡ some d
    → get u dir ≡ some (with_name d name c)
    → is_directory d.file_type ≡ true
    → lookup u dir name' ≡ (if text_same name name' then ok c else lookup t dir name')
lookup-with t u dir name name' c d e e' isdir = ground (
  arith,
  lookup_of t dir name' d e isdir,
  lookup_of u dir name' (with_name d name c) e' isdir,
  Dict.lookup-insert name name' c d.children,
)

-- Adding a name that is free to an existing directory of a valid tree returns a number that no inode
-- had. Under it stands an empty inode of that type, the name is found there, no other name of any
-- directory is found elsewhere than before, and the tree stays valid. (The counter of inode numbers
-- is assumed not to wrap.)
pub add_lem :
    (type : FileType) (taken : FsError) (t : Tmpfs) (dir : ℕ) (name : Name) (d : Inode)
    → IsValid t
    → t.next_inode + 1 < 2 ^ 64
    → get t dir ≡ some d
    → is_directory d.file_type ≡ true
    → Dict.lookup name d.children ≡ none
    → let (r, t') = add type taken t dir name in
      (r ≡ ok t.next_inode)
      × (get t t.next_inode ≡ none)
      × (get t' t.next_inode ≡ some (record { file_type = type; content = []; children = [] }))
      × ((dir' : ℕ) (name' : Name)
          → dir' ≢ t.next_inode
          → lookup t' dir' name' ≡ (
              if (dir == dir') && text_same name name'
              then ok t.next_inode
              else lookup t dir' name'))
      × IsValid t'
add_lem type taken t dir name d v h e isdir free =
    let g = grown t type in
    let d' = with_name d name t.next_inode in
    let lt : dir < t.next_inode = v.below dir d e in
    let (r, at_root, isroot) = v.root in
    let past : 1 < t.next_inode = v.below 1 r at_root in
    let at : get g dir ≡ some d = ground (arith, get-grown t type dir) in
    let up : (t.next_inode + 1) % 2 ^ 64 ≡ t.next_inode + 1 = omega arith in
    let here : get (put g dir d') dir ≡ some d' = ground (arith, get-put g dir dir d') in
    rw (add_eq type taken t dir name d v e isdir free) (
      refl,
      fresh_inode t v,
      ground (arith, get-put g dir t.next_inode d', get-grown t type t.next_inode),
      λ dir' name' ne. elim (Bool-cases (dir == dir')) [
        | inl same ↦ rw same (
            subst
              (λ k.
                lookup (put g dir d') k name'
                ≡ (if text_same name name' then ok t.next_inode else lookup t k name'))
              ((==_iff dir dir').0 same)
              (lookup-with t (put g dir d') dir name name' t.next_inode d e here isdir))
        | inr other ↦ rw other (
            lookup-same t (put g dir d') dir' name'
              (ground (arith, other, get-put g dir dir' d', get-grown t type dir')))
      ],
      put-IsValid g dir d d' (grown-IsValid t type v h) at refl (λ c n k.
          elim (Bool-cases (text_same name n)) [
            | inl same ↦
                ground
                  (arith, same, up, lt, past, Dict.lookup-insert name n t.next_inode d.children)
            | inr other ↦ ground (
              arith,
              other,
              up,
              Dict.lookup-insert name n t.next_inode d.children,
              v.children dir c n d e,
            )
          ]),
    )
