-- ===== src/Fs/Tmpfs/Laws.antt =====
-- What the files of kernel/src/fs/tmpfs.rs hold after a write.
use flutter_os.Prelude.{
  ℕ, ◌+◌, ◌-◌, ◌%◌, ◌^◌, ◌≤◌, ◌<◌, ◌≡◌, refl, ◌≢◌, min, max, true, false, ◌&&◌, none, some, List,
  ◌++◌, ltb, leb, ◌==◌, if◌then◌else◌, length, take, drop, replicate, get_or, arith, length-append,
  length-take, length-drop, length-replicate, subst, drop-append, take-append, get_or-append,
  get_or-take, get_or-drop, get_or-replicate, get_or-beyond, Bool-cases, inl, inr, ◌∙◌, ap,
}
use flutter_os.Prelude.Dict
use flutter_os.Prelude.Dict.{num_key, text_key}
use flutter_os.Fs.Result.{panicked, ok, is_regular}
use flutter_os.Fs.Tmpfs.{
  Inode, Tmpfs, grows_too_far, get, put, resize, splice, read_bytes, read, write_bytes, write, size,
}

get_or-resize : (xs : List ℕ) (n j : ℕ) → length xs ≤ n → get_or (resize xs n) j 0 ≡ get_or xs j 0
get_or-resize xs n j h = ground (
  arith,
  get_or-append (take n xs) (replicate (n - length xs) 0) j 0,
  get_or-take n xs j 0,
  get_or-replicate {A = ℕ} (n - length xs) (j - length (take n xs)) 0,
  length-take n xs,
  get_or-beyond xs j 0,
)

length-resize : (xs : List ℕ) (n : ℕ) → length (resize xs n) ≡ n
length-resize xs n = omega (
  arith,
  length-append (take n xs) (replicate (n - length xs) 0),
  length-take n xs,
  length-replicate {A = ℕ} (n - length xs) 0,
)

get_or-splice :
    (xs : List ℕ) (start : ℕ) (buf : List ℕ) (j : ℕ)
    → start + length buf ≤ length xs
    → get_or (splice xs start buf) j 0 ≡ (
        if leb start j && ltb j (start + length buf)
        then get_or buf (j - start) 0
        else get_or xs j 0)
get_or-splice xs start buf j h = ground (
  arith,
  get_or-append (take start xs) (buf ++ drop (start + length buf) xs) j 0,
  get_or-append buf (drop (start + length buf) xs) (j - length (take start xs)) 0,
  get_or-take start xs j 0,
  get_or-drop (start + length buf) xs (j - length (take start xs) - length buf) 0,
  length-take start xs,
)

length-splice :
    (xs : List ℕ) (start : ℕ) (buf : List ℕ)
    → start + length buf ≤ length xs
    → length (splice xs start buf) ≡ length xs
length-splice xs start buf h = omega (
  arith,
  length-append (take start xs) (buf ++ drop (start + length buf) xs),
  length-append buf (drop (start + length buf) xs),
  length-take start xs,
  length-drop (start + length buf) xs,
)

-- What a write leaves, the parts of the code joined.
abbrev written : List ℕ → ℕ → List ℕ → List ℕ
written bytes start buf =
    splice
      (if ltb (length bytes) (start + length buf) then resize bytes (start + length buf) else bytes)
      start buf

write_bytes_lem :
    (bytes : List ℕ) (start : ℕ) (buf : List ℕ)
    → start + length buf < 2 ^ 64
    → grows_too_far bytes (start + length buf) ≡ false
    → write_bytes bytes start buf ≡ some (written bytes start buf)
unfolding write_bytes
write_bytes_lem bytes start buf h room =
    let e : (start + length buf) % 2 ^ 64 ≡ start + length buf = omega arith in
    rw e (ground (arith, room))

write_bytes_far :
    (bytes : List ℕ) (start : ℕ) (buf : List ℕ)
    → start + length buf < 2 ^ 64
    → grows_too_far bytes (start + length buf) ≡ true
    → write_bytes bytes start buf ≡ none
unfolding write_bytes
write_bytes_far bytes start buf h far =
    let e : (start + length buf) % 2 ^ 64 ≡ start + length buf = omega arith in
    rw e (ground (arith, far))

length-written :
    (bytes : List ℕ) (start : ℕ) (buf : List ℕ)
    → length (written bytes start buf) ≡ max (length bytes) (start + length buf)
length-written bytes start buf = elim (Bool-cases (ltb (length bytes) (start + length buf))) [
  | inl more ↦ rw more (
      ground (
        arith,
        more,
        length-splice (resize bytes (start + length buf)) start buf,
        length-resize bytes (start + length buf),
      ))
  | inr fits ↦ rw fits (ground (arith, fits, length-splice bytes start buf))
]

get_or-written :
    (bytes : List ℕ) (start : ℕ) (buf : List ℕ) (j : ℕ)
    → get_or (written bytes start buf) j 0 ≡ (
        if leb start j && ltb j (start + length buf)
        then get_or buf (j - start) 0
        else get_or bytes j 0)
get_or-written bytes start buf j = elim (Bool-cases (ltb (length bytes) (start + length buf))) [
  | inl more ↦ rw more (
      ground (
        arith,
        more,
        get_or-splice (resize bytes (start + length buf)) start buf j,
        length-resize bytes (start + length buf),
        get_or-resize bytes (start + length buf) j,
      ))
  | inr fits ↦ rw fits (ground (arith, fits, get_or-splice bytes start buf j))
]

-- Byte j of a file; 0 behind its end.
abbrev pub byte_at : Tmpfs → ℕ → ℕ → ℕ
byte_at t id j = elim (get t id) [ none ↦ 0 | some f ↦ get_or f.content j 0 ]

pub get-put :
    (t : Tmpfs) (id j : ℕ) (f : Inode) → get (put t id f) j ≡ (if id == j then some f else get t j)
unfolding get put
get-put t id j f = Dict.lookup-insert id j f t.inodes

pub size_of : (t : Tmpfs) (id : ℕ) (f : Inode) → get t id ≡ some f → size t id ≡ length f.content
unfolding size
size_of t id f e = ground arith

byte_of :
    (t : Tmpfs) (id j : ℕ) (f : Inode) → get t id ≡ some f → byte_at t id j ≡ get_or f.content j 0
byte_of t id j f e = ground arith

pub read_of :
    (t : Tmpfs) (id offset n : ℕ) (f : Inode)
    → get t id ≡ some f
    → is_regular f.file_type ≡ true
    → read t id offset n ≡ read_bytes f.content offset n
unfolding read
read_of t id offset n f e reg = ground arith

write_eq :
    (t : Tmpfs) (id offset : ℕ) (buf : List ℕ) (f : Inode)
    → get t id ≡ some f
    → is_regular f.file_type ≡ true
    → offset + length buf < 2 ^ 64
    → grows_too_far f.content (offset + length buf) ≡ false
    → write t id offset buf
      ≡ (ok (length buf), put t id (record f { content = written f.content offset buf }))
unfolding write
write_eq t id offset buf f e reg h room =
    ground (arith, write_bytes_lem f.content offset buf h room)

write_far :
    (t : Tmpfs) (id offset : ℕ) (buf : List ℕ) (f : Inode)
    → get t id ≡ some f
    → is_regular f.file_type ≡ true
    → offset + length buf < 2 ^ 64
    → grows_too_far f.content (offset + length buf) ≡ true
    → write t id offset buf ≡ (panicked, t)
unfolding write
write_far t id offset buf f e reg h far = ground (arith, write_bytes_far f.content offset buf h far)

-- A write to a regular file succeeds and reports the length of the buffer. The file then holds the
-- buffer from the offset on and its old bytes elsewhere, zeros in a gap before the offset, and is as
-- long as both need; every other inode is as it was. (The end of the write is below 2 ^ 63.)
pub write_lem :
    (t : Tmpfs) (id offset : ℕ) (buf : List ℕ) (f : Inode)
    → get t id ≡ some f
    → is_regular f.file_type ≡ true
    → offset + length buf < 2 ^ 63
    → let (r, t') = write t id offset buf in
      (r ≡ ok (length buf))
      × (size t' id ≡ max (size t id) (offset + length buf))
      × ((j : ℕ)
          → byte_at t' id j ≡ (
              if leb offset j && ltb j (offset + length buf)
              then get_or buf (j - offset) 0
              else byte_at t id j))
      × ((j : ℕ) → id ≢ j → get t' j ≡ get t j)
write_lem t id offset buf f e reg h =
    let f' : Inode = record f { content = written f.content offset buf } in
    let here : get (put t id f') id ≡ some f' = ground (arith, get-put t id id f') in
    rw (write_eq t id offset buf f e reg (omega (arith, h)) (ground (arith, h))) (
      refl,
      rw (size_of (put t id f') id f' here, size_of t id f e) (length-written f.content offset buf),
      λ j.
          rw (byte_of (put t id f') id j f' here, byte_of t id j f e)
            (get_or-written f.content offset buf j),
      λ j ne. ground (arith, get-put t id j f'),
    )

slice-splice :
    (bytes : List ℕ) (start : ℕ) (buf : List ℕ)
    → start + length buf ≤ length bytes
    → take (length buf) (drop start (splice bytes start buf)) ≡ buf
slice-splice bytes start buf h =
    let rest = drop (start + length buf) bytes in
    let n : length (take start bytes) ≡ start = omega (arith, length-take start bytes) in
    let d = drop-append (take start bytes) (buf ++ rest) in
    let d' = subst (λ k. drop k (splice bytes start buf) ≡ buf ++ rest) n d in
    rw d' (take-append buf rest)

slice-written :
    (bytes : List ℕ) (start : ℕ) (buf : List ℕ)
    → take (length buf) (drop start (written bytes start buf)) ≡ buf
slice-written bytes start buf = elim (Bool-cases (ltb (length bytes) (start + length buf))) [
  | inl more ↦ rw more (
      slice-splice (resize bytes (start + length buf)) start buf
        (omega (arith, length-resize bytes (start + length buf))))
  | inr fits ↦ rw fits (slice-splice bytes start buf (ground (arith, fits)))
]

pub read_bytes_lem :
    (bytes : List ℕ) (start n : ℕ)
    → start + n < 2 ^ 64
    → start + n ≤ length bytes
    → read_bytes bytes start n ≡ ok (take n (drop start bytes))
unfolding read_bytes
read_bytes_lem bytes start n h k = elim (Bool-cases (leb (length bytes) start)) [
  | inl empty ↦ let z : n ≡ 0 = ground (arith, empty) in rw (empty, z) refl
  | inr some' ↦
      let m : min ((start + n) % 2 ^ 64) (length bytes) ≡ start + n = omega arith in
      let back : start + n - start ≡ n = omega arith in
      let fits : ltb (start + n) start ≡ false = ground arith in rw (m, some', fits, back) refl
]

read_bytes-written :
    (bytes : List ℕ) (start : ℕ) (buf : List ℕ)
    → start + length buf < 2 ^ 64
    → read_bytes (written bytes start buf) start (length buf) ≡ ok buf
read_bytes-written bytes start buf h =
    read_bytes_lem (written bytes start buf) start (length buf) h
      (omega (arith, length-written bytes start buf))
    ∙ ap (λ c. ok c) (slice-written bytes start buf)

read-write_room :
    (t : Tmpfs) (id offset : ℕ) (buf : List ℕ) (f : Inode)
    → get t id ≡ some f
    → is_regular f.file_type ≡ true
    → offset + length buf < 2 ^ 64
    → grows_too_far f.content (offset + length buf) ≡ false
    → read (write t id offset buf).1 id offset (length buf) ≡ ok buf
read-write_room t id offset buf f e reg h room =
    let f' : Inode = record f { content = written f.content offset buf } in
    let here : get (put t id f') id ≡ some f' = ground (arith, get-put t id id f') in
    rw (write_eq t id offset buf f e reg h room) (
      read_of (put t id f') id offset (length buf) f' here reg
      ∙ read_bytes-written f.content offset buf h)

-- What was written is read back: reading as many bytes from the same offset gives the buffer. (A
-- write that would grow the file to 2 ^ 63 bytes or more panics and changes nothing; the end of the
-- write is below 2 ^ 64.)
pub read-write :
    (t : Tmpfs) (id offset : ℕ) (buf : List ℕ) (f : Inode)
    → get t id ≡ some f
    → is_regular f.file_type ≡ true
    → offset + length buf < 2 ^ 64
    → if ltb (length f.content) (offset + length buf) && leb (2 ^ 63) (offset + length buf)
      then write t id offset buf ≡ (panicked, t)
      else read (write t id offset buf).1 id offset (length buf) ≡ ok buf
read-write t id offset buf f e reg h =
    elim (Bool-cases (grows_too_far f.content (offset + length buf))) [
      | inl far ↦ simp far (write_far t id offset buf f e reg h far)
      | inr room ↦ simp room (read-write_room t id offset buf f e reg h room)
    ]
