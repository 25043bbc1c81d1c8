-- ===== src/Wal/Disk/Contents.antt =====
-- What a file holds once its buffer is flushed, and how the writes change it.
use logateway.Prelude.{
  ℕ, ◌-◌, ◌≡◌, refl, ap, ◌∙◌, Bool, true, false, Option, none, some, [], ◌∷◌, ◌++◌, append_assoc,
  append-nil, arith, length, take, drop, take-append-drop, if◌then◌else◌,
}
use logateway.Prelude.Bytes.{Bytes, beq, beq_refl, beq_iff}
use logateway.Wal.Disk.{
  File, Dir, find, append_to, Handle, buffer_size, file_write, flush, write_empty, buf_write,
}

abbrev file_content : Option File → Bytes
file_content none = []
file_content (some f) = f.content

-- the bytes on disk under a name
unfoldable pub content : Bytes → Dir → Bytes
content name d = file_content (find name d)

abbrev is_some {ℓ} : {A : Type ℓ} → Option A → Bool
is_some none = false
is_some (some x) = true

-- there is a file of that name
unfoldable pub exists : Bytes → Dir → Bool
exists name d = is_some (find name d)

-- the bytes that an open file's buffer still holds for a name
unfoldable pub pending : Bytes → Handle → Bytes
pending name h = if beq h.name name then h.buf else []

-- the bytes that a write of `p` through `m` adds under a name
abbrev pub added : Bytes → Bytes → Bytes → Bytes
added name m p = if beq m name then p else []

content-append_to :
    (name m p : Bytes) (d : Dir)
    → exists m d ≡ true
    → content name (append_to m p d) ≡ content name d ++ added name m p
unfolding content exists find append_to
content-append_to name m p [] h = cc
content-append_to name m p (f ∷ d) h = ground (
  arith,
  beq_iff f.name m,
  beq_iff f.name name,
  beq_iff m name,
  beq_refl m,
  append-nil f.content,
  append-nil (content name d),
  content-append_to name m p d,
)

exists-append_to : (name m p : Bytes) (d : Dir) → exists name (append_to m p d) ≡ exists name d
unfolding exists find append_to
exists-append_to name m p [] = refl
exists-append_to name m p (f ∷ d) = ground (arith, exists-append_to name m p d)

-- A write through a file leaves every name in the directory.
exists-file_write :
    (o : Option ℕ) (h : Handle) (p : Bytes) (d : Dir) (name : Bytes)
    → exists name (file_write o h p d).0 ≡ exists name d
unfolding file_write
exists-file_write none h p d name = ground (arith, exists-append_to name h.name p d)
exists-file_write (some k) h p d name = ground (arith, exists-append_to name h.name (take k p) d)

module _ (name : Bytes) (h : Handle) (d : Dir) (present : exists h.name d ≡ true) where
  content-file_write :
      (p : Bytes)
      → (file_write none h p d).1 ≡ true
      → content name (file_write none h p d).0 ≡ content name d ++ added name h.name p
  unfolding file_write
  content-file_write p e = ground (arith, content-append_to name h.name p d)

  -- Flushing, also where it fails half way, moves bytes and loses none.
  pub flush_keeps :
      (o : Option ℕ)
      → let r = flush o h d in
        content name r.1 ++ pending name r.0 ≡ content name d ++ pending name h
  unfolding flush pending
  flush_keeps none = ground (
    arith,
    content-append_to name h.name h.buf d,
    append-nil (content name d ++ h.buf),
    append-nil (content name d),
  )
  flush_keeps (some k) = ground (
    arith,
    content-append_to name h.name (take k h.buf) d,
    append_assoc (content name d) (take k h.buf) (drop k h.buf),
    append-nil (content name d),
    take-append-drop k h.buf,
  )

-- What flushing leaves alone, and that a flush which succeeds empties the buffer.
pub flush_frame :
    (o : Option ℕ) (h : Handle) (d : Dir) (name : Bytes)
    → let r = flush o h d in
      (r.0.name ≡ h.name)
      × (r.0.is_open ≡ h.is_open)
      × (exists name r.1 ≡ exists name d)
      × (r.2 ≡ true → r.0.buf ≡ [])
      × (r.2 ≡ true → r.0.failed ≡ false)
unfolding flush
flush_frame none h d name = ground (arith, exists-file_write none h h.buf d name)
flush_frame (some k) h d name = ground (arith, exists-file_write (some k) h h.buf d name)

write_empty_frame :
    (o : Option ℕ) (h : Handle) (p : Bytes) (d : Dir) (name : Bytes)
    → let r = write_empty o h p d in
      (r.0.name ≡ h.name) × (r.0.is_open ≡ h.is_open) × (exists name r.1 ≡ exists name d)
unfolding write_empty
write_empty_frame none h p d name = ground (arith, exists-file_write none h p d name)
write_empty_frame (some k) h p d name = ground (arith, exists-file_write (some k) h p d name)

pub buf_write_frame :
    (o o' : Option ℕ) (h : Handle) (p : Bytes) (d : Dir) (name : Bytes)
    → let r = buf_write o o' h p d in
      (r.0.name ≡ h.name) × (r.0.is_open ≡ h.is_open) × (exists name r.1 ≡ exists name d)
unfolding buf_write
buf_write_frame o o' h p d name =
    let room = buffer_size - length h.buf in
    let full : Handle = record h { buf = h.buf ++ take room p } in
    let r = flush o full d in
    ground (
      arith,
      flush_frame o full d name,
      write_empty_frame o' h p d name,
      write_empty_frame o' r.0 (drop room p) r.1 name,
    )

module _ (name : Bytes) (h : Handle) (d : Dir) (present : exists h.name d ≡ true) where
  write_empty_keeps :
      (o : Option ℕ) (p : Bytes)
      → h.buf ≡ []
      → (write_empty o h p d).2 ≡ true
      → let r = write_empty o h p d in
        content name r.1 ++ pending name r.0 ≡ content name d ++ added name h.name p
  unfolding write_empty pending file_write
  write_empty_keeps none p e s = ground (
    arith,
    content-append_to name h.name p d,
    append-nil (content name d ++ p),
    append-nil (content name d),
  )
  write_empty_keeps (some k) p e s = ground (arith, append-nil (content name d))

  fit_keeps :
      (p : Bytes)
      → content name d ++ pending name (record h { buf = h.buf ++ p })
        ≡ (content name d ++ pending name h) ++ added name h.name p
  unfolding pending
  fit_keeps p = ground (arith, append_assoc (content name d) h.buf p, append-nil (content name d))

-- an empty buffer holds nothing back
pub pending_of_nil : (name : Bytes) (h : Handle) → h.buf ≡ [] → pending name h ≡ []
unfolding pending
pending_of_nil name h e = ground arith

glue :
    (b : Bool) (x c₁ c₀ q buf t rest p : Bytes)
    → x ≡ c₁ ++ (if b then rest else [])
    → c₁ ++ q ≡ c₀ ++ (if b then buf ++ t else [])
    → q ≡ []
    → t ++ rest ≡ p
    → x ≡ (c₀ ++ (if b then buf else [])) ++ (if b then p else [])
glue true x c₁ c₀ q buf t rest p e f n g = ground (
  arith,
  append-nil c₁,
  append_assoc c₀ buf (t ++ rest),
  append_assoc c₀ (buf ++ t) rest,
  append_assoc buf t rest,
)
glue false x c₁ c₀ q buf t rest p e f n g = ground (arith, append-nil c₁, append-nil c₀)

-- the two writes of a buffer that overflows, put together
overflow_keeps :
    (o o' : Option ℕ) (name : Bytes) (h : Handle) (p : Bytes) (d : Dir) (room : ℕ)
    → exists h.name d ≡ true
    → let r = flush o (record h { buf = h.buf ++ take room p }) d in
      r.2 ≡ true
      → let s = write_empty o' r.0 (drop room p) r.1 in
        s.2 ≡ true
        → content name s.1 ++ pending name s.0
          ≡ (content name d ++ pending name h) ++ added name h.name p
unfolding pending
overflow_keeps o o' name h p d room present flushed wrote =
    let full : Handle = record h { buf = h.buf ++ take room p } in
    let r = flush o full d in
    let frame = flush_frame o full d h.name in
    let there : exists r.0.name r.1 ≡ true = rw frame.0 (frame.2 ∙ present) in
    let step = write_empty_keeps name r.0 r.1 there o' (drop room p) (frame.3 flushed) wrote in
    let moved = flush_keeps name full d present o in
    let same = ap (λ (m : Bytes). if beq m name then drop room p else []) frame.0 in
    glue (beq h.name name) _ (content name r.1) (content name d) (pending name r.0) h.buf
      (take room p) (drop room p) p (step ∙ ap (λ (b : Bytes). content name r.1 ++ b) same) moved
      (pending_of_nil name r.0 (frame.3 flushed)) (take-append-drop room p)

-- A buffered write that succeeds adds its bytes behind what the name held, on disk or in the
-- buffer, and adds nothing to any other name.
pub buf_write_keeps :
    (o o' : Option ℕ) (name : Bytes) (h : Handle) (p : Bytes) (d : Dir)
    → exists h.name d ≡ true
    → let r = buf_write o o' h p d in
      r.2 ≡ true
      → content name r.1 ++ pending name r.0
        ≡ (content name d ++ pending name h) ++ added name h.name p
unfolding buf_write
buf_write_keeps o o' name h p d present e =
    let room = buffer_size - length h.buf in
    ground (
      arith,
      fit_keeps name h d present p,
      write_empty_keeps name h d present o' p,
      pending_of_nil name h,
      append-nil (content name d),
      overflow_keeps o o' name h p d room present,
    )
