-- ===== src/Vfs/Contents.antt =====
-- src/kernel/vfs.c: the contents and the size of a file after a write and after a truncation.
use yabro_os.Base.{
  ℕ, ◌+◌, ◌-◌, ◌<◌, ◌≤◌, ◌≡◌, ◌≢◌, refl, ◌∙◌, ◌⊎◌, inl, inr, true, some, ltb, if◌then◌else◌, update,
  arith, ok, Bool-cases,
}
use yabro_os.Vfs.Node.{Vfs}
use yabro_os.Vfs.Data.{
  filled, owner_of, vfs_file_is_regular, vfs_file_data, vfs_file_size, store_bytes, set_size,
  vfs_file_truncate, wrote, min_of, grow, vfs_file_write,
}

-- The file `n` keeps its contents in the buffer `b` of its owner.
pub record IsFile (v : Vfs) (n b : ℕ) : Type 0 where
  pub regular : vfs_file_is_regular v n ≡ true
  pub buffer : (v.nodes (owner_of v n)).buffer ≡ some b

-- Every name of the file `n`, itself and its hard links, shows the given size and the same buffer,
-- and no other buffer has changed.
pub record Sized (v : Vfs) (n b size : ℕ) (v' : Vfs) : Type 0 where
  pub file_size :
      (k : ℕ)
      → vfs_file_is_regular v k ≡ true
      → owner_of v k ≡ owner_of v n
      → vfs_file_size v' k ≡ size
  pub file_data :
      (k : ℕ)
      → vfs_file_is_regular v k ≡ true
      → owner_of v k ≡ owner_of v n
      → vfs_file_data v' k ≡ some b
  pub other_buffers : (k j : ℕ) → k ≢ b → v'.buffers k j ≡ v.buffers k j

module _ (v : Vfs) (n b : ℕ) (f : IsFile v n b) where
  store_value :
      (lo hi : ℕ) (src : ℕ → ℕ)
      → store_bytes (owner_of v n) lo hi src v
        ≡ record v { buffers = update v.buffers b (filled (v.buffers b) lo hi src) }
  unfolding store_bytes
  store_value lo hi src = ground (arith, f.buffer)

  write_value :
      (off len : ℕ) (src : ℕ → ℕ)
      → off < (v.nodes (owner_of v n)).capacity
      → let w = min_of len ((v.nodes (owner_of v n)).capacity - off) in
        vfs_file_write n off (some src) len v ≡ (
          wrote w,
          grow n
              (owner_of v n)
              (off + w)
              (record v { buffers = update v.buffers b (filled (v.buffers b) off (off + w) src) }),
        )
  unfolding vfs_file_write
  write_value off len src h =
      let s = store_value off (off + min_of len ((v.nodes (owner_of v n)).capacity - off)) src in
      ground (arith, s, f.regular)

  -- Changing sizes alone keeps the kind, the owner and the buffer of every node.
  record SameFiles (v' : Vfs) : Type 0 where
    regular : (k : ℕ) → vfs_file_is_regular v' k ≡ vfs_file_is_regular v k
    owner : (k : ℕ) → owner_of v' k ≡ owner_of v k
    buffer : (k : ℕ) → (v'.nodes k).buffer ≡ (v.nodes k).buffer

  SameFiles-Sized :
      (v' : Vfs) (size : ℕ)
      → SameFiles v'
      → (v'.nodes (owner_of v n)).size ≡ size
      → ((k j : ℕ) → k ≢ b → v'.buffers k j ≡ v.buffers k j)
      → Sized v n b size v'
  unfolding vfs_file_size vfs_file_data
  SameFiles-Sized v' size s e o = record {
    file_size = λ k r w. rw (s.regular k, s.owner k, r, w) e;
    file_data = λ k r w. rw (s.regular k, s.owner k, r, w) (s.buffer (owner_of v n) ∙ f.buffer);
    other_buffers = o;
  }

  grow-SameFiles :
      (end : ℕ) (buf : ℕ → ℕ → ℕ)
      → SameFiles (grow n (owner_of v n) end (record v { buffers = buf }))
  unfolding grow owner_of vfs_file_is_regular
  grow-SameFiles end buf = record {
    regular = λ k. ground arith;
    owner = λ k. ground arith;
    buffer = λ k. ground arith;
  }

  resize-SameFiles :
      (len : ℕ) (buf : ℕ → ℕ → ℕ)
      → SameFiles (set_size (owner_of v n) len (record v { buffers = buf }))
  unfolding owner_of vfs_file_is_regular
  resize-SameFiles len buf = record {
    regular = λ k. ground arith;
    owner = λ k. ground arith;
    buffer = λ k. ground arith;
  }

  abbrev after_write : ℕ → (ℕ → ℕ) → Vfs
  after_write end buf = grow n (owner_of v n) end (record v { buffers = update v.buffers b buf })

  after_write-size :
      (end : ℕ) (buf : ℕ → ℕ)
      → ((after_write end buf).nodes (owner_of v n)).size
        ≡ (if ltb (v.nodes (owner_of v n)).size end then end else (v.nodes (owner_of v n)).size)
  unfolding grow
  after_write-size end buf = ground arith

  after_write-buffers :
      (end : ℕ) (buf : ℕ → ℕ) (k j : ℕ) → k ≢ b → (after_write end buf).buffers k j ≡ v.buffers k j
  unfolding grow
  after_write-buffers end buf k j ne = ground arith

  grown-Sized :
      (end : ℕ) (buf : ℕ → ℕ)
      → Sized v n b
          (if ltb (v.nodes (owner_of v n)).size end then end else (v.nodes (owner_of v n)).size)
          (after_write end buf)
  grown-Sized end buf =
      SameFiles-Sized _ _ (grow-SameFiles end (update v.buffers b buf)) (after_write-size end buf)
        (after_write-buffers end buf)

  grown_buffer :
      (end : ℕ) (buf : ℕ → ℕ)
      → (grow n (owner_of v n) end (record v { buffers = update v.buffers b buf })).buffers b ≡ buf
  unfolding grow
  grown_buffer end buf = ground arith

  abbrev after_truncate : ℕ → (ℕ → ℕ → ℕ) → Vfs
  after_truncate len buf = set_size (owner_of v n) len (record v { buffers = buf })

  abbrev extended : ℕ → ℕ → ℕ → ℕ
  extended len =
      update v.buffers b (filled (v.buffers b) (v.nodes (owner_of v n)).size len (λ _. 0))

  extend_value :
      (len : ℕ)
      → len ≤ (v.nodes (owner_of v n)).capacity
      → (v.nodes (owner_of v n)).size < len
      → vfs_file_truncate n len v ≡ (ok, after_truncate len (extended len))
  unfolding vfs_file_truncate
  extend_value len h lt =
      let s = store_value (v.nodes (owner_of v n)).size len (λ _. 0) in ground (arith, s, f.regular)

  shrink_value :
      (len : ℕ)
      → len ≤ (v.nodes (owner_of v n)).capacity
      → len ≤ (v.nodes (owner_of v n)).size
      → vfs_file_truncate n len v ≡ (ok, after_truncate len v.buffers)
  unfolding vfs_file_truncate
  shrink_value len h le = ground (arith, f.regular)

  truncated-Sized :
      (len : ℕ) (buf : ℕ → ℕ → ℕ)
      → ((k j : ℕ) → k ≢ b → buf k j ≡ v.buffers k j)
      → Sized v n b len (after_truncate len buf)
  truncated-Sized len buf o = SameFiles-Sized _ len (resize-SameFiles len buf) (ground arith) o

-- A write to a file at an offset below its capacity writes as many bytes as fit: they are then in the
-- file's buffer, all other bytes of it are as before, and every name of the file has the larger of
-- the old size and the end of the write.
pub vfs_file_write-Sized :
    (v : Vfs) (n b off len : ℕ) (src : ℕ → ℕ)
    → IsFile v n b
    → off < (v.nodes (owner_of v n)).capacity
    → let (r, v') = vfs_file_write n off (some src) len v in
      let w = min_of len ((v.nodes (owner_of v n)).capacity - off) in
      let size = (v.nodes (owner_of v n)).size in
      (r ≡ wrote w)
      × Sized v n b (if ltb size (off + w) then off + w else size) v'
      × ((j : ℕ) → j < w → v'.buffers b (off + j) ≡ src j)
      × ((j : ℕ) → (j < off) ⊎ (off + w ≤ j) → v'.buffers b j ≡ v.buffers b j)
vfs_file_write-Sized v n b off len src f lt =
    let w = min_of len ((v.nodes (owner_of v n)).capacity - off) in
    let value = write_value v n b f off len src lt in
    let bytes = filled (v.buffers b) off (off + w) src in
    let same = grown_buffer v n b f (off + w) bytes in
    rw value (
      refl,
      grown-Sized v n b f (off + w) bytes,
      λ j l. rw same (ground arith),
      λ j o. rw same (ground arith),
    )

-- A truncation to at most the capacity succeeds: every name of the file has the new size, the bytes
-- below the old size are as before, and those from the old size to the new one are 0.
pub vfs_file_truncate-Sized :
    (v : Vfs) (n b len : ℕ)
    → IsFile v n b
    → len ≤ (v.nodes (owner_of v n)).capacity
    → let (r, v') = vfs_file_truncate n len v in
      let size = (v.nodes (owner_of v n)).size in
      (r ≡ ok)
      × Sized v n b len v'
      × ((j : ℕ) → j < size → v'.buffers b j ≡ v.buffers b j)
      × ((j : ℕ) → size ≤ j → j < len → v'.buffers b j ≡ 0)
vfs_file_truncate-Sized v n b len f le = elim (Bool-cases (ltb (v.nodes (owner_of v n)).size len)) [
  | inl g ↦ rw (extend_value v n b f len le (ground arith)) (
    refl,
    truncated-Sized v n b f len (extended v n b f len) (λ k j ne. ground arith),
    λ j l. ground arith,
    λ j l h. ground arith,
  )
  | inr g ↦ rw (shrink_value v n b f len le (ground arith)) (
    refl,
    truncated-Sized v n b f len v.buffers (λ k j ne. refl),
    λ j l. refl,
    λ j l h. absurd (ground arith),
  )
]
