-- ===== src/Kernel/Ring/Refine.antt =====
-- src/kernel/main.c: the ring is a queue of bytes of bounded length.
use yabro_os.Base.{
  ℕ, zero, suc, ◌+◌, ◌-◌, ◌<◌, ◌≡◌, refl, sym, ap, ◌∙◌, List, [], ◌∷◌, ◌++◌, ltb, ◌==◌, arith, min,
  inl, inr, Bool-cases, length, take, drop, append_assoc, append_nil,
}
use yabro_os.Kernel.Ring.{
  Ring, pty_cap, put_byte, drop_byte, write_loop, pty_ring_write, pty_ring_read,
}
use yabro_os.Kernel.Ring.Contents.{
  IsRing, contents, put_byte-IsRing, contents-put_byte, drop_byte-IsRing, contents-drop_byte,
  contents-empty,
}

write_loop-Queue :
    (xs : List ℕ) (d : ℕ) (s : Ring)
    → IsRing s
    → IsRing (write_loop xs d s).1
      × ((write_loop xs d s).0 ≡ d + min (length xs) (pty_cap - s.count))
      × (contents (write_loop xs d s).1
          ≡ contents s ++ take (min (length xs) (pty_cap - s.count)) xs)
unfolding write_loop put_byte
write_loop-Queue [] d s v =
    let nothing : min 0 (pty_cap - s.count) ≡ 0 = omega arith in
    rw nothing (v, omega arith, sym (append_nil (contents s)))
write_loop-Queue (x ∷ xs) d s v = elim (Bool-cases (ltb s.count pty_cap)) [
  | inr full ↦
      let none_left : min (suc (length xs)) (pty_cap - s.count) ≡ 0 = ground arith in
      rw (full, none_left) (v, omega arith, sym (append_nil (contents s)))
  | inl free ↦
      let lt : s.count < pty_cap = ground arith in
      let (v', n, c) = write_loop-Queue xs (d + 1) (put_byte s x) (put_byte-IsRing s x v lt) in
      let fewer : min (suc (length xs)) (pty_cap - s.count)
          ≡ suc (min (length xs) (pty_cap - (s.count + 1))) =
        omega arith in
      rw (free, fewer)
        (
          v',
          n ∙ omega arith,
          c ∙ rw (contents-put_byte s x v lt) (append_assoc (contents s) (x ∷ []) _),
        )
]

-- `pty_ring_write` takes as many of the bytes as there is room for, returns their number and puts
-- them behind the bytes that the ring holds, and the ring stays well formed.
pub pty_ring_write-Queue :
    (s : Ring) (src : List ℕ)
    → IsRing s
    → let (done, s') = pty_ring_write s src in
      IsRing s'
      × (done ≡ min (length src) (pty_cap - s.count))
      × (contents s' ≡ contents s ++ take done src)
unfolding pty_ring_write
pty_ring_write-Queue s src v =
    let (v', n, c) = write_loop-Queue src 0 s v in
    let m : 0 + min (length src) (pty_cap - s.count) ≡ min (length src) (pty_cap - s.count) =
      omega arith in
    (v', n ∙ m, c ∙ rw (n, m) refl)

-- `pty_ring_read` gives the first bytes that the ring holds, as many as were asked for or all, and
-- leaves the others, in order, in a ring that is well formed.
pub pty_ring_read-Queue :
    (s : Ring) (n : ℕ)
    → IsRing s
    → let (bytes, s') = pty_ring_read s n in
      IsRing s' × (bytes ≡ take n (contents s)) × (contents s' ≡ drop n (contents s))
unfolding pty_ring_read
pty_ring_read-Queue s zero v = (v, refl, refl)
pty_ring_read-Queue s (suc n) v = elim (Bool-cases (s.count == 0)) [
  | inl empty ↦
      let none_left : contents s ≡ [] = contents-empty s (ground arith) in
      rw (empty, none_left) (v, refl, refl)
  | inr some_left ↦
      let lt : 0 < s.count = ground arith in
      let (v', b, c) = pty_ring_read-Queue (drop_byte s) n (drop_byte-IsRing s v lt) in
      rw (some_left, contents-drop_byte s lt) (v', ap (λ l. s.buf s.r ∷ l) b, c)
]

-- A write to a well-formed ring takes as many of the bytes as there is room for and returns their
-- number; a read after it gives the first bytes of those that the ring held, followed by those
-- taken, as many as were asked for or all, and leaves the others, in order, in a ring that is well
-- formed.
pub pty_ring_read-pty_ring_write :
    (s : Ring) (src : List ℕ) (n : ℕ)
    → IsRing s
    → let (done, s1) = pty_ring_write s src in
      let (bytes, s2) = pty_ring_read s1 n in
      (done ≡ min (length src) (pty_cap - s.count))
      × (bytes ≡ take n (contents s ++ take done src))
      × (contents s2 ≡ drop n (contents s ++ take done src))
      × IsRing s2
pty_ring_read-pty_ring_write s src n v =
    let (v1, d, c) = pty_ring_write-Queue s src v in
    let (v2, b, l) = pty_ring_read-Queue (pty_ring_write s src).1 n v1 in
    (d, b ∙ rw c refl, l ∙ rw c refl, v2)
