-- ===== src/Kernel/Ring.antt =====
-- src/kernel/main.c: the byte rings of the pseudo-terminals.
pub mod Contents
pub mod Refine
use yabro_os.Base.{
  ℕ, zero, suc, ◌+◌, ◌-◌, ◌%◌, Bool, true, false, not, ◌&&◌, List, [], ◌∷◌, ltb, ◌==◌,
  if◌then◌else◌, update,
}

abbrev pub pty_cap : ℕ
pty_cap = 65536

-- One of the two rings of `pty_state_k`: the bytes, the index of the next byte to read and to
-- write, the number of bytes held.
pub record Ring : Type 0 where
  pub buf : ℕ → ℕ
  pub r : ℕ
  pub w : ℕ
  pub count : ℕ

-- `buf[*w]=src[done++]; *w=(*w+1)%PTY_CAP; (*count)++`
unfoldable pub put_byte : Ring → ℕ → Ring
put_byte s x = record s { buf = update s.buf s.w x; w = (s.w + 1) % pty_cap; count = s.count + 1 }

-- The `n` bytes of `src` are a list; `done` so far.
unfoldable pub write_loop : List ℕ → ℕ → Ring → ℕ × Ring
write_loop [] done s = (done, s)
write_loop (x ∷ xs) done s =
    let rest = write_loop xs (done + 1) (put_byte s x) in
    if ltb s.count pty_cap then rest else (done, s)

unfoldable pub pty_ring_write : Ring → List ℕ → ℕ × Ring
pty_ring_write s src = write_loop src 0 s

-- `*r=(*r+1)%PTY_CAP; (*count)--`
unfoldable pub drop_byte : Ring → Ring
drop_byte s = record s { r = (s.r + 1) % pty_cap; count = s.count - 1 }

-- The bytes that are stored at `dst`.
unfoldable pub pty_ring_read : Ring → ℕ → List ℕ × Ring
pty_ring_read s zero = ([], s)
pty_ring_read s (suc n) =
    let rest = pty_ring_read (drop_byte s) n in
    if s.count == 0 then ([], s) else (s.buf s.r ∷ rest.0, rest.1)
