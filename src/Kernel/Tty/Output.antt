-- ===== src/Kernel/Tty/Output.antt =====
-- src/kernel/main.c: output to a pseudo-terminal and what a reader can get.
use yabro_os.Base.{
  ℕ, zero, suc, ◌+◌, ◌-◌, Bool, true, false, ◌&&◌, ◌||◌, not, Option, none, some, List, [], ◌∷◌,
  ltb, leb, ◌==◌, if◌then◌else◌, has,
}
use yabro_os.Kernel.Ring.{pty_cap, pty_ring_write}
use yabro_os.Kernel.Tty.{
  Pty, tty_cc, tty_cc_match, tty_oflag, tty_lflag, opost, onlcr, echo, echonl, echoctl, icanon,
  veof, veol, veol2,
}

-- `(oflag&OPOST)&&(oflag&ONLCR)&&c=='\n'`
abbrev pub adds_cr : ℕ → ℕ → Bool
adds_cr oflag c = has opost oflag && has onlcr oflag && c == 10

-- One round of the loop, or `none` for a `break`.
unfoldable pub output_byte : Pty → ℕ → Option Pty
output_byte p c =
    let crlf = pty_ring_write p.s2m (13 ∷ 10 ∷ []) in
    let plain = pty_ring_write p.s2m (c ∷ []) in
    if adds_cr (tty_oflag p.termios) c
    then (if ltb (pty_cap - p.s2m.count) 2
        then none
        else if not (crlf.0 == 2)
        then none
        else some (record p { s2m = crlf.1 }))
    else if leb pty_cap p.s2m.count
    then none
    else if not (plain.0 == 1)
    then none
    else some (record p { s2m = plain.1 })

unfoldable pub output_loop : List ℕ → ℕ → Pty → ℕ × Pty
output_loop [] done p = (done, p)
output_loop (c ∷ cs) done p = elim (output_byte p c) [
  | none ↦ (done, p)
  | some p' ↦ output_loop cs (done + 1) p'
]

unfoldable pub pty_output_write : Pty → List ℕ → ℕ × Pty
pty_output_write p src = output_loop src 0 p

-- `c ^ 0x40` for a byte
abbrev pub flip_64 : ℕ → ℕ
flip_64 c = if has 6 c then c - 64 else c + 64

unfoldable pub pty_echo_char : Pty → ℕ → ℕ → Pty
pty_echo_char p c lflag =
    let vis = 94 ∷ (if c == 127 then 63 else flip_64 c) ∷ [] in
    if not p.master_open
    then p
    else (if not (has echo lflag)
        then (if c == 10 && has echonl lflag then (pty_output_write p (c ∷ [])).1 else p)
        else (if has echoctl lflag && (ltb c 32 && not (c == 10) && not (c == 9) || c == 127)
            then (pty_output_write p vis).1
            else (pty_output_write p (c ∷ [])).1))

unfoldable pub pty_flush_input : Pty → Pty
pty_flush_input p = record p { m2s = record p.m2s { r = 0; w = 0; count = 0 }; canon_count = 0 }

unfoldable pub pty_flush_output : Pty → Pty
pty_flush_output p = record p { s2m = record p.s2m { r = 0; w = 0; count = 0 } }

-- `veol&&c==veol` and the like
abbrev pub is_cc : ℕ → ℕ → Bool
is_cc v c = not (v == 0) && c == v

-- The loop of `pty_canon_available`: `left` bytes from index `i` on.
unfoldable pub available_from : Pty → ℕ → ℕ → Bool
available_from p zero i = false
available_from p (suc left) i =
    let c = p.canon i in
    let rest = available_from p left (i + 1) in
    if c == 10
      || tty_cc_match p.termios veof c
      || is_cc (tty_cc p.termios veol) c
      || is_cc (tty_cc p.termios veol2) c
    then true
    else rest

unfoldable pub pty_canon_available : Pty → Bool
pty_canon_available p = if p.canon_count == 0 then false else available_from p p.canon_count 0

-- The loop of `pty_canon_ready_bytes`, with `n` and `ready`.
unfoldable pub ready_from : Pty → ℕ → ℕ → ℕ → ℕ → ℕ
ready_from p zero i n ready = ready
ready_from p (suc left) i n ready =
    let c = p.canon i in
    let ends = c == 10 || is_cc (tty_cc p.termios veol) c || is_cc (tty_cc p.termios veol2) c in
    let rest = ready_from p left (i + 1) (n + 1) (if ends then n + 1 else ready) in
    if is_cc (tty_cc p.termios veof) c then n else rest

unfoldable pub pty_canon_ready_bytes : Pty → ℕ
pty_canon_ready_bytes p = ready_from p p.canon_count 0 0 0

unfoldable pub pty_master_read_ready : Pty → Bool
pty_master_read_ready p = not p.output_stopped && not (p.s2m.count == 0) || not p.slave_open

unfoldable pub pty_slave_read_ready : Pty → Bool
pty_slave_read_ready p =
    if has icanon (tty_lflag p.termios)
    then pty_canon_available p || not p.master_open
    else not (p.m2s.count == 0) || not p.master_open
