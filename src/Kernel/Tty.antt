-- ===== src/Kernel/Tty.antt =====
-- src/kernel/main.c: the pseudo-terminals, their flags and control characters.
pub mod Output
pub mod Canon
pub mod Translate
pub mod Bounds
pub mod Tests
use yabro_os.Base.{
  ℕ, zero, suc, ◌+◌, ◌-◌, ◌*◌, ◌/◌, ◌%◌, Bool, true, false, ◌&&◌, ◌||◌, not, Option, none, some,
  List, [], ◌∷◌, ltb, leb, ◌==◌, if◌then◌else◌, has, ℤ, pos, negsuc,
}
use yabro_os.Kernel.Ring.{Ring}

-- Bit numbers of the flags.
abbrev pub icanon : ℕ
icanon = 1

abbrev pub echo : ℕ
echo = 3

abbrev pub isig : ℕ
isig = 0

abbrev pub inlcr : ℕ
inlcr = 6

abbrev pub igncr : ℕ
igncr = 7

abbrev pub icrnl : ℕ
icrnl = 8

abbrev pub ixany : ℕ
ixany = 11

abbrev pub ixon : ℕ
ixon = 10

abbrev pub opost : ℕ
opost = 0

abbrev pub onlcr : ℕ
onlcr = 2

abbrev pub echonl : ℕ
echonl = 6

abbrev pub echoe : ℕ
echoe = 4

abbrev pub echok : ℕ
echok = 5

abbrev pub noflsh : ℕ
noflsh = 7

abbrev pub echoctl : ℕ
echoctl = 9

-- Control characters and signals, by number.
abbrev pub vintr : ℕ
vintr = 0

abbrev pub vquit : ℕ
vquit = 1

abbrev pub verase : ℕ
verase = 2

abbrev pub vkill : ℕ
vkill = 3

abbrev pub veof : ℕ
veof = 4

abbrev pub vstart : ℕ
vstart = 8

abbrev pub vstop : ℕ
vstop = 9

abbrev pub vsusp : ℕ
vsusp = 10

abbrev pub veol : ℕ
veol = 11

abbrev pub veol2 : ℕ
veol2 = 16

abbrev pub nccs : ℕ
nccs = 19

abbrev pub sigquit : ℕ
sigquit = 3

abbrev pub sigtstp : ℕ
sigtstp = 20

abbrev pub pty_count : ℕ
pty_count = 8

-- `pty_state_k`. `m2s` and `s2m` are the two rings.
pub record Pty : Type 0 where
  pub m2s : Ring
  pub s2m : Ring
  pub master_open : Bool
  pub slave_open : Bool
  pub unlocked : Bool
  pub master_refs : ℕ
  pub slave_refs : ℕ
  pub rows : ℕ
  pub cols : ℕ
  pub xpixel : ℕ
  pub ypixel : ℕ
  pub termios : ℕ → ℕ
  pub canon : ℕ → ℕ
  pub canon_count : ℕ
  pub fg_pgrp : ℤ
  pub shell_pgrp : ℤ
  pub session : ℤ
  pub output_stopped : Bool
  pub index : ℕ

-- A word of four bytes, the lowest first.
abbrev pub word_at : (ℕ → ℕ) → ℕ → ℕ
word_at t i = t i + 256 * t (i + 1) + 65536 * t (i + 2) + 16777216 * t (i + 3)

unfoldable pub tty_iflag : (ℕ → ℕ) → ℕ
tty_iflag t = word_at t 0

unfoldable pub tty_oflag : (ℕ → ℕ) → ℕ
tty_oflag t = word_at t 4

unfoldable pub tty_lflag : (ℕ → ℕ) → ℕ
tty_lflag t = word_at t 12

unfoldable pub tty_cc : (ℕ → ℕ) → ℕ → ℕ
tty_cc t i = if ltb i nccs then t (17 + i) else 0

unfoldable pub tty_cc_match : (ℕ → ℕ) → ℕ → ℕ → Bool
tty_cc_match t i c = let v = tty_cc t i in not (v == 0) && c == v

unfoldable pub byte_of : List ℕ → ℕ → ℕ
byte_of [] i = 0
byte_of (b ∷ bs) zero = b
byte_of (b ∷ bs) (suc i) = byte_of bs i

abbrev pub pty_default_termios : List ℕ
pty_default_termios =
    0x00 ∷ 0x05 ∷ 0x00 ∷ 0x00 ∷ 0x05 ∷ 0x00 ∷ 0x00 ∷ 0x00 ∷ 0xbf ∷ 0x00 ∷ 0x00 ∷ 0x00 ∷ 0x3b ∷ 0x8a
    ∷ 0x00 ∷ 0x00 ∷ 0x00 ∷ 0x03 ∷ 0x1c ∷ 0x7f ∷ 0x15 ∷ 0x04 ∷ 0x00 ∷ 0x01 ∷ 0x00 ∷ 0x11 ∷ 0x13
    ∷ 0x1a ∷ 0x00 ∷ 0x12 ∷ 0x0f ∷ 0x17 ∷ 0x16 ∷ 0x00 ∷ []

unfoldable pub pty_reset_termios : Pty → Pty
pty_reset_termios p = record p { termios = byte_of pty_default_termios }

abbrev pub empty_ring : Ring
empty_ring = record { buf = λ i. 0; r = 0; w = 0; count = 0 }

-- A slot with all bytes zero.
abbrev pub zero_pty : Pty
zero_pty = record {
  m2s = empty_ring;
  s2m = empty_ring;
  master_open = false;
  slave_open = false;
  unlocked = false;
  master_refs = 0;
  slave_refs = 0;
  rows = 0;
  cols = 0;
  xpixel = 0;
  ypixel = 0;
  termios = λ i. 0;
  canon = λ i. 0;
  canon_count = 0;
  fg_pgrp = pos 0;
  shell_pgrp = pos 0;
  session = pos 0;
  output_stopped = false;
  index = 0;
}

-- The slots, when `done` is not set yet.
unfoldable pub pty_init_once : (ℕ → Pty) → ℕ → Pty
pty_init_once slots i =
    if ltb i pty_count
    then pty_reset_termios
        (record zero_pty { index = i; rows = 30; cols = 80; xpixel = 640; ypixel = 480 })
    else slots i
