-- ===== src/Kernel/Tty/Tests.antt =====
-- A pseudo-terminal with a few bytes in its rings, and the theorems about it.
use yabro_os.Base.{
  ℕ, ◌-◌, ◌≤◌, ◌≡◌, refl, ◌⊎◌, true, List, [], ◌∷◌, ◌++◌, arith, min, length, take, drop, pos,
}
use yabro_os.Kernel.Ring.{Ring, pty_cap, pty_ring_write, pty_ring_read}
use yabro_os.Kernel.Ring.Contents.{IsRing, contents}
use yabro_os.Kernel.Ring.Refine.{pty_ring_read-pty_ring_write}
use yabro_os.Kernel.Signal.Tests.{one_task}
use yabro_os.Kernel.Tty.{Pty, zero_pty, byte_of, pty_default_termios}
use yabro_os.Kernel.Tty.Output.{pty_output_write}
use yabro_os.Kernel.Tty.Canon.{Feed, pty_canon_feed}
use yabro_os.Kernel.Tty.Translate.{OutputDone, pty_output_write-OutputDone}
use yabro_os.Kernel.Tty.Bounds.{IsPty, Full, pty_canon_feed-IsPty}

abbrev two_letters : List ℕ
two_letters = 104 ∷ 105 ∷ []

abbrev typed_text : List ℕ
typed_text = 104 ∷ 13 ∷ 3 ∷ []

abbrev one_line : List ℕ
one_line = 104 ∷ 10 ∷ []

-- Three bytes, around the end of the array.
abbrev three_bytes : Ring
three_bytes = record { buf = λ i. i; r = 65534; w = 1; count = 3 }

three_bytes-IsRing : IsRing three_bytes
three_bytes-IsRing = record { read_index = omega arith; full = omega arith; write_index = refl }

pty_ring_read-pty_ring_write_example :
    let (done, s1) = pty_ring_write three_bytes two_letters in
    let (bytes, s2) = pty_ring_read s1 4 in
    (done ≡ min (length two_letters) (pty_cap - 3))
    × (bytes ≡ take 4 (contents three_bytes ++ take done two_letters))
    × (contents s2 ≡ drop 4 (contents three_bytes ++ take done two_letters))
    × IsRing s2
pty_ring_read-pty_ring_write_example =
    pty_ring_read-pty_ring_write three_bytes two_letters 4 three_bytes-IsRing

abbrev open_pty : Pty
open_pty = record zero_pty {
  m2s = three_bytes;
  s2m = three_bytes;
  master_open = true;
  slave_open = true;
  termios = byte_of pty_default_termios;
  fg_pgrp = pos 7;
}

open_pty-IsPty : IsPty open_pty
open_pty-IsPty = record {
  to_slave = three_bytes-IsRing;
  to_master = three_bytes-IsRing;
  line = omega arith;
}

pty_output_write-OutputDone_example :
    let (done, p') = pty_output_write open_pty one_line in OutputDone open_pty p' one_line done
pty_output_write-OutputDone_example =
    pty_output_write-OutputDone open_pty one_line three_bytes-IsRing

abbrev typing : Feed
typing = record { pty = open_pty; tasks = λ i. one_task }

pty_canon_feed-IsPty_example :
    let (taken, s') = pty_canon_feed (λ _ tasks. tasks) typed_text typing in
    IsPty s'.pty × (taken ≤ length typed_text) × ((taken ≡ length typed_text) ⊎ Full s'.pty)
pty_canon_feed-IsPty_example =
    pty_canon_feed-IsPty (λ _ tasks. tasks) typed_text typing open_pty-IsPty
