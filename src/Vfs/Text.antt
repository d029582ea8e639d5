-- ===== src/Vfs/Text.antt =====
-- src/kernel/vfs.c: text output into a buffer of limited size.
-- A string is the list of its bytes without the final 0.
use yabro_os.Base.{
  ℕ, zero, suc, ◌+◌, ◌*◌, ◌/◌, ◌%◌, ◌^◌, List, [], ◌∷◌, ltb, leb, ◌==◌, if◌then◌else◌, update,
}
use yabro_os.Pmm.State.{Pmm, pmm_free_count, pmm_total_count}

-- `out` and `*pos`
pub record Out : Type 0 where
  pub buf : ℕ → ℕ
  pub pos : ℕ

-- `out` is not a null pointer in any call.
unfoldable pub proc_putc : ℕ → ℕ → Out → Out
proc_putc cap c o =
    if leb cap (o.pos + 1)
    then o
    else record { buf = update (update o.buf o.pos c) (o.pos + 1) 0; pos = o.pos + 1 }

unfoldable pub proc_puts : ℕ → List ℕ → Out → Out
proc_puts cap [] o = o
proc_puts cap (c ∷ cs) o =
    let rest = proc_puts cap cs (proc_putc cap c o) in if ltb (o.pos + 1) cap then rest else o

-- `while (v && n < sizeof(tmp)) tmp[n++] = '0' + v % 10`, with the room left in `tmp`; the digits come
-- in the order in which they are taken out again.
unfoldable pub tmp_digits : ℕ → ℕ → List ℕ → List ℕ
tmp_digits zero v tmp = tmp
tmp_digits (suc room) v tmp =
    let rest = tmp_digits room (v / 10) ((48 + v % 10) ∷ tmp) in if v == 0 then tmp else rest

-- `while (n) proc_putc(out, cap, pos, tmp[--n])`
unfoldable pub put_all : ℕ → List ℕ → Out → Out
put_all cap [] o = o
put_all cap (c ∷ cs) o = put_all cap cs (proc_putc cap c o)

unfoldable pub proc_put_u64 : ℕ → ℕ → Out → Out
proc_put_u64 cap v o = if v == 0 then proc_putc cap 48 o else put_all cap (tmp_digits 32 v []) o

-- `" kB\n"` after the number of kilobytes.
unfoldable pub proc_put_kb : ℕ → ℕ → Out → Out
proc_put_kb cap bytes o =
    proc_puts cap (32 ∷ 107 ∷ 66 ∷ 10 ∷ []) (proc_put_u64 cap (bytes / 1024) o)

-- "MemTotal:       " and so on.
abbrev pub mem_total : List ℕ
mem_total = 77 ∷ 101 ∷ 109 ∷ 84 ∷ 111 ∷ 116 ∷ 97 ∷ 108 ∷ 58 ∷ 32 ∷ 32 ∷ 32 ∷ 32 ∷ 32 ∷ 32 ∷ 32 ∷ []

abbrev pub mem_free : List ℕ
mem_free = 77 ∷ 101 ∷ 109 ∷ 70 ∷ 114 ∷ 101 ∷ 101 ∷ 58 ∷ 32 ∷ 32 ∷ 32 ∷ 32 ∷ 32 ∷ 32 ∷ 32 ∷ 32 ∷ []

abbrev pub mem_available : List ℕ
mem_available =
    77 ∷ 101 ∷ 109 ∷ 65 ∷ 118 ∷ 97 ∷ 105 ∷ 108 ∷ 97 ∷ 98 ∷ 108 ∷ 101 ∷ 58 ∷ 32 ∷ 32 ∷ 32 ∷ []

abbrev pub page_size_label : List ℕ
page_size_label =
    80 ∷ 97 ∷ 103 ∷ 101 ∷ 83 ∷ 105 ∷ 122 ∷ 101 ∷ 58 ∷ 32 ∷ 32 ∷ 32 ∷ 32 ∷ 32 ∷ 32 ∷ 32 ∷ []

-- `pos` starts at 0; the result is the text and its length.
unfoldable pub proc_make_meminfo : ℕ → Pmm → (ℕ → ℕ) → Out
proc_make_meminfo cap s out =
    let total = pmm_total_count s * 4096 % 2 ^ 64 in
    let free = pmm_free_count s * 4096 % 2 ^ 64 in
    let o1 = proc_put_kb cap total (proc_puts cap mem_total (record { buf = out; pos = 0 })) in
    let o2 = proc_put_kb cap free (proc_puts cap mem_free o1) in
    let o3 = proc_put_kb cap free (proc_puts cap mem_available o2) in
    proc_put_kb cap 4096 (proc_puts cap page_size_label o3)
