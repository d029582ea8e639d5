-- ===== src/Kernel/UserCopy.antt =====
-- src/kernel/main.c: copies between the kernel and the memory of a user space.
pub mod Rounds
use yabro_os.Base.{
  ℕ, zero, suc, ◌+◌, ◌-◌, ◌*◌, ◌/◌, ◌%◌, ◌^◌, min, Bool, ◌&&◌, not, Option, none, some, List, [],
  ◌∷◌, ◌++◌, ◌==◌, if◌then◌else◌, length, take, drop, has, Code, ok, err,
}
use yabro_os.Pmm.State.{Memory, page_size, page_of, pmm_phys_to_virt}
use yabro_os.Vmm.Machine.{Machine, pte_u, pte_w, pte_cow, store}
use yabro_os.Vmm.Walk.{vmm_user_translate_cr3, vmm_user_range_ok}
use yabro_os.Vmm.Map.{vmm_user_cr3}
use yabro_os.Vmm.Cow.{vmm_user_cow_fault}

-- `user_range_ok`
abbrev pub user_range_ok : Machine → ℕ → ℕ → Bool → Bool
user_range_ok m va len write = vmm_user_range_ok m va len write

-- The byte at a physical address: eight bytes to a word, the lowest first.
unfoldable pub byte_at : Memory → ℕ → ℕ
byte_at mem phys = mem (page_of phys) (phys % page_size / 8) / 256 ^ (phys % 8) % 256

-- Memory with the byte at a physical address set.
unfoldable pub put_byte_at : ℕ → ℕ → Memory → Memory
put_byte_at phys b mem =
    let w = mem (page_of phys) (phys % page_size / 8) in
    let lane = 256 ^ (phys % 8) in
    store mem (page_of phys) (phys % page_size / 8) (w - w / lane % 256 * lane + b % 256 * lane)

-- `for (i=0;i<n;i++) dst[i]=sp[off+i]`
unfoldable pub read_bytes : Memory → ℕ → ℕ → List ℕ
read_bytes mem phys zero = []
read_bytes mem phys (suc n) = byte_at mem phys ∷ read_bytes mem (phys + 1) n

-- `for (i=0;i<n;i++) dp[off+i]=src[i]`
unfoldable pub write_bytes : ℕ → List ℕ → Memory → Memory
write_bytes phys [] mem = mem
write_bytes phys (b ∷ bs) mem = write_bytes (phys + 1) bs (put_byte_at phys b mem)

-- The physical page of a user page that can be read, where the kernel sees it.
unfoldable pub readable_page : Machine → ℕ → ℕ → Option ℕ
readable_page m cr3 page = elim (vmm_user_translate_cr3 m cr3 page) [
  | none ↦ none
  | some (phys, pte) ↦
      if not (has pte_u pte)
      then none
      else elim (pmm_phys_to_virt m.pmm phys) [ none ↦ none | some _ ↦ some phys ]
]

-- The `while` of `user_copy_from_cr3`, with the rounds left.
unfoldable pub copy_from_loop : ℕ → Machine → ℕ → ℕ → ℕ → Option (List ℕ)
copy_from_loop zero m cr3 src len = if len == 0 then some [] else none
copy_from_loop (suc k) m cr3 src len =
    let off = src % page_size in
    let n = min (page_size - off) len in
    let rest = copy_from_loop k m cr3 (src + n) (len - n) in
    if len == 0 then some [] else elim (readable_page m cr3 (page_of src)) [
      | none ↦ none
      | some phys ↦ elim rest [
        | none ↦ none
        | some bytes ↦ some (read_bytes m.mem (phys + off) n ++ bytes)
      ]
    ]

-- The bytes that arrive at `dst`, or `none` for -EFAULT. A round copies a byte at least.
unfoldable pub user_copy_from_cr3 : Machine → ℕ → ℕ → ℕ → Option (List ℕ)
user_copy_from_cr3 m cr3 src len = if cr3 == 0 then none else copy_from_loop len m cr3 src len

-- The physical page of a user page, made writable if it is marked copy-on-write.
unfoldable pub writable_page : ℕ → ℕ → Machine → Option ℕ × Machine
writable_page cr3 page m =
    let handled = vmm_user_cow_fault cr3 page m in
    elim (vmm_user_translate_cr3 m cr3 page) [
      | none ↦ (none, m)
      | some (phys, pte) ↦
          if not (has pte_u pte)
          then (none, m)
          else (if has pte_w pte
              then (some phys, m)
              else if not (has pte_cow pte)
              then (none, m)
              else elim handled.0 [
                | err _ ↦ (none, handled.1)
                | ok ↦ elim (vmm_user_translate_cr3 handled.1 cr3 page) [
                  | none ↦ (none, handled.1)
                  | some (phys', pte') ↦
                      if has pte_u pte' && has pte_w pte'
                      then (some phys', handled.1)
                      else (none, handled.1)
                ]
              ])
    ]

-- The `while` of `user_copy_to_cr3`, with the rounds left.
unfoldable pub copy_to_loop : ℕ → ℕ → ℕ → List ℕ → Machine → Code × Machine
copy_to_loop zero cr3 dst [] m = (ok, m)
copy_to_loop zero cr3 dst (b ∷ bs) m = (err 14, m)
copy_to_loop (suc k) cr3 dst src m =
    let off = dst % page_size in
    let n = min (page_size - off) (length src) in
    let (page, m1) = writable_page cr3 (page_of dst) m in
    if length src == 0 then (ok, m) else elim page [
      | none ↦ (err 14, m1)
      | some phys ↦ elim (pmm_phys_to_virt m1.pmm phys) [
        | none ↦ (err 14, m1)
        | some _ ↦
            copy_to_loop k cr3 (dst + n) (drop n src)
              (record m1 { mem = write_bytes (phys + off) (take n src) m1.mem })
      ]
    ]

unfoldable pub user_copy_to_cr3 : ℕ → ℕ → List ℕ → Machine → Code × Machine
user_copy_to_cr3 cr3 dst src m =
    if cr3 == 0 then (err 14, m) else copy_to_loop (length src) cr3 dst src m

-- `syscall_user_cr3`, or the current space.
abbrev copy_space : Machine → ℕ → ℕ
copy_space m syscall_user_cr3 = if syscall_user_cr3 == 0 then vmm_user_cr3 m else syscall_user_cr3

unfoldable pub user_copy_from : Machine → ℕ → ℕ → ℕ → Option (List ℕ)
user_copy_from m syscall_user_cr3 src len =
    user_copy_from_cr3 m (copy_space m syscall_user_cr3) src len

unfoldable pub user_copy_to : ℕ → ℕ → List ℕ → Machine → Code × Machine
user_copy_to syscall_user_cr3 dst src m = user_copy_to_cr3 (copy_space m syscall_user_cr3) dst src m

-- The eight bytes of a word, as `(const uint8_t*)&v` shows them.
unfoldable pub le_bytes : ℕ → ℕ → List ℕ
le_bytes zero v = []
le_bytes (suc k) v = v % 256 ∷ le_bytes k (v / 256)

-- The word of some bytes.
unfoldable pub le_value : List ℕ → ℕ
le_value [] = 0
le_value (b ∷ bs) = b + 256 * le_value bs
