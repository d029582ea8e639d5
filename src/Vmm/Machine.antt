-- ===== src/Vmm/Machine.antt =====
-- src/kernel/vmm.c: the state that the functions work on, entries of page tables, and `table`.
-- A pointer to a page table is the physical address of its page, since the direct mapping is one to
-- one; `none` is a null pointer. Flushing the TLB has no effect on this state.
use yabro_os.Base.{
  ℕ, ◌*◌, ◌/◌, ◌%◌, ◌^◌, Bool, ◌&&◌, ◌||◌, not, Option, none, some, ltb, leb, ◌==◌, if◌then◌else◌,
  has,
}
use yabro_os.Pmm.State.{Pmm, Memory, page_size, pmm_phys_to_virt}

-- `struct vmm_space g_user`, `g_user_valid`, `kernel_cr3`, the register CR3, and what
-- `graphics_fb_phys()` and `graphics_fb_size()` return.
pub record Machine : Type 0 where
  pub pmm : Pmm
  pub mem : Memory
  pub pml4_phys : ℕ
  pub g_user_valid : Bool
  pub kernel_cr3 : ℕ
  pub cr3 : ℕ
  pub fb_phys : ℕ
  pub fb_size : ℕ

abbrev pub user_top : ℕ
user_top = 0x0000_8000_0000_0000

-- Bit numbers of the flags of an entry.
abbrev pub pte_p : ℕ
pte_p = 0

abbrev pub pte_w : ℕ
pte_w = 1

abbrev pub pte_u : ℕ
pte_u = 2

abbrev pub pte_pwt : ℕ
pte_pwt = 3

abbrev pub pte_pcd : ℕ
pte_pcd = 4

abbrev pub pte_ps : ℕ
pte_ps = 7

abbrev pub pte_cow : ℕ
pte_cow = 9

abbrev pub pte_nx : ℕ
pte_nx = 63

-- `e & PTE_ADDR_MASK`
unfoldable pub addr_of : ℕ → ℕ
addr_of e = e / 2 ^ 12 % 2 ^ 40 * 2 ^ 12

-- `e & flag`, for the flag at bit `k`
abbrev pub keep : ℕ → ℕ → ℕ
keep k e = e / 2 ^ k % 2 * 2 ^ k

unfoldable pub idx4 : ℕ → ℕ
idx4 v = v / 2 ^ 39 % 512

unfoldable pub idx3 : ℕ → ℕ
idx3 v = v / 2 ^ 30 % 512

unfoldable pub idx2 : ℕ → ℕ
idx2 v = v / 2 ^ 21 % 512

unfoldable pub idx1 : ℕ → ℕ
idx1 v = v / 2 ^ 12 % 512

abbrev pub canonical_user : ℕ → Bool
canonical_user va = ltb va user_top

unfoldable pub table : Machine → ℕ → Option ℕ
table m phys =
    if phys == 0 || not (phys % page_size == 0)
    then none
    else elim (pmm_phys_to_virt m.pmm (addr_of phys)) [ none ↦ none | some _ ↦ some (addr_of phys) ]

-- Memory after `t[i] = v`.
abbrev pub store : Memory → ℕ → ℕ → ℕ → Memory
store mem t i v q j = if t == q && i == j then v else mem q j

abbrev pub write : ℕ → ℕ → ℕ → Machine → Machine
write t i v m = record m { mem = store m.mem t i v }

-- Memory after the 512 words of the page are cleared.
abbrev pub zeroed : Memory → ℕ → Memory
zeroed mem t q j = if t == q && ltb j 512 then 0 else mem q j

-- Memory after `for (i = lo; i < 512; ++i) dst[i] = src[i];`
abbrev pub copied : ℕ → Memory → ℕ → ℕ → Memory
copied lo mem src dst q j = if dst == q && (leb lo j && ltb j 512) then mem src j else mem q j

-- An entry that leads to a table of the next level.
abbrev pub leads : ℕ → Bool
leads e = has pte_p e && not (has pte_ps e)
