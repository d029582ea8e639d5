-- ===== src/Vmm/Destroy.antt =====
-- src/kernel/vmm.c: releasing the tables and pages of a user space.
use yabro_os.Base.{
  ℕ, zero, suc, ◌+◌, ◌-◌, ◌%◌, Bool, ◌&&◌, ◌||◌, not, none, some, ltb, leb, ◌==◌, if◌then◌else◌,
  has, Code, ok, err, for_range,
}
use yabro_os.Pmm.State.{page_size, word_mod, page_of}
use yabro_os.Pmm.Alloc.{pmm_free_page}
use yabro_os.Vmm.Machine.{Machine, pte_p, pte_ps, addr_of, table, write, leads}

abbrev pub free_in : ℕ → Machine → Machine
free_in phys m = record m { pmm = pmm_free_page phys m.pmm }

-- `page` lies outside the frame buffer, whose pages are not the manager's.
unfoldable pub outside_framebuffer : Machine → ℕ → Bool
outside_framebuffer m page =
    let fb = page_of m.fb_phys in
    let fbend = (fb + page_of ((m.fb_size + page_size - 1) % word_mod)) % word_mod in
    m.fb_size == 0 || ltb page fb || leb fbend page

-- One round of the loop of `destroy_user_level`; `down` is the call on a child table.
unfoldable pub destroy_entry : (ℕ → Machine → Machine) → ℕ → ℕ → ℕ → Machine → Machine
destroy_entry down level t i m =
    let e = m.mem t i in
    let child = addr_of e in
    let freed =
      if ltb 1 level && not (has pte_ps e)
      then free_in child (down child m)
      else if level == 1 && outside_framebuffer m child
      then free_in child m
      else m in
    if not (has pte_p e) then m else write t i 0 freed

-- Recursion on the level; every call has a level of 3, 2 or 1.
unfoldable pub destroy_user_level : ℕ → ℕ → Machine → Machine
destroy_user_level zero phys m = m
destroy_user_level (suc level) phys m =
    let down = λ (child : ℕ) (n : Machine). destroy_user_level level child n in
    elim (table m (page_of phys)) [
      | none ↦ m
      | some t ↦ for_range 512 0 (λ i n. destroy_entry down (suc level) t i n) m
    ]

-- One round of the loop of `vmm_user_space_destroy`.
unfoldable pub destroy_root_entry : ℕ → ℕ → Machine → Machine
destroy_root_entry pml4 i m =
    let e = m.mem pml4 i in
    let child = addr_of e in
    if leads e then write pml4 i 0 (free_in child (destroy_user_level 3 child m)) else m

unfoldable pub vmm_user_space_destroy : ℕ → Machine → Code × Machine
vmm_user_space_destroy cr3 m = if cr3 == 0 then (err 1, m) else elim (table m (page_of cr3)) [
  | none ↦ (err 1, m)
  | some pml4 ↦ (ok, free_in (page_of cr3) (for_range 256 0 (destroy_root_entry pml4) m))
]

-- The tables of an unfinished clone are given back, and the pages that they map are not.
unfoldable pub destroy_clone_level : ℕ → ℕ → Machine → Machine
destroy_clone_level zero phys m = m
destroy_clone_level (suc level) phys m =
    let down = λ (child : ℕ) (n : Machine). destroy_clone_level level child n in
    elim (table m (page_of phys)) [
      | none ↦ m
      | some t ↦ free_in (page_of phys) (
          if ltb 1 (suc level)
          then for_range 512 0
              (λ i n. if leads (n.mem t i) then down (addr_of (n.mem t i)) n else n) m
          else m)
    ]

unfoldable pub destroy_clone_root : ℕ → Machine → Machine
destroy_clone_root root_phys m = elim (table m (page_of root_phys)) [
  | none ↦ m
  | some root ↦ free_in (page_of root_phys) (
      for_range 256 0
        (λ i n.
          if leads (n.mem root i) then destroy_clone_level 3 (addr_of (n.mem root i)) n else n)
        m)
]
