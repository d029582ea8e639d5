-- ===== src/Vmm/Tests.antt =====
-- A user space with an empty top table, and the theorems about src/kernel/vmm.c at it.
use yabro_os.Base.{
  ℕ, ◌+◌, ◌-◌, ◌%◌, ◌≡◌, ◌≢◌, ◌↔◌, refl, true, false, none, some, ◌==◌, arith, has, set_flag, ok,
  ◌&&◌, ◌≤◌, ◌>>=◌, if◌then◌else◌,
}
use yabro_os.Pmm.State.{
  Memory, page_size, page_of, phys_in_usable_region, page_is_allocated, in_regions, map_test,
  map_set, is_reserved, page_is_reserved_fast, page_set_allocated, pmm_phys_to_virt,
}
use yabro_os.Pmm.Alloc.{
  pmm_alloc_page, alloc_regions, alloc_region, next_scan, is_candidate, take_page,
  pmm_page_refcount, pmm_retain_page, pmm_page_is_reserved,
}
use yabro_os.Pmm.Valid.{IsValid}
use yabro_os.Pmm.Take.{pmm_alloc_page-Allocated}
use yabro_os.Pmm.Tests.{four_pages, four_pages-IsValid}
use yabro_os.Vmm.Machine.{
  Machine, user_top, pte_p, pte_w, pte_u, pte_cow, pte_nx, table, addr_of, idx4, idx3, idx2, idx1,
}
use yabro_os.Vmm.Walk.{
  descend, leaf_table, vmm_user_translate, vmm_user_translate_cr3, validate_level, validate_leaf,
  vmm_user_validate_page_cr3, vmm_user_range_ok,
}
use yabro_os.Vmm.Map.{
  leaf_entry, alloc_table, new_user_table, ensure_user_child, map_from, vmm_user_map,
  vmm_user_unmap, unmap_leaf, create_from, vmm_user_space_create,
}
use yabro_os.Vmm.Cow.{cow_walk, copy_page, cow_leaf, vmm_user_cow_fault, vmm_user_protect}
use yabro_os.Vmm.Fork.{share_entry, share_leaf}
use yabro_os.Vmm.Entry.{share_entry_fields}
use yabro_os.Vmm.Mapping.{IsPath, Mapped, vmm_user_map-Mapped}
use yabro_os.Vmm.MapTranslate.{Requested, map_translate}
use yabro_os.Vmm.Unmap.{unmap-eq-translate, unmap_translate}
use yabro_os.Vmm.Read.{Accessible, range_ok_iff, validate-translate}
use yabro_os.Vmm.Create.{source_cr3, create_translate, create_upper}
use yabro_os.Vmm.Fault.{Private, vmm_user_cow_fault-Private}
use yabro_os.Vmm.Protect.{Walked, protect-protect}
use yabro_os.Vmm.Share.{Shared, share_leaf-Shared}

-- The region's first page is the top table.
abbrev pub empty_space : Machine
empty_space = record {
  pmm = (pmm_alloc_page four_pages).1;
  mem = λ _ _. 0;
  pml4_phys = 0x0100_0000;
  g_user_valid = true;
  kernel_cr3 = 0x0100_0000;
  cr3 = 0x0100_0000;
  fb_phys = 0;
  fb_size = 0;
}

first_alloc : (pmm_alloc_page four_pages).0 ≡ 0x0100_0000
unfolding pmm_alloc_page alloc_regions alloc_region next_scan is_candidate is_reserved
    page_is_reserved_fast page_is_allocated map_test has
first_alloc = refl

space-IsValid : IsValid empty_space.pmm
space-IsValid =
    (pmm_alloc_page-Allocated four_pages-IsValid (λ z. omega (arith, first_alloc, z))).valid

root_table : table empty_space 0x0100_0000 ≡ some 0x0100_0000
unfolding table addr_of pmm_phys_to_virt pmm_alloc_page alloc_regions alloc_region next_scan
    is_candidate is_reserved page_is_reserved_fast page_is_allocated map_test has take_page
    page_set_allocated map_set set_flag
root_table = refl

no_entry : (t i c : ℕ) → descend empty_space t i ≡ some c → ⊥
unfolding descend has
no_entry t i c h = cc

empty-IsPath : IsPath empty_space 0x0100_0000 0x0040_0000
unfolding pmm_alloc_page alloc_regions alloc_region next_scan is_candidate is_reserved
    page_is_reserved_fast page_is_allocated map_test has take_page page_set_allocated map_set
    set_flag
empty-IsPath = record {
  pml4 = (record { aligned = refl; small = omega arith }, refl);
  pdpt = λ c h. absurd (no_entry 0x0100_0000 _ c h);
  pd = λ c d h k. absurd (no_entry 0x0100_0000 _ c h);
  pt = λ c d e h k l. absurd (no_entry 0x0100_0000 _ c h);
}

map_succeeds : (vmm_user_map 0x0040_0000 0x0200_0000 2 empty_space).0 ≡ ok
unfolding vmm_user_map map_from ensure_user_child new_user_table alloc_table table addr_of
    pmm_phys_to_virt pmm_alloc_page alloc_regions alloc_region next_scan is_candidate is_reserved
    page_is_reserved_fast page_is_allocated map_test has take_page page_set_allocated map_set
    set_flag idx3 idx2
map_succeeds = refl

vmm_user_map-Mapped_example :
    Mapped empty_space 0x0100_0000 0x0040_0000
      (leaf_entry 0x0200_0000 2)
      (vmm_user_map 0x0040_0000 0x0200_0000 2 empty_space).1
vmm_user_map-Mapped_example =
    vmm_user_map-Mapped empty_space 0x0100_0000 0x0040_0000 0x0200_0000 2 space-IsValid root_table
      empty-IsPath map_succeeds

map_translate_example :
    (pte : ℕ) × (vmm_user_translate
        (vmm_user_map 0x0040_0000 0x0200_0000 2 empty_space).1
        0x0040_0123
      ≡ some (0x0200_0123, pte))
    × Requested pte 2
map_translate_example =
    map_translate empty_space 0x0100_0000 0x0040_0000 0x0200_0000 2 0x123 space-IsValid root_table
      empty-IsPath (omega arith) (omega arith) map_succeeds

-- Tables with two pages of the user: one copy-on-write, one for writing.
abbrev pub two_pages : Memory
two_pages t i =
    if t == 0x0200_2000 && i == 0
    then 0x0200_0007
    else if t == 0x0200_0000 && i == 0
    then 0x0200_1007
    else if t == 0x0200_1000 && i == 2
    then 0x0100_0007
    else if t == 0x0100_0000 && i == 0
    then 0x0300_0205
    else if t == 0x0100_0000 && i == 1
    then 0x0300_1007
    else 0

abbrev pub used_space : Machine
used_space = record empty_space { mem = two_pages; pml4_phys = 0x0200_2000 }

used_leaf : leaf_table used_space 0x0200_2000 0x0040_0000 ≡ some 0x0100_0000
unfolding leaf_table descend table addr_of pmm_phys_to_virt pmm_alloc_page alloc_regions
    alloc_region next_scan is_candidate is_reserved page_is_reserved_fast page_is_allocated map_test
    has take_page page_set_allocated map_set set_flag idx4 idx3 idx2
used_leaf = refl

leaf_taken : page_is_allocated used_space.pmm 0x0100_0000 ≡ true
unfolding pmm_alloc_page alloc_regions alloc_region next_scan is_candidate is_reserved
    page_is_reserved_fast page_is_allocated map_test has take_page page_set_allocated map_set
    set_flag
leaf_taken = refl

leaf_apart : 0x0100_0000 ≢ addr_of (used_space.mem 0x0100_0000 (idx1 (page_of 0x0040_0000)))
unfolding addr_of idx1
leaf_apart e = omega (arith, e)

fault_handled : (vmm_user_cow_fault 0x0200_2000 0x0040_0000 used_space).0 ≡ ok
unfolding vmm_user_cow_fault cow_walk cow_leaf copy_page leaf_table descend table addr_of
    pmm_phys_to_virt pmm_alloc_page alloc_regions alloc_region next_scan is_candidate is_reserved
    page_is_reserved_fast page_is_allocated map_test has take_page page_set_allocated map_set
    set_flag idx4 idx3 idx2 idx1 pmm_page_refcount
fault_handled = refl

vmm_user_cow_fault-Private_example :
    Private used_space 0x0100_0000
      (idx1 0x0040_0000)
      (vmm_user_cow_fault 0x0200_2000 0x0040_0000 used_space).1
vmm_user_cow_fault-Private_example =
    vmm_user_cow_fault-Private used_space 0x0200_2000 0x0040_0000 0x0100_0000 space-IsValid
      used_leaf leaf_taken leaf_apart fault_handled

-- The page that fork shares is one that the manager counts.
abbrev owned_space : Machine
owned_space = record empty_space {
  mem = λ t i. if t == 0x0200_0000 && i == 1 then 0x0100_0007 else 0;
}

share_done : (share_leaf 0x0200_0000 0x0200_1000 1 owned_space).0 ≡ ok
unfolding share_leaf pmm_retain_page pmm_page_is_reserved addr_of pmm_alloc_page alloc_regions
    alloc_region next_scan is_candidate is_reserved page_is_reserved_fast page_is_allocated map_test
    has take_page page_set_allocated map_set set_flag in_regions phys_in_usable_region
share_done = refl

share_leaf-Shared_example :
    Shared owned_space 0x0200_0000 0x0200_1000 1
      (share_leaf 0x0200_0000 0x0200_1000 1 owned_space).1
share_leaf-Shared_example =
    share_leaf-Shared owned_space 0x0200_0000 0x0200_1000 1 space-IsValid share_done

unmap_done : (vmm_user_unmap 0x0040_0000 used_space).0 ≡ some 0x0300_0000
unfolding vmm_user_unmap unmap_leaf leaf_table descend table addr_of pmm_phys_to_virt pmm_alloc_page
    alloc_regions alloc_region next_scan is_candidate is_reserved page_is_reserved_fast
    page_is_allocated map_test has take_page page_set_allocated map_set set_flag idx4 idx3 idx2 idx1
unmap_done = refl

unmap_translate_example :
    vmm_user_translate (vmm_user_unmap 0x0040_0000 used_space).1 0x0040_0123 ≡ none
unmap_translate_example =
    unmap_translate used_space 0x0040_0000 0x123 0x0300_0000 (omega arith) (omega arith) unmap_done

unmap-eq-translate_example :
    (vmm_user_unmap 0x0040_0000 used_space).0
    ≡ (vmm_user_translate used_space 0x0040_0000 >>= λ (_, pte). some (addr_of pte))
unmap-eq-translate_example = unmap-eq-translate used_space 0x0040_0000 (omega arith)

range_ok_iff_example : (vmm_user_range_ok used_space 0x0040_0800 0x1000 true ≡ true) ↔ (
    (0x0040_0800 + 0x1000 ≤ user_top)
    × ((q : ℕ)
        → q % page_size ≡ 0
        → page_of 0x0040_0800 ≤ q
        → q ≤ page_of (0x0040_0800 + 0x1000 - 1)
        → Accessible used_space q true))
range_ok_iff_example = range_ok_iff used_space 0x0040_0800 0x1000 true refl (omega arith)

validated : vmm_user_validate_page_cr3 used_space 0x0200_2000 0x0040_1000 true true ≡ ok
unfolding vmm_user_validate_page_cr3 validate_level validate_leaf table addr_of pmm_phys_to_virt
    pmm_alloc_page alloc_regions alloc_region next_scan is_candidate is_reserved
    page_is_reserved_fast page_is_allocated map_test has take_page page_set_allocated map_set
    set_flag idx4 idx3 idx2 idx1
validated = refl

validate-translate_example :
    (pte : ℕ) × (vmm_user_translate_cr3 used_space 0x0200_2000 0x0040_1000
      ≡ some (addr_of pte + 0x0040_1000 % page_size, pte))
    × (has pte_p pte ≡ true)
    × (has pte_u pte ≡ true)
    × (true ≡ true → has pte_w pte ≡ true)
    × (true ≡ true → has pte_nx pte ≡ false)
validate-translate_example =
    validate-translate used_space 0x0200_2000 0x0040_1000 true true validated

created : (vmm_user_space_create used_space).0 ≡ ok
unfolding vmm_user_space_create create_from alloc_table table addr_of pmm_phys_to_virt
    pmm_alloc_page alloc_regions alloc_region next_scan is_candidate is_reserved
    page_is_reserved_fast page_is_allocated map_test has take_page page_set_allocated map_set
    set_flag
created = refl

create_translate_example :
    vmm_user_translate (vmm_user_space_create used_space).1 0x0040_0000 ≡ none
create_translate_example = create_translate used_space 0x0040_0000 created

source_taken : page_is_allocated used_space.pmm (addr_of (source_cr3 used_space)) ≡ true
unfolding addr_of pmm_alloc_page alloc_regions alloc_region next_scan is_candidate is_reserved
    page_is_reserved_fast page_is_allocated map_test has take_page page_set_allocated map_set
    set_flag
source_taken = refl

create_upper_example :
    let m' = (vmm_user_space_create used_space).1 in
    m'.mem (addr_of m'.pml4_phys) 300 ≡ used_space.mem (addr_of (source_cr3 used_space)) 300
create_upper_example =
    create_upper used_space 300 space-IsValid source_taken created (omega arith) (omega arith)

share_entry_fields_example :
    (addr_of (share_entry 0x0300_1007) ≡ addr_of 0x0300_1007)
    × (has pte_p (share_entry 0x0300_1007) ≡ has pte_p 0x0300_1007)
    × (has pte_u (share_entry 0x0300_1007) ≡ has pte_u 0x0300_1007)
    × (has pte_nx (share_entry 0x0300_1007) ≡ has pte_nx 0x0300_1007)
    × (has pte_w (share_entry 0x0300_1007) ≡ false)
    × (has pte_cow (share_entry 0x0300_1007) ≡ true)
share_entry_fields_example = share_entry_fields 0x0300_1007

used_links :
    (table used_space used_space.pml4_phys ≡ some 0x0200_2000)
    × (descend used_space 0x0200_2000 (idx4 0x0040_0000) ≡ some 0x0200_0000)
    × (descend used_space 0x0200_0000 (idx3 0x0040_0000) ≡ some 0x0200_1000)
    × (descend used_space 0x0200_1000 (idx2 0x0040_0000) ≡ some 0x0100_0000)
    × (has pte_p (used_space.mem 0x0100_0000 (idx1 0x0040_0000)) ≡ true)
unfolding descend table addr_of pmm_phys_to_virt pmm_alloc_page alloc_regions alloc_region next_scan
    is_candidate is_reserved page_is_reserved_fast page_is_allocated map_test has take_page
    page_set_allocated map_set set_flag idx4 idx3 idx2 idx1
used_links = (refl, refl, refl, refl, refl)

used-Walked : Walked used_space 0x0040_0000 0x0100_0000
used-Walked = record {
  user_valid = refl;
  canonical = refl;
  aligned = refl;
  pml4 = 0x0200_2000;
  pdpt = 0x0200_0000;
  pd = 0x0200_1000;
  pml4_table = used_links.0;
  pdpt_link = used_links.1;
  pd_link = used_links.2;
  pt_link = used_links.3;
  pml4_apart = omega arith;
  pdpt_apart = omega arith;
  pd_apart = omega arith;
  present = used_links.4;
}

flag_w : (has pte_w 0 ≡ false) × (has pte_w 2 ≡ true)
unfolding has
flag_w = (refl, refl)

protect-protect_example :
    let m2 = (vmm_user_protect 0x0040_0000 2 (vmm_user_protect 0x0040_0000 0 used_space).1).1 in
    (pte : ℕ) × (vmm_user_translate m2 0x0040_0000
      ≡ some (addr_of (used_space.mem 0x0100_0000 (idx1 0x0040_0000)), pte))
    × (has pte_w pte ≡ true)
    × (m2.pmm ≡ used_space.pmm)
protect-protect_example =
    protect-protect used_space 0x0040_0000 0x0100_0000 0 2 used-Walked flag_w.0 flag_w.1
