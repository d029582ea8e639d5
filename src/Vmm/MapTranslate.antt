-- ===== src/Vmm/MapTranslate.antt =====
-- src/kernel/vmm.c: `vmm_user_translate` after `vmm_user_map`.
use yabro_os.Base.{false, ℕ, ◌+◌, ◌%◌, ◌^◌, ◌<◌, ◌≡◌, refl, ap, ◌∙◌, true, some, has, arith, ok}
use yabro_os.Pmm.State.{page_size}
use yabro_os.Vmm.Machine.{Machine, pte_p, addr_of, idx4, idx3, idx2, idx1, canonical_user, table}
use yabro_os.Vmm.Walk.{descend, leaf_table, translate_leaf, vmm_user_translate}
use yabro_os.Pmm.Valid.{IsValid}
use yabro_os.Vmm.Map.{leaf_entry, vmm_user_map}
use yabro_os.Vmm.Entry.{leaf_entry_fields}
use yabro_os.Vmm.Unmap.{idx_of_page, leaf_table-page}
use yabro_os.Vmm.Mapping.{IsPath, Mapped, map_value, vmm_user_map-Mapped}

pub leaf_table_links :
    (m : Machine) (r root c d e va : ℕ)
    → table m r ≡ some root
    → descend m root (idx4 va) ≡ some c
    → descend m c (idx3 va) ≡ some d
    → descend m d (idx2 va) ≡ some e
    → leaf_table m r va ≡ some e
unfolding leaf_table
leaf_table_links m r root c d e va t l4 l3 l2 = rw (t, l4, l3) l2

Mapped-leaf_table :
    {m m' : Machine} {root virt entry : ℕ} (d : Mapped m root virt entry m')
    → table m m.pml4_phys ≡ some root
    → leaf_table m' m'.pml4_phys virt ≡ some d.pt
Mapped-leaf_table {m} {m'} {root} {virt} d t =
    leaf_table_links m' m'.pml4_phys root d.pdpt d.pd d.pt virt
      (d.tables m'.pml4_phys ∙ ap (table m) d.root_phys ∙ t) d.pdpt_link d.pd_link d.pt_link

-- The translation of an address whose leaf table is known.
pub translate_from :
    (m : Machine) (pt va : ℕ)
    → m.g_user_valid ≡ true
    → canonical_user va ≡ true
    → leaf_table m m.pml4_phys va ≡ some pt
    → has pte_p (m.mem pt (idx1 va)) ≡ true
    → vmm_user_translate m va
      ≡ some (addr_of (m.mem pt (idx1 va)) + va % page_size, m.mem pt (idx1 va))
unfolding vmm_user_translate translate_leaf
translate_from m pt va u c l p = ground arith

-- The entry of a mapped page, for the flags asked for: it is present (bit 0), for the user (bit 2) and
-- not marked for copy on write (bit 9); it is writable (bit 1), write-through (bit 3), uncached
-- (bit 4) and not executable (bit 63) as the flags say.
pub record Requested (pte flags : ℕ) : Type 0 where
  pub present : has 0 pte ≡ true
  pub user : has 2 pte ≡ true
  pub no_cow : has 9 pte ≡ false
  pub writable : has 1 pte ≡ has 1 flags
  pub write_through : has 3 pte ≡ has 3 flags
  pub uncached : has 4 pte ≡ has 4 flags
  pub no_execute : has 63 pte ≡ has 63 flags

leaf_entry-Requested :
    (p flags : ℕ) → p < 2 ^ 52 → p % page_size ≡ 0 → Requested (leaf_entry p flags) flags
unfolding addr_of has leaf_entry
leaf_entry-Requested p flags small al = record {
  present = ground arith;
  user = ground arith;
  no_cow = ground arith;
  writable = ground arith;
  write_through = ground arith;
  uncached = ground arith;
  no_execute = ground arith;
}

-- When `vmm_user_map` succeeds, on a valid manager and a path whose tables are pages in use and
-- distinct, with a physical address below 2 ^ 52, every address of the page is translated to the
-- same offset of the physical page, by an entry that is present, for the user, not marked for copy on
-- write, and writable, write-through, uncached and not executable as the flags say.
pub map_translate :
    (m : Machine) (root virt phys flags off : ℕ)
    → IsValid m.pmm
    → table m m.pml4_phys ≡ some root
    → IsPath m root virt
    → phys < 2 ^ 52
    → off < page_size
    → (vmm_user_map virt phys flags m).0 ≡ ok
    → (pte : ℕ) × (vmm_user_translate (vmm_user_map virt phys flags m).1 (virt + off)
        ≡ some (phys + off, pte))
      × Requested pte flags
map_translate m root virt phys flags off v t p small lt h =
    let (user, canon, al, al', _) = map_value m root virt phys flags t h in
    let d = vmm_user_map-Mapped m root virt phys flags v t p h in
    let (_, _, _, i1, rest) = idx_of_page virt off al lt in
    let m' = (vmm_user_map virt phys flags m).1 in
    let walk : leaf_table m' m'.pml4_phys (virt + off) ≡ some d.pt =
      leaf_table-page m' m'.pml4_phys virt off al lt ∙ Mapped-leaf_table d t in
    let entry : m'.mem d.pt (idx1 (virt + off)) ≡ leaf_entry phys flags = rw i1 d.leaf in
    let (to, present, _, _, _, _) =
      leaf_entry_fields phys flags (record { aligned = al'; small = small }) in
    let e =
      translate_from m' d.pt (virt + off) (d.user_valid ∙ user) (ground arith) walk
        (rw entry present) in
    (
      leaf_entry phys flags,
      e ∙ rw (entry, to, rest) refl,
      leaf_entry-Requested phys flags small al',
    )
