-- ===== src/Vmm/Protect.antt =====
-- src/kernel/vmm.c: `vmm_user_protect`, once and twice.
use yabro_os.Base.{ℕ, ◌+◌, ◌%◌, ◌≡◌, ◌≢◌, refl, ◌∙◌, true, false, ◌&&◌, some, has, arith, ok}
use yabro_os.Pmm.State.{page_size}
use yabro_os.Vmm.Machine.{
  Machine, pte_p, pte_w, pte_cow, addr_of, idx4, idx3, idx2, idx1, write, table, canonical_user,
}
use yabro_os.Vmm.Walk.{leaf_table, descend, vmm_user_translate}
use yabro_os.Vmm.Map.{leaf_entry}
use yabro_os.Vmm.Cow.{protect_leaf, vmm_user_protect}
use yabro_os.Vmm.Entry.{addr_of-IsPage, leaf_entry_fields, addr_of-page}
use yabro_os.Vmm.Unmap.{table-write}
use yabro_os.Vmm.Mapping.{descend-write_ne}
use yabro_os.Vmm.MapTranslate.{translate_from, leaf_table_links}

-- The tables on the path of the page `virt`, none of them the leaf table `pt`, and its entry present.
pub record Walked (m : Machine) (virt pt : ℕ) : Type 0 where
  pub user_valid : m.g_user_valid ≡ true
  pub canonical : canonical_user virt ≡ true
  pub aligned : virt % page_size ≡ 0
  pub pml4 : ℕ
  pub pdpt : ℕ
  pub pd : ℕ
  pub pml4_table : table m m.pml4_phys ≡ some pml4
  pub pdpt_link : descend m pml4 (idx4 virt) ≡ some pdpt
  pub pd_link : descend m pdpt (idx3 virt) ≡ some pd
  pub pt_link : descend m pd (idx2 virt) ≡ some pt
  pub pml4_apart : pt ≢ pml4
  pub pdpt_apart : pt ≢ pdpt
  pub pd_apart : pt ≢ pd
  pub present : has pte_p (m.mem pt (idx1 virt)) ≡ true

module _ {m : Machine} {virt pt : ℕ} (w : Walked m virt pt) where
  Walked-leaf_table : leaf_table m m.pml4_phys virt ≡ some pt
  Walked-leaf_table =
      leaf_table_links m m.pml4_phys w.pml4 w.pdpt w.pd pt virt w.pml4_table w.pdpt_link w.pd_link
        w.pt_link

  pub Walked-translate :
      vmm_user_translate m virt
      ≡ some (addr_of (m.mem pt (idx1 virt)) + virt % page_size, m.mem pt (idx1 virt))
  Walked-translate = translate_from m pt virt w.user_valid w.canonical Walked-leaf_table w.present

  pub Walked-write : (e : ℕ) → has pte_p e ≡ true → Walked (write pt (idx1 virt) e m) virt pt
  Walked-write e p = record {
    user_valid = w.user_valid;
    canonical = w.canonical;
    aligned = w.aligned;
    pml4 = w.pml4;
    pdpt = w.pdpt;
    pd = w.pd;
    pml4_table = table-write m pt (idx1 virt) m.pml4_phys e ∙ w.pml4_table;
    pdpt_link = descend-write_ne m pt (idx1 virt) e w.pml4 (idx4 virt) w.pml4_apart ∙ w.pdpt_link;
    pd_link = descend-write_ne m pt (idx1 virt) e w.pdpt (idx3 virt) w.pdpt_apart ∙ w.pd_link;
    pt_link = descend-write_ne m pt (idx1 virt) e w.pd (idx2 virt) w.pd_apart ∙ w.pt_link;
    pml4_apart = w.pml4_apart;
    pdpt_apart = w.pdpt_apart;
    pd_apart = w.pd_apart;
    present = ground (arith, p);
  }

  -- Unless write access to a copy-on-write page is asked for, the entry is rebuilt in place.
  pub protect_value :
      (flags : ℕ)
      → (has pte_w flags && has pte_cow (m.mem pt (idx1 virt))) ≡ false
      → vmm_user_protect virt flags m
        ≡ (ok, write pt (idx1 virt) (leaf_entry (m.mem pt (idx1 virt)) flags) m)
  unfolding vmm_user_protect protect_leaf
  protect_value flags h =
      let t = Walked-translate in
      let l = Walked-leaf_table in ground (arith, t, l, w.user_valid, w.canonical, w.aligned)

leaf_entry-addr_of : (e flags : ℕ) → leaf_entry (addr_of e) flags ≡ leaf_entry e flags
unfolding leaf_entry
leaf_entry-addr_of e flags = rw (addr_of-page (addr_of-IsPage e)) refl

entry_fields :
    (e flags : ℕ)
    → (addr_of (leaf_entry e flags) ≡ addr_of e)
      × (has pte_p (leaf_entry e flags) ≡ true)
      × (has pte_cow (leaf_entry e flags) ≡ false)
      × (has pte_w (leaf_entry e flags) ≡ has pte_w flags)
entry_fields e flags =
    let (a, p, _, w, _, c) = leaf_entry_fields (addr_of e) flags (addr_of-IsPage e) in
    let same = leaf_entry-addr_of e flags in rw (← same) (a, p, c, w)

-- Giving write access to a page after taking it away makes the page itself writable, whether or not
-- its entry was marked copy-on-write before: the physical page and the manager are as they were. The
-- second call is assumed to ask for write access, the first not to, and the leaf table not to be a
-- table of a higher level.
pub protect-protect :
    (m : Machine) (virt pt f0 f1 : ℕ)
    → Walked m virt pt
    → has pte_w f0 ≡ false
    → has pte_w f1 ≡ true
    → let m2 = (vmm_user_protect virt f1 (vmm_user_protect virt f0 m).1).1 in
      (pte : ℕ) × (vmm_user_translate m2 virt ≡ some (addr_of (m.mem pt (idx1 virt)), pte))
      × (has pte_w pte ≡ true)
      × (m2.pmm ≡ m.pmm)
protect-protect m virt pt f0 f1 w h0 h1 =
    let e = m.mem pt (idx1 virt) in
    let (a0, p0, c0, w0) = entry_fields e f0 in
    let (a1, p1, c1, w1) = entry_fields (leaf_entry e f0) f1 in
    let m1 = write pt (idx1 virt) (leaf_entry e f0) m in
    let v0 = protect_value w f0 (ground (arith, h0)) in
    let walked1 = Walked-write w (leaf_entry e f0) p0 in
    let now : m1.mem pt (idx1 virt) ≡ leaf_entry e f0 = ground arith in
    let v1 = protect_value walked1 f1 (ground (arith, c0, now)) in
    let walked2 = Walked-write walked1 (leaf_entry (m1.mem pt (idx1 virt)) f1) (rw now p1) in
    let t = Walked-translate walked2 in
    rw (v0, v1)
      (leaf_entry (leaf_entry e f0) f1, ground (arith, t, a0, a1, now, w.aligned), w1 ∙ h1, refl)
