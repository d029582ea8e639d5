-- ===== src/Vmm/Fault.antt =====
-- src/kernel/vmm.c: what a copy-on-write fault that is handled leaves.
use yabro_os.Base.{
  ℕ, ◌<◌, ◌≡◌, ◌≢◌, ◌⊎◌, inl, inr, refl, sym, ap, ◌∙◌, true, false, ◌&&◌, ◌||◌, not, some, ◌==◌,
  has, arith, Code, ok, Bool-cases, Option-cases,
}
use mathlib.Core.Bool.{false≢true}
use yabro_os.Pmm.State.{Pmm, page_of, page_is_allocated, pmm_phys_to_virt}
use yabro_os.Pmm.Alloc.{pmm_alloc_page, pmm_free_page, pmm_page_refcount}
use yabro_os.Pmm.Valid.{IsValid}
use yabro_os.Pmm.Take.{Allocated, pmm_alloc_page-Allocated}
use yabro_os.Pmm.Keep.{pmm_free_page-IsValid}
use yabro_os.Vmm.Machine.{
  Machine, pte_p, pte_w, pte_u, pte_cow, pte_nx, addr_of, idx1, write, copied,
}
use yabro_os.Vmm.Walk.{leaf_table}
use yabro_os.Vmm.Cow.{cow_walk, promote, private_entry, copy_page, cow_leaf, vmm_user_cow_fault}
use yabro_os.Vmm.Entry.{promote_fields, private_entry_fields}
use yabro_os.Vmm.Create.{Allocated-IsPage}

-- The entry `i` of the table `pt` is a private one: it lets the user write, is not marked
-- copy-on-write, keeps the no-execute bit, and its page holds what the page of the old entry held.
pub record Private (m : Machine) (pt i : ℕ) (m' : Machine) : Type 0 where
  pub present : has pte_p (m'.mem pt i) ≡ true
  pub user : has pte_u (m'.mem pt i) ≡ true
  pub writable : has pte_w (m'.mem pt i) ≡ true
  pub not_cow : has pte_cow (m'.mem pt i) ≡ false
  pub no_execute : has pte_nx (m'.mem pt i) ≡ has pte_nx (m.mem pt i)
  pub contents :
      (j : ℕ) → j < 512 → m'.mem (addr_of (m'.mem pt i)) j ≡ m.mem (addr_of (m.mem pt i)) j
  pub frame :
      (q j : ℕ)
      → page_is_allocated m.pmm q ≡ true
      → (pt == q && i == j) ≡ false
      → m'.mem q j ≡ m.mem q j
  pub valid : IsValid m'.pmm
  pub owner :
      ((addr_of (m'.mem pt i) ≡ addr_of (m.mem pt i))
        × (pmm_page_refcount (addr_of (m.mem pt i)) m.pmm ≡ 1))
      ⊎ (page_is_allocated m.pmm (addr_of (m'.mem pt i)) ≡ false)

module _ (m : Machine) (pt i : ℕ) (apart : pt ≢ addr_of (m.mem pt i)) (v : IsValid m.pmm) where
  promote-Private :
      has pte_p (m.mem pt i) ≡ true
      → has pte_u (m.mem pt i) ≡ true
      → has pte_cow (m.mem pt i) ≡ true
      → has pte_w (m.mem pt i) ≡ false
      → pmm_page_refcount (addr_of (m.mem pt i)) m.pmm ≡ 1
      → Private m pt i (write pt i (promote (m.mem pt i)) m)
  promote-Private p u c w one =
      let (a, fp, fu, fn, fw, fc) = promote_fields (m.mem pt i) w c in
      let now : (write pt i (promote (m.mem pt i)) m).mem pt i ≡ promote (m.mem pt i) =
        ground arith in
      record {
        present = rw now (fp ∙ p);
        user = rw now (fu ∙ u);
        writable = rw now fw;
        not_cow = rw now fc;
        no_execute = rw now fn;
        contents = λ j lt. rw (now, a) (ground arith);
        frame = λ q j _ ne. rw ne;
        valid = v;
        owner = inl (rw (now, a) refl, one);
      }

  abbrev copied_to : ℕ → Pmm → Machine
  copied_to np pmm =
      let m' = record m { pmm = pmm } in
      let copy = record m' { mem = copied 0 m'.mem (addr_of (m.mem pt i)) np } in
      let mapped = write pt i (private_entry np (m.mem pt i)) copy in
      record mapped { pmm = pmm_free_page (addr_of (m.mem pt i)) mapped.pmm }

  copied-Private :
      (np : ℕ) (pmm : Pmm)
      → page_is_allocated m.pmm pt ≡ true
      → Allocated m.pmm np pmm
      → Private m pt i (copied_to np pmm)
  copied-Private np pmm taken a =
      let page = Allocated-IsPage v a in
      let (ad, fp, fu, fn, fw, fc) = private_entry_fields np (m.mem pt i) page in
      let away : np ≢ pt =
        λ e. false≢true (sym a.was_free ∙ (ap (page_is_allocated m.pmm) e ∙ taken)) in
      let now : (copied_to np pmm).mem pt i ≡ private_entry np (m.mem pt i) = ground arith in
      record {
        present = rw now fp;
        user = rw now fu;
        writable = rw now fw;
        not_cow = rw now fc;
        no_execute = rw now fn;
        contents = λ j lt. rw (now, ad) (ground arith);
        frame = λ q j al ne.
            let apart' : np ≢ q =
              λ e. false≢true (sym a.was_free ∙ (ap (page_is_allocated m.pmm) e ∙ al)) in
            ground arith;
        valid = pmm_free_page-IsValid (addr_of (m.mem pt i)) a.valid;
        owner = inr (rw (now, ad) a.was_free);
      }

copy_page_value :
    (m : Machine) (pt i : ℕ)
    → (copy_page pt i (m.mem pt i) m).0 ≡ ok
    → let (np, pmm) = pmm_alloc_page m.pmm in
      (np ≢ 0)
      × ((copy_page pt i (m.mem pt i) m).1 ≡ (
          let m' = record m { pmm = pmm } in
          let copy = record m' { mem = copied 0 m'.mem (addr_of (m.mem pt i)) np } in
          let mapped = write pt i (private_entry np (m.mem pt i)) copy in
          record mapped { pmm = pmm_free_page (addr_of (m.mem pt i)) mapped.pmm }))
unfolding copy_page
copy_page_value m pt i h =
    let (np, pmm) = pmm_alloc_page m.pmm in
    elim (Option-cases (pmm_phys_to_virt pmm (addr_of (m.mem pt i)))) [
      | inl e ↦ absurd (ground arith)
      | inr (a, e) ↦ elim (Option-cases (pmm_phys_to_virt pmm np)) [
        | inl f ↦ absurd (ground arith)
        | inr (b, f) ↦ (ground arith, ground arith)
      ]
    ]

cow_leaf-Private :
    (m : Machine) (pt i : ℕ)
    → IsValid m.pmm
    → page_is_allocated m.pmm pt ≡ true
    → pt ≢ addr_of (m.mem pt i)
    → (cow_leaf pt i m).0 ≡ ok
    → Private m pt i (cow_leaf pt i m).1
unfolding cow_leaf
cow_leaf-Private m pt i v taken apart h =
    elim (Bool-cases (
      not (has pte_p (m.mem pt i))
      || not (has pte_u (m.mem pt i))
      || not (has pte_cow (m.mem pt i))
      || has pte_w (m.mem pt i))) [
        | inl e ↦ absurd (ground arith)
        | inr e ↦ elim (Bool-cases (pmm_page_refcount (addr_of (m.mem pt i)) m.pmm == 1)) [
          | inl one ↦
              rw (e, one)
                (promote-Private m pt i apart v (ground arith) (ground arith) (ground arith)
                  (ground arith) (ground arith))
          | inr more ↦
              let copied : (copy_page pt i (m.mem pt i) m).0 ≡ ok = ground arith in
              let (ne, value) = copy_page_value m pt i copied in
              rw (e, more, value)
                (copied-Private m pt i apart v _ _ taken (pmm_alloc_page-Allocated v ne))
        ]
      ]

fault_value :
    (m : Machine) (cr3 addr pt : ℕ)
    → leaf_table m (page_of cr3) (page_of addr) ≡ some pt
    → (vmm_user_cow_fault cr3 addr m).0 ≡ ok
    → vmm_user_cow_fault cr3 addr m ≡ cow_leaf pt (idx1 (page_of addr)) m
unfolding vmm_user_cow_fault cow_walk
fault_value m cr3 addr pt l h = ground arith

-- A copy-on-write fault that `vmm_user_cow_fault` handles leaves the page's entry private, with the
-- contents of the page as they were, the other words of the pages in use unchanged, and the physical
-- manager's invariant kept. The page is the old one only if its count was 1, else a page that was
-- free. It is assumed that the leaf table is in use and is not itself the page that it maps.
pub vmm_user_cow_fault-Private :
    (m : Machine) (cr3 addr pt : ℕ)
    → IsValid m.pmm
    → leaf_table m (page_of cr3) (page_of addr) ≡ some pt
    → page_is_allocated m.pmm pt ≡ true
    → pt ≢ addr_of (m.mem pt (idx1 (page_of addr)))
    → (vmm_user_cow_fault cr3 addr m).0 ≡ ok
    → Private m pt (idx1 (page_of addr)) (vmm_user_cow_fault cr3 addr m).1
vmm_user_cow_fault-Private m cr3 addr pt v l taken apart h =
    let value = fault_value m cr3 addr pt l h in
    rw value (
      cow_leaf-Private m pt (idx1 (page_of addr)) v taken apart
        (ap (λ (r : Code × Machine). r.0) (sym value) ∙ h))
