-- ===== src/Vmm/Read.antt =====
-- src/kernel/vmm.c: what the functions that only read the tables promise.
use yabro_os.Base.{
  refl, ℕ, zero, suc, ◌+◌, ◌-◌, ◌*◌, ◌/◌, ◌%◌, ◌<◌, ◌≤◌, ◌≡◌, ◌↔◌, inl, inr, Bool, true, false,
  ◌||◌, some, ◌==◌, has, arith, Code, ok, Option-cases,
}
use yabro_os.Pmm.State.{page_size, page_of}
use yabro_os.Vmm.Machine.{
  Machine, user_top, pte_p, pte_w, pte_u, pte_nx, addr_of, idx4, idx3, idx2, idx1, canonical_user,
  table, leads,
}
use yabro_os.Vmm.Walk.{
  descend, leaf_table, translate_leaf, vmm_cr3_translate_direct, vmm_user_translate_cr3,
  validate_level, validate_leaf, vmm_user_validate_page_cr3, vmm_user_translate, page_ok,
  range_loop, vmm_user_range_ok,
}

module _ (m : Machine) (e code : ℕ) (next : ℕ → Code) where
  validate_level-ok :
      validate_level m e code next ≡ ok
      → (leads e ≡ true) × (t : ℕ) × (table m (addr_of e) ≡ some t) × (next t ≡ ok)
  unfolding validate_level
  validate_level-ok h = elim (Option-cases (table m (addr_of e))) [
    | inl x ↦ absurd (ground arith)
    | inr (t, x) ↦ (ground arith, t, x, ground arith)
  ]

descend_of_leads :
    (m : Machine) (t i c : ℕ)
    → leads (m.mem t i) ≡ true
    → table m (addr_of (m.mem t i)) ≡ some c
    → descend m t i ≡ some c
unfolding descend
descend_of_leads m t i c l h = rw (l, h)

validate_leaf-ok :
    (pte : ℕ) (w x : Bool)
    → validate_leaf pte w x ≡ ok
    → (has pte_p pte ≡ true)
      × (has pte_u pte ≡ true)
      × (w ≡ true → has pte_w pte ≡ true)
      × (x ≡ true → has pte_nx pte ≡ false)
unfolding validate_leaf
validate_leaf-ok pte w x h = (ground arith, ground arith, λ e. ground arith, λ e. ground arith)

module _ (m : Machine) (virt : ℕ) (w x : Bool) where
  abbrev check_pt : ℕ → Code
  check_pt pt = validate_leaf (m.mem pt (idx1 virt)) w x

  abbrev check_pd : ℕ → Code
  check_pd pd = validate_level m (m.mem pd (idx2 virt)) 4 check_pt

  abbrev check_pdpt : ℕ → Code
  check_pdpt pdpt = validate_level m (m.mem pdpt (idx3 virt)) 3 check_pd

  abbrev check_pml4 : ℕ → Code
  check_pml4 pml4 = validate_level m (m.mem pml4 (idx4 virt)) 2 check_pdpt

  validate_root :
      (cr3 : ℕ)
      → vmm_user_validate_page_cr3 m cr3 virt w x ≡ ok
      → ((cr3 == 0) ≡ false)
        × (canonical_user virt ≡ true)
        × (pml4 : ℕ) × (table m (page_of cr3) ≡ some pml4)
        × (check_pml4 pml4 ≡ ok)
  unfolding vmm_user_validate_page_cr3
  validate_root cr3 h = elim (Option-cases (table m (page_of cr3))) [
    | inl e ↦ absurd (ground arith)
    | inr (pml4, e) ↦ (ground arith, ground arith, pml4, e, ground arith)
  ]

  validate_tables :
      (cr3 pml4 : ℕ)
      → table m (page_of cr3) ≡ some pml4
      → check_pml4 pml4 ≡ ok
      → (pt : ℕ) × (leaf_table m (page_of cr3) virt ≡ some pt) × (check_pt pt ≡ ok)
  unfolding leaf_table
  validate_tables cr3 pml4 e h4 =
      let (l4, pdpt, t4, h3) = validate_level-ok m (m.mem pml4 (idx4 virt)) 2 check_pdpt h4 in
      let (l3, pd, t3, h2) = validate_level-ok m (m.mem pdpt (idx3 virt)) 3 check_pd h3 in
      let (l2, pt, t2, h1) = validate_level-ok m (m.mem pd (idx2 virt)) 4 check_pt h2 in
      (
        pt,
        rw
            (
              e,
              descend_of_leads m pml4 (idx4 virt) pdpt l4 t4,
              descend_of_leads m pdpt (idx3 virt) pd l3 t3,
            )
            (descend_of_leads m pd (idx2 virt) pt l2 t2),
        h1,
      )

table-ne_zero : (m : Machine) (p t : ℕ) → table m p ≡ some t → (p == 0) ≡ false
unfolding table
table-ne_zero m p t h = ground arith

-- A page that `vmm_user_validate_page_cr3` accepts is translated by `vmm_user_translate_cr3`, and
-- its entry is present, for the user, writable if that was asked, and executable if that was
-- asked.
pub validate-translate :
    (m : Machine) (cr3 virt : ℕ) (w x : Bool)
    → vmm_user_validate_page_cr3 m cr3 virt w x ≡ ok
    → (pte : ℕ) × (vmm_user_translate_cr3 m cr3 virt ≡ some (addr_of pte + virt % page_size, pte))
      × (has pte_p pte ≡ true)
      × (has pte_u pte ≡ true)
      × (w ≡ true → has pte_w pte ≡ true)
      × (x ≡ true → has pte_nx pte ≡ false)
unfolding vmm_user_translate_cr3 vmm_cr3_translate_direct translate_leaf
validate-translate m cr3 virt w x h =
    let (_, canon, pml4, e, h4) = validate_root m virt w x cr3 h in
    let (pt, t, l) = validate_tables m virt w x cr3 pml4 e h4 in
    let (hp, hu, hw, hx) = validate_leaf-ok (m.mem pt (idx1 virt)) w x l in
    let aligned : (page_of cr3 % page_size == 0) ≡ true = ground arith in
    (
      m.mem pt (idx1 virt),
      rw (table-ne_zero m (page_of cr3) pml4 e, aligned, canon, t, hp),
      hp,
      hu,
      hw,
      hx,
    )

module _ (m : Machine) (write : Bool) where
  range_loop_sound :
      (k va last q : ℕ)
      → range_loop k m write va last ≡ true
      → va ≤ q
      → q ≤ last
      → (q - va) % page_size ≡ 0
      → page_ok m q write ≡ true
  unfolding range_loop
  range_loop_sound zero va last q h a b c = absurd (ground arith)
  range_loop_sound (suc k) va last q h a b c =
      ground (arith, range_loop_sound k (va + page_size) last q)

  range_loop_complete :
      (k va last : ℕ)
      → last - va < k * page_size
      → va ≤ last
      → last + page_size ≤ user_top
      → (last - va) % page_size ≡ 0
      → ((q : ℕ) → va ≤ q → q ≤ last → (q - va) % page_size ≡ 0 → page_ok m q write ≡ true)
      → range_loop k m write va last ≡ true
  unfolding range_loop
  range_loop_complete zero va last f a b c h = absurd (omega arith)
  range_loop_complete (suc k) va last f a b c h =
      ground (arith, h va, range_loop_complete k (va + page_size) last)

-- A page that is mapped for the user (bit 2), and, if `write` is asked, writable (bit 1) or marked for
-- copy on write (bit 9).
pub Accessible : Machine → ℕ → Bool → Type 0
Accessible m q write =
    (phys : ℕ) × (pte : ℕ) × (vmm_user_translate m q ≡ some (phys, pte))
    × (has 2 pte ≡ true)
    × (write ≡ true → (has 1 pte || has 9 pte) ≡ true)

page_ok-Accessible :
    (m : Machine) (q : ℕ) (write : Bool) → page_ok m q write ≡ true → Accessible m q write
unfolding page_ok Accessible
page_ok-Accessible m q write h = elim (Option-cases (vmm_user_translate m q)) [
  | inl e ↦ absurd (ground (arith, h))
  | inr (t, e) ↦ (t.0, t.1, e, ground arith, λ w. ground arith)
]

Accessible-page_ok :
    (m : Machine) (q : ℕ) (write : Bool) → Accessible m q write → page_ok m q write ≡ true
unfolding page_ok Accessible
Accessible-page_ok m q false (phys, pte, e, u, w) = rw (page_ok, e, u) refl
Accessible-page_ok m q true (phys, pte, e, u, w) =
    let x = w refl in rw (page_ok, e, u) (ground arith)

-- With a user space and a length above 0, `vmm_user_range_ok` accepts exactly the ranges that end
-- below the top of the user space and whose every page is translated by an entry for the user, that
-- is writable or marked for copy on write if writing is asked.
pub range_ok_iff :
    (m : Machine) (virt len : ℕ) (w : Bool)
    → m.g_user_valid ≡ true
    → 0 < len
    → (vmm_user_range_ok m virt len w ≡ true) ↔ (
        (virt + len ≤ user_top)
        × ((q : ℕ)
            → q % page_size ≡ 0
            → page_of virt ≤ q
            → q ≤ page_of (virt + len - 1)
            → Accessible m q w))
unfolding vmm_user_range_ok
range_ok_iff m virt len w v pos = (
  λ h. (
    ground arith,
    λ q al lo hi.
        page_ok-Accessible m q w
          (range_loop_sound m w k (page_of virt) last q (ground arith) lo hi (omega arith)),
  ),
  λ h.
      let looped : range_loop k m w (page_of virt) last ≡ true =
        range_loop_complete m w k (page_of virt) last (omega arith) (omega arith) (omega arith)
          (omega arith) (λ q lo hi al. Accessible-page_ok m q w (h.1 q (omega arith) lo hi)) in
      ground (arith, looped, h.0),
)
  where
    last : ℕ
    last = page_of (virt + len - 1)

    k : ℕ
    k = (last - page_of virt) / page_size + 1
