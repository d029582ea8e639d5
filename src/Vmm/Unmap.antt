-- ===== src/Vmm/Unmap.antt =====
-- src/kernel/vmm.c: `vmm_user_unmap` against `vmm_user_translate`.
use yabro_os.Base.{
  ℕ, ◌+◌, ◌%◌, ◌<◌, ◌≡◌, ◌⊎◌, inl, inr, refl, ◌&&◌, Option, none, some, ◌==◌, has, arith,
  Bool-cases, Option-cases, ◌>>=◌,
}
use yabro_os.Pmm.State.{page_size}
use yabro_os.Vmm.Machine.{Machine, addr_of, idx4, idx3, idx2, idx1, table, write}
use yabro_os.Vmm.Walk.{descend, leaf_table, translate_leaf, vmm_user_translate}
use yabro_os.Vmm.Map.{unmap_leaf, vmm_user_unmap}

-- The indices of the tables are the same for every address of a page.
pub idx_of_page :
    (virt off : ℕ)
    → virt % page_size ≡ 0
    → off < page_size
    → (idx4 (virt + off) ≡ idx4 virt)
      × (idx3 (virt + off) ≡ idx3 virt)
      × (idx2 (virt + off) ≡ idx2 virt)
      × (idx1 (virt + off) ≡ idx1 virt)
      × ((virt + off) % page_size ≡ off)
unfolding idx4 idx3 idx2 idx1
idx_of_page virt off al lt = omega arith

pub leaf_table-page :
    (m : Machine) (root virt off : ℕ)
    → virt % page_size ≡ 0
    → off < page_size
    → leaf_table m root (virt + off) ≡ leaf_table m root virt
unfolding leaf_table
leaf_table-page m root virt off al lt =
    let (i4, i3, i2, _, _) = idx_of_page virt off al lt in rw (i4, i3, i2)

-- For an aligned address, `vmm_user_unmap` returns the page that `vmm_user_translate` finds, and
-- fails where that fails.
pub unmap-eq-translate :
    (m : Machine) (virt : ℕ)
    → virt % page_size ≡ 0
    → (vmm_user_unmap virt m).0 ≡ (vmm_user_translate m virt >>= λ (_, pte). some (addr_of pte))
unfolding vmm_user_unmap vmm_user_translate unmap_leaf translate_leaf
unmap-eq-translate m virt al = elim (Option-cases (leaf_table m m.pml4_phys virt)) [
  | inl e ↦ ground arith
  | inr (pt, e) ↦ ground arith
]

-- A step that fails or is as before, in front of such steps.
bind_or_fail :
    (o o' : Option ℕ) (f f' : ℕ → Option ℕ)
    → (o' ≡ none) ⊎ (o' ≡ o)
    → ((x : ℕ) → (f' x ≡ none) ⊎ (f' x ≡ f x))
    → ((o' >>= f') ≡ none) ⊎ ((o' >>= f') ≡ (o >>= f))
bind_or_fail o o' f f' (inl e) h = inl (rw e)
bind_or_fail none o' f f' (inr e) h = inl (rw e)
bind_or_fail (some x) o' f f' (inr e) h = rw e (h x)

-- The machine after the word `i` of the table `t` is cleared.
module _ (m : Machine) (t i : ℕ) where
  pub table-write : (p v : ℕ) → table (write t i v m) p ≡ table m p
  unfolding table
  table-write p v = refl

  descend-cleared :
      (q j : ℕ)
      → (descend (write t i 0 m) q j ≡ none) ⊎ (descend (write t i 0 m) q j ≡ descend m q j)
  unfolding descend
  descend-cleared q j = elim (Bool-cases (t == q && i == j)) [
    | inl e ↦ inl (rw e (unfold has in refl))
    | inr e ↦ inr (rw (table-write, e))
  ]

  leaf_table-cleared :
      (root va : ℕ)
      → (leaf_table (write t i 0 m) root va ≡ none)
        ⊎ (leaf_table (write t i 0 m) root va ≡ leaf_table m root va)
  unfolding leaf_table
  leaf_table-cleared root va =
      bind_or_fail (table m root) (table (write t i 0 m) root) _ _ (inr (table-write root 0))
        λ pml4. bind_or_fail _ _ _ _ (descend-cleared pml4 (idx4 va)) λ pdpt.
          bind_or_fail _ _ _ _ (descend-cleared pdpt (idx3 va)) λ pd. descend-cleared pd (idx2 va)

unmap_value :
    (m : Machine) (virt p : ℕ)
    → (vmm_user_unmap virt m).0 ≡ some p
    → (pt : ℕ) × (leaf_table m m.pml4_phys virt ≡ some pt)
      × ((vmm_user_unmap virt m).1 ≡ write pt (idx1 virt) 0 m)
unfolding vmm_user_unmap unmap_leaf
unmap_value m virt p h = elim (Option-cases (leaf_table m m.pml4_phys virt)) [
  | inl e ↦ absurd (ground arith)
  | inr (pt, e) ↦ (pt, e, ground arith)
]

cleared_leaf : (m : Machine) (pt va : ℕ) → translate_leaf (write pt (idx1 va) 0 m) pt va ≡ none
unfolding translate_leaf has
cleared_leaf m pt va = ground arith

-- After `vmm_user_unmap` succeeds at an aligned address, no address of that page is translated,
-- however the tables overlap.
pub unmap_translate :
    (m : Machine) (virt off p : ℕ)
    → virt % page_size ≡ 0
    → off < page_size
    → (vmm_user_unmap virt m).0 ≡ some p
    → vmm_user_translate (vmm_user_unmap virt m).1 (virt + off) ≡ none
unfolding vmm_user_translate
unmap_translate m virt off p al lt h =
    let (pt, e, value) = unmap_value m virt p h in
    let (_, _, _, i1, _) = idx_of_page virt off al lt in
    let w = write pt (idx1 virt) 0 m in
    let same = leaf_table-page w m.pml4_phys virt off al lt in
    rw (value, same)
      (elim (leaf_table-cleared m pt (idx1 virt) m.pml4_phys virt) [
        | inl none' ↦ rw none' (ground arith)
        | inr same' ↦
            let c : translate_leaf w pt (virt + off) ≡ none =
              rw (← i1) (cleared_leaf m pt (virt + off)) in
            rw (same', e) (ground (arith, c))
      ])
