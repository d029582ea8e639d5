-- ===== src/Vmm/Create.antt =====
-- src/kernel/vmm.c: a page for a table, and `vmm_user_space_create`.
use yabro_os.Base.{
  ℕ, ◌<◌, ◌≤◌, ◌≡◌, ◌≢◌, inl, inr, refl, sym, ap, ◌∙◌, true, none, some, ◌==◌, if◌then◌else◌, has,
  arith, ok, Bool-cases, Option-cases,
}
use yabro_os.Pmm.State.{page_of}
use yabro_os.Vmm.Machine.{Machine, addr_of, idx4, canonical_user, table, copied, zeroed}
use yabro_os.Vmm.Walk.{descend, leaf_table, vmm_user_translate}
use yabro_os.Pmm.Alloc.{pmm_alloc_page}
use yabro_os.Pmm.State.{Pmm, page_is_allocated}
use yabro_os.Pmm.Valid.{IsValid, in_regions_bounds}
use mathlib.Core.Bool.{false≢true}
use yabro_os.Vmm.Entry.{IsPage, addr_of-page}
use yabro_os.Pmm.Take.{Allocated, pmm_alloc_page-Allocated}
use yabro_os.Vmm.Map.{alloc_table, create_from, vmm_user_space_create}

-- What a successful `alloc_table` has done.
pub record NewTable (m : Machine) (phys : ℕ) (m' : Machine) : Type 0 where
  pub got : phys ≡ (pmm_alloc_page m.pmm).0
  pub ne_zero : phys ≢ 0
  pub state : m' ≡ record m { pmm = (pmm_alloc_page m.pmm).1 }
  pub pointer : table m' phys ≡ some (addr_of phys)

-- The page was free in the manager, and now it alone is taken.
pub NewTable-Allocated :
    {m m' : Machine} {phys : ℕ} → IsValid m.pmm → NewTable m phys m' → Allocated m.pmm phys m'.pmm
NewTable-Allocated {m} v n =
    let took = pmm_alloc_page-Allocated v (λ z. n.ne_zero (n.got ∙ z)) in rw (n.state, n.got) took

pub Allocated-IsPage : {s s' : Pmm} {p : ℕ} → IsValid s → Allocated s p s' → IsPage p
Allocated-IsPage {s} {p = p} v a = record {
  aligned = a.aligned;
  small = omega (arith, in_regions_bounds s.regions p v.regions a.inside);
}

pub table-some : (m : Machine) (p t : ℕ) → table m p ≡ some t → t ≡ addr_of p
unfolding table
table-some m p t h = ground arith

pub alloc_table-NewTable :
    (m : Machine) (phys : ℕ) → (alloc_table m).0 ≡ some phys → NewTable m phys (alloc_table m).1
unfolding alloc_table
alloc_table-NewTable m phys h =
    let m' = record m { pmm = (pmm_alloc_page m.pmm).1 } in
    elim (Option-cases (table m' (pmm_alloc_page m.pmm).0)) [
      | inl e ↦ absurd (ground arith)
      | inr (t, e) ↦ record {
        got = ground arith;
        ne_zero = ground arith;
        state = ground arith;
        pointer = ground (arith, table-some m' (pmm_alloc_page m.pmm).0 t e);
      }
    ]

-- The source table of `vmm_user_space_create`.
abbrev pub source_cr3 : Machine → ℕ
source_cr3 m = if m.kernel_cr3 == 0 then page_of m.cr3 else page_of m.kernel_cr3

create_value :
    (m : Machine)
    → (vmm_user_space_create m).0 ≡ ok
    → (phys : ℕ) × (src : ℕ) × NewTable m phys (alloc_table m).1
      × (src ≡ addr_of (source_cr3 m))
      × ((vmm_user_space_create m).1 ≡ record (alloc_table m).1 {
        mem = copied 256 (zeroed (alloc_table m).1.mem (addr_of phys)) src (addr_of phys);
        pml4_phys = phys;
        g_user_valid = true;
      })
unfolding vmm_user_space_create create_from
create_value m h = elim (Option-cases (table m (source_cr3 m))) [
  | inl e ↦ absurd (ground arith)
  | inr (src, e) ↦ elim (Option-cases (alloc_table m).0) [
    | inl f ↦ absurd (ground arith)
    | inr (phys, f) ↦
        (phys, src, alloc_table-NewTable m phys f, table-some m (source_cr3 m) src e, ground arith)
  ]
]

idx4-user : (va : ℕ) → canonical_user va ≡ true → idx4 va < 256
unfolding idx4
idx4-user va h = ground arith

leaf_table_empty :
    (w : Machine) (root pml4 va : ℕ)
    → table w root ≡ some pml4
    → w.mem pml4 (idx4 va) ≡ 0
    → leaf_table w root va ≡ none
unfolding leaf_table descend
leaf_table_empty w root pml4 va t z = rw (t, z) (unfold has in refl)

-- The machine with the new top table.
abbrev fresh_space : Machine → ℕ → ℕ → Machine
fresh_space m src phys = record m {
  mem = copied 256 (zeroed m.mem (addr_of phys)) src (addr_of phys);
  pml4_phys = phys;
  g_user_valid = true;
}

fresh_translate :
    (m : Machine) (src phys va : ℕ)
    → table m phys ≡ some (addr_of phys)
    → vmm_user_translate (fresh_space m src phys) va ≡ none
unfolding vmm_user_translate
fresh_translate m src phys va t = elim (Bool-cases (canonical_user va)) [
  | inl c ↦
      let lt = idx4-user va c in
      let e =
        leaf_table_empty (fresh_space m src phys) phys (addr_of phys) va (unfold table in t)
          (ground arith) in
      rw e (ground arith)
  | inr c ↦ rw c
]

-- When `vmm_user_space_create` succeeds, the new user space translates no address.
pub create_translate :
    (m : Machine) (va : ℕ)
    → (vmm_user_space_create m).0 ≡ ok
    → vmm_user_translate (vmm_user_space_create m).1 va ≡ none
create_translate m va h =
    let (phys, src, new, _, value) = create_value m h in
    rw value (fresh_translate (alloc_table m).1 src phys va new.pointer)

-- When `vmm_user_space_create` succeeds, on a valid manager in which the source table is a page
-- in use, the upper half of the new top table is that of the source table.
pub create_upper :
    (m : Machine) (i : ℕ)
    → IsValid m.pmm
    → page_is_allocated m.pmm (addr_of (source_cr3 m)) ≡ true
    → (vmm_user_space_create m).0 ≡ ok
    → 256 ≤ i
    → i < 512
    → let m' = (vmm_user_space_create m).1 in
      m'.mem (addr_of m'.pml4_phys) i ≡ m.mem (addr_of (source_cr3 m)) i
create_upper m i v a h lo hi =
    let (phys, src, new, same, value) = create_value m h in
    let took = NewTable-Allocated v new in
    let page = addr_of-page (Allocated-IsPage v took) in
    let apart : phys ≢ addr_of (source_cr3 m) =
      λ e. false≢true (sym took.was_free ∙ (ap (page_is_allocated m.pmm) e ∙ a)) in
    rw (value, page, same) (ground (arith, new.state))
