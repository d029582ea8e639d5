-- ===== src/Vmm/Ensure.antt =====
-- src/kernel/vmm.c: `ensure_user_child` gives a table of the next level, and changes nothing else.
use yabro_os.Base.{
  ℕ, ◌*◌, ◌/◌, ◌<◌, ◌≡◌, ◌≢◌, ◌⊎◌, inl, inr, sym, ap, ◌∙◌, true, false, ◌&&◌, none, some, ◌==◌,
  ==_self, if◌then◌else◌, has, arith, Bool-cases, Option-cases,
}
use yabro_os.Pmm.State.{page_size, pmm_phys_to_virt}
use yabro_os.Vmm.Machine.{Machine, pte_w, pte_u, addr_of, table, leads, write, store, zeroed}
use yabro_os.Vmm.Walk.{descend}
use yabro_os.Pmm.Alloc.{pmm_alloc_page, take_page}
use yabro_os.Pmm.State.{Pmm, page_set_allocated, page_is_allocated}
use yabro_os.Pmm.Valid.{IsValid}
use mathlib.Core.Bool.{false≢true}
use yabro_os.Vmm.Entry.{IsPage, addr_of-page, addr_of-IsPage}
use yabro_os.Pmm.Take.{Allocated}
use yabro_os.Vmm.Map.{alloc_table}
use yabro_os.Vmm.Create.{NewTable, NewTable-Allocated, Allocated-IsPage, alloc_table-NewTable}
use yabro_os.Vmm.Entry.{user_entry_fields, addr_of-IsPage}
use yabro_os.Vmm.Map.{user_entry, new_user_table, ensure_user_child}

-- `c` is the table below the entry `i` of the table `t` after the call.
pub record Child (m : Machine) (t i c : ℕ) (m' : Machine) : Type 0 where
  pub link : descend m' t i ≡ some c
  pub page : IsPage c
  pub apart : c ≢ t
  pub taken : page_is_allocated m'.pmm c ≡ true
  pub valid : IsValid m'.pmm
  pub grows :
      (q : ℕ) → IsPage q → page_is_allocated m.pmm q ≡ true → page_is_allocated m'.pmm q ≡ true
  pub tables : (p : ℕ) → table m' p ≡ table m p
  pub frame :
      (q j : ℕ)
      → page_is_allocated m.pmm q ≡ true
      → (t == q && i == j) ≡ false
      → m'.mem q j ≡ m.mem q j
  pub origin :
      (descend m t i ≡ some c)
      ⊎ ((page_is_allocated m.pmm c ≡ false) × ((j : ℕ) → j < 512 → m'.mem c j ≡ 0))
  pub user_valid : m'.g_user_valid ≡ m.g_user_valid
  pub root : m'.pml4_phys ≡ m.pml4_phys

module _ (m : Machine) (t i : ℕ) where
  existing_value :
      (c : ℕ)
      → descend m t i ≡ some c
      → (leads (m.mem t i) ≡ true)
        × (table m (addr_of (m.mem t i)) ≡ some c)
        × (ensure_user_child t i m ≡ (
          some c,
          if has pte_w (m.mem t i) && has pte_u (m.mem t i)
              then m
              else write t i (user_entry (addr_of (m.mem t i))) m,
        ))
  unfolding descend ensure_user_child
  existing_value c h = elim (Option-cases (table m (addr_of (m.mem t i)))) [
    | inl e ↦ absurd (ground arith)
    | inr (d, e) ↦ (ground arith, ground arith, ground arith)
  ]

  missing_value : descend m t i ≡ none → ensure_user_child t i m ≡ new_user_table t i m
  unfolding descend ensure_user_child
  missing_value h = elim (Option-cases (table m (addr_of (m.mem t i)))) [
    | inl e ↦ ground arith
    | inr (d, e) ↦ ground arith
  ]

  new_value :
      (c : ℕ)
      → (new_user_table t i m).0 ≡ some c
      → (phys : ℕ) × (c ≡ addr_of phys)
        × NewTable m phys (alloc_table m).1
        × ((new_user_table t i m).1
            ≡ write t i
                (user_entry phys)
                (record (alloc_table m).1 { mem = zeroed (alloc_table m).1.mem (addr_of phys) }))
  unfolding new_user_table
  new_value c h = elim (Option-cases (alloc_table m).0) [
    | inl e ↦ absurd (ground arith)
    | inr (phys, e) ↦ (phys, ground arith, alloc_table-NewTable m phys e, ground arith)
  ]

store_self : (mem : ℕ → ℕ → ℕ) (t i v : ℕ) → store mem t i v t i ≡ v
store_self mem t i v = rw (==_self t, ==_self i)

pub descend-write_self :
    (m : Machine) (t i v c : ℕ)
    → leads v ≡ true
    → table m (addr_of v) ≡ some c
    → descend (write t i v m) t i ≡ some c
unfolding descend
descend-write_self m t i v c l e = rw (store_self m.mem t i v, l) (unfold table in e)

g_hhdm-alloc : (s : Pmm) → (pmm_alloc_page s).1.g_hhdm ≡ s.g_hhdm
unfolding pmm_alloc_page take_page page_set_allocated
g_hhdm-alloc s = ground arith

-- An entry that is kept, or rewritten for the same table.
module _ (m : Machine) (t i c : ℕ) (e : descend m t i ≡ some c) where
  linked : Machine
  linked =
      if has pte_w (m.mem t i) && has pte_u (m.mem t i)
      then m
      else write t i (user_entry (addr_of (m.mem t i))) m

  linked-pmm : linked.pmm ≡ m.pmm
  unfolding linked
  linked-pmm = ground arith

  linked-table : (p : ℕ) → table linked p ≡ table m p
  unfolding linked table
  linked-table p = ground arith

  linked-link : descend linked t i ≡ some c
  unfolding linked
  linked-link =
      let (l, to, _) = existing_value m t i c e in
      let (a, lead, _, _) = user_entry_fields (addr_of (m.mem t i)) (addr_of-IsPage (m.mem t i)) in
      elim (Bool-cases (has pte_w (m.mem t i) && has pte_u (m.mem t i))) [
        | inl k ↦ rw k e
        | inr k ↦
            rw k (descend-write_self m t i (user_entry (addr_of (m.mem t i))) c lead (rw a to))
      ]

  existing-Child :
      IsValid m.pmm → IsPage c → page_is_allocated m.pmm c ≡ true → c ≢ t → Child m t i c linked
  existing-Child v page taken apart = record {
    link = linked-link;
    page = page;
    apart = apart;
    taken = rw linked-pmm taken;
    valid = rw linked-pmm v;
    grows = λ q p a. rw linked-pmm a;
    tables = linked-table;
    frame = λ q j a n. unfold linked in ground arith;
    origin = inl e;
    user_valid = unfold linked in ground arith;
    root = unfold linked in ground arith;
  }

-- A fresh table, and the entry that leads to it.
module _ {m m1 : Machine} {phys : ℕ} (t i : ℕ) (v : IsValid m.pmm) (new : NewTable m phys m1) where
  with_table : Machine
  with_table = write t i (user_entry phys) (record m1 { mem = zeroed m1.mem (addr_of phys) })

  took : Allocated m.pmm phys m1.pmm
  took = NewTable-Allocated v new

  fresh-IsPage : IsPage phys
  fresh-IsPage = Allocated-IsPage v took

  fresh_taken : page_is_allocated m1.pmm phys ≡ true
  fresh_taken =
      let same : phys / page_size * page_size ≡ phys = omega (arith, fresh-IsPage.aligned) in
      ground (arith, took.change.bit (phys / page_size), same)

  fresh_hhdm : m1.pmm.g_hhdm ≡ m.pmm.g_hhdm
  fresh_hhdm = rw new.state (g_hhdm-alloc m.pmm)

  fresh_table : (p : ℕ) → table with_table p ≡ table m p
  unfolding with_table table pmm_phys_to_virt
  fresh_table p = rw fresh_hhdm

  fresh-ne : (q : ℕ) → page_is_allocated m.pmm q ≡ true → q ≢ phys
  fresh-ne q a e = false≢true (sym took.was_free ∙ (ap (page_is_allocated m.pmm) (sym e) ∙ a))

  fresh_link : descend with_table t i ≡ some phys
  unfolding with_table
  fresh_link =
      let (a, lead, _, _) = user_entry_fields phys fresh-IsPage in
      descend-write_self (record m1 { mem = zeroed m1.mem (addr_of phys) }) t i (user_entry phys)
        phys lead (rw a (unfold table in (new.pointer ∙ ap some (addr_of-page fresh-IsPage))))

  new-Child : page_is_allocated m.pmm t ≡ true → Child m t i (addr_of phys) with_table
  new-Child taken =
      let same = addr_of-page fresh-IsPage in
      rw same (record {
        link = fresh_link;
        page = fresh-IsPage;
        apart = λ e. fresh-ne t taken (sym e);
        taken = unfold with_table in fresh_taken;
        valid = unfold with_table in took.valid;
        grows = λ q p a.
            unfold with_table in
            let back : q / page_size * page_size ≡ q = omega (arith, p.aligned) in
            ground (arith, took.change.bit (q / page_size), back);
        tables = fresh_table;
        frame = λ q j a n. unfold with_table in ground (arith, fresh-ne q a, same, new.state);
        origin =
            inr
              (took.was_free, λ j lt. unfold with_table in ground (arith, fresh-ne t taken, same));
        user_valid = unfold with_table in ground (arith, new.state);
        root = unfold with_table in ground (arith, new.state);
      })

-- What `ensure_user_child` returns is a table of the next level, apart from the tables in use.
pub ensure_user_child-Child :
    (m : Machine) (t i c : ℕ)
    → IsValid m.pmm
    → page_is_allocated m.pmm t ≡ true
    → ((d : ℕ) → descend m t i ≡ some d → IsPage d × (page_is_allocated m.pmm d ≡ true) × (d ≢ t))
    → (ensure_user_child t i m).0 ≡ some c
    → Child m t i c (ensure_user_child t i m).1
ensure_user_child-Child m t i c v taken old h = elim (Option-cases (descend m t i)) [
  | inl e ↦
      let gone = missing_value m t i e in
      let (phys, is, new, value) = new_value m t i c (rw gone at h) in
      rw (gone, value, is) (unfold with_table in new-Child t i v new taken)
  | inr (d, e) ↦
      let (_, _, value) = existing_value m t i d e in
      let (page, used, apart) = old d e in
      let is : c ≡ d = ground (arith, value) in
      rw (value, is) (unfold linked in existing-Child m t i d e v page used apart)
]
