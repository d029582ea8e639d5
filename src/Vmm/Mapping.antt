-- ===== src/Vmm/Mapping.antt =====
-- src/kernel/vmm.c: `vmm_user_map` maps the page, keeps the physical manager's invariant and writes to
-- nothing but the entries on the path and fresh tables.
use yabro_os.Base.{
  ℕ, ◌%◌, ◌<◌, ◌≡◌, ◌≢◌, inl, inr, sym, ap, ◌∙◌, true, false, ◌&&◌, some, ◌==◌, ne→==, has, arith,
  Code, ok, Option-cases,
}
use yabro_os.Pmm.State.{page_size}
use yabro_os.Vmm.Machine.{Machine, idx4, idx3, idx2, idx1, canonical_user, table, write}
use yabro_os.Vmm.Walk.{descend}
use yabro_os.Pmm.State.{page_is_allocated}
use yabro_os.Pmm.Valid.{IsValid}
use mathlib.Core.Bool.{false≢true}
use yabro_os.Vmm.Entry.{IsPage}
use yabro_os.Vmm.Map.{ensure_user_child}
use yabro_os.Vmm.Ensure.{Child, ensure_user_child-Child}
use yabro_os.Vmm.Map.{leaf_entry, map_from, vmm_user_map}
use yabro_os.Vmm.Unmap.{table-write}

module _ {m m' : Machine} {t i c : ℕ} (ch : Child m t i c m') where
  -- The entries of the tables in use, but the one that the call may write.
  descend-Child :
      (q j : ℕ)
      → page_is_allocated m.pmm q ≡ true
      → (t == q && i == j) ≡ false
      → descend m' q j ≡ descend m q j
  unfolding descend
  descend-Child q j used other = rw (ch.frame q j used other, ch.tables)

  no_child : {j d : ℕ} → m'.mem c j ≡ 0 → descend m' c j ≡ some d → ⊥
  unfolding descend has
  no_child z e = ground arith

  -- A fresh table leads nowhere; so what the child leads to was there before.
  old_child :
      (j d : ℕ)
      → j < 512
      → descend m' c j ≡ some d
      → (descend m t i ≡ some c) × (page_is_allocated m.pmm c ≡ true → descend m c j ≡ some d)
  old_child j d lt e = elim ch.origin [
    | inl e0 ↦ (e0, λ used. sym (descend-Child c j used (ground (arith, ch.apart))) ∙ e)
    | inr (_, empty) ↦ absurd (no_child (empty j lt) e)
  ]

  -- The child is none of the tables in use, unless it was linked before.
  child-ne : (r : ℕ) → page_is_allocated m.pmm r ≡ true → (descend m t i ≡ some c → c ≢ r) → c ≢ r
  child-ne r used old = elim ch.origin [
    | inl e ↦ old e
    | inr (free, _) ↦ λ e. false≢true (sym free ∙ (ap (page_is_allocated m.pmm) e ∙ used))
  ]

-- A table apart from those before it on the path.
abbrev Apart : Machine → ℕ → Type 0
Apart m d = IsPage d × (page_is_allocated m.pmm d ≡ true)

-- The tables on the path to `va` that exist are distinct pages in use.
pub record IsPath (m : Machine) (root va : ℕ) : Type 0 where
  pub pml4 : Apart m root
  pub pdpt : (c : ℕ) → descend m root (idx4 va) ≡ some c → Apart m c × (c ≢ root)
  pub pd :
      (c d : ℕ)
      → descend m root (idx4 va) ≡ some c
      → descend m c (idx3 va) ≡ some d
      → Apart m d × (d ≢ root) × (d ≢ c)
  pub pt :
      (c d e : ℕ)
      → descend m root (idx4 va) ≡ some c
      → descend m c (idx3 va) ≡ some d
      → descend m d (idx2 va) ≡ some e
      → Apart m e × (e ≢ root) × (e ≢ c) × (e ≢ d)

-- What a successful `vmm_user_map` leaves: three linked tables, the entry for the page, and no other
-- change to the pages that were in use.
pub record Mapped (m : Machine) (root virt entry : ℕ) (m' : Machine) : Type 0 where
  pub pdpt : ℕ
  pub pd : ℕ
  pub pt : ℕ
  pub pdpt_link : descend m' root (idx4 virt) ≡ some pdpt
  pub pd_link : descend m' pdpt (idx3 virt) ≡ some pd
  pub pt_link : descend m' pd (idx2 virt) ≡ some pt
  pub leaf : m'.mem pt (idx1 virt) ≡ entry
  pub frame :
      (q j : ℕ)
      → page_is_allocated m.pmm q ≡ true
      → IsPage q
      → (root == q && idx4 virt == j) ≡ false
      → (pdpt == q && idx3 virt == j) ≡ false
      → (pd == q && idx2 virt == j) ≡ false
      → (pt == q && idx1 virt == j) ≡ false
      → m'.mem q j ≡ m.mem q j
  pub tables : (p : ℕ) → table m' p ≡ table m p
  pub valid : IsValid m'.pmm
  pub user_valid : m'.g_user_valid ≡ m.g_user_valid
  pub root_phys : m'.pml4_phys ≡ m.pml4_phys

idx-small : (v : ℕ) → (idx4 v < 512) × (idx3 v < 512) × (idx2 v < 512)
unfolding idx4 idx3 idx2
idx-small v = omega arith

pub descend-write_ne :
    (m : Machine) (t i v q j : ℕ) → t ≢ q → descend (write t i v m) q j ≡ descend m q j
unfolding descend
descend-write_ne m t i v q j ne = rw (table-write, ne→== t q ne)

-- The second and the third table: where they were linked before, they are pages of the path.
module _ {m m1 : Machine} {root c virt : ℕ} (p : IsPath m root virt)
    (ch1 : Child m root (idx4 virt) c m1) where
  old_pd :
      (x : ℕ)
      → descend m1 c (idx3 virt) ≡ some x
      → (descend m root (idx4 virt) ≡ some c) × (descend m c (idx3 virt) ≡ some x)
  old_pd x h =
      let (e0, back) = old_child ch1 (idx3 virt) x (idx-small virt).1 h in
      (e0, back (p.pdpt c e0).0.1)

  second : (x : ℕ) → descend m1 c (idx3 virt) ≡ some x → Apart m1 x × (x ≢ root) × (x ≢ c)
  second x h =
      let (e0, e1) = old_pd x h in
      let ((page, used), ner, nec) = p.pd c x e0 e1 in ((page, ch1.grows x page used), ner, nec)

  root_used : page_is_allocated m1.pmm root ≡ true
  root_used = ch1.grows root p.pml4.0 p.pml4.1

  module _ {m2 : Machine} {d : ℕ} (ch2 : Child m1 c (idx3 virt) d m2) where
    d-ne-root : d ≢ root
    d-ne-root = child-ne ch2 root root_used (λ h. (second d h).1)

    third :
        (x : ℕ) → descend m2 d (idx2 virt) ≡ some x → Apart m2 x × (x ≢ root) × (x ≢ c) × (x ≢ d)
    third x h =
        let (e1, back) = old_child ch2 (idx2 virt) x (idx-small virt).2 h in
        let ((_, used_d), ner, nec) = second d e1 in
        let (e0, e1') = old_pd d e1 in
        let h1 = back used_d in
        let keep' =
          descend-Child ch1 d (idx2 virt) (p.pd c d e0 e1').0.1 (ground (arith, d-ne-root)) in
        let ((page, used), r, s, t) = p.pt c d x e0 e1' (sym keep' ∙ h1) in
        ((page, ch2.grows x page (ch1.grows x page used)), r, s, t)

    module _ {m3 : Machine} {e : ℕ} (ch3 : Child m2 d (idx2 virt) e m3) (entry : ℕ) where
      e-ne-root : e ≢ root
      e-ne-root = child-ne ch3 root (ch2.grows root p.pml4.0 root_used) (λ h. (third e h).1)

      e-ne-c : e ≢ c
      e-ne-c = child-ne ch3 c (ch2.grows c ch1.page ch1.taken) (λ h. (third e h).2)

      chain-Mapped : Mapped m root virt entry (write e (idx1 virt) entry m3)
      chain-Mapped = record {
        pdpt = c;
        pd = d;
        pt = e;
        pdpt_link =
            descend-write_ne m3 e (idx1 virt) entry root (idx4 virt) e-ne-root
            ∙ descend-Child ch3 root (idx4 virt) (ch2.grows root p.pml4.0 root_used)
                (ground (arith, d-ne-root))
            ∙ descend-Child ch2 root (idx4 virt) root_used (ground (arith, ch1.apart))
            ∙ ch1.link;
        pd_link =
            descend-write_ne m3 e (idx1 virt) entry c (idx3 virt) e-ne-c
            ∙ descend-Child ch3 c (idx3 virt) (ch2.grows c ch1.page ch1.taken)
                (ground (arith, ch2.apart))
            ∙ ch2.link;
        pt_link = descend-write_ne m3 e (idx1 virt) entry d (idx2 virt) ch3.apart ∙ ch3.link;
        leaf = ground arith;
        frame = λ q j used page n4 n3 n2 n1. ground (
          arith,
          ch3.frame q j (ch2.grows q page (ch1.grows q page used)) n2,
          ch2.frame q j (ch1.grows q page used) n3,
          ch1.frame q j used n4,
        );
        tables =
            λ a. table-write m3 e (idx1 virt) a entry ∙ ch3.tables a ∙ ch2.tables a ∙ ch1.tables a;
        valid = ch3.valid;
        user_valid = ch3.user_valid ∙ ch2.user_valid ∙ ch1.user_valid;
        root_phys = ch3.root ∙ ch2.root ∙ ch1.root;
      }

-- The three tables of a successful chain.
map_from_value :
    (m : Machine) (root virt phys flags : ℕ)
    → (map_from root virt phys flags m).0 ≡ ok
    → (c : ℕ) × (d : ℕ) × (e : ℕ) × let m1 = (ensure_user_child root (idx4 virt) m).1 in
        let m2 = (ensure_user_child c (idx3 virt) m1).1 in
        let m3 = (ensure_user_child d (idx2 virt) m2).1 in
        ((ensure_user_child root (idx4 virt) m).0 ≡ some c)
        × ((ensure_user_child c (idx3 virt) m1).0 ≡ some d)
        × ((ensure_user_child d (idx2 virt) m2).0 ≡ some e)
        × ((map_from root virt phys flags m).1 ≡ write e (idx1 virt) (leaf_entry phys flags) m3)
unfolding map_from
map_from_value m root virt phys flags h =
    elim (Option-cases (ensure_user_child root (idx4 virt) m).0) [
      | inl x ↦ absurd (ground arith)
      | inr (c, e1) ↦
          let m1 = (ensure_user_child root (idx4 virt) m).1 in
          elim (Option-cases (ensure_user_child c (idx3 virt) m1).0) [
            | inl x ↦ absurd (ground arith)
            | inr (d, e2) ↦
                let m2 = (ensure_user_child c (idx3 virt) m1).1 in
                elim (Option-cases (ensure_user_child d (idx2 virt) m2).0) [
                  | inl x ↦ absurd (ground arith)
                  | inr (e, e3) ↦ (c, d, e, (e1, e2, e3, ground arith))
                ]
          ]
    ]

map_from-Mapped :
    (m : Machine) (root virt phys flags : ℕ)
    → IsValid m.pmm
    → IsPath m root virt
    → (map_from root virt phys flags m).0 ≡ ok
    → Mapped m root virt (leaf_entry phys flags) (map_from root virt phys flags m).1
map_from-Mapped m root virt phys flags v p h =
    let (c, d, e, parts) = map_from_value m root virt phys flags h in
    let m1 = (ensure_user_child root (idx4 virt) m).1 in
    let m2 = (ensure_user_child c (idx3 virt) m1).1 in
    let ch1 =
      ensure_user_child-Child m root (idx4 virt) c v p.pml4.1
        (λ x l. let ((a, b), n) = p.pdpt x l in (a, b, n)) parts.0 in
    let ch2 =
      ensure_user_child-Child m1 c (idx3 virt) d ch1.valid ch1.taken
        (λ x l. let ((a, b), _, n) = second p ch1 x l in (a, b, n)) parts.1 in
    let ch3 =
      ensure_user_child-Child m2 d (idx2 virt) e ch2.valid ch2.taken
        (λ x l. let ((a, b), _, _, n) = third p ch1 ch2 x l in (a, b, n)) parts.2 in
    rw parts.3 (chain-Mapped p ch1 ch2 ch3 (leaf_entry phys flags))

pub map_value :
    (m : Machine) (root virt phys flags : ℕ)
    → table m m.pml4_phys ≡ some root
    → (vmm_user_map virt phys flags m).0 ≡ ok
    → (m.g_user_valid ≡ true)
      × (canonical_user virt ≡ true)
      × (virt % page_size ≡ 0)
      × (phys % page_size ≡ 0)
      × (vmm_user_map virt phys flags m ≡ map_from root virt phys flags m)
unfolding vmm_user_map
map_value m root virt phys flags t h =
    (ground arith, ground arith, ground arith, ground arith, ground arith)

-- When `vmm_user_map` succeeds, on a valid manager and a path whose tables are pages in use and
-- distinct, the three tables of the path are linked, the entry is written, the other words of the
-- pages in use are as before, and the manager is valid.
pub vmm_user_map-Mapped :
    (m : Machine) (root virt phys flags : ℕ)
    → IsValid m.pmm
    → table m m.pml4_phys ≡ some root
    → IsPath m root virt
    → (vmm_user_map virt phys flags m).0 ≡ ok
    → Mapped m root virt (leaf_entry phys flags) (vmm_user_map virt phys flags m).1
vmm_user_map-Mapped m root virt phys flags v t p h =
    let (_, _, _, _, value) = map_value m root virt phys flags t h in
    rw value (
      map_from-Mapped m root virt phys flags v p (ap (λ (r : Code × Machine). r.0) (sym value) ∙ h))
