-- ===== src/Vmm/Entry.antt =====
-- src/kernel/vmm.c: the flags and the address of the entries that the functions build.
use yabro_os.Base.{
  ℕ, ◌+◌, ◌%◌, ◌^◌, ◌<◌, ◌≤◌, ◌≡◌, refl, true, false, has, set_flag, clear_flag, has-set_flag,
  has-clear_flag, arith,
}
use yabro_os.Pmm.State.{page_size}
use yabro_os.Vmm.Machine.{pte_p, pte_w, pte_u, pte_cow, pte_nx, addr_of, keep, leads}
use yabro_os.Vmm.Map.{user_entry, leaf_entry}
use yabro_os.Vmm.Cow.{promote, private_entry}
use yabro_os.Vmm.Fork.{share_entry}

-- A physical address that an entry can hold.
pub record IsPage (p : ℕ) : Type 0 where
  pub aligned : p % page_size ≡ 0
  pub small : p < 2 ^ 52

pub addr_of-IsPage : (e : ℕ) → IsPage (addr_of e)
unfolding addr_of
addr_of-IsPage e = omega arith

pub addr_of-page : {p : ℕ} → IsPage p → addr_of p ≡ p
unfolding addr_of
addr_of-page v = omega arith

-- Writing one of the low flags keeps the address.
module _ (e : ℕ) where
  addr_of-set_flag_p : addr_of (set_flag pte_p e) ≡ addr_of e
  unfolding addr_of set_flag has
  addr_of-set_flag_p = ground arith

  addr_of-set_flag_w : addr_of (set_flag pte_w e) ≡ addr_of e
  unfolding addr_of set_flag has
  addr_of-set_flag_w = ground arith

  addr_of-set_flag_u : addr_of (set_flag pte_u e) ≡ addr_of e
  unfolding addr_of set_flag has
  addr_of-set_flag_u = ground arith

  addr_of-set_flag_cow : addr_of (set_flag pte_cow e) ≡ addr_of e
  unfolding addr_of set_flag has
  addr_of-set_flag_cow = ground arith

  addr_of-clear_flag_w : addr_of (clear_flag pte_w e) ≡ addr_of e
  unfolding addr_of clear_flag has
  addr_of-clear_flag_w = ground arith

  addr_of-clear_flag_cow : addr_of (clear_flag pte_cow e) ≡ addr_of e
  unfolding addr_of clear_flag has
  addr_of-clear_flag_cow = ground arith

-- An entry for a table leads to that table, for user writes.
pub user_entry_fields :
    (p : ℕ)
    → IsPage p
    → (addr_of (user_entry p) ≡ p)
      × (leads (user_entry p) ≡ true)
      × (has pte_w (user_entry p) ≡ true)
      × (has pte_u (user_entry p) ≡ true)
unfolding addr_of has
user_entry_fields p v = ground arith

-- The entry of a mapped page: present, for the user, with the page's address and the flags asked for.
pub leaf_entry_fields :
    (p flags : ℕ)
    → IsPage p
    → (addr_of (leaf_entry p flags) ≡ p)
      × (has pte_p (leaf_entry p flags) ≡ true)
      × (has pte_u (leaf_entry p flags) ≡ true)
      × (has pte_w (leaf_entry p flags) ≡ has pte_w flags)
      × (has pte_nx (leaf_entry p flags) ≡ has pte_nx flags)
      × (has pte_cow (leaf_entry p flags) ≡ false)
unfolding addr_of has leaf_entry
leaf_entry_fields p flags v =
    (omega arith, ground arith, ground arith, ground arith, ground arith, ground arith)

pub promote_fields :
    (e : ℕ)
    → has pte_w e ≡ false
    → has pte_cow e ≡ true
    → (addr_of (promote e) ≡ addr_of e)
      × (has pte_p (promote e) ≡ has pte_p e)
      × (has pte_u (promote e) ≡ has pte_u e)
      × (has pte_nx (promote e) ≡ has pte_nx e)
      × (has pte_w (promote e) ≡ true)
      × (has pte_cow (promote e) ≡ false)
unfolding promote
promote_fields e w c =
    rw (addr_of-clear_flag_cow, addr_of-set_flag_w)
      (simp (has-clear_flag, has-set_flag) (refl, refl, refl, refl, refl, refl))

pub share_entry_fields :
    (e : ℕ)
    → (addr_of (share_entry e) ≡ addr_of e)
      × (has pte_p (share_entry e) ≡ has pte_p e)
      × (has pte_u (share_entry e) ≡ has pte_u e)
      × (has pte_nx (share_entry e) ≡ has pte_nx e)
      × (has pte_w (share_entry e) ≡ false)
      × (has pte_cow (share_entry e) ≡ true)
unfolding share_entry
share_entry_fields e =
    rw (addr_of-set_flag_cow, addr_of-clear_flag_w)
      (simp (has-set_flag, has-clear_flag) (refl, refl, refl, refl, refl, refl))

-- An address, low flags and the no-execute bit, put together.
module _ (a x : ℕ) (v : IsPage a) (low : x < 2 ^ 12) (e : ℕ) where
  addr_of-join : addr_of (a + x + keep pte_nx e) ≡ a
  unfolding addr_of
  addr_of-join = omega (arith, v.aligned, v.small)

  has-join :
      (has pte_p (a + x + keep pte_nx e) ≡ has pte_p x)
      × (has pte_w (a + x + keep pte_nx e) ≡ has pte_w x)
      × (has pte_u (a + x + keep pte_nx e) ≡ has pte_u x)
      × (has pte_nx (a + x + keep pte_nx e) ≡ has pte_nx e)
  unfolding has
  has-join = (
    ground (arith, v.aligned),
    ground (arith, v.aligned),
    ground (arith, v.aligned),
    ground (arith, v.small),
  )

-- The low flags of the private entry.
abbrev low_flags : ℕ → ℕ
low_flags e = set_flag pte_w (set_flag pte_u (set_flag pte_p (clear_flag pte_cow (e % 2 ^ 12))))

set_flag-low :
    (x : ℕ)
    → x < 2 ^ 12
    → (set_flag pte_p x < 2 ^ 12) × (set_flag pte_w x < 2 ^ 12) × (set_flag pte_u x < 2 ^ 12)
unfolding set_flag has
set_flag-low x h = (ground arith, ground arith, ground arith)

clear_flag-le : (k x : ℕ) → clear_flag k x ≤ x
unfolding clear_flag
clear_flag-le k x = ground arith

low_flags-small : (e : ℕ) → low_flags e < 2 ^ 12
low_flags-small e =
    let c : clear_flag pte_cow (e % 2 ^ 12) < 2 ^ 12 =
      omega (arith, clear_flag-le pte_cow (e % 2 ^ 12)) in
    let p = (set_flag-low (clear_flag pte_cow (e % 2 ^ 12)) c).0 in
    let u = (set_flag-low (set_flag pte_p (clear_flag pte_cow (e % 2 ^ 12))) p).2 in
    (set_flag-low (set_flag pte_u (set_flag pte_p (clear_flag pte_cow (e % 2 ^ 12)))) u).1

pub private_entry_fields :
    (np e : ℕ)
    → IsPage np
    → (addr_of (private_entry np e) ≡ np)
      × (has pte_p (private_entry np e) ≡ true)
      × (has pte_u (private_entry np e) ≡ true)
      × (has pte_nx (private_entry np e) ≡ has pte_nx e)
      × (has pte_w (private_entry np e) ≡ true)
      × (has pte_cow (private_entry np e) ≡ false)
unfolding private_entry
private_entry_fields np e v =
    let (hp, hw, hu, hn) = has-join np (low_flags e) v (low_flags-small e) e in
    let a = addr_of-join np (low_flags e) v (low_flags-small e) e in
    rw (addr_of-clear_flag_cow, addr_of-page v, a)
      (simp (has-clear_flag, hp, hw, hu, hn, has-set_flag) (refl, refl, refl, refl, refl, refl))
