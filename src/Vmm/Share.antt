-- ===== src/Vmm/Share.antt =====
-- src/kernel/vmm.c: how fork shares one mapped page between two tables.
use yabro_os.Base.{ℕ, ◌≡◌, ◌≢◌, true, false, ◌&&◌, ◌==◌, has, arith, ok}
use yabro_os.Pmm.Alloc.{pmm_retain_page, pmm_page_is_reserved}
use yabro_os.Pmm.Valid.{IsValid}
use yabro_os.Pmm.Keep.{pmm_retain_page-IsValid}
use yabro_os.Vmm.Machine.{Machine, pte_p, pte_w, pte_u, pte_cow, pte_nx, addr_of}
use yabro_os.Vmm.Fork.{share_leaf}
use yabro_os.Vmm.Entry.{share_entry_fields}

-- The word `i` of both tables maps the page that the source table mapped, and neither lets the user
-- write a page that a fault could copy.
pub record Shared (m : Machine) (src dst i : ℕ) (m' : Machine) : Type 0 where
  pub same : m'.mem src i ≡ m'.mem dst i
  pub page : addr_of (m'.mem dst i) ≡ addr_of (m.mem src i)
  pub present : has pte_p (m'.mem dst i) ≡ has pte_p (m.mem src i)
  pub user : has pte_u (m'.mem dst i) ≡ has pte_u (m.mem src i)
  pub no_execute : has pte_nx (m'.mem dst i) ≡ has pte_nx (m.mem src i)
  pub not_writable :
      pmm_page_is_reserved (addr_of (m.mem src i)) m.pmm ≢ 1 → has pte_w (m'.mem dst i) ≡ false
  pub marked :
      pmm_page_is_reserved (addr_of (m.mem src i)) m.pmm ≢ 1
      → has pte_w (m.mem src i) ≡ true
      → has pte_cow (m'.mem dst i) ≡ true
  pub counted :
      pmm_page_is_reserved (addr_of (m.mem src i)) m.pmm ≢ 1
      → ((pmm_retain_page (addr_of (m.mem src i)) m.pmm).0 ≡ true)
        × (m'.pmm ≡ (pmm_retain_page (addr_of (m.mem src i)) m.pmm).1)
  pub frame :
      (q j : ℕ)
      → (src == q && i == j) ≡ false
      → (dst == q && i == j) ≡ false
      → m'.mem q j ≡ m.mem q j
  pub valid : IsValid m'.pmm

-- When `share_leaf` succeeds on a valid manager, both tables map the page alike: a page that is
-- not reserved without write access, with one more reference, and marked copy-on-write if it was
-- writable; no other word changes, and the manager is valid.
pub share_leaf-Shared :
    (m : Machine) (src dst i : ℕ)
    → IsValid m.pmm
    → (share_leaf src dst i m).0 ≡ ok
    → Shared m src dst i (share_leaf src dst i m).1
unfolding share_leaf
share_leaf-Shared m src dst i v h =
    let (a, fp, fu, fn, fw, fc) = share_entry_fields (m.mem src i) in
    let kept = pmm_retain_page-IsValid (addr_of (m.mem src i)) v in
    record {
      same = ground arith;
      page = ground (arith, a);
      present = ground (arith, fp);
      user = ground (arith, fu);
      no_execute = ground (arith, fn);
      not_writable = λ r. ground (arith, fw);
      marked = λ r w. ground (arith, fc);
      counted = λ r. (ground arith, ground arith);
      frame = λ q j e f. ground arith;
      valid = ground (arith, kept);
    }
