-- ===== src/Vfs/Slots.antt =====
-- src/kernel/vfs.c: `vfs_alloc_file_data` takes a free slot.
use yabro_os.Base.{
  ℕ, zero, suc, ◌+◌, ◌<◌, ◌≤◌, ◌≡◌, ◌≢◌, refl, ap, ◌⊎◌, inl, inr, true, false, Option, none, some,
  ◌==◌, update, arith, Bool-cases, Option-cases,
}
use yabro_os.Vfs.Node.{Vfs, vfs_data_slots, vfs_data_slot_size}
use yabro_os.Vfs.Data.{free_slot, filled, vfs_alloc_file_data}

free_slot-some :
    (k : ℕ) (v : Vfs) (i p : ℕ)
    → free_slot k v i ≡ some p
    → (i ≤ p) × (p < i + k) × (v.vfs_data_used p ≡ false)
unfolding free_slot
free_slot-some zero v i p h = absurd (ground arith)
free_slot-some (suc k) v i p h = elim (Bool-cases (v.vfs_data_used i)) [
  | inl e ↦
      let (lo, hi, free) = free_slot-some k v (i + 1) p (ground arith) in
      (omega arith, omega arith, free)
  | inr e ↦ let same : i ≡ p = ground arith in (omega arith, omega arith, rw (← same) e)
]

free_slot-none :
    (k : ℕ) (v : Vfs) (i p : ℕ)
    → free_slot k v i ≡ none
    → i ≤ p
    → p < i + k
    → v.vfs_data_used p ≡ true
unfolding free_slot
free_slot-none zero v i p h lo hi = absurd (omega arith)
free_slot-none (suc k) v i p h lo hi = elim (Bool-cases (v.vfs_data_used i)) [
  | inl e ↦ elim (Bool-cases (i == p)) [
    | inl s ↦ let same : i ≡ p = ground arith in rw (← same) e
    | inr d ↦ free_slot-none k v (i + 1) p (ground arith) (ground arith) (omega arith)
  ]
  | inr e ↦ absurd (ground arith)
]

-- The slot `i` was free, and now it is in use and its bytes are 0; the other slots, the other buffers
-- and the nodes are as before.
pub record SlotTaken (v : Vfs) (i : ℕ) (v' : Vfs) : Type 0 where
  pub in_range : i < vfs_data_slots
  pub was_free : v.vfs_data_used i ≡ false
  pub used : v'.vfs_data_used i ≡ true
  pub cleared : (j : ℕ) → j < vfs_data_slot_size → v'.buffers i j ≡ 0
  pub other_slots : (k : ℕ) → k ≢ i → v'.vfs_data_used k ≡ v.vfs_data_used k
  pub other_buffers : (k j : ℕ) → k ≢ i → v'.buffers k j ≡ v.buffers k j
  pub same_nodes : v'.nodes ≡ v.nodes

alloc_none : (v : Vfs) → free_slot vfs_data_slots v 0 ≡ none → vfs_alloc_file_data v ≡ (none, v)
unfolding vfs_alloc_file_data
alloc_none v e = ground (arith, e)

-- The state after the slot `i` is taken.
abbrev taken : Vfs → ℕ → Vfs
taken v i = record v {
  vfs_data_used = update v.vfs_data_used i true;
  buffers = update v.buffers i (filled (v.buffers i) 0 vfs_data_slot_size (λ _. 0));
}

alloc_some :
    (v : Vfs) (i : ℕ)
    → free_slot vfs_data_slots v 0 ≡ some i
    → vfs_alloc_file_data v ≡ (some i, taken v i)
unfolding vfs_alloc_file_data
alloc_some v i e = ground (arith, e)

-- `vfs_alloc_file_data` either takes a free slot, clears it and changes no other, or fails without a
-- change because every slot is in use.
pub vfs_alloc_file_data-SlotTaken :
    (v : Vfs)
    → ((i : ℕ) × ((vfs_alloc_file_data v).0 ≡ some i) × SlotTaken v i (vfs_alloc_file_data v).1)
      ⊎ (((vfs_alloc_file_data v).0 ≡ none)
          × ((vfs_alloc_file_data v).1 ≡ v)
          × ((i : ℕ) → i < vfs_data_slots → v.vfs_data_used i ≡ true))
vfs_alloc_file_data-SlotTaken v = elim (Option-cases (free_slot vfs_data_slots v 0)) [
  | inl e ↦
      let value = alloc_none v e in
      inr (
        rw value refl,
        rw value refl,
        λ i lt. free_slot-none vfs_data_slots v 0 i e (omega arith) (omega arith),
      )
  | inr (i, e) ↦
      let value = alloc_some v i e in
      let (lo, hi, free) = free_slot-some vfs_data_slots v 0 i e in
      let done : SlotTaken v i (taken v i) = record {
        in_range = omega arith;
        was_free = free;
        used = ground arith;
        cleared = λ j lt. ground arith;
        other_slots = λ k ne. ground arith;
        other_buffers = λ k j ne. ground arith;
        same_nodes = refl;
      } in
      inl (i, ap (λ (r : Option ℕ × Vfs). r.0) value, rw value done)
]
