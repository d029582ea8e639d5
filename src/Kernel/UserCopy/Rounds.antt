-- ===== src/Kernel/UserCopy/Rounds.antt =====
-- src/kernel/main.c: the copies never use up their rounds.
use yabro_os.Base.{
  ℕ, zero, suc, ◌+◌, ◌-◌, ◌%◌, ◌<◌, ◌≤◌, ◌≡◌, refl, ap, min, true, Option, none, some, List, [],
  ◌∷◌, ◌++◌, ◌==◌, if◌then◌else◌, length, take, drop, arith, Code, err, Bool-cases, inl, inr,
}
use yabro_os.Pmm.State.{page_size, page_of, pmm_phys_to_virt}
use yabro_os.Vmm.Machine.{Machine}
use yabro_os.Kernel.UserCopy.{
  read_bytes, write_bytes, readable_page, writable_page, copy_from_loop, copy_to_loop,
}

length-drop : {A : Type 0} (n : ℕ) (xs : List A) → length (drop n xs) ≡ length xs - n
length-drop zero xs = omega arith
length-drop (suc n) [] = omega arith
length-drop (suc n) (x ∷ xs) = omega (arith, length-drop n xs)

-- With a round for each byte, one round more makes no difference.
pub copy_from_loop-suc :
    (k : ℕ) (m : Machine) (cr3 src len : ℕ)
    → len ≤ k
    → copy_from_loop (suc k) m cr3 src len ≡ copy_from_loop k m cr3 src len
unfolding copy_from_loop
copy_from_loop-suc zero m cr3 src len le =
    let nothing : (len == 0) ≡ true = ground arith in rw nothing refl
copy_from_loop-suc (suc k) m cr3 src len le = elim (Bool-cases (len == 0)) [
  | inl e ↦ rw e refl
  | inr e ↦
      let n = min (page_size - src % page_size) len in
      let some_left : 0 < len = ground arith in
      let later = copy_from_loop-suc k m cr3 (src + n) (len - n) (omega arith) in
      ap
        (λ (rest : Option (List ℕ)).
          if len == 0
          then some []
          else elim (readable_page m cr3 (page_of src)) as (λ _. Option (List ℕ)) [
            | none ↦ none
            | some phys ↦ elim rest [
              | none ↦ none
              | some bytes ↦ some (read_bytes m.mem (phys + src % page_size) n ++ bytes)
            ]
          ])
        later
]

-- Equal rounds after this one make it equal.
same_round :
    (f g : ℕ → Code × Machine) (m1 : Machine)
    → ((phys : ℕ) → f phys ≡ g phys)
    → (page : Option ℕ)
    → (elim page as (λ _. Code × Machine) [
      | none ↦ (err 14, m1)
      | some phys ↦ elim (pmm_phys_to_virt m1.pmm phys) as (λ _. Code × Machine) [
        | none ↦ (err 14, m1)
        | some _ ↦ f phys
      ]
    ])
      ≡ (elim page as (λ _. Code × Machine) [
        | none ↦ (err 14, m1)
        | some phys ↦ elim (pmm_phys_to_virt m1.pmm phys) as (λ _. Code × Machine) [
          | none ↦ (err 14, m1)
          | some _ ↦ g phys
        ]
      ])
same_round f g m1 same none = refl
same_round f g m1 same (some phys) =
    ap
      (λ (r : Code × Machine). elim (pmm_phys_to_virt m1.pmm phys) as (λ _. Code × Machine) [
        | none ↦ (err 14, m1)
        | some _ ↦ r
      ])
      (same phys)

pub copy_to_loop-suc :
    (k cr3 dst : ℕ) (src : List ℕ) (m : Machine)
    → length src ≤ k
    → copy_to_loop (suc k) cr3 dst src m ≡ copy_to_loop k cr3 dst src m
unfolding copy_to_loop
copy_to_loop-suc zero cr3 dst [] m le = refl
copy_to_loop-suc zero cr3 dst (b ∷ bs) m le = absurd (omega arith)
copy_to_loop-suc (suc k) cr3 dst src m le = elim (Bool-cases (length src == 0)) [
  | inl e ↦ rw e refl
  | inr e ↦
      let off = dst % page_size in
      let n = min (page_size - off) (length src) in
      let m1 = (writable_page cr3 (page_of dst) m).1 in
      let some_left : 0 < length src = ground arith in
      let shorter : length (drop n src) ≤ k = omega (arith, length-drop n src) in
      let after = λ (phys : ℕ). record m1 { mem = write_bytes (phys + off) (take n src) m1.mem } in
      rw e (
        same_round (λ phys. copy_to_loop (suc k) cr3 (dst + n) (drop n src) (after phys))
          (λ phys. copy_to_loop k cr3 (dst + n) (drop n src) (after phys)) m1
          (λ phys. copy_to_loop-suc k cr3 (dst + n) (drop n src) (after phys) shorter)
          (writable_page cr3 (page_of dst) m).0)
]
