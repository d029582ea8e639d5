-- ===== src/Vfs/Sorted.antt =====
-- src/kernel/vfs.c: the sort of `vfs_list_dir` keeps the items and puts the names in order.
use yabro_os.Base.{
  ℕ, ◌+◌, ◌≡◌, refl, inl, inr, Bool, true, false, ◌&&◌, not, List, [], ◌∷◌, ◌==◌, if◌then◌else◌,
  arith, Bool-cases,
}
use yabro_os.Vfs.Listing.{vfs_name_cmp, is_above, cmp_above, insert_item, sort_items}

-- No two neighbours are in the wrong order, the last item first.
unfoldable pub is_falling : (ℕ → List ℕ) → List ℕ → Bool
is_falling name [] = true
is_falling name (x ∷ []) = true
is_falling name (x ∷ y ∷ ys) = not (cmp_above name y x) && is_falling name (y ∷ ys)

-- How often the item is in the list.
unfoldable pub count : ℕ → List ℕ → ℕ
count z [] = 0
count z (x ∷ xs) = (if x == z then 1 else 0) + count z xs

name_cmp_flip :
    (xs ys : List ℕ) → is_above (vfs_name_cmp xs ys) ≡ true → is_above (vfs_name_cmp ys xs) ≡ false
unfolding vfs_name_cmp is_above
name_cmp_flip [] [] h = refl
name_cmp_flip [] (y ∷ ys) h = absurd (ground arith)
name_cmp_flip (x ∷ xs) [] h = refl
name_cmp_flip (x ∷ xs) (y ∷ ys) h = ground (arith, name_cmp_flip xs ys)

-- An item before a falling list, if it does not come before the first one in the order.
falling_cons :
    (name : ℕ → List ℕ) (x y : ℕ) (ys : List ℕ)
    → cmp_above name y x ≡ false
    → is_falling name (y ∷ ys) ≡ true
    → is_falling name (x ∷ y ∷ ys) ≡ true
unfolding is_falling
falling_cons name x y ys a f = rw (a, f) refl

insert_falling :
    (name : ℕ → List ℕ) (v : ℕ) (xs : List ℕ)
    → is_falling name xs ≡ true
    → is_falling name (insert_item name v xs) ≡ true
unfolding is_falling insert_item
insert_falling name v [] f = refl
insert_falling name v (x ∷ []) f = elim (Bool-cases (cmp_above name x v)) [
  | inl e ↦ let flip = name_cmp_flip (name x) (name v) e in rw (e, flip) refl
  | inr e ↦ rw (e, e) refl
]
insert_falling name v (x ∷ y ∷ ys) f =
    let tail : is_falling name (y ∷ ys) ≡ true = ground arith in
    let head : cmp_above name y x ≡ false = ground arith in
    let rest = insert_falling name v (y ∷ ys) tail in
    elim (Bool-cases (cmp_above name x v)) [
      | inl e ↦
          let flip = name_cmp_flip (name x) (name v) e in
          elim (Bool-cases (cmp_above name y v)) [
            | inl g ↦ ground (arith, rest, head, e, g)
            | inr g ↦ ground (arith, rest, flip, e, g)
          ]
      | inr e ↦ ground (arith, e)
    ]

count-insert_item :
    (name : ℕ → List ℕ) (z v : ℕ) (xs : List ℕ) → count z (insert_item name v xs) ≡ count z (v ∷ xs)
unfolding count insert_item
count-insert_item name z v [] = refl
count-insert_item name z v (x ∷ xs) =
    let rest = count-insert_item name z v xs in
    elim (Bool-cases (cmp_above name x v)) [
      | inl e ↦ rw e (omega (arith, rest))
      | inr e ↦ rw e refl
    ]

sort_falling :
    (name : ℕ → List ℕ) (sorted vs : List ℕ)
    → is_falling name sorted ≡ true
    → is_falling name (sort_items name sorted vs) ≡ true
unfolding sort_items
sort_falling name sorted [] f = f
sort_falling name sorted (v ∷ vs) f =
    sort_falling name (insert_item name v sorted) vs (insert_falling name v sorted f)

count-sort_items :
    (name : ℕ → List ℕ) (z : ℕ) (sorted vs : List ℕ)
    → count z (sort_items name sorted vs) ≡ count z sorted + count z vs
unfolding sort_items count
count-sort_items name z sorted [] = omega arith
count-sort_items name z sorted (v ∷ vs) =
    let rest = count-sort_items name z (insert_item name v sorted) vs in
    omega (arith, rest, count-insert_item name z v sorted)

-- The sort of the listing has every item as often as it was given, and no two neighbours whose names
-- are in the wrong order, the last item first.
pub sort_items_lem :
    (name : ℕ → List ℕ) (vs : List ℕ)
    → (is_falling name (sort_items name [] vs) ≡ true)
      × ((z : ℕ) → count z (sort_items name [] vs) ≡ count z vs)
unfolding is_falling count
sort_items_lem name vs =
    (sort_falling name [] vs refl, λ z. omega (arith, count-sort_items name z [] vs))
