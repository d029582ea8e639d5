-- ===== src/Vfs/Listing.antt =====
-- src/kernel/vfs.c: `vfs_list_dir`.
use yabro_os.Base.{
  ℕ, Bool, true, false, ◌&&◌, ◌||◌, not, none, some, List, [], ◌∷◌, ltb, leb, ◌==◌, if◌then◌else◌,
  length, reverse,
}
use yabro_os.Vfs.Node.{Vfs, vfs_node_dir, vfs_node_symlink}
use yabro_os.Vfs.Path.{ascii_lower, children_of, drop_slashes, slash, vfs_lookup, vfs_path_max}
use yabro_os.Vfs.Text.{Out, proc_putc, put_all}

-- The results -1, 0 and 1 of `vfs_name_cmp`.
pub data Sign : Type 0 where
  below same above : Sign

unfoldable pub vfs_name_cmp : List ℕ → List ℕ → Sign
vfs_name_cmp [] [] = same
vfs_name_cmp [] (y ∷ ys) = below
vfs_name_cmp (x ∷ xs) [] = above
vfs_name_cmp (x ∷ xs) (y ∷ ys) =
    let rest = vfs_name_cmp xs ys in
    if ascii_lower x == ascii_lower y
    then rest
    else if ltb (ascii_lower x) (ascii_lower y)
    then below
    else above

unfoldable pub is_above : Sign → Bool
is_above above = true
is_above below = false
is_above same = false

abbrev pub cmp_above : (ℕ → List ℕ) → ℕ → ℕ → Bool
cmp_above name x y = is_above (vfs_name_cmp (name x) (name y))

-- `v` goes into the sorted items, whose last comes first here.
unfoldable pub insert_item : (ℕ → List ℕ) → ℕ → List ℕ → List ℕ
insert_item name v [] = v ∷ []
insert_item name v (x ∷ xs) =
    let rest = insert_item name v xs in if cmp_above name x v then x ∷ rest else v ∷ x ∷ xs

-- The rounds of the sort; `sorted` are the items sorted so far, the last first.
unfoldable pub sort_items : (ℕ → List ℕ) → List ℕ → List ℕ → List ℕ
sort_items name sorted [] = sorted
sort_items name sorted (v ∷ vs) = sort_items name (insert_item name v sorted) vs

-- The children with a name.
unfoldable pub named : Vfs → List ℕ → List ℕ
named v [] = []
named v (x ∷ xs) = let rest = named v xs in if length (v.nodes x).name == 0 then rest else x ∷ rest

unfoldable pub list_items : Vfs → ℕ → List ℕ
list_items v d = reverse (sort_items (λ x. (v.nodes x).name) [] (named v (children_of v d)))

-- One line: the name, a mark for the kind, and the end of the line.
unfoldable pub put_item : ℕ → Vfs → ℕ → Out → Out
put_item limit v x o =
    let named' = put_all limit (v.nodes x).name o in
    let marked =
      if (v.nodes x).type == vfs_node_dir
      then proc_putc limit 47 named'
      else if (v.nodes x).type == vfs_node_symlink
      then proc_putc limit 64 named'
      else named' in
    proc_putc limit 10 marked

unfoldable pub put_items : ℕ → Vfs → List ℕ → Out → Out
put_items limit v [] o = o
put_items limit v (x ∷ xs) o = put_items limit v xs (put_item limit v x o)

-- The path without slashes at its end, but for the first.
abbrev pub trimmed : List ℕ → List ℕ
trimmed [] = []
trimmed (c ∷ cs) = c ∷ reverse (drop_slashes (reverse cs))

-- Trailing slashes go, then the path is looked up; the result is the text and its length.
unfoldable pub vfs_list_dir : List ℕ → ℕ → Vfs → (ℕ → ℕ) → Out × Vfs
vfs_list_dir [] limit v out =
    (record { buf = λ j. if j == 0 && not (limit == 0) then 0 else out j; pos = 0 }, v)
vfs_list_dir (c ∷ cs) limit v out =
    let start : Out = record { buf = λ j. if j == 0 then 0 else out j; pos = 0 } in
    let (found, w) = vfs_lookup (trimmed (c ∷ cs)) v in
    if limit == 0
    then (record { buf = out; pos = 0 }, v)
    else if not (c == slash) || leb vfs_path_max (length (c ∷ cs))
    then (start, v)
    else elim found [
      | none ↦ (start, w)
      | some d ↦
          if (w.nodes d).type == vfs_node_dir
          then (put_items limit w (list_items w d) start, w)
          else (start, w)
    ]
