-- ===== src/Kernel/Paths.antt =====
-- src/kernel/main.c: absolute paths without empty parts, "." and "..".
pub mod Parts
pub mod Normal
pub mod Tests
use yabro_os.Base.{
  ℕ, zero, suc, ◌+◌, Bool, true, false, ◌&&◌, ◌||◌, not, Option, none, some, List, [], ◌∷◌, ◌++◌,
  ltb, leb, ◌==◌, if◌then◌else◌, length, Code, ok, err,
}
use yabro_os.Vfs.Node.{vfs_name_max}
use yabro_os.Vfs.Path.{slash, dot, eq_name, drop_slashes}

-- The rows of `parts`.
abbrev pub max_depth : ℕ
max_depth = 32

-- The bytes up to a slash, of which `n` are read, and those after them; `none` for too long a part.
unfoldable pub read_part : List ℕ → ℕ → Option (List ℕ × List ℕ)
read_part [] n = some ([], [])
read_part (c ∷ cs) n =
    let more = read_part cs (n + 1) in
    if c == slash
    then some ([], c ∷ cs)
    else if leb vfs_name_max n
    then none
    else elim more [ none ↦ none | some (part, rest) ↦ some (c ∷ part, rest) ]

-- `!n || (n==1 && part[0]=='.')`
abbrev pub is_current : List ℕ → Bool
is_current part = eq_name part [] || eq_name part (dot ∷ [])

abbrev pub is_parent : List ℕ → Bool
is_parent part = eq_name part (dot ∷ dot ∷ [])

-- `if(depth) depth--`
unfoldable pub drop_last : List (List ℕ) → List (List ℕ)
drop_last [] = []
drop_last (p ∷ []) = []
drop_last (p ∷ q ∷ ps) = p ∷ drop_last (q ∷ ps)

-- The parts after one more, or `none` when there are too many.
unfoldable pub next_parts : List ℕ → List (List ℕ) → Option (List (List ℕ))
next_parts part parts =
    if is_current part
    then some parts
    else (if is_parent part
        then some (drop_last parts)
        else if leb max_depth (length parts)
        then none
        else some (parts ++ part ∷ []))

-- The `while` on the bytes, with the rounds left; `none` means that they are used up.
unfoldable pub parts_loop : ℕ → List ℕ → List (List ℕ) → Option (Code × List (List ℕ))
parts_loop zero path parts = none
parts_loop (suc k) path parts =
    let bytes = drop_slashes path in
    if eq_name bytes [] then some (ok, parts) else elim (read_part bytes 0) [
      | none ↦ some (err 36, parts)
      | some (part, rest) ↦ elim (next_parts part parts) [
        | none ↦ some (err 36, parts)
        | some parts' ↦ parts_loop k rest parts'
      ]
    ]

-- The loop that writes `out`, whose bytes so far are given.
unfoldable pub put_parts : ℕ → List (List ℕ) → List ℕ → Code × List ℕ
put_parts cap [] out = (ok, out)
put_parts cap (p ∷ ps) out =
    let start = if ltb 1 (length out) then out ++ slash ∷ [] else out in
    let rest = put_parts cap ps (start ++ p) in
    if ltb 1 (length out) && leb cap (length out + 1)
    then (err 36, out)
    else if leb cap (length start + length p)
    then (err 36, start)
    else rest

-- From `size_t pos=0` on, after the loop.
abbrev pub put_result : ℕ → Option (Code × List (List ℕ)) → Option (Code × List ℕ)
put_result cap none = none
put_result cap (some (ok, parts)) = some (put_parts cap parts (slash ∷ []))
put_result cap (some (err n, parts)) = some (err n, [])

-- A round takes a byte at least.
unfoldable pub normalize_from : ℕ → List ℕ → Option (Code × List ℕ)
normalize_from cap path = put_result cap (parts_loop (length path + 1) path [])

-- The code and the bytes of `out`.
unfoldable pub normalize_abs_path : List ℕ → ℕ → Option (Code × List ℕ)
normalize_abs_path [] cap = some (err 22, [])
normalize_abs_path (c ∷ path) cap =
    if ltb cap 2 || not (c == slash) then some (err 22, []) else normalize_from cap path
