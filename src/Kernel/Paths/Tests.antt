-- ===== src/Kernel/Paths/Tests.antt =====
-- The path "/a/./b/../c" and the theorem about it.
use yabro_os.Base.{ℕ, ◌<◌, ◌≡◌, refl, some, List, [], ◌∷◌, length, Code, ok}
use yabro_os.Kernel.Paths.{
  normalize_abs_path, normalize_from, parts_loop, read_part, next_parts, drop_last, put_parts,
}
use yabro_os.Vfs.Path.{drop_slashes, eq_name}
use yabro_os.Kernel.Paths.Parts.{Normal}
use yabro_os.Kernel.Paths.Normal.{path_text, normalize_abs_path-Normalized}

abbrev dotted : List ℕ
dotted = 47 ∷ 97 ∷ 47 ∷ 46 ∷ 47 ∷ 98 ∷ 47 ∷ 46 ∷ 46 ∷ 47 ∷ 99 ∷ []

normalize_abs_path-Normalized_example :
    (c : Code) × (out : List ℕ) × (normalize_abs_path dotted 128 ≡ some (c, out))
    × (c ≡ ok
        → (ps : List (List ℕ)) × Normal ps
          × (out ≡ path_text ps)
          × (length out < 128)
          × (normalize_abs_path out 128 ≡ some (ok, out)))
normalize_abs_path-Normalized_example = normalize_abs_path-Normalized dotted 128

dotted_result : normalize_abs_path dotted 128 ≡ some (ok, 47 ∷ 97 ∷ 47 ∷ 99 ∷ [])
unfolding normalize_abs_path normalize_from parts_loop drop_slashes read_part next_parts drop_last
    eq_name put_parts
dotted_result = refl
