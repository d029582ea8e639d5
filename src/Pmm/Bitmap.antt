-- ===== src/Pmm/Bitmap.antt =====
-- The laws of the two bitmaps of src/kernel/pmm.c, and what the setters leave alone.
use yabro_os.Base.{
  ℕ, ◌/◌, ◌%◌, ◌<◌, ◌≡◌, Bool, true, false, ltb, ◌==◌, if◌then◌else◌, has-set_flag, has-clear_flag,
  arith,
}
use yabro_os.Pmm.State.{
  Pmm, page_size, pmm_track_limit, map_test, map_set, map_clear, page_is_allocated,
  page_set_allocated, page_is_reserved_fast, page_set_reserved,
}

pub map_test-map_set :
    (map : ℕ → ℕ) (n k : ℕ) → map_test (map_set map n) k ≡ (if n == k then true else map_test map k)
unfolding map_test map_set
map_test-map_set map n k = ground (arith, has-set_flag (k % 64) (n % 64) (map (n / 64)))

pub map_test-map_clear :
    (map : ℕ → ℕ) (n k : ℕ)
    → map_test (map_clear map n) k ≡ (if n == k then false else map_test map k)
unfolding map_test map_clear
map_test-map_clear map n k = ground (arith, has-clear_flag (k % 64) (n % 64) (map (n / 64)))

-- Two addresses share a bit exactly if they lie in one page.
pub page_is_allocated-page_set_allocated :
    (s : Pmm) (p q : ℕ) (b : Bool)
    → p < pmm_track_limit
    → page_is_allocated (page_set_allocated p b s) q ≡ (
        if ltb q pmm_track_limit
        then if p / page_size == q / page_size then b else page_is_allocated s q
        else true)
unfolding page_is_allocated page_set_allocated
page_is_allocated-page_set_allocated s p q true h =
    ground (arith, map_test-map_set s.page_state (p / page_size) (q / page_size))
page_is_allocated-page_set_allocated s p q false h =
    ground (arith, map_test-map_clear s.page_state (p / page_size) (q / page_size))

pub page_is_reserved_fast-page_set_reserved :
    (s : Pmm) (p q : ℕ)
    → p < pmm_track_limit
    → page_is_reserved_fast (page_set_reserved p s) q
      ≡ (if p / page_size == q / page_size then true else page_is_reserved_fast s q)
unfolding page_is_reserved_fast page_set_reserved
page_is_reserved_fast-page_set_reserved s p q h =
    ground (arith, map_test-map_set s.reserved_state (p / page_size) (q / page_size))
