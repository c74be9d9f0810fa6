-- ===== src/Utils/Random.antt =====
-- clientlibrary/utils/random.go: RandStringBytesMaskImpr, over the random numbers that its calls of
-- rand.Int return. A byte is a number.
pub mod Letters
use Prim.Native.Char.{code}
use mathlib.Core.List.{reverse, reverse_aux}
use vmware_go_kcl_v2_test.Prelude.{
  ℕ, zero, suc, ◌/◌, ◌%◌, ◌≤◌, ◌<◌, ◌≡◌, refl, ◌∙◌, String, Bool, true, false, ◌&&◌, ◌||◌, Option,
  none, some, List, [], ◌∷◌, ◌++◌, length, get_elem?, All, arith, ltb, leb, Bool-cases, inl, inr,
  if◌then◌else◌,
}

abbrev pub letter_bytes : String
letter_bytes = "abcdefghijklmnopqrstuvwxyzABCDEFGHIJKLMNOPQRSTUVWXYZ"

-- The bytes of a text.
abbrev pub codes : String → List ℕ
codes String.[] = []
codes (String.◌∷◌ c s) = code c ∷ codes s

-- letterIdxMask + 1, and letterIdxMax.
abbrev pub letter_idx_values : ℕ
letter_idx_values = 64

abbrev pub letter_idx_max : ℕ
letter_idx_max = 10

-- letterBytes[idx], for an index in range.
unfoldable pub letter : ℕ → ℕ
letter idx = elim (get_elem? (codes letter_bytes) idx) [ none ↦ 0 | some c ↦ c ]

-- The loop: the random numbers to come, the letter indices that are left in the cache, the bytes
-- that are still to be set, the cache, and the bytes set so far, which are the last ones. `none` stands
-- for a loop that waits for a further random number.
unfoldable pub fill : List ℕ → ℕ → ℕ → ℕ → List ℕ → Option (List ℕ)
fill words remain zero cache b = some b
fill [] zero (suc i) cache b = none
fill (rnd ∷ words) zero (suc i) cache b =
    let idx = rnd % letter_idx_values in
    let found = ltb idx (length (codes letter_bytes)) in
    fill words 9 (if found then i else suc i) (rnd / letter_idx_values)
      (if found then letter idx ∷ b else b)
fill words (suc remain) (suc i) cache b =
    let idx = cache % letter_idx_values in
    let found = ltb idx (length (codes letter_bytes)) in
    fill words remain (if found then i else suc i) (cache / letter_idx_values)
      (if found then letter idx ∷ b else b)

unfoldable pub rand_string_bytes_mask_impr : ℕ → List ℕ → Option (List ℕ)
unfolding fill
rand_string_bytes_mask_impr n [] = none
rand_string_bytes_mask_impr n (rnd ∷ words) = fill words letter_idx_max n rnd []
