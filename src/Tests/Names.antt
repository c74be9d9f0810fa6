-- ===== src/Tests/Names.antt =====
-- The theorem on random names at a concrete random number.
use mathlib.Core.List.{reverse}
use vmware_go_kcl_v2_test.Prelude.{ℕ, ◌≡◌, some, List, [], ◌∷◌, length, arith}
use vmware_go_kcl_v2_test.Utils.Random.{rand_string_bytes_mask_impr}
use vmware_go_kcl_v2_test.Utils.Random.Letters.{
  take, letters, letters_in, digits, AllLetters, rand_string_bytes_mask_impr_lem,
}

-- In base 64 its lowest digits are 2, 60, 27 and then zeroes.
abbrev words : List ℕ
words = 114434 ∷ []

rand_string_bytes_mask_impr_example :
    (out : List ℕ) × (rand_string_bytes_mask_impr 3 words ≡ some out)
    × (out ≡ reverse (take 3 (letters_in words)))
    × (length out ≡ 3)
    × AllLetters out
unfolding letters_in letters digits
rand_string_bytes_mask_impr_example =
    rand_string_bytes_mask_impr_lem 3 words (omega arith) (omega arith)
