-- ===== src/Utils/Random/Letters.antt =====
-- clientlibrary/utils/random.go: the string against the digits of the random numbers.
use mathlib.Core.List.{reverse, reverse_aux}
use vmware_go_kcl_v2_test.Prelude.{
  ℕ, zero, suc, ◌+◌, ◌/◌, ◌%◌, ◌≤◌, ◌<◌, ◌≡◌, refl, sym, ◌∙◌, Bool, true, false, ◌&&◌, ◌||◌, Option,
  none, some, List, [], ◌∷◌, ◌++◌, length, get_elem?, All, arith, ltb, leb, ltb→lt, Bool-cases, inl,
  inr, if◌then◌else◌,
}
use vmware_go_kcl_v2_test.Utils.Random.{
  letter_bytes, codes, letter, fill, rand_string_bytes_mask_impr,
}

-- The reference: the lowest digits of a number in base 64, and the letters that they stand for.
unfoldable pub digits : ℕ → ℕ → List ℕ
digits zero rnd = []
digits (suc n) rnd = rnd % 64 ∷ digits n (rnd / 64)

unfoldable pub letters : List ℕ → List ℕ
letters [] = []
letters (d ∷ ds) = if ltb d 52 then letter d ∷ letters ds else letters ds

-- The letters in the ten lowest digits of each of the random numbers.
unfoldable pub letters_in : List ℕ → List ℕ
unfolding digits letters
letters_in [] = []
letters_in (rnd ∷ words) = letters (digits 10 rnd) ++ letters_in words

-- Letters put before `b`, one after the other.
abbrev set_bytes : ℕ → List ℕ → List ℕ → Option (List ℕ)
set_bytes zero ls b = some b
set_bytes (suc i) [] b = none
set_bytes (suc i) (l ∷ ls) b = set_bytes i ls (l ∷ b)

set_bytes-step :
    (d i : ℕ) (ls more b : List ℕ) (found : Bool)
    → set_bytes (suc i) ((if found then letter d ∷ ls else ls) ++ more) b
      ≡ set_bytes (if found then i else suc i) (ls ++ more) (if found then letter d ∷ b else b)
set_bytes-step d i ls more b true = refl
set_bytes-step d i ls more b false = refl

fill-set_bytes :
    (words : List ℕ) (remain i cache : ℕ) (b : List ℕ)
    → fill words remain i cache b
      ≡ set_bytes i (letters (digits remain cache) ++ letters_in words) b
unfolding fill digits letters letters_in
fill-set_bytes words remain zero cache b = refl
fill-set_bytes [] zero (suc i) cache b = refl
fill-set_bytes (rnd ∷ words) zero (suc i) cache b =
    let d = rnd % 64 in
    let found = ltb d 52 in
    fill-set_bytes words 9 (if found then i else suc i) (rnd / 64)
      (if found then letter d ∷ b else b)
    ∙ sym (set_bytes-step d i (letters (digits 9 (rnd / 64))) (letters_in words) b found)
fill-set_bytes words (suc remain) (suc i) cache b =
    let d = cache % 64 in
    let found = ltb d 52 in
    fill-set_bytes words remain (if found then i else suc i) (cache / 64)
      (if found then letter d ∷ b else b)
    ∙ sym (set_bytes-step d i (letters (digits remain (cache / 64))) (letters_in words) b found)

-- The first letters of a list.
abbrev pub take : ℕ → List ℕ → List ℕ
take zero ls = []
take (suc n) [] = []
take (suc n) (l ∷ ls) = l ∷ take n ls

set_bytes-reverse :
    (n : ℕ) (ls b : List ℕ) → n ≤ length ls → set_bytes n ls b ≡ some (reverse_aux (take n ls) b)
set_bytes-reverse zero ls b h = refl
set_bytes-reverse (suc n) [] b h = absurd (omega arith)
set_bytes-reverse (suc n) (l ∷ ls) b h = set_bytes-reverse n ls (l ∷ b) (omega arith)

length-reversed :
    (n : ℕ) (ls b : List ℕ) → n ≤ length ls → length (reverse_aux (take n ls) b) ≡ n + length b
length-reversed zero ls b h = omega arith
length-reversed (suc n) [] b h = absurd (omega arith)
length-reversed (suc n) (l ∷ ls) b h = omega (arith, length-reversed n ls (l ∷ b))

abbrev pub is_letter : ℕ → Bool
is_letter c = leb b'a' c && leb c b'z' || leb b'A' c && leb c b'Z'

abbrev all_letters : List ℕ → Bool
all_letters [] = true
all_letters (c ∷ cs) = is_letter c && all_letters cs

only_letters : all_letters (codes letter_bytes) ≡ true
only_letters = refl

letter_at : List ℕ → ℕ → ℕ
letter_at cs i = elim (get_elem? cs i) [ none ↦ 0 | some c ↦ c ]

both : (a b : Bool) → (a && b) ≡ true → (a ≡ true) × (b ≡ true)
both true b h = (refl, h)
both false b h = absurd (cc)

letter_at-is_letter :
    (cs : List ℕ) (i : ℕ)
    → all_letters cs ≡ true
    → i < length cs
    → is_letter (letter_at cs i) ≡ true
unfolding letter_at
letter_at-is_letter [] i h b = absurd (omega arith)
letter_at-is_letter (c ∷ cs) zero h b = (both (is_letter c) (all_letters cs) h).0
letter_at-is_letter (c ∷ cs) (suc i) h b =
    letter_at-is_letter cs i (both (is_letter c) (all_letters cs) h).1 (omega arith)

letter-is_letter : (d : ℕ) → ltb d 52 ≡ true → is_letter (letter d) ≡ true
unfolding letter letter_at
letter-is_letter d h = letter_at-is_letter (codes letter_bytes) d only_letters (ltb→lt d 52 h)

abbrev pub AllLetters : List ℕ → Type 0
AllLetters = All (λ c. is_letter c ≡ true)

letters-AllLetters : (ds : List ℕ) → AllLetters (letters ds)
unfolding letters
letters-AllLetters [] = tt
letters-AllLetters (d ∷ ds) = elim (Bool-cases (ltb d 52)) [
  | inl found ↦ rw found (letter-is_letter d found, letters-AllLetters ds)
  | inr skipped ↦ rw skipped (letters-AllLetters ds)
]

append-AllLetters : (xs ys : List ℕ) → AllLetters xs → AllLetters ys → AllLetters (xs ++ ys)
append-AllLetters [] ys h k = k
append-AllLetters (x ∷ xs) ys h k = (h.0, append-AllLetters xs ys h.1 k)

letters_in-AllLetters : (words : List ℕ) → AllLetters (letters_in words)
unfolding letters_in
letters_in-AllLetters [] = tt
letters_in-AllLetters (rnd ∷ words) =
    append-AllLetters (letters (digits 10 rnd)) (letters_in words)
      (letters-AllLetters (digits 10 rnd)) (letters_in-AllLetters words)

reversed-AllLetters :
    (n : ℕ) (ls b : List ℕ) → AllLetters ls → AllLetters b → AllLetters (reverse_aux (take n ls) b)
reversed-AllLetters zero ls b h k = k
reversed-AllLetters (suc n) [] b h k = k
reversed-AllLetters (suc n) (l ∷ ls) b h k = reversed-AllLetters n ls (l ∷ b) h.1 (h.0, k)

-- Once the random numbers hold enough letters, the string is made of the first ones, in the
-- reverse order: it has the length that was asked for, and only letters. A random number gives the
-- letters of its ten lowest digits in base 64 that are below 52, the lowest first.
pub rand_string_bytes_mask_impr_lem :
    (n : ℕ) (words : List ℕ)
    → 0 < length words
    → n ≤ length (letters_in words)
    → (out : List ℕ) × (rand_string_bytes_mask_impr n words ≡ some out)
      × (out ≡ reverse (take n (letters_in words)))
      × (length out ≡ n)
      × AllLetters out
unfolding rand_string_bytes_mask_impr
rand_string_bytes_mask_impr_lem n [] h enough = absurd (omega arith)
rand_string_bytes_mask_impr_lem n (rnd ∷ words) h enough =
    let all = letters_in (rnd ∷ words) in
    let filled : fill words 10 n rnd [] ≡ set_bytes n all [] =
      unfold letters_in in fill-set_bytes words 10 n rnd [] in
    (
      reverse (take n all),
      filled ∙ set_bytes-reverse n all [] enough,
      refl,
      omega (arith, length-reversed n all [] enough),
      reversed-AllLetters n all [] (letters_in-AllLetters (rnd ∷ words)) tt,
    )
