-- ===== src/Utils/HashText.antt =====
-- The text that `tasutil_hash32_to_str` makes of a hash (src/tas_client/tas_utils.cpp).
use tas_client_api.Prelude.{
  ℕ, zero, suc, ◌+◌, ◌-◌, ◌*◌, ◌/◌, ◌%◌, ◌^◌, ◌<◌, ◌≤◌, ◌≡◌, refl, Bool, true, ◌&&◌, ◌||◌, List, [],
  ◌∷◌, arith, leb, ◌==◌, if◌then◌else◌, length, get_or, ℕ_discrete, subst, ==_iff, All,
}
use tas_client_api.Utils.Hash.{ascii_map, ascii, hash32_to_str}

-- Where a character stands in a list.
position_in : List ℕ → ℕ → ℕ
position_in [] c = 0
position_in (x ∷ xs) c = if x == c then 0 else position_in xs c + 1

-- The value of a character.
unfoldable pub position : ℕ → ℕ
unfolding position_in
position c = position_in ascii_map c

-- The number whose digits to the base 32 are the characters, the first one in front.
abbrev pub decode : ℕ → List ℕ → ℕ
decode acc [] = acc
decode acc (c ∷ cs) = decode (acc * 32 + position c) cs

-- A capital letter.
abbrev pub is_letter : ℕ → Bool
is_letter c = leb 65 c && leb c 90

abbrev pub is_digit : ℕ → Bool
is_digit c = leb 48 c && leb c 57

-- Does a test succeed at the `left` numbers from `first` on?
tests_from : ℕ → ℕ → (ℕ → Bool) → Bool
tests_from first zero test = true
tests_from first (suc left) test = test first && tests_from (first + 1) left test

tested :
    (first left : ℕ) (test : ℕ → Bool) (i : ℕ)
    → tests_from first left test ≡ true
    → first ≤ i
    → i < first + left
    → test i ≡ true
unfolding tests_from
tested first zero test i ok low high = absurd (omega arith)
tested first (suc left) test i ok low high = elim (ℕ_discrete first i) [
  | yes e ↦ subst (λ k. test k ≡ true) e (ground arith)
  | no ne ↦ tested (first + 1) left test i (ground arith) (omega arith) (omega arith)
]

positions : tests_from 0 32 (λ i. position (ascii i) == i) ≡ true
unfolding tests_from position
positions = refl

position-ascii : (i : ℕ) → i < 32 → position (ascii i) ≡ i
position-ascii i h =
    (==_iff _ i).0
      (tested 0 32 (λ i. position (ascii i) == i) i positions (omega arith) (omega arith))

letters : tests_from 0 22 (λ i. is_letter (ascii i)) ≡ true
unfolding tests_from
letters = refl

symbols : tests_from 0 32 (λ i. is_letter (ascii i) || is_digit (ascii i)) ≡ true
unfolding tests_from
symbols = refl

letter : (i : ℕ) → i < 22 → is_letter (ascii i) ≡ true
letter i h = tested 0 22 (λ i. is_letter (ascii i)) i letters (omega arith) (omega arith)

abbrev pub IsSymbol : ℕ → Type 0
IsSymbol c = (is_letter c || is_digit c) ≡ true

symbol : (i : ℕ) → i < 32 → IsSymbol (ascii i)
symbol i h =
    tested 0 32 (λ i. is_letter (ascii i) || is_digit (ascii i)) i symbols (omega arith)
      (omega arith)

-- What the text is, and what can be told of the hash from it.
pub record IsText (hash : ℕ) (str : List ℕ) : Type 0 where
  pub length : length str ≡ 6
  pub first : is_letter (get_or str 0 0) ≡ true
  pub each : All IsSymbol str
  pub decoded : decode 0 str ≡ hash / 2 ^ 25 % 22 * 2 ^ 25 + hash % 2 ^ 25

-- The digits to the base 32 of a number, the leading one last, make it up.
digits_32 :
    (h : ℕ)
    → ((((h / 32 / 32 / 32 / 32 / 32 % 22 * 32 + h / 32 / 32 / 32 / 32 % 32) * 32
                    + h / 32 / 32 / 32 % 32)
                  * 32
                + h / 32 / 32 % 32)
              * 32
            + h / 32 % 32)
          * 32
        + h % 32
      ≡ h / 2 ^ 25 % 22 * 2 ^ 25 + h % 2 ^ 25
digits_32 h = omega arith

-- The text has six characters, letters and digits, and begins with a letter. Read as a number to the
-- base 32, it gives the lower 25 bits of the hash, and above them the remainder of the upper bits by 22.
pub hash32_to_str-IsText : (hash : ℕ) → IsText hash (hash32_to_str hash)
unfolding hash32_to_str
hash32_to_str-IsText hash = record {
  length = refl;
  first = letter (hash / 32 / 32 / 32 / 32 / 32 % (32 - 10)) (omega arith);
  each = (
    symbol (hash / 32 / 32 / 32 / 32 / 32 % (32 - 10)) (omega arith),
    (
      symbol (hash / 32 / 32 / 32 / 32 % 32) (omega arith),
      (
        symbol (hash / 32 / 32 / 32 % 32) (omega arith),
        (
          symbol (hash / 32 / 32 % 32) (omega arith),
          (symbol (hash / 32 % 32) (omega arith), (symbol (hash % 32) (omega arith), tt)),
        ),
      ),
    ),
  );
  decoded = omega (
    arith,
    digits_32 hash,
    position-ascii (hash / 32 / 32 / 32 / 32 / 32 % (32 - 10)) (omega arith),
    position-ascii (hash / 32 / 32 / 32 / 32 % 32) (omega arith),
    position-ascii (hash / 32 / 32 / 32 % 32) (omega arith),
    position-ascii (hash / 32 / 32 % 32) (omega arith),
    position-ascii (hash / 32 % 32) (omega arith),
    position-ascii (hash % 32) (omega arith),
  );
}
