-- ===== src/Ctype/Ranges.antt =====
-- src/lctype.cpp: the table against the character ranges that the classes stand for.
use terra.Common.{
  ℕ, ◌<◌, ◌≡◌, refl, ◌∙◌, Bool, true, false, ◌&&◌, ◌||◌, arith, leb, ◌==◌, all_below, all_below-lt,
  if◌then◌else◌,
}
use terra.Ctype.{eoz, byte, lislalpha, lislalnum, lisdigit, lisspace, lisprint, lisxdigit}

abbrev pub within : ℕ → ℕ → ℕ → Bool
within lo hi c = leb lo c && leb c hi

abbrev pub is_letter : ℕ → Bool
is_letter c = within b'a' b'z' c || within b'A' b'Z' c || c == b'_'

abbrev pub is_digit : ℕ → Bool
is_digit c = within b'0' b'9' c

abbrev pub is_space : ℕ → Bool
is_space c = within 9 13 c || c == 32

abbrev pub is_hexa : ℕ → Bool
is_hexa c = within b'0' b'9' c || within b'a' b'f' c || within b'A' b'F' c

abbrev same : Bool → Bool → Bool
same a b = if a then b else (if b then false else true)

same-eq : (a b : Bool) → same a b ≡ true → a ≡ b
same-eq a b h = ground arith

and_parts : (a b : Bool) → (a && b) ≡ true → (a ≡ true) × (b ≡ true)
and_parts true b h = (refl, h)
and_parts false b h = cc

all_same :
    (a b c d e f g h i j k l : Bool)
    → (same a b && same c d && same e f && same g h && same i j && same k l) ≡ true
    → (a ≡ b) × (c ≡ d) × (e ≡ f) × (g ≡ h) × (i ≡ j) × (k ≡ l)
all_same a b c d e f g h i j k l p =
    let q1 = and_parts _ _ p in
    let q2 = and_parts _ _ q1.0 in
    let q3 = and_parts _ _ q2.0 in
    let q4 = and_parts _ _ q3.0 in
    let q5 = and_parts _ _ q4.0 in
    (
      same-eq a b q5.0,
      same-eq c d q5.1,
      same-eq e f q4.1,
      same-eq g h q3.1,
      same-eq i j q2.1,
      same-eq k l q1.1,
    )

-- the table row of `c` agrees with the ranges in each of the five classes that the lexer reads
abbrev row : ℕ → Bool
row c =
    same (lislalpha (byte c)) (is_letter c)
    && same (lislalnum (byte c)) (is_letter c || is_digit c)
    && same (lisdigit (byte c)) (is_digit c)
    && same (lisspace (byte c)) (is_space c)
    && same (lisprint (byte c)) (within 32 126 c)
    && same (lisxdigit (byte c)) (is_hexa c)

rows : all_below 256 row ≡ true
unfolding all_below lislalpha lislalnum lisdigit lisspace lisprint lisxdigit
rows = refl

row_at : (c : ℕ) → c < 256 → row c ≡ true
row_at c h = all_below-lt 256 row c rows h

-- Each class of the table, at every byte, is the set of characters that it is meant for, letters
-- and alphanumerics with the underscore.
pub lislalnum-ranges :
    (c : ℕ)
    → c < 256
    → (lislalpha (byte c) ≡ is_letter c)
      × (lislalnum (byte c) ≡ (is_letter c || is_digit c))
      × (lisdigit (byte c) ≡ is_digit c)
      × (lisspace (byte c) ≡ is_space c)
      × (lisprint (byte c) ≡ within 32 126 c)
      × (lisxdigit (byte c) ≡ is_hexa c)
lislalnum-ranges c h = all_same _ _ _ _ _ _ _ _ _ _ _ _ (row_at c h)

-- The end of the stream is in no class.
pub eoz_classless :
    (lislalpha eoz ≡ false)
    × (lislalnum eoz ≡ false)
    × (lisdigit eoz ≡ false)
    × (lisspace eoz ≡ false)
    × (lisprint eoz ≡ false)
    × (lisxdigit eoz ≡ false)
unfolding lislalpha lislalnum lisdigit lisspace lisprint lisxdigit
eoz_classless = (refl, refl, refl, refl, refl, refl)

-- The characters of a numeral's start in `llex` are the digits of the table.
pub digit-lisdigit : (c : ℕ) → (leb b'0' c && leb c b'9') ≡ true → lisdigit (byte c) ≡ true
digit-lisdigit c h = (lislalnum-ranges c (ground arith)).2 ∙ h
