-- ===== src/Strings/Reserved.antt =====
-- src/lstring.cpp, src/llex.cpp: the interned strings know the reserved words.
use terra.Common.{
  ℕ, ◌+◌, ◌≡◌, refl, ap, sym, ◌∙◌, subst, Bool, true, false, Option, none, some, List, [], ◌∷◌,
  arith, ◌==◌, ◌&&◌, if◌then◌else◌, ==→eq, inl, inr, Bool-cases, ◌⊎◌,
}
use terra.Token.{reserved_words}
use terra.Strings.{
  TString, Tables, same_text, or_else, find_entry, gettable, rawset, intern, newlstr, init,
  pushtstringtable,
}

pub same_text-eq : (xs ys : List ℕ) → same_text xs ys ≡ true → xs ≡ ys
unfolding same_text
same_text-eq [] [] h = refl
same_text-eq [] (y ∷ ys) h = ground arith
same_text-eq (x ∷ xs) [] h = ground arith
same_text-eq (x ∷ xs) (y ∷ ys) h = elim (Bool-cases (x == y)) [
  | inl e ↦
      let rest : same_text xs ys ≡ true = rw e at h in
      let head = ==→eq x y e in rw head (ap (λ r. y ∷ r) (same_text-eq xs ys rest))
  | inr e ↦ ground arith
]

-- the place of a text in a list of words, from `i` on, and zero for a text that is not in it
abbrev pub code_from : ℕ → List (List ℕ) → List ℕ → ℕ
code_from i [] str = 0
code_from i (word ∷ words) str = if same_text word str then i else code_from (i + 1) words str

-- what `reserved` holds for a text
abbrev pub reserved_code : List ℕ → ℕ
reserved_code str = code_from 1 reserved_words str

-- an entry that a lookup of a text may find
abbrev pub Fits : List ℕ → Option TString → Type 0
Fits str none = reserved_code str ≡ 0
Fits str (some ts) = (ts.string ≡ str) × (ts.reserved ≡ reserved_code str)

-- Every lookup finds the text with its place among the reserved words, and only words that are not
-- reserved are not found.
abbrev pub KnowsReserved : Tables → Type 0
KnowsReserved tables = (str : List ℕ) → Fits str (gettable str tables)

intern-Fits :
    (str : List ℕ) (tables : Tables) (found : Option TString)
    → Fits str found
    → ((intern str tables found).0.string ≡ str)
      × ((intern str tables found).0.reserved ≡ reserved_code str)
unfolding intern
intern-Fits str tables none h = (refl, sym h)
intern-Fits str tables (some ts) h = h

rawset-Fits :
    (ts : TString) (tables : Tables) (str : List ℕ)
    → ts.reserved ≡ reserved_code ts.string
    → Fits str (gettable str tables)
    → Fits str (gettable str (rawset ts tables))
unfolding gettable find_entry or_else rawset
rawset-Fits ts [] str e h = elim (Bool-cases (same_text ts.string str)) [
  | inl m ↦ let same = same_text-eq _ _ m in rw m (same, e ∙ ap reserved_code same)
  | inr m ↦ rw m h
]
rawset-Fits ts (table ∷ below) str e h = elim (Bool-cases (same_text ts.string str)) [
  | inl m ↦ let same = same_text-eq _ _ m in rw m (same, e ∙ ap reserved_code same)
  | inr m ↦ rw m h
]

intern-Knows :
    (str : List ℕ) (tables : Tables) (found : Option TString)
    → Fits str found
    → KnowsReserved tables
    → KnowsReserved (intern str tables found).1
unfolding intern
intern-Knows str tables (some ts) f h = h
intern-Knows str tables none f h =
    λ other. rawset-Fits (record { string = str; reserved = 0 }) tables other (sym f) (h other)

-- In tables that know the reserved words, `luaS_newlstr` returns the text, with its place among the
-- reserved words, and keeps such tables.
pub newlstr-KnowsReserved :
    (tables : Tables) (str : List ℕ)
    → KnowsReserved tables
    → ((newlstr tables str).0.string ≡ str)
      × ((newlstr tables str).0.reserved ≡ reserved_code str)
      × KnowsReserved (newlstr tables str).1
unfolding newlstr
newlstr-KnowsReserved tables str h =
    let found = intern-Fits str tables (gettable str tables) (h str) in
    (found.0, found.1, intern-Knows str tables (gettable str tables) (h str) h)

pub pushtstringtable-Knows :
    (tables : Tables) → KnowsReserved tables → KnowsReserved (pushtstringtable tables)
unfolding pushtstringtable gettable find_entry or_else
pushtstringtable-Knows tables h = h

abbrev all {ℓ} : {A : Type ℓ} → (A → Bool) → List A → Bool
all p [] = true
all p (x ∷ xs) = p x && all p xs

all-cons {ℓ} :
    {A : Type ℓ} (p : A → Bool) (x : A) (xs : List A)
    → all p (x ∷ xs) ≡ true
    → (p x ≡ true) × (all p xs ≡ true)
all-cons p x xs h = elim (Bool-cases (p x)) [
  | inl e ↦ (e, rw e at h)
  | inr e ↦ let h' = rw e at h in ground arith
]

abbrev is_right : TString → Bool
is_right ts = ts.reserved == reserved_code ts.string

-- an entry that is found, if there is one, is right
abbrev RightIfFound : List ℕ → Option TString → Type 0
RightIfFound str none = Unit {0}
RightIfFound str (some ts) = (ts.string ≡ str) × (ts.reserved ≡ reserved_code str)

find_entry-right :
    (str : List ℕ) (table : List TString)
    → all is_right table ≡ true
    → RightIfFound str (find_entry str table)
unfolding find_entry
find_entry-right str [] h = tt
find_entry-right str (ts ∷ table) h =
    let (here, rest) = all-cons is_right ts table h in
    elim (Bool-cases (same_text ts.string str)) [
      | inl m ↦ let same = same_text-eq _ _ m in rw m (same, ==→eq _ _ here ∙ ap reserved_code same)
      | inr m ↦ rw m (find_entry-right str table rest)
    ]

code_from-all :
    (i : ℕ) (words : List (List ℕ)) (p : List ℕ → Bool) (str : List ℕ)
    → all p words ≡ true
    → (code_from i words str ≡ 0) ⊎ (p str ≡ true)
code_from-all i [] p str h = inl refl
code_from-all i (word ∷ words) p str h =
    let (here, rest) = all-cons p word words h in
    elim (Bool-cases (same_text word str)) [
      | inl m ↦ inr (subst (λ w. p w ≡ true) (same_text-eq _ _ m) here)
      | inr m ↦ rw m (code_from-all (i + 1) words p str rest)
    ]

abbrev is_found : Option TString → Bool
is_found none = false
is_found (some ts) = true

fits_lem :
    (str : List ℕ) (found : Option TString)
    → RightIfFound str found
    → (reserved_code str ≡ 0) ⊎ (is_found found ≡ true)
    → Fits str found
fits_lem str none r (inl z) = z
fits_lem str none r (inr f) = ground arith
fits_lem str (some ts) r h = r

init_right : all (all is_right) init ≡ true
unfolding init same_text
init_right = refl

init_found : all (λ word. is_found (gettable word init)) reserved_words ≡ true
unfolding init gettable
init_found = refl

or_else-right :
    (str : List ℕ) (found further : Option TString)
    → RightIfFound str found
    → RightIfFound str further
    → RightIfFound str (or_else found further)
unfolding or_else
or_else-right str none further h k = k
or_else-right str (some ts) further h k = h

gettable-right :
    (str : List ℕ) (tables : Tables)
    → all (all is_right) tables ≡ true
    → RightIfFound str (gettable str tables)
unfolding gettable
gettable-right str [] h = tt
gettable-right str (table ∷ below) h =
    let (here, rest) = all-cons (all is_right) table below h in
    or_else-right str (find_entry str table) (gettable str below) (find_entry-right str table here)
      (gettable-right str below rest)

-- The tables that `luaX_init` makes know the reserved words.
pub init-KnowsReserved : KnowsReserved init
init-KnowsReserved str =
    fits_lem str (gettable str init) (gettable-right str init init_right)
      (code_from-all 1 reserved_words (λ word. is_found (gettable word init)) str init_found)
