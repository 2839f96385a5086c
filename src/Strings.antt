-- ===== src/Strings.antt =====
-- src/lstring.cpp, src/llex.cpp: the interned strings. The Lua table that maps a text to its
-- `TString` is a list of entries, and the table of each parse, whose missing keys are looked up in
-- the table below it, is the head of a list of tables.
pub mod Reserved
use terra.Common.{
  ℕ, ◌+◌, ◌%◌, Bool, true, false, Option, none, some, List, [], ◌∷◌, ◌==◌, if◌then◌else◌, ◌&&◌,
}
use terra.Token.{reserved_words}

pub record TString : Type 0 where
  pub string : List ℕ
  pub reserved : ℕ

abbrev pub Tables : Type 0
Tables = List (List TString)

unfoldable pub same_text : List ℕ → List ℕ → Bool
same_text [] [] = true
same_text (x ∷ xs) (y ∷ ys) = x == y && same_text xs ys
same_text [] (y ∷ ys) = false
same_text (x ∷ xs) [] = false

unfoldable pub or_else : Option TString → Option TString → Option TString
or_else (some ts) r = some ts
or_else none r = r

-- one table, and the chain of `__index`
unfoldable pub find_entry : List ℕ → List TString → Option TString
unfolding same_text
find_entry str [] = none
find_entry str (ts ∷ table) = if same_text ts.string str then some ts else find_entry str table

unfoldable pub gettable : List ℕ → Tables → Option TString
unfolding find_entry or_else
gettable str [] = none
gettable str (table ∷ below) = or_else (find_entry str table) (gettable str below)

-- `lua_rawset` into the innermost table
unfoldable pub rawset : TString → Tables → Tables
rawset ts [] = (ts ∷ []) ∷ []
rawset ts (table ∷ below) = (ts ∷ table) ∷ below

unfoldable pub intern : List ℕ → Tables → Option TString → TString × Tables
unfolding rawset
intern str tables (some ts) = (ts, tables)
intern str tables none =
    let ts : TString = record { string = str; reserved = 0 } in (ts, rawset ts tables)

-- `luaS_newlstr`
unfoldable pub newlstr : Tables → List ℕ → TString × Tables
unfolding gettable intern
newlstr tables str = intern str tables (gettable str tables)

-- `ts->reserved = cast_byte(i + 1)`, written through the pointer that `luaS_new` returned
unfoldable pub set_reserved : List ℕ → ℕ → List TString → List TString
unfolding same_text
set_reserved str r [] = []
set_reserved str r (ts ∷ table) =
    if same_text ts.string str
    then record ts { reserved = r % 256 } ∷ table
    else ts ∷ set_reserved str r table

unfoldable pub set_innermost : List ℕ → ℕ → Tables → Tables
unfolding set_reserved
set_innermost str r [] = []
set_innermost str r (table ∷ below) = set_reserved str r table ∷ below

-- the loop of `luaX_init`, from word `i` on
unfoldable pub init_from : ℕ → List (List ℕ) → Tables → Tables
unfolding newlstr set_innermost
init_from i [] tables = tables
init_from i (word ∷ words) tables =
    init_from (i + 1) words (set_innermost word (i + 1) (newlstr tables word).1)

-- `luaX_init`: a new base table with the reserved words
unfoldable pub init : Tables
unfolding init_from
init = init_from 0 reserved_words ([] ∷ [])

-- `luaX_pushtstringtable`
unfoldable pub pushtstringtable : Tables → Tables
pushtstringtable tables = [] ∷ tables

-- `luaX_poptstringtable`
unfoldable pub poptstringtable : Tables → Tables
poptstringtable [] = []
poptstringtable (table ∷ below) = below
