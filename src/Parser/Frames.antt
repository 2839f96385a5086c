-- ===== src/Parser/Frames.antt =====
-- src/lparser.cpp: what a part of the grammar leaves of the parser's state. The stack of Lua keeps the
-- values below a base, and the counters and chains have their sizes.
pub mod Binds
pub mod Basic
pub mod Stack
pub mod Trees
pub mod Entries
pub mod Lists
pub mod Returning
pub mod Mixtures
pub mod Checks
pub mod Scopes
pub mod Blocks
pub mod Parts
pub mod Steps
pub mod InLua
pub mod Rules
pub mod Constructors
pub mod Functions
pub mod Within
pub mod Primary
pub mod Expressions
pub mod Statements
pub mod Definitions
pub mod Extensions
pub mod Grammar
pub mod Whole
pub mod Ending
use terra.Common.{
  ℕ, zero, suc, ◌+◌, ◌≡◌, refl, ap, ◌∙◌, ◌⊎◌, inl, inr, Bool, true, false, List, [], ◌∷◌, ◌++◌,
  length, ltb,
}
use terra.Parser.State
use terra.Parser.State.{
  Tree, BlockCnt, FuncState, PState, Result, ok, err, fault, out_of_fuel, P, ◌>>=◌, branch, when,
  pure,
}

-- The sizes of a state: `in_terra`, the levels, the Terra parts, the blocks of the current function and
-- of the functions around it, and the values that Terra code has put above the base of the stack.
pub data Shape : Type 0 where
  sizes : ℕ → ℕ → ℕ → ℕ → List ℕ → ℕ → Shape

abbrev pub block_counts : List FuncState → List ℕ
block_counts [] = []
block_counts (fs ∷ prev) = length fs.bl ∷ block_counts prev

-- Code of Lua puts no values on the stack.
unfoldable pub depth : ℕ → ℕ → ℕ
depth zero n = 0
depth (suc it) n = n

-- the stack is the base with `n` values above it
abbrev pub Above : ℕ → List Tree → List Tree → Type 0
Above n base stack = (xs : List Tree) × (stack ≡ xs ++ base) × (length xs ≡ n)

pub record HasSizes (base : List Tree) (it lv pt bk : ℕ) (fs : List ℕ) (n : ℕ) (s : PState)
    : Type 0 where
  pub terra : s.lex.in_terra ≡ it
  pub levels : s.c_calls ≡ lv
  pub parts : length s.terracnt ≡ pt
  pub chain : block_counts s.fs ≡ bk ∷ fs
  pub above : Above (depth it n) base s.stack

abbrev pub Has : List Tree → Shape → PState → Type 0
Has base (sizes it lv pt bk fs n) s = HasSizes base it lv pt bk fs n s

abbrev pub Returns : {A : Type 0} → List Tree → Shape → Result A → Type 0
Returns base E (ok a s) = Has base E s
Returns base E (err e s) = Unit {0}
Returns base E fault = Unit {0}
Returns base E out_of_fuel = Unit {0}

-- From a state of the first sizes `m` does not return, or in one of the second sizes.
pub record From {A : Type 0} (base : List Tree) (S E : Shape) (m : P A) : Type 0 where
  pub at : (s : PState) → Has base S s → Returns base E (m s)

-- a part that keeps all sizes
pub record Keeps {A : Type 0} (m : P A) : Type 0 where
  pub keeps : (base : List Tree) (S : Shape) → From base S S m

-- a part that in Terra code, and there only, puts one value on the stack
pub record Pushes {A : Type 0} (m : P A) : Type 0 where
  pub pushes :
      (base : List Tree) (it lv pt bk : ℕ) (fs : List ℕ) (n : ℕ)
      → From base (sizes it lv pt bk fs n) (sizes it lv pt bk fs (suc n)) m

-- a part that works on the value on the top
pub record Replaces {A : Type 0} (m : P A) : Type 0 where
  pub replaces :
      (base : List Tree) (it lv pt bk : ℕ) (fs : List ℕ) (n : ℕ)
      → From base (sizes it lv pt bk fs (suc n)) (sizes it lv pt bk fs (suc n)) m

-- an index above the base, in Terra code
abbrev pub Inside : List Tree → ℕ → ℕ → Type 0
Inside base zero tbl = Unit {0}
Inside base (suc it) tbl = (d : ℕ) × (tbl ≡ suc (length base + d))
