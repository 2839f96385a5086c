-- ===== src/Parser/Env.antt =====
-- The parts of Lua and of LLVM that src/lparser.cpp calls, as parameters of the parser.
use terra.Common.{ℕ, Bool, Option, List}
use terra.Lexer.State.{Token}
use terra.Lexer.Numeral.{Numbers}
use terra.Parser.State.{Position, Tree}
use terra.Parser.Scopes.{Entries}

-- what `importlanguage` does with the table of entry points, or the error that it raises
pub data Import : Type 0 where
  imported : Entries → Import
  import_error : List ℕ → Import

-- A run of a language extension by `runlanguage`: its calls of `le_next`, `le_cur`, `le_lookahead`
-- and `le_embeddedcode`, and at the end the names that it refers to, the names that it defines and
-- its function, or an error. An error of a call is not caught by the extension.
pub data Script : Type 0 where
  finished : List (List ℕ) → List (List (List ℕ)) → Tree → Script
  raised : List ℕ → Script
  next : Script → Script
  cur : (Token → Position → Script) → Script
  look : (Token → Script) → Script
  embedded : Bool → Bool → (Tree → Script) → Script

-- `load_error` is the error of `lua_load` on a chunk, if it has one; `order` is the order in which a
-- `llvm::SmallSet` visits its members.
pub record Lua : Type 0 where
  pub numbers : Numbers
  pub importlanguage : List ℕ → Entries → Import
  pub unimportlanguages : ℕ → Entries → Entries
  pub runlanguage : List ℕ → Bool → Bool → Script
  pub load_error : List ℕ → Option (List ℕ)
  pub order : List (List ℕ) → List (List ℕ)
