-- ===== src/Parser/Rules.antt =====
-- src/lparser.cpp: the functions through which the grammar's functions call one another, as the
-- fields of a record, and what the grammar's functions share.
use terra.Common.{ℕ, zero, suc, Bool, true, false, Option, none, some, List, [], ◌∷◌, ◌==◌}
use terra.Strings.{newlstr}
use terra.Lexer.State.{Token}
use terra.Lexer.Scan.{luax_lookahead}
use terra.Token.{tk_return}
use terra.Parser.State.{
  FuncState, ok, fault, out_of_fuel, bind, P, ◌>>=◌, ◌>>◌, pure, branch, lex, lift, token, in_terra,
  getposition, modify_lex,
}
use terra.Parser.Stack.{returns, new_list, push_string, new_object, add_entry}
use terra.Parser.Scopes
use terra.Parser.Scopes.{with_fs, refvariable, enterblock}
use terra.Parser.Checks.{block_follow}
use terra.Parser.Checks
use terra.Parser.Env.{Lua}
use terra.Parser.Operators.{BinOpr}

-- `fuel` bounds the rounds of a loop.
pub record Rules : Type 0 where
  pub fuel : ℕ
  pub statement : P (Unit {0})
  pub subexpr : ℕ → P BinOpr
  pub embeddedcode : Bool → Bool → P (Unit {0})
  pub doquote : Bool → P (Unit {0})
  pub structbody : P (Unit {0})
  pub assignment : ℕ → ℕ → P (Unit {0})
  pub languageextension : Bool → Bool → P (Unit {0})

-- `do { … } while (…);`, where a round tells whether there is another one
unfoldable pub loop : ℕ → P Bool → P (Unit {0})
loop zero round s = out_of_fuel
loop (suc fuel) round s =
    bind (round s) λ more. elim more [ true ↦ loop fuel round | false ↦ pure tt ]

-- `f.is_vararg = n` in the current function
abbrev pub set_vararg : ℕ → P (Unit {0})
set_vararg n = with_fs λ fs. some (record fs { is_vararg = n })

-- the current function
abbrev pub function : P FuncState
function s = elim s.fs [ [] ↦ fault | fs ∷ prev ↦ ok fs s ]

abbrev pub current_token : P Token
current_token s = ok s.lex.t s

-- `luaS_newlstr`, for a name that does not stand in the program
abbrev pub intern : List ℕ → P (Unit {0})
intern str = modify_lex λ l. record l { strings = (newlstr l.strings str).1 }

module _ (env : Lua) where
  abbrev pub next : P (Unit {0})
  next = Checks.next_token env.numbers

  abbrev pub testnext : ℕ → P Bool
  testnext = Checks.testnext env.numbers

  abbrev pub checknext : ℕ → P (Unit {0})
  checknext = Checks.checknext env.numbers

  abbrev pub check_match : ℕ → ℕ → ℕ → P (Unit {0})
  check_match = Checks.check_match env.numbers

  abbrev pub str_checkname : P (List ℕ)
  str_checkname = Checks.str_checkname env.numbers

  abbrev pub text_of_token : P (List ℕ)
  text_of_token = Checks.text_of_token env.numbers

  abbrev pub lookahead : P ℕ
  lookahead = lift (luax_lookahead env.numbers)

  abbrev pub leaveblock : P (Unit {0})
  leaveblock = Scopes.leaveblock env.unimportlanguages

  abbrev pub enterterra : P (Unit {0})
  enterterra = Scopes.enterterra env.unimportlanguages

  abbrev pub leaveterra : P (List (List ℕ))
  leaveterra = Scopes.leaveterra env.unimportlanguages

  abbrev pub open_func : P (Unit {0})
  open_func = Scopes.open_func env.unimportlanguages

  abbrev pub close_func : P (Unit {0})
  close_func = Scopes.close_func env.unimportlanguages

  unfoldable pub singlevar : P (Unit {0})
  singlevar = do
    p ← getposition
    varname ← str_checkname
    push_string varname
    new_object "var" 1 p
    refvariable varname

  module _ (self : Rules) where
    unfoldable pub expr : P (Unit {0})
    expr = returns 1 (self.subexpr 0 >> pure tt)

    unfoldable pub luaexpr : P (Unit {0})
    luaexpr = self.embeddedcode false true

    unfoldable pub terratype : P (Unit {0})
    terratype = luaexpr

    -- the name, where the symbol is one
    unfoldable pub checksymbol : P (Option (List ℕ))
    checksymbol = do
      p ← getposition
      l ← lex
      terra ← in_terra
      bracket ← branch terra (testnext b'[') (pure false)
      branch bracket
          (do
            returns 1 luaexpr
            new_object "escapedident" 1 p
            check_match b']' b'[' l.linenumber
            pure none)
          (do nm ← str_checkname; push_string nm; new_object "namedident" 1 p; pure (some nm))

    unfoldable pub yindex : P (Unit {0})
    yindex = do next; returns 1 expr; checknext b']'

    -- a round of the loop of `statlist`
    unfoldable pub statlist_round : ℕ → P Bool
    statlist_round tbl = do
      follow ← block_follow true
      t ← token
      branch follow (pure false) (
          branch (t == tk_return) (do self.statement; add_entry tbl; pure false)
            (branch (t == b';') (next >> pure true) (do self.statement; add_entry tbl; pure true)))

    unfoldable pub statlist : P (Unit {0})
    statlist = do tbl ← new_list; loop self.fuel (statlist_round tbl)

    unfoldable pub block : P (Unit {0})
    block = do p ← getposition; enterblock 0; returns 1 statlist; leaveblock; new_object "block" 1 p
