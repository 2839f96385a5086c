-- ===== src/Parser/Main.antt =====
-- src/lparser.cpp: the statements, the grammar's functions tied together, and `luaY_parser`.
use terra.Common.{ℕ, zero, suc, ◌+◌, Bool, true, false, List, [], ◌∷◌, ◌==◌, ◌||◌, if◌then◌else◌}
use terra.Token.{
  tk_break, tk_case, tk_do, tk_end, tk_for, tk_function, tk_goto, tk_if, tk_local, tk_repeat,
  tk_return, tk_while, tk_terra, tk_var, tk_struct, tk_switch, tk_import, tk_defer, tk_escape,
  tk_dbcolon, tk_eos, tk_string, tk_special,
}
use terra.Lexer.State.{LexState}
use terra.Lexer.Numeral.{c_str}
use terra.Parser.State.{
  Position, Tree, Trees, BlockCnt, FuncState, PState, Message, unexpected_symbol,
  arguments_expected, parameter_expected, outside_vararg, case_outside_switch, case_not_terminated,
  in_expected, reported, nil, boolean, object, with_field, list, chunk, syntax, Result, ok, err,
  fault, bind, P, ◌>>=◌, ◌>>◌, pure, get, put, failed, exhausted, when, branch, assert, lex, lift,
  token, syntaxerror, in_terra, is_terra, position, getposition, modify_lex, insert, set_lex,
}
use terra.Parser.Stack.{returns, new_list, new_list_before, push_boolean, new_object, add_entry}
use terra.Parser.Scopes.{definevariable, refvariable, with_block}
use terra.Parser.Checks.{check_no_terra, check_terra, check, enterlevel, leavelevel, block_follow}
use terra.Parser.Env.{Lua, Import, imported, import_error}
use terra.Parser.Output.{print_text, patchbegin, patchend}
use terra.Parser.Rules.{
  Rules, loop, current_token, next, testnext, check_match, str_checkname, text_of_token, close_func,
  expr, statlist, block,
}
use terra.Ctype.{Charint}
use terra.Zio.{Zio}
use terra.OutputBuffer.{OutputBuffer, putc}
use terra.OutputBuffer
use terra.Strings.{Tables, pushtstringtable, poptstringtable, newlstr}
use terra.Lexer.Patch.{setinput}
use terra.Parser.State
use terra.Parser.State.{SyntaxError}
use terra.Parser.Scopes.{open_mainfunc}
use terra.Parser.Constructors.{structbody}
use terra.Parser.Functions.{vardecl, body, explist, define_all, with_name}
use terra.Parser.Primary.{blockescape, doquote}
use terra.Parser.Expressions.{subexpr}
use terra.Parser.Statements.{
  embeddedcode, lhsexp, assignment, gotostat, labelstat, casestat, switchstat, whilestat,
  repeatstat, forstat, ifstat,
}
use terra.Parser.Definitions.{terrastats, languageextension}

module _ (env : Lua) (self : Rules) where
  unfoldable pub localfunc : P (Unit {0})
  localfunc = do
    name ← str_checkname env
    definevariable name
    l ← lex
    body env self false l.linenumber

  -- the loop of `localstat`: the declared names
  unfoldable pub declarations : ℕ → ℕ → List (List ℕ) → P (List (List ℕ))
  declarations zero vars names = exhausted
  declarations (suc fuel) vars names = do
    name ← vardecl env self false
    add_entry vars
    comma ← testnext env b','
    elim comma [
      | true ↦ declarations fuel vars (with_name name names)
      | false ↦ pure (with_name name names)
    ]

  unfoldable pub localstat : P (Unit {0})
  localstat = do
    p ← getposition
    vars ← new_list
    names ← declarations self.fuel vars []
    assigned ← testnext env b'='
    branch assigned (push_boolean true >> returns 1 (explist env self))
        (do push_boolean false; new_list; pure tt)
    define_all names
    new_object "defvar" 3 p

  -- whether the function is a method
  unfoldable pub funcname : P Bool
  funcname = do
    vname ← str_checkname env
    refvariable vname
    loop self.fuel
        (do point ← testnext env b'.'; branch point (str_checkname env >> pure true) (pure false))
    colon ← testnext env b':'
    branch colon (str_checkname env >> pure true) (pure false)

  unfoldable pub funcstat : ℕ → P (Unit {0})
  funcstat line = do next env; ismethod ← funcname; body env self ismethod line

  unfoldable pub exprstat : P (Unit {0})
  exprstat = do
    returns 1 (lhsexp env self)
    t ← token
    when (t == b'=' || t == b',')
        (do tbl ← new_list_before; add_entry tbl; returns 0 (assignment env self 1 tbl))

  unfoldable pub retstat : P (Unit {0})
  retstat = do
    p ← getposition
    new_list
    follow ← block_follow true
    t ← token
    branch (follow || t == b';') (new_list >> pure tt) (returns 1 (explist env self))
    push_boolean false
    testnext env b';'
    new_object "letin" 3 p
    new_object "returnstat" 1 p

  -- what `importlanguage` does with the entry points; the languages are counted before it is called.
  unfoldable pub imports : Import → P (Unit {0})
  imports (imported entries) = modify_lex λ l. record l { entry_points = entries }
  imports (import_error message) = λ s. err (syntax (reported message) s.lex.linenumber 0) s

  unfoldable pub importstat : P (Unit {0})
  importstat = do
    check_no_terra "import statements"
    begin ← current_token
    next env
    check tk_string
    language ← text_of_token env
    modify_lex λ l. record l { languageextensionsenabled = l.languageextensionsenabled + 1 }
    with_block λ b. record b { languageextensionsdefined = b.languageextensionsdefined + 1 }
    l ← lex
    imports (env.importlanguage (c_str language) l.entry_points)
    next env
    begin' ← patchbegin begin
    print_text "do end"
    patchend begin'

  unfoldable pub deferstat : P (Unit {0})
  deferstat = do p ← getposition; next env; expr env self; new_object "defer" 1 p

  -- `local` and what follows it
  unfoldable pub local_statement : P (Unit {0})
  local_statement = do
    next env
    check_no_terra "local keywords"
    func ← testnext env tk_function
    t ← token
    branch func localfunc (
        branch (t == tk_struct || t == tk_terra) (terrastats env self true)
          (branch (t == tk_special) (languageextension env self true true) localstat))

  -- the switch of `statement`
  unfoldable pub statement_of : ℕ → Position → P (Unit {0})
  statement_of t p =
      let line = p.linenumber in
      branch (t == tk_if) (returns 1 (ifstat env self line)) (
        branch (t == tk_while) (returns 1 (whilestat env self line)) (
          branch (t == tk_do)
            (do next env; returns 1 (block env self); check_match env tk_end tk_do line)
            (branch (t == tk_for) (returns 1 (forstat env self p)) (
              branch (t == tk_repeat) (returns 1 (repeatstat env self line)) (
                branch (t == tk_function) (check_no_terra "lua functions" >> funcstat line) (
                  branch (t == tk_terra || t == tk_struct)
                    (check_no_terra "terra declarations" >> terrastats env self false)
                    (branch (t == tk_special)
                      (check_no_terra "language extensions"
                        >> languageextension env self true false)
                      (branch (t == tk_local) local_statement (
                        branch (t == tk_var)
                          (do check_terra "variables"; next env; returns 1 localstat)
                          (branch (t == tk_dbcolon) (next env >> returns 1 (labelstat env self)) (
                            branch (t == tk_return) (next env >> returns 1 retstat) (
                              branch (t == tk_break || t == tk_goto) (returns 1 (gotostat env self))
                                (branch (t == tk_import) importstat (
                                  branch (t == tk_defer) deferstat (
                                    branch (t == tk_escape) (blockescape env self) (
                                      branch (t == tk_switch) (returns 1 (switchstat env self)) (
                                        branch (t == tk_case) (returns 1 (casestat env self))
                                          (returns 1 exprstat))))))))))))))))))

  unfoldable pub statement : P (Unit {0})
  statement = do p ← getposition; enterlevel; t ← token; statement_of t p; leavelevel

-- The grammar's functions with calls to a depth, which also bounds the rounds of their loops.
unfoldable pub rules : Lua → ℕ → Rules
rules env zero = record {
  fuel = 0;
  statement = exhausted;
  subexpr = λ limit. exhausted;
  embeddedcode = λ isterra isexp. exhausted;
  doquote = λ isexp. exhausted;
  structbody = exhausted;
  assignment = λ nvars lhs. exhausted;
  languageextension = λ isstatement islocal. exhausted;
}
rules env (suc fuel) =
    let self = rules env fuel in
    record {
      fuel = suc fuel;
      statement = statement env self;
      subexpr = subexpr env self;
      embeddedcode = embeddedcode env self;
      doquote = doquote env self;
      structbody = structbody env self;
      assignment = assignment env self;
      languageextension = languageextension env self;
    }

-- The state that `luaY_parser` begins with, on the trees that are in `_G.terra._trees`. The other fields of `memory` are not initialised.
unfoldable pub initial : LexState → List ℕ → Zio → Charint → List Tree → ℕ → PState
initial memory source z firstchar trees c_calls =
    let strings = (newlstr (pushtstringtable memory.strings) source).1 in
    record {
      lex = setinput z firstchar (record memory {
        strings = strings;
        in_terra = 0;
        buff = record { buffer = []; buffsize = 0 };
        output_buffer = OutputBuffer.init;
        languageextensionsenabled = 0;
        entry_points = [];
      });
      stack = [];
      trees = trees;
      fs = [];
      terracnt = [];
      c_calls = c_calls;
    }

-- the main function, inside of the `try`
unfoldable pub main_function : Lua → ℕ → P (Unit {0})
main_function env fuel = do
  open_mainfunc env.unimportlanguages
  next env
  statlist env (rules env fuel)
  check tk_eos
  close_func env

-- with the assertion that it ends all functions
unfoldable pub main_body : Lua → ℕ → P (Unit {0})
unfolding main_function
main_body env fuel = do
  main_function env fuel
  s ← get
  elim s.fs [ [] ↦ pure tt | fs ∷ prev ↦ failed ]

-- the loop that rewinds to before the zero bytes
abbrev or_zero : ℕ → List ℕ → List ℕ
or_zero c [] = if c == 0 then [] else c ∷ []
or_zero c (x ∷ xs) = c ∷ x ∷ xs

unfoldable pub rewind_zeros : List ℕ → List ℕ
rewind_zeros [] = []
rewind_zeros (c ∷ cs) = or_zero c (rewind_zeros cs)

-- What `luaY_parser` leaves: the text for Lua, or the error; the trees; and of the `terra_State`
-- the strings and the levels.
pub data Parsed : Type 0 where
  parsed : List ℕ → List Tree → Tables → ℕ → Parsed
  refused : SyntaxError → List Tree → Tables → ℕ → Parsed
  crashed out_of_fuel : Parsed

unfoldable pub finish : Result (Unit {0}) → Parsed
finish (ok a s) =
    let ended = putc s.lex.output_buffer 0 in
    elim s.stack [
      | [] ↦
          parsed (rewind_zeros (OutputBuffer.contents ended)) s.trees
            (poptstringtable s.lex.strings) s.c_calls
      | v ∷ below ↦ crashed
    ]
finish (err e s) = refused e s.trees (poptstringtable s.lex.strings) s.c_calls
finish fault = crashed
finish State.out_of_fuel = out_of_fuel

-- `luaY_parser`, with the depth of the calls as fuel
unfoldable pub parser : Lua → ℕ → LexState → List ℕ → Zio → Charint → List Tree → ℕ → Parsed
parser env fuel memory source z firstchar trees c_calls =
    finish (main_body env fuel (initial memory source z firstchar trees c_calls))
