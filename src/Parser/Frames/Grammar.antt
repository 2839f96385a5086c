-- ===== src/Parser/Frames/Grammar.antt =====
-- src/lparser.cpp: the sizes behind every function of the grammar.
use terra.Common.{ℕ, zero, suc, ◌+◌, refl, false, List}
use terra.Parser.State.{Tree, Position, ◌>>=◌, ◌>>◌, pure, exhausted, lex, modify_lex}
use terra.Parser.Frames.{sizes, From, Keeps, Pushes, Inside}
use terra.Parser.Frames.Binds.{
  keep-then, loop-then, push-then, Pushes-branch, Keeps-by, Keeps-Pushes-bind, Pushes-Keeps-bind,
}
use terra.Token.{tk_string}
use terra.Lexer.Numeral.{c_str}
use terra.Parser.Scopes.{with_block}
use terra.Parser.Checks.{check}
use terra.Parser.Env.{Lua, Import, imported, import_error}
use terra.Parser.Output.{print_text, patchbegin, patchend}
use terra.Parser.Rules.{Rules, current_token, next, testnext, text_of_token}
use terra.Parser.Frames.Basic.{pure-Keeps, token-Keeps, exhausted-From, modify_lex-Keeps}
use terra.Parser.Frames.Returning.{returns-Pushes}
use terra.Parser.Frames.Checks.{
  check_terra-Keeps, next_token-Keeps, testnext-Keeps, check_match-Keeps,
}
use terra.Parser.Frames.Scopes.{with_block-Keeps}
use terra.Parser.Frames.Steps.{entry-then}
use terra.Parser.Frames.InLua.{Keeps-InLua, Pushes-InLua, Keeps-then-InLua, lua_only-Pushes}
use terra.Parser.Frames.Rules.{
  steps, parts, From-choose, loop-From, expr-Pushes, block-Pushes, Good,
}
use terra.Parser.Frames.Constructors.{structbody-Pushes}
use terra.Parser.Frames.Functions.{define_all-Keeps, vardecl-Pushes, body-Pushes, explist-Pushes}
use terra.Parser.Frames.Primary.{doquote-Pushes, blockescape-Pushes}
use terra.Parser.Frames.Expressions.{subexpr-Pushes}
use terra.Parser.Frames.Statements.{
  embeddedcode-Pushes, lhsexp-Pushes, assignment-From, gotostat-Pushes, labelstat-Pushes,
  casestat-Pushes, switchstat-Pushes, whilestat-Pushes, repeatstat-Pushes, forstat-Pushes,
  ifstat-Pushes,
}
use terra.Parser.Frames.Definitions.{terrastats-Keeps}
use terra.Parser.Frames.Extensions.{languageextension-Keeps}
use terra.Parser.Functions.{vardecl, with_name}
use terra.Parser.Scopes.{with_block}
use terra.Parser.Main.{
  localfunc, declarations, localstat, funcname, funcstat, exprstat, retstat, imports, importstat,
  deferstat, local_statement, statement_of, statement, rules,
}
use terra.Parser.Frames.InLua.{InLua-branch}

module _ (env : Lua) (self : Rules) (good : Good self) where
  localfunc-Pushes : Pushes (localfunc env self)
  unfolding localfunc
  localfunc-Pushes = record {
    pushes = λ base it lv pt bk fs n. search (steps, parts, body-Pushes) depth 40;
  }

  declarations-From :
      (base : List Tree) (it lv pt bk : ℕ) (fs : List ℕ) (n fuel vars : ℕ) (names : List (List ℕ))
      → Inside base it vars
      → From base
          (sizes it lv pt bk fs (suc n))
          (sizes it lv pt bk fs (suc n))
          (declarations env self fuel vars names)
  unfolding declarations
  declarations-From base it lv pt bk fs n zero vars names i = exhausted-From base _ _
  declarations-From base it lv pt bk fs n (suc fuel) vars names i =
      let S = sizes it lv pt bk fs (suc n) in
      push-then base it lv pt bk fs (suc n) S (vardecl env self false) _
        (vardecl-Pushes env self good false)
        λ name. entry-then base S it lv pt bk fs n vars _ i λ _.
          keep-then base S S (testnext env b',') _ (testnext-Keeps env.numbers b',') λ comma.
            From-choose base S S comma (declarations env self fuel vars (with_name name names))
              (pure (with_name name names))
              (declarations-From base it lv pt bk fs n fuel vars (with_name name names) i)
              ((pure-Keeps (with_name name names)).keeps base S)

  localstat-Pushes : Pushes (localstat env self)
  unfolding localstat
  localstat-Pushes = record {
    pushes = λ base it lv pt bk fs n.
        search (steps, parts, loop-then, declarations-From, explist-Pushes, define_all-Keeps) depth
          40 fits 20000;
  }

  funcname-Keeps : Keeps (funcname env self)
  unfolding funcname
  funcname-Keeps =
      Keeps-by _
        λ base it lv pt bk fs n. search (steps, parts, loop-then, loop-From) depth 40 fits 8000

  funcstat-Pushes : (line : ℕ) → Pushes (funcstat env self line)
  unfolding funcstat
  funcstat-Pushes line = record {
    pushes = λ base it lv pt bk fs n. search (steps, parts, funcname-Keeps, body-Pushes) depth 40;
  }

  exprstat-Pushes : Pushes (exprstat env self)
  unfolding exprstat
  exprstat-Pushes = record {
    pushes = λ base it lv pt bk fs n.
        search (steps, parts, lhsexp-Pushes, assignment-From) depth 40 fits 8000;
  }

  retstat-Pushes : Pushes (retstat env self)
  unfolding retstat
  retstat-Pushes = record {
    pushes = λ base it lv pt bk fs n. search (steps, parts, explist-Pushes) depth 40 fits 8000;
  }

  imports-Keeps : (found : Import) → Keeps (imports env self found)
  unfolding imports
  imports-Keeps (imported entries) =
      modify_lex-Keeps (λ l. record l { entry_points = entries }) λ l. refl
  imports-Keeps (import_error message) = record { keeps = λ base S. record { at = λ s h. tt } }

  count-Keeps :
      Keeps
        (modify_lex λ l. record l { languageextensionsenabled = l.languageextensionsenabled + 1 })
  count-Keeps =
      modify_lex-Keeps
        (λ l. record l { languageextensionsenabled = l.languageextensionsenabled + 1 }) λ l. refl

  import_rest-Keeps : Keeps (do
    begin ← current_token
    next env
    check tk_string
    language ← text_of_token env
    modify_lex λ l. record l { languageextensionsenabled = l.languageextensionsenabled + 1 }
    with_block λ b. record b { languageextensionsdefined = b.languageextensionsdefined + 1 }
    l ← lex
    imports env self (env.importlanguage (c_str language) l.entry_points)
    next env
    begin' ← patchbegin begin
    print_text "do end"
    patchend begin')
  import_rest-Keeps =
      search (parts, imports-Keeps, count-Keeps, with_block-Keeps) depth 40 fits 8000

  importstat-Pushes : Pushes (importstat env self)
  unfolding importstat
  importstat-Pushes = lua_only-Pushes "import statements" _ (Keeps-InLua _ import_rest-Keeps)

  deferstat-Pushes : Pushes (deferstat env self)
  unfolding deferstat
  deferstat-Pushes = record {
    pushes = λ base it lv pt bk fs n. search (steps, parts, expr-Pushes) depth 40;
  }

  local_statement-Pushes : Pushes (local_statement env self)
  unfolding local_statement
  local_statement-Pushes =
      search
        (
          Keeps-Pushes-bind, lua_only-Pushes, Keeps-then-InLua, InLua-branch, Pushes-InLua,
          Keeps-InLua, next_token-Keeps, testnext-Keeps, token-Keeps, localfunc-Pushes,
          terrastats-Keeps, languageextension-Keeps, localstat-Pushes,
        )
        depth 30 fits 8000

  statement_of-Pushes : (t : ℕ) (p : Position) → Pushes (statement_of env self t p)
  unfolding statement_of
  statement_of-Pushes t p =
      search
        (
          Pushes-branch, Keeps-Pushes-bind, Pushes-Keeps-bind, lua_only-Pushes, Pushes-InLua,
          Keeps-InLua, returns-Pushes, check_terra-Keeps, next_token-Keeps, check_match-Keeps,
          ifstat-Pushes, whilestat-Pushes, block-Pushes, forstat-Pushes, repeatstat-Pushes,
          funcstat-Pushes, terrastats-Keeps, languageextension-Keeps, local_statement-Pushes,
          localstat-Pushes, labelstat-Pushes, retstat-Pushes, gotostat-Pushes, importstat-Pushes,
          deferstat-Pushes, blockescape-Pushes, switchstat-Pushes, casestat-Pushes, exprstat-Pushes,
        )
        depth 40 fits 40000

  pub statement-Pushes : Pushes (statement env self)
  unfolding statement
  statement-Pushes = record {
    pushes = λ base it lv pt bk fs n. search (steps, parts, statement_of-Pushes) depth 40;
  }

exhausted-Pushes : {A : Type 0} → Pushes (exhausted {A = A})
exhausted-Pushes = record { pushes = λ base it lv pt bk fs n. exhausted-From base _ _ }

-- All the grammar's functions, at every depth of the calls.
pub rules-Good : (env : Lua) (fuel : ℕ) → Good (rules env fuel)
unfolding rules
rules-Good env zero = record {
  statement = exhausted-Pushes;
  subexpr = λ limit. exhausted-Pushes;
  embeddedcode = λ isterra isexp. exhausted-Pushes;
  doquote = λ isexp. exhausted-Pushes;
  structbody = exhausted-Pushes;
  assignment = λ base it lv pt bk fs n nvars lhs i. exhausted-From base _ _;
  languageextension = λ isstatement islocal. record { keeps = λ base S. exhausted-From base S S };
}
rules-Good env (suc fuel) =
    let self = rules env fuel in
    let good = rules-Good env fuel in
    record {
      statement = statement-Pushes env self good;
      subexpr = subexpr-Pushes env self good;
      embeddedcode = embeddedcode-Pushes env self good;
      doquote = doquote-Pushes env self good;
      structbody = structbody-Pushes env self good;
      assignment = assignment-From env self good;
      languageextension = languageextension-Keeps env self good;
    }
