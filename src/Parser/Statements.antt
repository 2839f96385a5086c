-- ===== src/Parser/Statements.antt =====
-- src/lparser.cpp: code of Lua within Terra code, and blocks, loops, branches and simple statements.
use terra.Common.{
  ℕ, ◌+◌, Bool, true, false, Option, none, some, List, [], ◌++◌, ◌==◌, not, ◌&&◌, ◌||◌,
  if◌then◌else◌,
}
use terra.Token.{
  codes, tk_case, tk_do, tk_else, tk_elseif, tk_end, tk_for, tk_goto, tk_if, tk_in, tk_repeat,
  tk_then, tk_until, tk_while, tk_switch, tk_quote, tk_dbcolon,
}
use terra.Lexer.State.{Token}
use terra.Lexer.Patch.{getoutput}
use terra.Parser.State.{
  Position, case_outside_switch, case_not_terminated, in_expected, reported, chunk, syntax, err, P,
  ◌>>=◌, ◌>>◌, pure, get, when, branch, assert, lex, token, syntaxerror, in_terra, getposition,
}
use terra.Parser.Stack.{
  returns, new_list, new_list_before, push, push_boolean, push_nil, new_object, add_entry,
}
use terra.Parser.Scopes.{enterblock}
use terra.Parser.Checks.{check_terra, checklimit, maxccalls, starttoken}
use terra.Parser.Env.{Lua}
use terra.Parser.Output.{set_in_terra}
use terra.Parser.Rules.{
  Rules, loop, current_token, next, testnext, checknext, check_match, leaveblock, expr, checksymbol,
  statlist, block,
}
use terra.Parser.Functions.{vardecl, explist, define_all, with_name}
use terra.Parser.Primary.{primaryexp}

module _ (env : Lua) (self : Rules) where
  -- `lua_load` of the text behind `begintoken`; the line in the message of an error is not computed.
  unfoldable pub load_chunk : Bool → Token → P (Unit {0})
  load_chunk isexpression begintoken = do
    l ← lex
    let code : List ℕ = codes (if isexpression then "return " else "") ++ getoutput l begintoken
    elim (env.load_error code) [
      | none ↦ push (chunk code)
      | some message ↦ λ s. err (syntax (reported message) begintoken.seminfo.linebegin 0) s
    ]

  unfoldable pub embeddedcode : Bool → Bool → P (Unit {0})
  embeddedcode isterra isexp = do
    terra ← in_terra
    assert terra
    pos ← getposition
    begintoken ← current_token
    l ← lex
    set_in_terra 0
    enterblock 0
    branch isterra (self.doquote isexp) (branch isexp (expr env self) (statlist env self))
    leaveblock env
    set_in_terra l.in_terra
    load_chunk (isexp || isterra) begintoken
    push_boolean isexp
    new_object "luaexpression" 2 pos

  unfoldable pub lhsexp : P (Unit {0})
  lhsexp = do t ← token; branch (t == b'@') (expr env self) (primaryexp env self)

  unfoldable pub assignment : ℕ → ℕ → P (Unit {0})
  assignment nvars lhs = do
    comma ← testnext env b','
    branch comma
        (do
          returns 1 lhsexp
          add_entry lhs
          s ← get
          checklimit (nvars + s.c_calls) maxccalls "C levels"
          returns 0 (self.assignment (nvars + 1) lhs))
        (do
          checknext env b'='
          pos ← getposition
          returns 1 (explist env self)
          new_object "assignment" 2 pos)

  unfoldable pub cond : P (Unit {0})
  cond = returns 1 (expr env self)

  unfoldable pub gotostat : P (Unit {0})
  gotostat = do
    pos ← getposition
    goto ← testnext env tk_goto
    branch goto (checksymbol env self >> new_object "gotostat" 1 pos)
        (new_object "breakstat" 0 pos >> next env)

  unfoldable pub labelstat : P (Unit {0})
  labelstat = do
    check_terra "goto labels"
    pos ← getposition
    returns 1 (checksymbol env self)
    checknext env tk_dbcolon
    new_object "label" 1 pos

  unfoldable pub casestat : P (Unit {0})
  casestat = do
    start ← starttoken
    when (not (start == tk_switch) && not (start == tk_quote)) (syntaxerror case_outside_switch)
    pos ← getposition
    next env
    enterblock tk_case
    expr env self
    check_match env tk_then tk_case pos.linenumber
    statlist env self
    leaveblock env
    new_object "block" 1 pos
    t ← token
    branch (t == tk_end) (next env)
        (when (not (t == tk_case || t == tk_else)) (syntaxerror case_not_terminated))
    new_object "switchcase" 2 pos

  unfoldable pub switchstat : P (Unit {0})
  switchstat = do
    check_terra "switch statement"
    pos ← getposition
    next env
    enterblock tk_switch
    returns 1 (expr env self)
    check_match env tk_do tk_switch pos.linenumber
    statlist env self
    else_part ← testnext env tk_else
    branch else_part (do enterblock 0; block env self; leaveblock env) push_nil
    check_match env tk_end tk_switch pos.linenumber
    leaveblock env
    new_object "switchstat" 3 pos

  unfoldable pub whilestat : ℕ → P (Unit {0})
  whilestat line = do
    pos ← getposition
    next env
    returns 1 cond
    enterblock 1
    checknext env tk_do
    returns 1 (block env self)
    check_match env tk_end tk_while line
    leaveblock env
    new_object "whilestat" 2 pos

  unfoldable pub repeatstat : ℕ → P (Unit {0})
  repeatstat line = do
    enterblock 1
    enterblock 0
    next env
    stmts ← new_list
    pos ← getposition
    returns 1 (statlist env self)
    check_match env tk_until tk_repeat line
    returns 1 cond
    leaveblock env
    leaveblock env
    new_object "repeatstat" 2 pos
    add_entry stmts
    new_object "block" 1 pos

  unfoldable pub forbody : P (Unit {0})
  forbody = do checknext env tk_do; enterblock 0; returns 1 (block env self); leaveblock env

  unfoldable pub fornum : Option (List ℕ) → Position → P (Unit {0})
  fornum varname p = do
    checknext env b'='
    returns 1 (expr env self)
    checknext env b','
    returns 1 (expr env self)
    step ← testnext env b','
    branch step (returns 1 (expr env self)) push_nil
    define_all (with_name varname [])
    returns 1 forbody
    new_object "fornumu" 5 p
    blk ← new_list_before
    add_entry blk
    new_object "block" 1 p

  unfoldable pub forlist : Option (List ℕ) → Position → P (Unit {0})
  forlist indexname p = do
    vars ← new_list_before
    add_entry vars
    define_all (with_name indexname [])
    loop self.fuel (do
      comma ← testnext env b','
      branch comma
          (do
            name ← vardecl env self false
            define_all (with_name name [])
            add_entry vars
            pure true)
          (pure false))
    checknext env tk_in
    terra ← in_terra
    branch terra (returns 1 (expr env self)) (returns 1 (explist env self))
    returns 1 forbody
    new_object "forlist" 3 p

  unfoldable pub forstat : Position → P (Unit {0})
  forstat p = do
    enterblock 1
    next env
    varname ← vardecl env self false
    t ← token
    branch (t == b'=') (returns 0 (fornum varname p))
        (branch (t == b',' || t == tk_in) (returns 0 (forlist varname p)) (syntaxerror in_expected))
    check_match env tk_end tk_for p.linenumber
    leaveblock env

  unfoldable pub test_then_block : P (Unit {0})
  test_then_block = do
    next env
    p ← getposition
    returns 1 cond
    checknext env tk_then
    returns 1 (block env self)
    new_object "ifbranch" 2 p

  unfoldable pub ifstat : ℕ → P (Unit {0})
  ifstat line = do
    p ← getposition
    branches ← new_list
    returns 1 test_then_block
    add_entry branches
    loop self.fuel (do
      t ← token
      branch (t == tk_elseif) (do returns 1 test_then_block; add_entry branches; pure true)
          (pure false))
    else_part ← testnext env tk_else
    branch else_part (returns 1 (block env self)) push_nil
    check_match env tk_end tk_if line
    new_object "ifstat" 2 p
