-- ===== src/Parser/Frames/Statements.antt =====
-- src/lparser.cpp: the sizes behind the statements.
use terra.Common.{ℕ, suc, Bool, Option, none, some, List, ◌||◌}
use terra.Parser.State.{
  Tree, Position, reported, err, P, ◌>>=◌, ◌>>◌, lex, branch, assert, getposition,
}
use terra.Parser.Frames.{sizes, From, Pushes, Replaces, Inside}
use terra.Parser.Frames.Binds.{From-bind, keep-then, loop-then, push-then}
use terra.Lexer.State.{Token}
use terra.Parser.Stack.{push, push_boolean, new_object}
use terra.Parser.Scopes.{enterblock}
use terra.Parser.Env.{Lua}
use terra.Parser.Output.{set_in_terra}
use terra.Parser.Rules.{Rules, current_token, leaveblock, expr, statlist}
use terra.Parser.Frames.Basic.{lex-Keeps, current_token-Keeps, getposition-Keeps}
use terra.Parser.Frames.Trees.{push-From, push_boolean-Pushes}
use terra.Parser.Frames.Returning.{returns-Pushes}
use terra.Parser.Frames.Blocks.{leaveblock-From}
use terra.Parser.Frames.Steps.{enterblock-then, object2-end}
use terra.Parser.Frames.InLua.{Pushes-InLua, lua-then, InLua}
use terra.Parser.Frames.Rules.{
  steps, parts, loop-From, expr-Pushes, checksymbol-Pushes, statlist-Pushes, block-Pushes, Good,
}
use terra.Parser.Frames.Functions.{define_all-Keeps, vardecl-Pushes, explist-Pushes}
use terra.Parser.Frames.Within.{within3-then}
use terra.Parser.Frames.Primary.{primaryexp-Pushes}
use terra.Parser.State.{chunk, syntax}
use terra.Parser.Statements.{
  load_chunk, embeddedcode, lhsexp, assignment, cond, gotostat, labelstat, casestat, switchstat,
  whilestat, repeatstat, forbody, fornum, forlist, forstat, test_then_block, ifstat,
}
use terra.Parser.Frames.Stack.{from_terra}
use terra.Parser.Frames.InLua.{InLua-branch, lua-then}
use terra.Parser.Frames.Trees.{push-From}

module _ (env : Lua) (self : Rules) where
  -- in Terra code
  loaded-From :
      (line : ℕ) (code : List ℕ) (base : List Tree) (it lv pt bk : ℕ) (fs : List ℕ) (n : ℕ)
      (o : Option (List ℕ))
      → From base
          (sizes (suc it) lv pt bk fs n)
          (sizes (suc it) lv pt bk fs (suc n))
          (elim o as (λ x. P (Unit {0})) [
            | none ↦ push (chunk code)
            | some message ↦ λ s. err (syntax (reported message) line 0) s
          ])
  loaded-From line code base it lv pt bk fs n none = push-From base it lv pt bk fs n (chunk code)
  loaded-From line code base it lv pt bk fs n (some message) = record { at = λ s h. tt }

  load_chunk-From :
      (isexpression : Bool) (begintoken : Token) (base : List Tree) (it lv pt bk : ℕ) (fs : List ℕ)
      (n : ℕ)
      → From base
          (sizes (suc it) lv pt bk fs n)
          (sizes (suc it) lv pt bk fs (suc n))
          (load_chunk env self isexpression begintoken)
  unfolding load_chunk
  load_chunk-From isexpression begintoken base it lv pt bk fs n =
      keep-then base _ _ lex _ lex-Keeps
        λ l. loaded-From begintoken.seminfo.linebegin _ base it lv pt bk fs n (env.load_error _)

module _ (env : Lua) (self : Rules) (good : Good self) where
  lua_code-InLua :
      (isterra isexp : Bool)
      → InLua
          (branch isterra (self.doquote isexp) (branch isexp (expr env self) (statlist env self)))
  lua_code-InLua isterra isexp =
      search (InLua-branch, Pushes-InLua, good.doquote, expr-Pushes, statlist-Pushes) depth 10

  lua_block-From :
      (isterra isexp : Bool) (lv pt bk : ℕ) (fs : List ℕ) (base : List Tree)
      → From base (sizes 0 lv pt bk fs 0) (sizes 0 lv pt bk fs 0) (
          enterblock 0 >>= λ _.
          branch isterra (self.doquote isexp) (branch isexp (expr env self) (statlist env self))
          >>= λ _. leaveblock env)
  lua_block-From isterra isexp lv pt bk fs base = enterblock-then base _ 0 lv pt bk fs 0 0 _ λ _.
      lua-then base lv pt (suc bk) fs 0 _ _ _ (lua_code-InLua isterra isexp)
        λ _. leaveblock-From env.unimportlanguages base 0 lv pt bk fs 0

  -- `embeddedcode` behind the assertion
  abbrev embedded_rest : Bool → Bool → P (Unit {0})
  embedded_rest isterra isexp = do
    pos ← getposition
    begintoken ← current_token
    l ← lex
    set_in_terra 0
    enterblock 0
    branch isterra (self.doquote isexp) (branch isexp (expr env self) (statlist env self))
    leaveblock env
    set_in_terra l.in_terra
    load_chunk env self (isexp || isterra) begintoken
    push_boolean isexp
    new_object "luaexpression" 2 pos

  embedded-From :
      (isterra isexp : Bool) (base : List Tree) (it lv pt bk : ℕ) (fs : List ℕ) (n : ℕ)
      → From base
          (sizes (suc it) lv pt bk fs n)
          (sizes (suc it) lv pt bk fs (suc n))
          (embedded_rest isterra isexp)
  embedded-From isterra isexp base it lv pt bk fs n =
      keep-then base _ _ getposition _ getposition-Keeps λ pos.
        keep-then base _ _ current_token _ current_token-Keeps λ begintoken.
          within3-then base _ (suc it) 0 lv pt bk fs n (enterblock 0)
            (λ _.
              branch isterra (self.doquote isexp)
                (branch isexp (expr env self) (statlist env self)))
            (λ _. leaveblock env) _ (lua_block-From isterra isexp lv pt bk fs)
            λ _.
              From-bind base _ _ _ _ _
                (load_chunk-From env self (isexp || isterra) begintoken base it lv pt bk fs n)
                λ _.
                  push-then base (suc it) lv pt bk fs (suc n) _ (push_boolean isexp) _
                    (push_boolean-Pushes isexp)
                    λ _. object2-end base (suc it) lv pt bk fs n "luaexpression" pos

  pub embeddedcode-Pushes : (isterra isexp : Bool) → Pushes (embeddedcode env self isterra isexp)
  unfolding embeddedcode
  embeddedcode-Pushes isterra isexp = record {
    pushes = λ base it lv pt bk fs n.
        from_terra base it lv pt bk fs n (suc n)
          (λ terra. assert terra >>= λ _. embedded_rest isterra isexp) (record { at = λ s h. tt })
          λ it' e. embedded-From isterra isexp base it' lv pt bk fs n;
  }

  pub lhsexp-Pushes : Pushes (lhsexp env self)
  unfolding lhsexp
  lhsexp-Pushes = record {
    pushes =
        λ base it lv pt bk fs n. search (steps, parts, expr-Pushes, primaryexp-Pushes) depth 20;
  }

  pub assignment-From :
      (base : List Tree) (it lv pt bk : ℕ) (fs : List ℕ) (n nvars lhs : ℕ)
      → Inside base it lhs
      → From base
          (sizes it lv pt bk fs (suc n))
          (sizes it lv pt bk fs (suc n))
          (assignment env self nvars lhs)
  unfolding assignment
  assignment-From base it lv pt bk fs n nvars lhs i =
      search (steps, parts, lhsexp-Pushes, explist-Pushes, good.assignment) depth 40 fits 8000

  cond-Pushes : Pushes (cond env self)
  unfolding cond
  cond-Pushes = returns-Pushes 1 (expr env self) (expr-Pushes env self good)

  pub gotostat-Pushes : Pushes (gotostat env self)
  unfolding gotostat
  gotostat-Pushes = record {
    pushes = λ base it lv pt bk fs n. search (steps, parts, checksymbol-Pushes) depth 30;
  }

  pub labelstat-Pushes : Pushes (labelstat env self)
  unfolding labelstat
  labelstat-Pushes = record {
    pushes = λ base it lv pt bk fs n. search (steps, parts, checksymbol-Pushes) depth 30;
  }

  pub casestat-Pushes : Pushes (casestat env self)
  unfolding casestat
  casestat-Pushes = record {
    pushes = λ base it lv pt bk fs n.
        search (steps, parts, expr-Pushes, statlist-Pushes) depth 40 fits 8000;
  }

  pub switchstat-Pushes : Pushes (switchstat env self)
  unfolding switchstat
  switchstat-Pushes = record {
    pushes = λ base it lv pt bk fs n.
        search (steps, parts, expr-Pushes, statlist-Pushes, block-Pushes) depth 40 fits 8000;
  }

  pub whilestat-Pushes : (line : ℕ) → Pushes (whilestat env self line)
  unfolding whilestat
  whilestat-Pushes line = record {
    pushes = λ base it lv pt bk fs n.
        search (steps, parts, cond-Pushes, block-Pushes) depth 40 fits 8000;
  }

  pub repeatstat-Pushes : (line : ℕ) → Pushes (repeatstat env self line)
  unfolding repeatstat
  repeatstat-Pushes line = record {
    pushes = λ base it lv pt bk fs n.
        search (steps, parts, cond-Pushes, statlist-Pushes) depth 40 fits 8000;
  }

  forbody-Pushes : Pushes (forbody env self)
  unfolding forbody
  forbody-Pushes = record {
    pushes = λ base it lv pt bk fs n. search (steps, parts, block-Pushes) depth 40 fits 8000;
  }

  fornum-Replaces :
      (varname : Option (List ℕ)) (p : Position) → Replaces (fornum env self varname p)
  unfolding fornum
  fornum-Replaces varname p = record {
    replaces = λ base it lv pt bk fs n.
        search (steps, parts, expr-Pushes, forbody-Pushes, define_all-Keeps) depth 40 fits 20000;
  }

  forlist-Replaces :
      (indexname : Option (List ℕ)) (p : Position) → Replaces (forlist env self indexname p)
  unfolding forlist
  forlist-Replaces indexname p = record {
    replaces = λ base it lv pt bk fs n.
        search
          (
            steps, parts, loop-then, loop-From, vardecl-Pushes, expr-Pushes, explist-Pushes,
            forbody-Pushes, define_all-Keeps,
          )
          depth 40 fits 20000;
  }

  pub forstat-Pushes : (p : Position) → Pushes (forstat env self p)
  unfolding forstat
  forstat-Pushes p = record {
    pushes = λ base it lv pt bk fs n.
        search (steps, parts, vardecl-Pushes, fornum-Replaces, forlist-Replaces) depth 40 fits 8000;
  }

  test_then_block-Pushes : Pushes (test_then_block env self)
  unfolding test_then_block
  test_then_block-Pushes = record {
    pushes = λ base it lv pt bk fs n.
        search (steps, parts, cond-Pushes, block-Pushes) depth 40 fits 8000;
  }

  pub ifstat-Pushes : (line : ℕ) → Pushes (ifstat env self line)
  unfolding ifstat
  ifstat-Pushes line = record {
    pushes = λ base it lv pt bk fs n.
        search (steps, parts, loop-then, loop-From, test_then_block-Pushes, block-Pushes) depth 40
          fits 20000;
  }
