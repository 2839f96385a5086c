-- ===== src/Parser/Frames/Primary.antt =====
-- src/lparser.cpp: the sizes behind quotes and primary expressions.
use terra.Common.{ℕ, suc, refl, Bool, true, false, some, List, [], ◌∷◌, ◌++◌}
use terra.Parser.State.{
  Tree, Position, P, ◌>>=◌, ◌>>◌, pure, get, failed, lex, when, branch, modify_lex, getposition,
}
use terra.Parser.Frames.{sizes, From, Keeps, Pushes, Replaces}
use terra.Parser.Frames.Binds.{keep-then, Keeps-bind, push-end}
use terra.Token.{codes, tk_end, tk_in, tk_quote}
use terra.Lexer.Patch.{insertbeforecurrenttoken}
use terra.Parser.Stack.{returns, new_list, push_boolean, new_object, store_value}
use terra.Parser.Scopes.{enterblock}
use terra.Parser.Env.{Lua}
use terra.Parser.Output.{print, print_text, tree_text, patchbegin, patchend, print_captured_locals}
use terra.Parser.Rules.{
  Rules, current_token, next, testnext, check_match, leaveblock, enterterra, leaveterra, expr,
  statlist,
}
use terra.Parser.Frames.Basic.{get-Keeps, token-Keeps, failed-Keeps, modify_lex-Keeps}
use terra.Parser.Frames.Returning.{returns-Pushes}
use terra.Parser.Frames.InLua.{lua_only-Pushes, InLua}
use terra.Parser.Frames.Rules.{
  steps, parts, loop-From, singlevar-Pushes, expr-Pushes, luaexpr-Pushes, checksymbol-Pushes,
  yindex-Pushes, statlist-Pushes, Good,
}
use terra.Parser.Frames.Constructors.{constructor-Pushes}
use terra.Parser.Frames.Functions.{explist-Pushes}
use terra.Parser.Frames.Within.{print_captured_locals-Keeps}
use terra.Parser.Functions.{explist}
use terra.Parser.Primary.{
  starts_quote, funcargs, prefixexp, issplitprimary, apply, primary_round, primaryexp, quoted,
  print_current_locals, doquote, blockescape,
}

module _ (env : Lua) (self : Rules) where
  pub print_current_locals-Keeps : Keeps (print_current_locals env self)
  unfolding print_current_locals
  print_current_locals-Keeps = Keeps-bind get _ get-Keeps λ s.
      elim s.terracnt
        as (λ parts. Keeps (elim parts as (λ x. P (Unit {0})) [
          | [] ↦ failed
          | captured ∷ outer ↦ print_captured_locals (env.order captured)
        ])) [
          | [] ↦ failed-Keeps
          | captured ∷ outer ↦ print_captured_locals-Keeps (env.order captured)
        ]

module _ (env : Lua) (self : Rules) (good : Good self) where
  funcargs-Pushes : (line : ℕ) → Pushes (funcargs env self line)
  unfolding funcargs
  funcargs-Pushes line = record {
    pushes = λ base it lv pt bk fs n.
        search (steps, parts, explist-Pushes, constructor-Pushes, good.doquote) depth 40 fits 20000;
  }

  prefixexp-Pushes : Pushes (prefixexp env self)
  unfolding prefixexp
  prefixexp-Pushes = record {
    pushes = λ base it lv pt bk fs n.
        search (steps, parts, expr-Pushes, luaexpr-Pushes, singlevar-Pushes) depth 40 fits 20000;
  }

  issplitprimary-Keeps : Keeps (issplitprimary env self)
  unfolding issplitprimary
  issplitprimary-Keeps =
      let split : Keeps (modify_lex λ l. insertbeforecurrenttoken l b';') =
        modify_lex-Keeps (λ l. insertbeforecurrenttoken l b';')
          (λ l. unfold insertbeforecurrenttoken in refl) in
      search parts depth 40

  apply-Replaces : (line : ℕ) (p : Position) → Replaces (apply env self line p)
  unfolding apply
  apply-Replaces line p = record {
    replaces = λ base it lv pt bk fs n. search (steps, parts, funcargs-Pushes) depth 40;
  }

  primary_round-Replaces : (line : ℕ) (p : Position) → Replaces (primary_round env self line p)
  unfolding primary_round
  primary_round-Replaces line p = record {
    replaces = λ base it lv pt bk fs n.
        search
          (
            steps, parts, checksymbol-Pushes, yindex-Pushes, funcargs-Pushes, issplitprimary-Keeps,
            apply-Replaces,
          )
          depth 40 fits 20000;
  }

  pub primaryexp-Pushes : Pushes (primaryexp env self)
  unfolding primaryexp
  primaryexp-Pushes = record {
    pushes = λ base it lv pt bk fs n.
        search (steps, parts, prefixexp-Pushes, loop-From, primary_round-Replaces) depth 40;
  }

  quoted_block-From :
      (isfullquote : Bool) (begin line : ℕ) (base : List Tree) (it lv pt bk : ℕ) (fs : List ℕ)
      (n : ℕ)
      → From base (sizes it lv pt bk fs n) (sizes it lv pt bk fs (suc n)) (do
        enterblock begin
        p ← getposition
        returns 1 (statlist env self)
        result ← branch isfullquote (testnext env tk_in) (pure false)
        branch result (returns 1 (explist env self)) (new_list >> pure tt)
        push_boolean true
        when isfullquote (check_match env tk_end tk_quote line)
        leaveblock env
        new_object "letin" 3 p)
  quoted_block-From isfullquote begin line base it lv pt bk fs n =
      search (steps, parts, statlist-Pushes, explist-Pushes) depth 40 fits 20000

  quoted-Pushes :
      (isexp isfullquote : Bool) (begin line : ℕ)
      → Pushes (quoted env self isexp isfullquote begin line)
  unfolding quoted
  quoted-Pushes true isfullquote begin line =
      returns-Pushes 1 (expr env self) (expr-Pushes env self good)
  quoted-Pushes false isfullquote begin line = record {
    pushes = quoted_block-From isfullquote begin line;
  }

  quote-InLua :
      (isexp : Bool) (t : ℕ)
      → InLua (do
        enterterra env
        begin ← current_token
        l ← lex
        when (starts_quote t) (next env)
        quoted env self isexp (starts_quote t) begin.token l.linenumber
        begin' ← patchbegin begin
        id ← store_value
        print (codes "(terra.definequote(" ++ (tree_text (some id) ++ codes ","))
        print_current_locals env self
        print_text "))"
        patchend begin'
        leaveterra env
        pure tt)
  quote-InLua isexp t = record {
    in_lua = λ base lv pt bk fs n.
        search (steps, parts, quoted-Pushes, print_current_locals-Keeps) depth 40 fits 20000;
  }

  pub doquote-Pushes : (isexp : Bool) → Pushes (doquote env self isexp)
  unfolding doquote
  doquote-Pushes isexp = record {
    pushes = λ base it lv pt bk fs n.
        search (keep-then, token-Keeps, push-end, lua_only-Pushes, quote-InLua) depth 40;
  }

  pub blockescape-Pushes : Pushes (blockescape env self)
  unfolding blockescape
  blockescape-Pushes = record {
    pushes = λ base it lv pt bk fs n. search (steps, parts, good.embeddedcode) depth 40;
  }
