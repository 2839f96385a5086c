-- ===== src/Parser/Frames/Rules.antt =====
-- src/lparser.cpp: what the grammar's functions that are called through the record leave, and those they share.
use terra.Common.{ℕ, zero, suc, Bool, true, false, List}
use terra.Parser.State.{Tree, P, pure}
use terra.Parser.Frames.{Shape, sizes, From, Keeps, Pushes, Inside}
use terra.Parser.Frames.Binds.{
  branch-then, bind-then, Pushes-by, Returns-bind, From-bind, keep-then, loop-then, push-then,
  replace-then, Keeps-bind, From-branch, keep-end, push-end, replace-end, Keeps-branch,
  Pushes-branch, Pushes-by, Replaces-branch, From-when,
}
use terra.Parser.Env.{Lua}
use terra.Parser.Rules.{
  Rules, loop, singlevar, expr, luaexpr, terratype, checksymbol, yindex, statlist, block,
}
use terra.Parser.Frames.Basic.{
  Has-lex, pure-Keeps, get-Keeps, lex-Keeps, token-Keeps, current_token-Keeps, getposition-Keeps,
  in_terra-Keeps, failed-From, exhausted-From, syntaxerror-From, syntaxerror-Keeps,
  syntaxerror-Pushes, failed-Keeps, when-Keeps, assert-Keeps, lift-Keeps, modify_lex-Keeps,
  syntaxerror-then, lex-then,
}
use terra.Parser.Frames.Trees.{
  push_string-Pushes, push_boolean-Pushes, push_nil-Pushes, push_double-Pushes, push_integer-Pushes,
  new_object-From,
}
use terra.Parser.Frames.Entries.{
  add_entry-From, add_field-From, top-Inside, second-Inside, push_string_before-From,
}
use terra.Parser.Frames.Lists.{
  new_list_before-then, new_list-then, new_list-Pushes, store_value-From, push_literal-Replaces,
}
use terra.Parser.Frames.Returning.{
  returns-From, returns-Keeps, returns-Pushes, returns-Replaces, Mixed-returns,
}
use terra.Parser.Frames.Checks.{
  check_no_terra-Keeps, check_terra-Keeps, checklimit-Keeps, check-Keeps, check_lua_operator-Keeps,
  starttoken-Keeps, block_follow-Keeps, intern-Keeps, next_token-Keeps, lookahead-Keeps,
  testnext-Keeps, checknext-Keeps, check_match-Keeps, text_of_token-Keeps, str_checkname-Keeps,
  print-Keeps, print_string-Keeps, print_char-Keeps, patchbegin-Keeps, patchend-Keeps,
  saveoutput-Keeps, name_print-Keeps, print_name_list-Keeps,
}
use terra.Parser.Frames.Scopes.{
  with_fs-Keeps, set_vararg-Keeps, linedefined-Keeps, lastlinedefined-Keeps, function-Keeps,
  with_block-Keeps, definevariable-Keeps, refvariable-Keeps,
}
use terra.Parser.Frames.Blocks.{enterblock-From, leaveblock-From, enterterra-From}
use terra.Parser.Frames.Parts.{
  leaveterra-From, open_func-From, close_func-From, enterlevel-From, leavelevel-From,
}
use terra.Parser.Frames.Steps.{
  object0-then, object1-then, object2-then, object3-then, object4-then, object5-then, entry-then,
  string_before-then, store-then, enterblock-then, enterlevel-then, leavelevel-then,
  leaveblock-then, enterterra-then, leaveterra-then, open_func-then, close_func-then, object0-end,
  object1-end, object2-end, object3-end, object4-end, object5-end,
}
use terra.Parser.Rules.{statlist_round}

-- the parts that the grammar's functions call one another through
pub record Good (self : Rules) : Type 0 where
  pub statement : Pushes self.statement
  pub subexpr : (limit : ℕ) → Pushes (self.subexpr limit)
  pub embeddedcode : (isterra isexp : Bool) → Pushes (self.embeddedcode isterra isexp)
  pub doquote : (isexp : Bool) → Pushes (self.doquote isexp)
  pub structbody : Pushes self.structbody
  pub assignment :
      (base : List Tree) (it lv pt bk : ℕ) (fs : List ℕ) (n nvars lhs : ℕ)
      → Inside base it lhs
      → From base
          (sizes it lv pt bk fs (suc n))
          (sizes it lv pt bk fs (suc n))
          (self.assignment nvars lhs)
  pub languageextension :
      (isstatement islocal : Bool) → Keeps (self.languageextension isstatement islocal)

-- by a value that a part has returned
pub From-choose :
    {A : Type 0} (base : List Tree) (S E : Shape) (b : Bool) (m k : P A)
    → From base S E m
    → From base S E k
    → From base S E (elim b [ true ↦ m | false ↦ k ])
From-choose base S E true m k h h' = h
From-choose base S E false m k h h' = h'

-- the rules for a sequence of actions, by the first one
pub ruleset steps = (
  keep-then, push-then, replace-then, object0-then, object1-then, object2-then, object3-then,
  object4-then, object5-then, entry-then, string_before-then, store-then, enterblock-then,
  enterlevel-then, leavelevel-then, leaveblock-then, enterterra-then, leaveterra-then,
  open_func-then, close_func-then, new_list-then, new_list_before-then, syntaxerror-then, bind-then,
  branch-then, From-branch, From-when, keep-end, push-end, replace-end, object0-end, object1-end,
  object2-end, object3-end, object4-end, object5-end, add_entry-From, leaveblock-From,
  leavelevel-From, returns-From, syntaxerror-From,
)

pub ruleset parts = (
  Keeps-branch, Pushes-branch, Replaces-branch, Keeps-bind, when-Keeps, pure-Keeps, get-Keeps,
  lex-Keeps, token-Keeps, current_token-Keeps, getposition-Keeps, in_terra-Keeps, assert-Keeps,
  failed-Keeps, syntaxerror-Keeps, syntaxerror-Pushes, returns-Keeps, returns-Pushes,
  returns-Replaces, check_no_terra-Keeps, check_terra-Keeps, checklimit-Keeps, check-Keeps,
  check_lua_operator-Keeps, starttoken-Keeps, block_follow-Keeps, intern-Keeps, next_token-Keeps,
  lookahead-Keeps, testnext-Keeps, checknext-Keeps, check_match-Keeps, text_of_token-Keeps,
  str_checkname-Keeps, print-Keeps, print_char-Keeps, patchbegin-Keeps, patchend-Keeps,
  saveoutput-Keeps, set_vararg-Keeps, linedefined-Keeps, lastlinedefined-Keeps, function-Keeps,
  definevariable-Keeps, refvariable-Keeps, push_string-Pushes, push_boolean-Pushes, push_nil-Pushes,
  push_double-Pushes, push_integer-Pushes, new_list-Pushes, push_literal-Replaces,
)

pub loop-From :
    (base : List Tree) (S : Shape) (fuel : ℕ) (round : P Bool)
    → From base S S round
    → From base S S (loop fuel round)
unfolding loop
loop-From base S zero round h = record { at = λ s e. tt }
loop-From base S (suc fuel) round h = From-bind base S S S round _ h λ more.
    From-choose base S S more (loop fuel round) (pure tt) (loop-From base S fuel round h)
      ((pure-Keeps tt).keeps base S)

module _ (env : Lua) where
  pub singlevar-Pushes : Pushes (singlevar env)
  unfolding singlevar
  singlevar-Pushes = record { pushes = λ base it lv pt bk fs n. search (steps, parts) depth 40 }

  module _ (self : Rules) (good : Good self) where
    pub expr-Pushes : Pushes (expr env self)
    unfolding expr
    expr-Pushes = record {
      pushes = λ base it lv pt bk fs n. search (steps, parts, good.subexpr) depth 40;
    }

    pub luaexpr-Pushes : Pushes (luaexpr env self)
    unfolding luaexpr
    luaexpr-Pushes = good.embeddedcode false true

    pub terratype-Pushes : Pushes (terratype env self)
    unfolding terratype
    terratype-Pushes = luaexpr-Pushes

    pub checksymbol-Pushes : Pushes (checksymbol env self)
    unfolding checksymbol
    checksymbol-Pushes = record {
      pushes = λ base it lv pt bk fs n. search (steps, parts, luaexpr-Pushes) depth 40;
    }

    pub yindex-Pushes : Pushes (yindex env self)
    unfolding yindex
    yindex-Pushes = record {
      pushes = λ base it lv pt bk fs n. search (steps, parts, expr-Pushes) depth 40;
    }

    pub statlist_round-From :
        (base : List Tree) (it lv pt bk : ℕ) (fs : List ℕ) (n tbl : ℕ)
        → Inside base it tbl
        → From base
            (sizes it lv pt bk fs (suc n))
            (sizes it lv pt bk fs (suc n))
            (statlist_round env self tbl)
    unfolding statlist_round
    statlist_round-From base it lv pt bk fs n tbl i = search (steps, parts) depth 40

    pub statlist-Pushes : Pushes (statlist env self)
    unfolding statlist
    statlist-Pushes = record {
      pushes =
          λ base it lv pt bk fs n. search (steps, parts, loop-From, statlist_round-From) depth 40;
    }

    pub block-Pushes : Pushes (block env self)
    unfolding block
    block-Pushes = record {
      pushes = λ base it lv pt bk fs n. search (steps, parts, statlist-Pushes) depth 40;
    }
