-- ===== src/Parser/Frames/Constructors.antt =====
-- src/lparser.cpp: the sizes behind constructors and structs.
use terra.Common.{ℕ, zero, suc, Bool, true, false, Option, none, some, List, ◌==◌}
use terra.Parser.State.{
  Tree, Position, unexpected_symbol, PState, P, pure, failed, branch, token, syntaxerror,
}
use terra.Parser.Frames.{Shape, sizes, Has, Returns, From, Keeps, Pushes, Replaces, Inside}
use terra.Parser.Frames.Binds.{keep-then, loop-then, push-then, From-branch}
use terra.Parser.Stack.{returns}
use terra.Parser.Env.{Lua}
use terra.Parser.Rules.{Rules, testnext}
use terra.Parser.Frames.Basic.{pure-Keeps, token-Keeps, exhausted-From}
use terra.Parser.Frames.Returning.{returns-Pushes}
use terra.Parser.Frames.Checks.{testnext-Keeps}
use terra.Parser.Frames.Steps.{entry-then}
use terra.Parser.Frames.Rules.{
  steps, parts, From-choose, loop-From, expr-Pushes, luaexpr-Pushes, terratype-Pushes,
  checksymbol-Pushes, yindex-Pushes, Good,
}
use terra.Parser.Constructors.{
  ConsControl, is_luaexpression, check_luaexpression, recfield_value, recfield, listfield, field,
  fields, constructor, structfield, structbody_round, structbody, structconstructor,
}

tested :
    (base : List Tree) (S : Shape) (s : PState) (o : Option Bool)
    → Has base S s
    → Returns base S (
        elim o as (λ x. P (Unit {0})) [
          | none ↦ failed
          | some true ↦ pure tt
          | some false ↦ syntaxerror unexpected_symbol
        ]
          s)
tested base S s none h = tt
tested base S s (some true) h = h
tested base S s (some false) h = tt

check_luaexpression-Keeps : Keeps check_luaexpression
unfolding check_luaexpression
check_luaexpression-Keeps = record {
  keeps = λ base S. record { at = λ s h. tested base S s (is_luaexpression s) h };
}

module _ (env : Lua) (self : Rules) (good : Good self) where
  recfield_value-Replaces :
      (pos : Position) (items : ConsControl) → Replaces (recfield_value env self pos items)
  unfolding recfield_value
  recfield_value-Replaces pos items = record {
    replaces = λ base it lv pt bk fs n. search (steps, parts, expr-Pushes) depth 40 fits 8000;
  }

  recfield-Pushes : (items : ConsControl) → Pushes (recfield env self items)
  unfolding recfield
  recfield-Pushes items = record {
    pushes = λ base it lv pt bk fs n.
        search
          (
            steps, parts, expr-Pushes, checksymbol-Pushes, yindex-Pushes, recfield_value-Replaces,
            check_luaexpression-Keeps,
          )
          depth 40 fits 8000;
  }

  listfield-Pushes : (items : ConsControl) → Pushes (listfield env self items)
  unfolding listfield
  listfield-Pushes items = record {
    pushes = λ base it lv pt bk fs n. search (steps, parts, expr-Pushes) depth 40 fits 8000;
  }

  field-Pushes : (items : ConsControl) → Pushes (field env self items)
  unfolding field
  field-Pushes items = record {
    pushes = λ base it lv pt bk fs n.
        search (steps, parts, recfield-Pushes, listfield-Pushes) depth 40 fits 8000;
  }

  fields-From :
      (base : List Tree) (it lv pt bk : ℕ) (fs : List ℕ) (n fuel records : ℕ) (items : ConsControl)
      → Inside base it records
      → From base
          (sizes it lv pt bk fs (suc n))
          (sizes it lv pt bk fs (suc n))
          (fields env self fuel records items)
  unfolding fields
  fields-From base it lv pt bk fs n zero records items i = exhausted-From base _ _
  fields-From base it lv pt bk fs n (suc fuel) records items i =
      let S = sizes it lv pt bk fs (suc n) in
      keep-then base S S token _ token-Keeps λ t.
        From-branch base S S (t == b'}') (pure tt) _ ((pure-Keeps tt).keeps base S) (
          push-then base it lv pt bk fs (suc n) S (returns 1 (field env self items)) _
            (returns-Pushes 1 (field env self items) (field-Pushes items))
            λ items'. entry-then base S it lv pt bk fs n records _ i λ _.
              keep-then base S S (testnext env b',') _ (testnext-Keeps env.numbers b',') λ comma.
                keep-then base S S (branch comma (pure true) (testnext env b';')) _
                  (search parts depth 10)
                  λ more.
                    From-choose base S S more (fields env self fuel records items') (pure tt)
                      (fields-From base it lv pt bk fs n fuel records items' i)
                      ((pure-Keeps tt).keeps base S))

  pub constructor-Pushes : Pushes (constructor env self)
  unfolding constructor
  constructor-Pushes = record {
    pushes =
        λ base it lv pt bk fs n. search (steps, parts, loop-then, fields-From) depth 40 fits 8000;
  }

  structfield-Pushes : Pushes (structfield env self)
  unfolding structfield
  structfield-Pushes = record {
    pushes = λ base it lv pt bk fs n. search (steps, parts, terratype-Pushes) depth 40 fits 8000;
  }

  structbody_round-From :
      (base : List Tree) (it lv pt bk : ℕ) (fs : List ℕ) (n records : ℕ)
      → Inside base it records
      → From base
          (sizes it lv pt bk fs (suc n))
          (sizes it lv pt bk fs (suc n))
          (structbody_round env self records)
  unfolding structbody_round
  structbody_round-From base it lv pt bk fs n records i =
      search (steps, parts, structfield-Pushes) depth 40 fits 8000

  pub structbody-Pushes : Pushes (structbody env self)
  unfolding structbody
  structbody-Pushes = record {
    pushes = λ base it lv pt bk fs n.
        search (steps, parts, loop-then, loop-From, structbody_round-From) depth 40 fits 8000;
  }

  pub structconstructor-Pushes : Pushes (structconstructor env self)
  unfolding structconstructor
  structconstructor-Pushes = record {
    pushes = λ base it lv pt bk fs n.
        search (steps, parts, luaexpr-Pushes, structbody-Pushes) depth 40 fits 8000;
  }
