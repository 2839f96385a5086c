-- ===== src/Parser/Frames/Extensions.antt =====
-- src/lparser.cpp: the sizes behind language extensions.
use terra.Common.{ℕ, suc, Bool, Option, none, some, List, [], ◌∷◌, ◌++◌, ◌==◌, not, ◌&&◌}
use terra.Parser.State.{
  Tree, reported, PState, P, ◌>>=◌, ◌>>◌, pure, get, put, failed, lex, when, assert, position,
}
use terra.Parser.Frames.{sizes, Above, Has, Returns, From, Keeps, depth}
use terra.Parser.Frames.Binds.{From-bind, keep-then, push-then, Keeps-by}
use terra.Token.{codes}
use terra.Lexer.State.{Token}
use terra.Lexer.Numeral.{c_str}
use terra.Parser.Stack.{push, store_value, gettop}
use terra.Parser.Env.{Lua, Import, imported, import_error}
use terra.Parser.Output.{
  print, print_text, tree_text, patchbegin, patchend, print_name_list, print_captured_locals,
}
use terra.Parser.Rules.{Rules, current_token, next, text_of_token, lookahead, leaveterra}
use terra.Parser.Frames.Basic.{get-Keeps, lex-Keeps, current_token-Keeps, syntaxerror-From}
use terra.Parser.Frames.Trees.{push-From}
use terra.Parser.Frames.Checks.{
  next_token-Keeps, lookahead-Keeps, text_of_token-Keeps, print_name_list-Keeps,
}
use terra.Parser.Frames.Steps.{enterterra-then}
use terra.Parser.Frames.Rules.{steps, parts, Good}
use terra.Parser.Frames.Within.{print_captured_locals-Keeps}
use terra.Parser.Frames.Definitions.{reference_all-Keeps, intern_names-Keeps, define_first-Keeps}
use terra.Parser.Env
use terra.Parser.Env.{Script, finished, raised, cur, look, embedded}
use terra.Parser.Definitions.{
  expression_of, take_expression, run, reference_all, intern_names, define_first, is_none,
  languageextension,
}
use terra.Parser.Frames.Stack.{stack-Has, Above-pop}
use terra.Parser.Frames.Trees.{push-From}

module _ (env : Lua) (self : Rules) where
  taken :
      (base : List Tree) (it lv pt bk : ℕ) (fs : List ℕ) (n : ℕ) (s : PState) (v : Tree)
      (below : List Tree) (o : Option Tree)
      → Has base (sizes (suc it) lv pt bk fs (suc n)) s
      → Above (suc n) base (v ∷ below)
      → Returns base (sizes (suc it) lv pt bk fs n) (
          elim o as (λ x. P Tree) [
            | none ↦ failed
            | some expression ↦ put (record s { stack = below }) >> pure expression
          ]
            s)
  taken base it lv pt bk fs n s v below none h a = tt
  taken base it lv pt bk fs n s v below (some expression) h a =
      stack-Has base (suc it) lv pt bk fs (suc n) n s below h
        (unfold depth in Above-pop n base below v a)

  taken_top :
      (base : List Tree) (it lv pt bk : ℕ) (fs : List ℕ) (n : ℕ) (s : PState) (st : List Tree)
      → Has base (sizes (suc it) lv pt bk fs (suc n)) s
      → Above (suc n) base st
      → Returns base (sizes (suc it) lv pt bk fs n) (
          elim st as (λ x. P Tree) [
            | [] ↦ failed
            | v ∷ below ↦ elim (expression_of v) as (λ x. P Tree) [
              | none ↦ failed
              | some expression ↦ put (record s { stack = below }) >> pure expression
            ]
          ]
            s)
  taken_top base it lv pt bk fs n s [] h a = tt
  taken_top base it lv pt bk fs n s (v ∷ below) h a =
      taken base it lv pt bk fs n s v below (expression_of v) h a

  take_expression-From :
      (base : List Tree) (it lv pt bk : ℕ) (fs : List ℕ) (n : ℕ)
      → From base
          (sizes (suc it) lv pt bk fs (suc n))
          (sizes (suc it) lv pt bk fs n)
          (take_expression env self)
  unfolding take_expression
  take_expression-From base it lv pt bk fs n = record {
    at = λ s h. taken_top base it lv pt bk fs n s s.stack h (unfold depth in h.above);
  }

module _ (env : Lua) (self : Rules) (good : Good self) where
  -- Every expression that an extension gets is taken from the stack again.
  run-From :
      (script : Script) (base : List Tree) (it lv pt bk : ℕ) (fs : List ℕ) (n : ℕ)
      → From base
          (sizes (suc it) lv pt bk fs n)
          (sizes (suc it) lv pt bk fs n)
          (run env self script)
  unfolding run
  run-From (finished references names result) base it lv pt bk fs n = record { at = λ s h. h }
  run-From (raised message) base it lv pt bk fs n = syntaxerror-From base _ _ (reported message)
  run-From (Env.next k) base it lv pt bk fs n =
      keep-then base _ _ (next env) _ (next_token-Keeps env.numbers)
        λ _. run-From k base it lv pt bk fs n
  run-From (cur k) base it lv pt bk fs n =
      keep-then base _ _ lex _ lex-Keeps λ l. run-From (k l.t (position l)) base it lv pt bk fs n
  run-From (look k) base it lv pt bk fs n =
      keep-then base _ _ (lookahead env) _ (lookahead-Keeps env.numbers)
        λ _. keep-then base _ _ lex _ lex-Keeps λ l. run-From (k l.lookahead) base it lv pt bk fs n
  run-From (embedded isterra isexp k) base it lv pt bk fs n =
      push-then base (suc it) lv pt bk fs n _ (self.embeddedcode isterra isexp) _
        (good.embeddedcode isterra isexp)
        λ _.
          From-bind base _ _ _ (take_expression env self) _
            (take_expression-From env self base it lv pt bk fs n)
            λ expression. run-From (k expression) base it lv pt bk fs n

  -- `languageextension` behind the push of the function
  abbrev announced : Bool → Bool → Token → PState → List (List (List ℕ)) → P (Unit {0})
  announced isstatement islocal begin s names = do
    n ← store_value
    captured ← leaveterra env
    begin' ← patchbegin begin
    when (isstatement && not (is_none env self names))
        (do print_name_list names; when islocal (define_first env self names); print_text " = ")
    print (tree_text (some n) ++ codes "(")
    print_captured_locals (env.order captured)
    print_text ")"
    patchend begin'
    s' ← get
    assert (gettop s' == gettop s)

  announced-From :
      (isstatement islocal : Bool) (begin : Token) (s : PState) (names : List (List (List ℕ)))
      (base : List Tree) (it lv pt bk : ℕ) (fs : List ℕ) (n : ℕ)
      → From base
          (sizes (suc it) lv (suc pt) (suc bk) fs (suc (depth it n)))
          (sizes it lv pt bk fs n)
          (announced isstatement islocal begin s names)
  announced-From isstatement islocal begin s names base it lv pt bk fs n =
      search (steps, parts, print_name_list-Keeps, define_first-Keeps, print_captured_locals-Keeps)
        depth 40 fits 8000

  extended-From :
      (isstatement islocal : Bool) (begin : Token) (s : PState)
      (found : List (List ℕ) × List (List (List ℕ)) × Tree) (base : List Tree) (it lv pt bk : ℕ)
      (fs : List ℕ) (n : ℕ)
      → From base (sizes (suc it) lv (suc pt) (suc bk) fs (depth it n)) (sizes it lv pt bk fs n) (do
        reference_all env self found.0
        intern_names env self found.1
        push found.2
        announced isstatement islocal begin s found.1)
  extended-From isstatement islocal begin s found base it lv pt bk fs n =
      keep-then base _ _ (reference_all env self found.0) _ (reference_all-Keeps env self found.0)
        λ _.
          keep-then base _ _ (intern_names env self found.1) _ (intern_names-Keeps env self found.1)
            λ _.
              From-bind base _ _ _ (push found.2) _
                (push-From base it lv (suc pt) (suc bk) fs (depth it n) found.2)
                λ _. announced-From isstatement islocal begin s found.1 base it lv pt bk fs n

  pub languageextension-Keeps :
      (isstatement islocal : Bool) → Keeps (languageextension env self isstatement islocal)
  unfolding languageextension
  languageextension-Keeps isstatement islocal = Keeps-by _ λ base it lv pt bk fs n.
      keep-then base _ _ current_token _ current_token-Keeps λ begin.
        enterterra-then env.unimportlanguages base _ it lv pt bk fs n _ λ _.
          keep-then base _ _ get _ get-Keeps λ s.
            keep-then base _ _ (text_of_token env) _ (text_of_token-Keeps env.numbers) λ entry.
              From-bind base _ _ _ _ _
                (run-From (env.runlanguage (c_str entry) isstatement islocal) base it lv (suc pt)
                  (suc bk) fs (depth it n))
                λ found. extended-From isstatement islocal begin s found base it lv pt bk fs n
