-- ===== src/Parser/Frames/Functions.antt =====
-- src/lparser.cpp: the sizes behind declarations, parameter lists and function bodies.
use terra.Common.{ℕ, zero, suc, Bool, true, false, some, List, [], ◌∷◌, ◌==◌, not, ◌||◌}
use terra.Parser.State.{
  Tree, Position, parameter_expected, ◌>>=◌, ◌>>◌, pure, lex, when, branch, token, syntaxerror,
  in_terra, getposition,
}
use terra.Parser.Frames.{sizes, From, Keeps, Pushes, Inside}
use terra.Parser.Frames.Binds.{keep-then, loop-then, Keeps-bind}
use terra.Token.{codes, tk_end, tk_function, tk_dots, tk_name}
use terra.Parser.Stack.{returns, push_boolean, push_nil, new_object, add_entry}
use terra.Parser.Scopes.{definevariable, with_fs}
use terra.Parser.Env.{Lua}
use terra.Parser.Rules.{
  Rules, set_vararg, function, intern, next, testnext, checknext, check_match, close_func,
  terratype, block,
}
use terra.Parser.Frames.Basic.{pure-Keeps, token-Keeps, exhausted-From}
use terra.Parser.Frames.Scopes.{linedefined-Keeps, function-Keeps, definevariable-Keeps}
use terra.Parser.Frames.Steps.{open_func-then}
use terra.Parser.Frames.Rules.{
  steps, parts, From-choose, loop-From, expr-Pushes, terratype-Pushes, checksymbol-Pushes,
  block-Pushes, Good,
}
use terra.Parser.Functions.{
  define_all, with_name, vardecl, params, parlist, body, bodyortype, explist,
}

pub define_all-Keeps : (names : List (List ℕ)) → Keeps (define_all names)
unfolding define_all
define_all-Keeps [] = pure-Keeps tt
define_all-Keeps (name ∷ names) =
    Keeps-bind (definevariable name) _ (definevariable-Keeps name) λ _. define_all-Keeps names

module _ (env : Lua) (self : Rules) (good : Good self) where
  pub vardecl-Pushes : (requiretype : Bool) → Pushes (vardecl env self requiretype)
  unfolding vardecl
  vardecl-Pushes requiretype = record {
    pushes = λ base it lv pt bk fs n.
        search (steps, parts, checksymbol-Pushes, terratype-Pushes) depth 40 fits 8000;
  }

  parameter-From :
      (base : List Tree) (it lv pt bk : ℕ) (fs : List ℕ) (n tbl t : ℕ) (vnames : List (List ℕ))
      → Inside base it tbl
      → From base (sizes it lv pt bk fs (suc n)) (sizes it lv pt bk fs (suc n)) (
          branch
            (t == tk_name || t == b'[')
            (do name ← vardecl env self true; add_entry tbl; pure (with_name name vnames))
            (branch
              (t == tk_dots)
              (next env >> set_vararg 1 >> pure vnames)
              (syntaxerror parameter_expected)))
  parameter-From base it lv pt bk fs n tbl t vnames i =
      search (steps, parts, vardecl-Pushes) depth 40 fits 8000

  params-From :
      (base : List Tree) (it lv pt bk : ℕ) (fs : List ℕ) (n fuel tbl : ℕ) (vnames : List (List ℕ))
      → Inside base it tbl
      → From base
          (sizes it lv pt bk fs (suc n))
          (sizes it lv pt bk fs (suc n))
          (params env self fuel tbl vnames)
  unfolding params
  params-From base it lv pt bk fs n zero tbl vnames i = exhausted-From base _ _
  params-From base it lv pt bk fs n (suc fuel) tbl vnames i =
      let S = sizes it lv pt bk fs (suc n) in
      keep-then base S S token _ token-Keeps λ t.
        loop-then base S S _ _ (parameter-From base it lv pt bk fs n tbl t vnames i) λ vnames'.
          keep-then base S S function _ function-Keeps λ f.
            keep-then base S S (branch (f.is_vararg == 0) (testnext env b',') (pure false)) _
              (search parts depth 10)
              λ more.
                From-choose base S S more (params env self fuel tbl vnames') (pure vnames')
                  (params-From base it lv pt bk fs n fuel tbl vnames' i)
                  ((pure-Keeps vnames').keeps base S)

  parlist-Pushes : Pushes (parlist env self)
  unfolding parlist
  parlist-Pushes = record {
    pushes = λ base it lv pt bk fs n.
        search (steps, parts, params-From, define_all-Keeps, loop-then) depth 40 fits 8000;
  }

  -- the part of `body` behind the parameters
  body_end-From :
      (line : ℕ) (p : Position) (base : List Tree) (it lv pt bk : ℕ) (fs : List ℕ) (n : ℕ)
      → From base
          (sizes it lv pt (suc bk) (bk ∷ fs) (suc (suc (suc n))))
          (sizes it lv pt bk fs (suc n))
          (do
            returns 1 (block env self)
            l ← lex
            with_fs λ fs. some (record fs { lastlinedefined = l.linenumber })
            check_match env tk_end tk_function line
            close_func env
            new_object "functiondefu" 4 p)
  body_end-From line p base it lv pt bk fs n =
      search (steps, parts, block-Pushes) depth 40 fits 8000

  body_rest-From :
      (ismethod : Bool) (line : ℕ) (base : List Tree) (it lv pt bk : ℕ) (fs : List ℕ) (n : ℕ)
      → From base (sizes it lv pt (suc bk) (bk ∷ fs) n) (sizes it lv pt bk fs (suc n)) (do
        p ← getposition
        checknext env b'('
        returns 1 (parlist env self)
        when ismethod (intern (codes "self") >> definevariable (codes "self"))
        f ← function
        push_boolean (not (f.is_vararg == 0))
        checknext env b')'
        terra ← in_terra
        typed ← branch terra (testnext env b':') (pure false)
        branch typed (returns 1 (terratype env self)) push_nil
        returns 1 (block env self)
        l ← lex
        with_fs λ fs. some (record fs { lastlinedefined = l.linenumber })
        check_match env tk_end tk_function line
        close_func env
        new_object "functiondefu" 4 p)
  body_rest-From ismethod line base it lv pt bk fs n =
      search (steps, parts, parlist-Pushes, terratype-Pushes, body_end-From) depth 40 fits 8000

  pub body-Pushes : (ismethod : Bool) (line : ℕ) → Pushes (body env self ismethod line)
  unfolding body
  body-Pushes ismethod line = record {
    pushes = λ base it lv pt bk fs n.
        open_func-then env.unimportlanguages base (sizes it lv pt bk fs (suc n)) it lv pt bk fs n _
          λ _.
            keep-then base _ _ (with_fs λ fs. some (record fs { linedefined = line })) _
              (linedefined-Keeps line) λ _. body_rest-From ismethod line base it lv pt bk fs n;
  }

  pub bodyortype-Pushes : (ismethod : Bool) → Pushes (bodyortype env self ismethod)
  unfolding bodyortype
  bodyortype-Pushes ismethod = record {
    pushes = λ base it lv pt bk fs n. search (steps, parts, body-Pushes, terratype-Pushes) depth 40;
  }

  pub explist-Pushes : Pushes (explist env self)
  unfolding explist
  explist-Pushes = record {
    pushes = λ base it lv pt bk fs n. search (steps, parts, expr-Pushes, loop-From) depth 40;
  }
