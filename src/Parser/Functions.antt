-- ===== src/Parser/Functions.antt =====
-- src/lparser.cpp: variable declarations, parameter lists and function bodies.
use terra.Common.{
  ℕ, zero, suc, Bool, true, false, Option, none, some, List, [], ◌∷◌, ◌++◌, ◌==◌, not, ◌&&◌, ◌||◌,
}
use terra.Token.{codes, tk_end, tk_function, tk_dots, tk_dbcolon, tk_name}
use terra.Parser.State.{
  parameter_expected, P, ◌>>=◌, ◌>>◌, pure, exhausted, when, branch, lex, token, syntaxerror,
  in_terra, getposition,
}
use terra.Parser.Stack.{returns, new_list, push_boolean, push_nil, new_object, add_entry}
use terra.Parser.Scopes.{definevariable, with_fs}
use terra.Parser.Env.{Lua}
use terra.Parser.Rules.{
  Rules, loop, set_vararg, function, intern, next, testnext, checknext, check_match, open_func,
  close_func, expr, terratype, checksymbol, block,
}

unfoldable pub define_all : List (List ℕ) → P (Unit {0})
define_all [] = pure tt
define_all (name ∷ names) = do definevariable name; define_all names

-- `vnames.push_back(vname)`, where there is a name
abbrev pub with_name : Option (List ℕ) → List (List ℕ) → List (List ℕ)
with_name none names = names
with_name (some name) names = names ++ name ∷ []

abbrev pub is_some : Option (List ℕ) → Bool
is_some none = false
is_some (some name) = true

module _ (env : Lua) (self : Rules) where
  unfoldable pub vardecl : Bool → P (Option (List ℕ))
  vardecl requiretype = do
    p ← getposition
    name ← checksymbol env self
    t ← token
    terra ← in_terra
    branch (terra && is_some name && (requiretype || t == b':'))
        (checknext env b':' >> returns 1 (terratype env self)) push_nil
    new_object "unevaluatedparam" 2 p
    pure name

  -- the loop of `parlist`: the names that it has found
  unfoldable pub params : ℕ → ℕ → List (List ℕ) → P (List (List ℕ))
  params zero tbl vnames = exhausted
  params (suc fuel) tbl vnames = do
    t ← token
    vnames' ←
        branch (t == tk_name || t == b'[')
          (do name ← vardecl true; add_entry tbl; pure (with_name name vnames))
          (branch (t == tk_dots) (next env >> set_vararg 1 >> pure vnames)
            (syntaxerror parameter_expected))
    f ← function
    more ← branch (f.is_vararg == 0) (testnext env b',') (pure false)
    elim more [ true ↦ params fuel tbl vnames' | false ↦ pure vnames' ]

  unfoldable pub parlist : P (Unit {0})
  parlist = do
    tbl ← new_list
    set_vararg 0
    t ← token
    vnames ← branch (t == b')') (pure []) (params self.fuel tbl [])
    define_all vnames

  unfoldable pub body : Bool → ℕ → P (Unit {0})
  body ismethod line = do
    open_func env
    with_fs λ fs. some (record fs { linedefined = line })
    p ← getposition
    checknext env b'('
    returns 1 parlist
    when ismethod (intern (codes "self") >> definevariable (codes "self"))
    f ← function
    push_boolean (not (f.is_vararg == 0))
    checknext env b')'
    terra ← in_terra
    typed ← branch terra (testnext env b':') (pure false)
    branch typed (returns 1 (terratype env self)) push_nil
    returns 1 (block env self)
    l ← lex
    with_fs λ fs. some (record fs { lastlinedefined = l.linenumber })
    check_match env tk_end tk_function line
    close_func env
    new_object "functiondefu" 4 p

  unfoldable pub bodyortype : Bool → P (Unit {0})
  bodyortype ismethod = do
    t ← token
    l ← lex
    branch (t == b'(') (body ismethod l.linenumber) (checknext env tk_dbcolon >> terratype env self)

  unfoldable pub explist : P (Unit {0})
  explist = do
    lst ← new_list
    expr env self
    add_entry lst
    loop self.fuel (do
      comma ← testnext env b','
      branch comma (do expr env self; add_entry lst; pure true) (pure false))
