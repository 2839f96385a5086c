-- ===== src/Parser/Constructors.antt =====
-- src/lparser.cpp: constructors, structs, parameter lists and function bodies.
use terra.Common.{
  ℕ, zero, suc, ◌+◌, Bool, true, false, Option, none, some, List, [], ◌∷◌, ◌==◌, not, ◌||◌,
}
use terra.Token.{codes, tk_union, tk_name}
use terra.Strings.{same_text}
use terra.Lexer.Basic.{max_int}
use terra.Parser.State.{
  Position, Tree, PState, unexpected_symbol, object, with_field, P, ◌>>=◌, ◌>>◌, pure, get, failed,
  exhausted, when, branch, lex, token, syntaxerror, in_terra, getposition,
}
use terra.Parser.Stack.{returns, new_list, push_string, push_nil, new_object, add_entry}
use terra.Parser.Checks.{checklimit}
use terra.Parser.Env.{Lua}
use terra.Parser.Rules.{
  Rules, loop, next, testnext, checknext, check_match, str_checkname, lookahead, expr, luaexpr,
  terratype, checksymbol, yindex,
}

-- `ConsControl`
pub record ConsControl : Type 0 where
  pub nh : ℕ
  pub na : ℕ

-- the field `kind` of an object; another value raises an error or has none.
unfoldable pub kind_of : Tree → Option (List ℕ)
kind_of (object kind args p) = some kind
kind_of (with_field t field v) = kind_of t
kind_of t = none

-- the test of `recfield` on the value on the top
unfoldable pub is_luaexpression : PState → Option Bool
is_luaexpression s = elim s.stack [
  | [] ↦ none
  | v ∷ below ↦ elim (kind_of v) [
    | none ↦ none
    | some kind ↦ some (same_text kind (codes "luaexpression"))
  ]
]

unfoldable pub check_luaexpression : P (Unit {0})
check_luaexpression = do
  s ← get
  elim (is_luaexpression s) [
    | none ↦ failed
    | some true ↦ pure tt
    | some false ↦ syntaxerror unexpected_symbol
  ]

module _ (env : Lua) (self : Rules) where
  -- the part of `recfield` from the `=` on
  unfoldable pub recfield_value : Position → ConsControl → P ConsControl
  recfield_value pos items = do
    checknext env b'='
    returns 1 (expr env self)
    new_object "recfield" 2 pos
    pure (record items { nh = items.nh + 1 })

  unfoldable pub recfield : ConsControl → P ConsControl
  recfield items = do
    pos ← getposition
    t ← token
    terra ← in_terra
    branch (t == tk_name)
        (do
          checklimit items.nh max_int "items in a constructor"
          returns 1 (checksymbol env self)
          recfield_value pos items)
        (branch (not terra) (yindex env self >> recfield_value pos items) (do
          returns 1 (expr env self)
          t' ← token
          branch (t' == b'=')
              (do check_luaexpression; new_object "escapedident" 1 pos; recfield_value pos items)
              (new_object "listfield" 1 pos >> pure items)))

  unfoldable pub listfield : ConsControl → P ConsControl
  listfield items = do
    pos ← getposition
    returns 1 (expr env self)
    new_object "listfield" 1 pos
    checklimit items.na max_int "items in a constructor"
    pure (record items { na = items.na + 1 })

  unfoldable pub field : ConsControl → P ConsControl
  field items = do
    t ← token
    branch (t == tk_name)
        (do ahead ← lookahead env; branch (ahead == b'=') (recfield items) (listfield items))
        (branch (t == b'[') (recfield items) (listfield items))

  unfoldable pub fields : ℕ → ℕ → ConsControl → P (Unit {0})
  fields zero records items = exhausted
  fields (suc fuel) records items = do
    t ← token
    branch (t == b'}') (pure tt) (do
      items' ← returns 1 (field items)
      add_entry records
      comma ← testnext env b','
      more ← branch comma (pure true) (testnext env b';')
      elim more [ true ↦ fields fuel records items' | false ↦ pure tt ])

  unfoldable pub constructor : P (Unit {0})
  constructor = do
    l ← lex
    pos ← getposition
    records ← new_list
    checknext env b'{'
    fields self.fuel records (record { nh = 0; na = 0 })
    check_match env b'}' b'{' l.linenumber
    new_object "constructoru" 1 pos

  unfoldable pub structfield : P (Unit {0})
  structfield = do
    p ← getposition
    name ← str_checkname env
    push_string name
    checknext env b':'
    returns 1 (terratype env self)
    new_object "structentry" 2 p

  unfoldable pub structbody_round : ℕ → P Bool
  structbody_round records = do
    t ← token
    branch (t == b'}') (pure false) (do
      union ← testnext env tk_union
      branch union (returns 1 self.structbody) (returns 1 structfield)
      add_entry records
      t' ← token
      when (t' == b',' || t' == b';') (next env)
      pure true)

  unfoldable pub structbody : P (Unit {0})
  structbody = do
    p ← getposition
    records ← new_list
    checknext env b'{'
    loop self.fuel (structbody_round records)
    check_match env b'}' b'{' p.linenumber
    new_object "structlist" 1 p

  unfoldable pub structconstructor : P (Unit {0})
  structconstructor = do
    p ← getposition
    paren ← testnext env b'('
    branch paren (do returns 1 (luaexpr env self); check_match env b')' b'(' p.linenumber) push_nil
    structbody
    new_object "structdef" 2 p
