-- ===== src/Parser/Definitions.antt =====
-- src/lparser.cpp: the definitions of Terra functions and structs, and language extensions.
use terra.Common.{
  ℕ, zero, suc, ◌+◌, ◌-◌, Bool, true, false, Option, none, some, List, [], ◌∷◌, ◌++◌, ltb, ◌==◌,
  not, ◌&&◌, ◌||◌, if◌then◌else◌,
}
use terra.Token.{codes, tk_local, tk_terra, tk_struct}
use terra.Lexer.Numeral.{c_str}
use terra.Parser.State.{
  Tree, reported, object, P, ◌>>=◌, ◌>>◌, pure, get, put, failed, exhausted, when, branch, assert,
  lex, token, syntaxerror, position, insert,
}
use terra.Parser.Stack.{push, store_value, gettop}
use terra.Parser.Scopes.{definevariable, refvariable}
use terra.Parser.Env.{Lua, Import, imported, import_error}
use terra.Parser.Output.{
  print, print_text, print_char, tree_text, patchbegin, patchend, name_print, print_name_list,
  print_captured_locals,
}
use terra.Parser.Rules.{
  Rules, function, current_token, intern, next, testnext, str_checkname, text_of_token, lookahead,
  enterterra, leaveterra,
}
use terra.Parser.Env.{Script, finished, raised, cur, look, embedded}
use terra.Parser.Env
use terra.Parser.Stack.{push}
use terra.Parser.State.{item}
use terra.Parser.Constructors.{structconstructor}
use terra.Parser.Functions.{bodyortype}

-- `TDefn` with its `Name`; `treeid` is `none` for -1.
pub record TDefn : Type 0 where
  pub name : List (List ℕ)
  pub kind : ℕ
  pub treeid : Option ℕ
  pub islocal : Bool

-- `data[0]`
abbrev pub first_name : List (List ℕ) → P (List ℕ)
first_name [] = failed
first_name (str ∷ rest) = pure str

abbrev pub local_count : List TDefn → ℕ
local_count [] = 0
local_count (d ∷ defs) = if d.islocal then local_count defs + 1 else local_count defs

-- The new local names, with the number of those that are still to be printed. The names are also
-- captured.
unfoldable pub print_new_locals : ℕ → List TDefn → List (List ℕ) → P (List (List ℕ))
print_new_locals left [] captured = pure captured
print_new_locals left (d ∷ defs) captured = elim d.islocal [
  | false ↦ print_new_locals left defs captured
  | true ↦ do
    str ← first_name d.name
    name_print d.name
    definevariable str
    when (ltb 1 left) (print_char b',')
    print_new_locals (left - 1) defs (insert captured str)
]

abbrev pub is_single : List (List ℕ) → Bool
is_single (str ∷ []) = true
is_single _ = false

-- the names without a point, which the definitions are assigned to
unfoldable pub print_returns : Bool → List TDefn → P Bool
print_returns hasreturns [] = pure hasreturns
print_returns hasreturns (d ∷ defs) = elim (is_single d.name) [
  | false ↦ print_returns hasreturns defs
  | true ↦ do when hasreturns (print_char b','); name_print d.name; print_returns true defs
]

unfoldable pub print_kinds : List TDefn → P (Unit {0})
print_kinds [] = pure tt
print_kinds (d ∷ defs) = do print_char d.kind; print_kinds defs

unfoldable pub print_definitions : List TDefn → P (Unit {0})
print_definitions [] = pure tt
print_definitions (d ∷ defs) = do
  print_text ", \""
  name_print d.name
  print (codes "\", " ++ tree_text d.treeid)
  print_definitions defs

-- the first child of an object
unfoldable pub expression_of : Tree → Option Tree
expression_of (object kind (item expression more) p) = some expression
expression_of t = none

module _ (env : Lua) (self : Rules) where
  -- the parts of a name behind points
  unfoldable pub name_parts : ℕ → List (List ℕ) → P (List (List ℕ))
  name_parts zero name = exhausted
  name_parts (suc fuel) name = do
    point ← testnext env b'.'
    elim point [
      | false ↦ pure name
      | true ↦ do vname ← str_checkname env; name_parts fuel (name ++ vname ∷ [])
    ]

  -- `terraname`: whether it is a method, and the name
  unfoldable pub terraname : Bool → ℕ → P (Bool × List (List ℕ))
  terraname islocal token = do
    vname ← str_checkname env
    branch islocal (pure (false, vname ∷ [])) (do
      name ← name_parts self.fuel (vname ∷ [])
      method ← branch (token == tk_terra) (testnext env b':') (pure false)
      branch method (do vname' ← str_checkname env; pure (true, name ++ vname' ∷ []))
          (pure (false, name)))

  unfoldable pub starts_terra_stat : P Bool
  starts_terra_stat = do
    t ← token
    branch (t == tk_terra || t == tk_struct) (pure true) (
        branch (t == tk_local)
          (do ahead ← lookahead env; pure (ahead == tk_terra || ahead == tk_struct)) (pure false))

  -- the tree of a definition, by its first token
  unfoldable pub definition_tree : ℕ → Bool → P (Option ℕ)
  definition_tree token ismethod =
      branch (token == tk_terra) (do bodyortype env self ismethod; id ← store_value; pure (some id))
        (do
          l ← lex
          branch (l.t.token == b'{' || l.t.token == b'(')
              (do structconstructor env self; id ← store_value; pure (some id)) (pure none))

  abbrev kind_of_definition : ℕ → Bool → ℕ
  kind_of_definition token ismethod =
      if token == tk_terra then (if ismethod then b'm' else b'f') else b's'

  unfoldable pub definition : Bool → P TDefn
  definition islocal = do
    t ← token
    next env
    found ← terraname islocal t
    str ← first_name found.1
    when (not islocal) (refvariable str)
    id ← definition_tree t found.0
    pure (record {
      name = found.1;
      kind = kind_of_definition t found.0;
      treeid = id;
      islocal = islocal;
    })

  unfoldable pub definitions : ℕ → Bool → List TDefn → P (List TDefn)
  definitions zero islocal defs = exhausted
  definitions (suc fuel) islocal defs = do
    d ← definition islocal
    more ← starts_terra_stat
    elim more [
      | false ↦ pure (defs ++ d ∷ [])
      | true ↦ do islocal' ← testnext env tk_local; definitions fuel islocal' (defs ++ d ∷ [])
    ]

  unfoldable pub terrastats : Bool → P (Unit {0})
  terrastats emittedlocal = do
    begin ← current_token
    enterterra env
    defs ← definitions self.fuel emittedlocal []
    captured ← leaveterra env
    begin' ← patchbegin begin
    let nlocals = local_count defs
    when (not emittedlocal && ltb 0 nlocals) (print_text "local ")
    captured' ← print_new_locals nlocals defs captured
    when (ltb 0 nlocals) (print_char b';')
    hasreturns ← print_returns false defs
    when hasreturns (print_text " = ")
    print_text "terra.defineobjects(\""
    print_kinds defs
    print_text "\","
    print_captured_locals (env.order captured')
    print_definitions defs
    print_char b')'
    patchend begin'

  -- the expression of the object that `embeddedcode` has left on the top, which is removed
  unfoldable pub take_expression : P Tree
  unfolding expression_of
  take_expression = do
    s ← get
    elim s.stack [
      | [] ↦ failed
      | v ∷ below ↦ elim (expression_of v) [
        | none ↦ failed
        | some expression ↦ put (record s { stack = below }) >> pure expression
      ]
    ]

  -- The calls of an extension. An error of its own gets the line and the token, and one of a call
  -- has them.
  unfoldable pub run : Script → P (List (List ℕ) × List (List (List ℕ)) × Tree)
  run (finished references names function) = pure (references, names, function)
  run (raised message) = syntaxerror (reported message)
  run (Env.next k) = do next env; run k
  run (cur k) = do l ← lex; run (k l.t (position l))
  run (look k) = do ahead ← lookahead env; l ← lex; run (k l.lookahead)
  run (embedded isterra isexp k) = do
    self.embeddedcode isterra isexp
    expression ← take_expression
    run (k expression)

  unfoldable pub reference_all : List (List ℕ) → P (Unit {0})
  reference_all [] = pure tt
  reference_all (str ∷ rest) = do intern str; refvariable str; reference_all rest

  -- `luaS_newlstr` of the texts of the names
  unfoldable pub intern_name : List (List ℕ) → P (Unit {0})
  intern_name [] = pure tt
  intern_name (str ∷ name) = do intern str; intern_name name

  unfoldable pub intern_names : List (List (List ℕ)) → P (Unit {0})
  intern_names [] = pure tt
  intern_names (name ∷ names) = do intern_name name; intern_names names

  unfoldable pub define_first : List (List (List ℕ)) → P (Unit {0})
  define_first [] = pure tt
  define_first (name ∷ names) = do str ← first_name name; definevariable str; define_first names

  abbrev pub is_none : List (List (List ℕ)) → Bool
  is_none [] = true
  is_none (name ∷ names) = false

  unfoldable pub languageextension : Bool → Bool → P (Unit {0})
  languageextension isstatement islocal = do
    begin ← current_token
    enterterra env
    s ← get
    entry ← text_of_token env
    (references, names, function) ← run (env.runlanguage (c_str entry) isstatement islocal)
    reference_all references
    intern_names names
    push function
    n ← store_value
    captured ← leaveterra env
    begin' ← patchbegin begin
    when (isstatement && not (is_none names))
        (do print_name_list names; when islocal (define_first names); print_text " = ")
    print (tree_text (some n) ++ codes "(")
    print_captured_locals (env.order captured)
    print_text ")"
    patchend begin'
    s' ← get
    assert (gettop s' == gettop s)
