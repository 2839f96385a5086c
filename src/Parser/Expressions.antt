-- ===== src/Parser/Expressions.antt =====
-- src/lparser.cpp: simple expressions, operators by their priorities, and embedded Lua code.
use terra.Common.{
  ℕ, zero, suc, ◌-◌, Bool, true, false, Option, none, some, List, [], ◌∷◌, ◌++◌, leb, ◌==◌, not,
  ◌&&◌, ◌||◌, if◌then◌else◌, bit_and,
}
use terra.Token.{
  codes, tk_false, tk_function, tk_nil, tk_true, tk_terra, tk_struct, tk_escape, tk_dots, tk_number,
  tk_string, tk_special,
}
use terra.Lexer.State.{Token, number, text}
use terra.Lexer.Numeral.{isinteger, isunsigned, is8bytes, c_str}
use terra.Parser.State.{
  outside_vararg, P, ◌>>=◌, ◌>>◌, pure, get, failed, exhausted, when, branch, lex, token,
  syntaxerror, getposition,
}
use terra.Parser.Stack.{
  returns, new_list, new_list_before, push_string, push_string_before, push_boolean, push_nil,
  push_double, push_integer, push_literal, new_object, add_field, add_entry, store_value, gettop,
}
use terra.Parser.Checks.{check_no_terra, enterlevel, leavelevel, check_lua_operator}
use terra.Parser.Env.{Lua}
use terra.Parser.Operators.{
  BinOpr, UnOpr, getunopr, getbinopr, binds_above, priority, unary_priority, nounopr, addr,
  func_ptr,
}
use terra.Parser.Output.{
  decimal, print, print_text, tree_text, patchbegin, patchend, saveoutput, token2rawstr,
}
use terra.Parser.Rules.{Rules, function, current_token, next, text_of_token, enterterra, leaveterra}
use terra.Parser.Constructors.{constructor, structconstructor}
use terra.Parser.Functions.{body, bodyortype}
use terra.Parser.Primary.{starts_quote, primaryexp, print_current_locals, blockescape}

abbrev has_flag : ℕ → ℕ → Bool
has_flag flags flag = not (bit_and flags flag == 0)

-- `number_type`
unfoldable pub number_type : ℕ → List ℕ
number_type flags =
    if has_flag flags isinteger
    then codes (if has_flag flags isunsigned then "uint" else "int")
      ++ codes (if has_flag flags is8bytes then "64" else "")
    else codes (if has_flag flags is8bytes then "double" else "float")

-- `isspace` in the C locale
abbrev is_space : ℕ → Bool
is_space c = c == b' ' || (leb b'\t' c && leb c b'\r')

unfoldable pub skip_spaces : List ℕ → List ℕ
skip_spaces [] = []
skip_spaces (c ∷ cs) = if is_space c then skip_spaces cs else c ∷ cs

-- the number of the current token, a double or an integer
unfoldable pub number_of_token : P ℕ
number_of_token = do l ← lex; elim l.t.seminfo.value [ number r ↦ pure r | text ts ↦ failed ]

unfoldable pub number_literal : P (Unit {0})
number_literal = do
  l ← lex
  let typ = number_type l.t.seminfo.flags
  branch (has_flag l.t.seminfo.flags isinteger)
      (do
        push_integer l.t.seminfo.i
        push_literal typ
        push_string (decimal l.t.seminfo.i)
        s ← get
        add_field (gettop s - 1) (codes "stringvalue"))
      (do r ← number_of_token; push_double r; push_literal typ)

module _ (env : Lua) (self : Rules) where
  -- what a Terra part of an expression is replaced by
  unfoldable pub replace_anonymous : Token → List ℕ → Option ℕ → P (Unit {0})
  replace_anonymous begin maker id = do
    begin' ← patchbegin begin
    id' ← elim id [ none ↦ store_value | some n ↦ pure n ]
    print (codes "terra." ++ (maker ++ (codes "(" ++ (tree_text (some id') ++ codes ","))))
    print_current_locals env self
    print_text ")"
    patchend begin'
    leaveterra env
    pure tt

  unfoldable pub anonymous_terra : P (Unit {0})
  anonymous_terra = do
    check_no_terra "nested terra functions"
    enterterra env
    begin ← current_token
    next env
    bodyortype env self false
    replace_anonymous begin (codes "anonfunction") none

  unfoldable pub anonymous_struct : P (Unit {0})
  anonymous_struct = do
    check_no_terra "struct declarations"
    begin ← current_token
    next env
    enterterra env
    structconstructor env self
    id ← store_value
    replace_anonymous begin (codes "anonstruct") (some id)

  unfoldable pub vararg : P (Unit {0})
  vararg = do f ← function; when (f.is_vararg == 0) (syntaxerror outside_vararg)

  unfoldable pub simpleexp : P (Unit {0})
  simpleexp = do
    t ← token
    l ← lex
    branch (t == tk_number) (number_literal >> next env) (
        branch (t == tk_string)
          (do
            str ← text_of_token env
            push_string (c_str str)
            push_literal (codes "rawstring")
            next env)
          (branch (t == tk_nil) (do push_nil; push_literal (codes "niltype"); next env)
            (branch (t == tk_true) (do push_boolean true; push_literal (codes "bool"); next env)
              (branch (t == tk_false) (do push_boolean false; push_literal (codes "bool"); next env)
                (branch (t == tk_dots) (vararg >> next env) (
                  branch (t == b'{') (constructor env self) (
                    branch (starts_quote t) (self.doquote (t == b'`')) (
                      branch (t == tk_escape) (blockescape env self) (
                        branch (t == tk_function)
                          (do next env; l' ← lex; body env self false l'.linenumber)
                          (branch (t == tk_terra) anonymous_terra (
                            branch (t == tk_special) (self.languageextension false false) (
                              branch (t == tk_struct) anonymous_struct
                                (primaryexp env self)))))))))))))

  -- `&a` in a type
  unfoldable pub replace_pointer : Token → Token → P (Unit {0})
  replace_pointer begintoken beginexp = do
    expstring ← saveoutput beginexp
    begin ← patchbegin begintoken
    print (codes "terra.types.pointer(" ++ (c_str expstring ++ codes ")"))
    patchend begin

  -- `a -> b` in a type
  unfoldable pub replace_funcpointer : Token → Token → List ℕ → P (Unit {0})
  replace_funcpointer begintoken beginrhs lhs = do
    rhs ← saveoutput beginrhs
    begin ← patchbegin begintoken
    print (codes "terra.types.funcpointer(" ++ (lhs ++ (codes "," ++ (c_str rhs ++ codes ")"))))
    patchend begin

  abbrev is_addr : UnOpr → Bool
  is_addr addr = true
  is_addr _ = false

  unfoldable pub unary : UnOpr → Token → P (Unit {0})
  unary nounopr begintoken = returns 1 simpleexp
  unary uop begintoken = do
    p ← getposition
    t ← token
    push_string (token2rawstr t)
    next env
    beginexp ← current_token
    exps ← new_list
    returns 1 (self.subexpr unary_priority)
    add_entry exps
    when (is_addr uop) (replace_pointer begintoken beginexp)
    new_object "operator" 2 p

  unfoldable pub replace_lhs : Token → Token → Option (List ℕ) → P (Unit {0})
  replace_lhs begintoken beginrhs none = pure tt
  replace_lhs begintoken beginrhs (some lhs) = replace_funcpointer begintoken beginrhs lhs

  -- the loop of `subexpr`
  unfoldable pub binary : ℕ → ℕ → Token → BinOpr → Option (List ℕ) → P BinOpr
  binary zero limit begintoken op lhs = exhausted
  binary (suc fuel) limit begintoken op lhs = elim (binds_above limit op) [
    | false ↦ pure op
    | true ↦ do
      t ← token
      check_lua_operator t
      exps ← new_list_before
      add_entry exps
      pos ← getposition
      next env
      beginrhs ← current_token
      nextop ← returns 1 (self.subexpr (priority op).1)
      replace_lhs begintoken beginrhs lhs
      add_entry exps
      push_string_before (token2rawstr t)
      new_object "operator" 2 pos
      binary fuel limit begintoken nextop none
  ]

  unfoldable pub saved_lhs : Token → BinOpr → P (Option (List ℕ))
  saved_lhs begintoken func_ptr = do
    lhs ← saveoutput begintoken
    pure (some (skip_spaces (c_str lhs)))
  saved_lhs begintoken _ = pure none

  unfoldable pub subexpr : ℕ → P BinOpr
  subexpr limit = do
    enterlevel
    t ← token
    check_lua_operator t
    begintoken ← current_token
    unary (getunopr t) begintoken
    t' ← token
    lhs ← saved_lhs begintoken (getbinopr t')
    op ← binary self.fuel limit begintoken (getbinopr t') lhs
    leavelevel
    pure op
