-- ===== src/Parser/Primary.antt =====
-- src/lparser.cpp: quotes, numbers, primary and simple expressions, and the operators.
use terra.Common.{ℕ, Bool, true, false, some, [], ◌∷◌, ◌++◌, ◌==◌, ◌||◌, if◌then◌else◌}
use terra.Token.{codes, tk_end, tk_in, tk_quote, tk_escape, tk_name, tk_string}
use terra.Lexer.Numeral.{c_str}
use terra.Lexer.Patch.{insertbeforecurrenttoken}
use terra.Parser.State.{
  Position, unexpected_symbol, arguments_expected, P, ◌>>=◌, ◌>>◌, pure, get, failed, when, branch,
  lex, token, syntaxerror, getposition, modify_lex,
}
use terra.Parser.Stack.{
  returns, new_list, push_string, push_boolean, push_literal, new_object, add_entry, store_value,
}
use terra.Parser.Scopes.{enterblock}
use terra.Parser.Checks.{check_no_terra, check_terra}
use terra.Parser.Env.{Lua}
use terra.Parser.Output.{print, print_text, tree_text, patchbegin, patchend, print_captured_locals}
use terra.Parser.Rules.{
  Rules, loop, current_token, next, testnext, check_match, text_of_token, leaveblock, enterterra,
  leaveterra, singlevar, expr, luaexpr, checksymbol, yindex, statlist,
}
use terra.Parser.Constructors.{constructor}
use terra.Parser.Functions.{explist}

abbrev pub starts_quote : ℕ → Bool
starts_quote t = t == b'`' || t == tk_quote

module _ (env : Lua) (self : Rules) where
  unfoldable pub funcargs : ℕ → P (Unit {0})
  funcargs line = do
    t ← token
    branch (t == b'(')
        (do
          next env
          t' ← token
          branch (t' == b')') (new_list >> pure tt) (returns 1 (explist env self))
          check_match env b')' b'(' line)
        (branch (t == b'{') (do exps ← new_list; returns 1 (constructor env self); add_entry exps)
          (branch (t == tk_string)
            (do
              exps ← new_list
              str ← text_of_token env
              push_string (c_str str)
              push_literal (codes "rawstring")
              add_entry exps
              next env)
            (branch (starts_quote t) (do exps ← new_list; self.doquote (t == b'`'); add_entry exps)
              (syntaxerror arguments_expected))))

  unfoldable pub prefixexp : P (Unit {0})
  prefixexp = do
    t ← token
    l ← lex
    branch (t == b'(')
        (do next env; returns 1 (expr env self); check_match env b')' b'(' l.linenumber)
        (branch (t == b'[')
          (do
            check_terra "escape"
            next env
            returns 1 (luaexpr env self)
            check_match env b']' b'[' l.linenumber)
          (branch (t == tk_name) (returns 1 (singlevar env)) (syntaxerror unexpected_symbol)))

  unfoldable pub issplitprimary : P Bool
  issplitprimary = do
    l ← lex
    branch (l.lastline == l.linenumber) (pure false)
        (modify_lex (λ l. insertbeforecurrenttoken l b';') >> pure true)

  unfoldable pub apply : ℕ → Position → P Bool
  apply line p = do returns 1 (funcargs line); new_object "apply" 2 p; pure true

  -- a round of the loop of `primaryexp`
  unfoldable pub primary_round : ℕ → Position → P Bool
  primary_round line p = do
    t ← token
    branch (t == b'.') (do next env; checksymbol env self; new_object "selectu" 2 p; pure true)
        (branch (t == b'[')
          (do
            split ← issplitprimary
            branch split (pure false)
                (do returns 1 (yindex env self); new_object "index" 2 p; pure true))
          (branch (t == b':')
            (do
              next env
              returns 1 (checksymbol env self)
              returns 1 (funcargs line)
              new_object "method" 3 p
              pure true)
            (branch (t == b'(' || starts_quote t)
              (do split ← issplitprimary; branch split (pure false) (apply line p))
              (branch (t == tk_string || t == b'{') (apply line p) (pure false)))))

  unfoldable pub primaryexp : P (Unit {0})
  primaryexp = do
    l ← lex
    returns 1 prefixexp
    p ← getposition
    loop self.fuel (primary_round l.linenumber p)

  -- the part of `doquote` behind the first token
  unfoldable pub quoted : Bool → Bool → ℕ → ℕ → P (Unit {0})
  quoted true isfullquote begin line = returns 1 (expr env self)
  quoted false isfullquote begin line = do
    enterblock begin
    p ← getposition
    returns 1 (statlist env self)
    result ← branch isfullquote (testnext env tk_in) (pure false)
    branch result (returns 1 (explist env self)) (new_list >> pure tt)
    push_boolean true
    when isfullquote (check_match env tk_end tk_quote line)
    leaveblock env
    new_object "letin" 3 p

  -- the captured locals of the current Terra part, in the order of their set
  unfoldable pub print_current_locals : P (Unit {0})
  print_current_locals = do
    s ← get
    elim s.terracnt [ [] ↦ failed | captured ∷ outer ↦ print_captured_locals (env.order captured) ]

  unfoldable pub doquote : Bool → P (Unit {0})
  doquote isexp = do
    t ← token
    check_no_terra (if isexp then "`" else "quote")
    enterterra env
    begin ← current_token
    l ← lex
    when (starts_quote t) (next env)
    quoted isexp (starts_quote t) begin.token l.linenumber
    begin' ← patchbegin begin
    id ← store_value
    print (codes "(terra.definequote(" ++ (tree_text (some id) ++ codes ","))
    print_current_locals
    print_text "))"
    patchend begin'
    leaveterra env
    pure tt

  unfoldable pub blockescape : P (Unit {0})
  blockescape = do
    check_terra "escape"
    l ← lex
    next env
    self.embeddedcode false false
    check_match env tk_end tk_escape l.linenumber
