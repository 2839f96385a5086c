-- ===== src/Parser/Checks.antt =====
-- src/lparser.cpp: the tests on the current token, the limits, and the errors that they raise.
use terra.Common.{ℕ, ◌+◌, ◌-◌, Bool, true, false, List, [], ◌∷◌, ltb, ◌==◌, not, ◌&&◌, ◌||◌}
use Prim.Native.String.{String}
use terra.Token.{
  codes, tk_name, tk_case, tk_else, tk_elseif, tk_end, tk_eos, tk_in, tk_until, tk_lshift,
  tk_rshift,
}
use terra.Lexer.State.{number, text}
use terra.Lexer.Numeral.{Numbers}
use terra.Lexer.Scan.{luax_next}
use terra.Parser.State.{
  FuncState, expected, expected_to_close, too_many, cannot_be_nested, outside_terra, not_in_lua,
  not_in_terra, ok, fault, P, ◌>>=◌, ◌>>◌, pure, get, put, failed, when, branch, lex, lift, token,
  syntaxerror, in_terra,
}

unfoldable pub check_no_terra : String → P (Unit {0})
check_no_terra thing = do
  terra ← in_terra
  when terra (syntaxerror (cannot_be_nested (codes thing)))

unfoldable pub check_terra : String → P (Unit {0})
check_terra thing = do
  terra ← in_terra
  when (not terra) (syntaxerror (outside_terra (codes thing)))

unfoldable pub error_expected : {A : Type 0} → ℕ → P A
error_expected c = syntaxerror (expected c)

-- `fs->f.linedefined`
abbrev pub line_defined : List FuncState → ℕ
line_defined [] = 0
line_defined (fs ∷ prev) = fs.linedefined

-- `checklimit` and `errorlimit`, with the limit and the line of the function
unfoldable pub checklimit : ℕ → ℕ → String → P (Unit {0})
checklimit v l what = do
  s ← get
  when (ltb l v) (syntaxerror (too_many (codes what) l (line_defined s.fs)))

unfoldable pub check : ℕ → P (Unit {0})
unfolding error_expected
check c = do t ← token; when (not (t == c)) (error_expected c)

module _ (lib : Numbers) where
  unfoldable pub next_token : P (Unit {0})
  unfolding luax_next
  next_token = lift (luax_next lib)

  unfoldable pub testnext : ℕ → P Bool
  unfolding next_token
  testnext c = do t ← token; branch (t == c) (next_token >> pure true) (pure false)

  unfoldable pub checknext : ℕ → P (Unit {0})
  unfolding check next_token
  checknext c = do check c; next_token

  unfoldable pub check_match : ℕ → ℕ → ℕ → P (Unit {0})
  unfolding testnext error_expected
  check_match what who line = do
    found ← testnext what
    l ← lex
    when (not found) (
        branch (line == l.linenumber) (error_expected what)
          (syntaxerror (expected_to_close what who line)))

  -- the text of `seminfo.ts`; a number in its place is no pointer
  unfoldable pub text_of_token : P (List ℕ)
  text_of_token = do
    l ← lex
    elim l.t.seminfo.value [ number r ↦ failed | text ts ↦ pure ts.string ]

  unfoldable pub str_checkname : P (List ℕ)
  unfolding check text_of_token next_token
  str_checkname = do check tk_name; name ← text_of_token; next_token; pure name

abbrev pub maxccalls : ℕ
maxccalls = 200

unfoldable pub enterlevel : P (Unit {0})
unfolding checklimit
enterlevel = do
  s ← get
  put (record s { c_calls = s.c_calls + 1 })
  checklimit (s.c_calls + 1) maxccalls "C levels"

unfoldable pub leavelevel : P (Unit {0})
leavelevel s = ok tt (record s { c_calls = s.c_calls - 1 })

-- `ls->fs->bl->starttoken`
unfoldable pub starttoken : P ℕ
starttoken s = elim s.fs [
  | [] ↦ fault
  | fs ∷ prev ↦ elim fs.bl [ [] ↦ fault | b ∷ previous ↦ ok b.starttoken s ]
]

unfoldable pub block_follow : Bool → P Bool
unfolding starttoken
block_follow withuntil = do
  t ← token
  branch (t == tk_case) (do start ← starttoken; pure (start == tk_case))
      (pure (
        t == tk_else
        || t == tk_elseif
        || t == tk_end
        || t == tk_eos
        || t == tk_in
        || (t == tk_until && withuntil)))

unfoldable pub check_lua_operator : ℕ → P (Unit {0})
check_lua_operator op = do
  terra ← in_terra
  when ((op == b'@' || op == tk_lshift || op == tk_rshift) && not terra) (syntaxerror not_in_lua)
  when (op == b'#' && terra) (syntaxerror not_in_terra)
