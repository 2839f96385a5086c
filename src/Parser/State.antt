-- ===== src/Parser/State.antt =====
-- src/lparser.cpp, src/lparser.h: the state of the parser, the trees that it builds on the stack of
-- Lua, and the monad of its functions.
use terra.Common.{ℕ, Bool, true, false, List, [], ◌∷◌, ltb, if◌then◌else◌, ◌||◌}
use terra.Lexer.State as Lexer
use terra.Lexer.State.{LexState, LexError, Token}
use terra.Strings.{same_text}

-- `offset` is one less than the field of that name, and -1 before the first character.
pub record Position : Type 0 where
  pub linenumber : ℕ
  pub currentoffset : ℕ

-- The values on the stack: those of Lua, the types of `terra.types` by their name, the text of a
-- chunk that `lua_load` has compiled, and the objects of `terra.irtypes` by their kind. A list is
-- the Lua object that `terra.newlist` makes.
mutual
  pub data Tree : Type 0 where
    nil table : Tree
    boolean : Bool → Tree
    string : List ℕ → Tree
    double integer : ℕ → Tree
    type_of : List ℕ → Tree
    chunk : List ℕ → Tree
    list : Trees → Tree
    with_field : Tree → List ℕ → Tree → Tree
    object : List ℕ → Trees → Position → Tree

  pub data Trees : Type 0 where
    empty : Trees
    item : Tree → Trees → Trees

-- `BlockCnt`; a set of strings is the list of its texts in the order of their insertion.
pub record BlockCnt : Type 0 where
  pub defined : List (List ℕ)
  pub isterra : Bool
  pub languageextensionsdefined : ℕ
  pub starttoken : ℕ

-- `FuncState` and its `Proto`; the chain of blocks is a list, the current one first.
pub record FuncState : Type 0 where
  pub linedefined : ℕ
  pub lastlinedefined : ℕ
  pub is_vararg : ℕ
  pub bl : List BlockCnt

-- The chains of `fs` and of `terracnt` are lists, and a `TerraCnt` is the list of the captured
-- locals. `stack` is the stack of Lua, the top first, `trees` the table `_G.terra._trees`, and
-- `c_calls` the field `nCcalls` of the `terra_State`.
pub record PState : Type 0 where
  pub lex : LexState
  pub stack : List Tree
  pub trees : List Tree
  pub fs : List FuncState
  pub terracnt : List (List (List ℕ))
  pub c_calls : ℕ

-- what `luaX_syntaxerror` is called with
pub data Message : Type 0 where
  expected : ℕ → Message
  expected_to_close : ℕ → ℕ → ℕ → Message
  too_many : List ℕ → ℕ → ℕ → Message
  cannot_be_nested : List ℕ → Message
  outside_terra : List ℕ → Message
  unmatched_return unexpected_symbol arguments_expected parameter_expected : Message
  not_in_lua not_in_terra outside_vararg : Message
  case_outside_switch case_not_terminated in_expected : Message
  reported : List ℕ → Message

pub data SyntaxError : Type 0 where
  lexical : LexError → SyntaxError
  syntax : Message → ℕ → ℕ → SyntaxError

-- A thrown error keeps the state, whose lexer's part is that before the call that has thrown it.
-- `fault` is a failed `assert`, a missing block, or an error of Lua outside a protected call.
pub data Result (A : Type 0) : Type 0 where
  ok : A → PState → Result A
  err : SyntaxError → PState → Result A
  fault out_of_fuel : Result A

abbrev pub P : Type 0 → Type 0
P A = PState → Result A

abbrev pub bind : {A B : Type 0} → Result A → (A → P B) → Result B
bind (ok a s) f = f a s
bind (err e s) f = err e s
bind fault f = fault
bind out_of_fuel f = out_of_fuel

infixl 5 ◌>>=◌ ◌>>◌
abbrev pub ◌>>=◌ : {A B : Type 0} → P A → (A → P B) → P B
m >>= f = λ s. bind (m s) f

abbrev pub ◌>>◌ : {A B : Type 0} → P A → P B → P B
m >> k = m >>= λ _. k

abbrev pub pure : {A : Type 0} → A → P A
pure a s = ok a s

abbrev pub get : P PState
get s = ok s s

abbrev pub put : PState → P (Unit {0})
put s' s = ok tt s'

abbrev pub failed : {A : Type 0} → P A
failed s = fault

abbrev pub exhausted : {A : Type 0} → P A
exhausted s = out_of_fuel

abbrev pub lex : P LexState
lex s = ok s.lex s

abbrev pub set_lex : LexState → P (Unit {0})
set_lex l s = ok tt (record s { lex = l })

abbrev pub when : Bool → P (Unit {0}) → P (Unit {0})
when true m = m
when false m = pure tt

abbrev pub branch : {A : Type 0} → Bool → P A → P A → P A
branch true m k = m
branch false m k = k

-- `assert`
abbrev pub assert : Bool → P (Unit {0})
assert true s = ok tt s
assert false s = fault

-- a result of the lexer in the parser's state
abbrev pub lifted : {A : Type 0} → PState → Lexer.Result A → Result A
lifted s (Lexer.ok a l) = ok a (record s { lex = l })
lifted s (Lexer.err e) = err (lexical e) s
lifted s Lexer.fault = fault
lifted s Lexer.out_of_fuel = out_of_fuel

-- a call of the lexer
abbrev pub lift : {A : Type 0} → Lexer.M A → P A
lift m s = lifted s (m s.lex)

-- a call that cannot raise an error
abbrev pub modify_lex : (LexState → LexState) → P (Unit {0})
modify_lex f s = ok tt (record s { lex = f s.lex })

-- the current token
abbrev pub token : P ℕ
token s = ok s.lex.t.token s

-- `luaX_syntaxerror`
abbrev pub syntaxerror : {A : Type 0} → Message → P A
syntaxerror message s = err (syntax message s.lex.linenumber s.lex.t.token) s

abbrev pub is_terra : PState → Bool
is_terra s = ltb 0 s.lex.in_terra

-- `if (ls->in_terra)`
abbrev pub in_terra : P Bool
in_terra s = ok (is_terra s) s

-- `StringSet::count` and `StringSet::insert`
unfoldable pub count : List (List ℕ) → List ℕ → Bool
count [] name = false
count (n ∷ names) name = same_text n name || count names name

unfoldable pub insert : List (List ℕ) → List ℕ → List (List ℕ)
insert [] name = name ∷ []
insert (n ∷ names) name = if same_text n name then n ∷ names else n ∷ insert names name

-- `getposition`
abbrev pub position : LexState → Position
position l = record { linenumber = l.linenumber; currentoffset = l.currentoffset }

abbrev pub getposition : P Position
getposition s = ok (position s.lex) s
