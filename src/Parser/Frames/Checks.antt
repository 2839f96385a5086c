-- ===== src/Parser/Frames/Checks.antt =====
-- src/lparser.cpp: the sizes that the tests on the current token and the output keep.
use terra.Common.{ℕ, refl, Bool, Option, none, some, List, [], ◌∷◌}
use Prim.Native.String.{String}
use terra.Parser.State.{Tree, FuncState, PState, ok, fault, pure, failed, lex, lift}
use terra.Parser.Frames.{Shape, Has, Returns, Keeps}
use terra.Parser.Frames.Binds.{Keeps-bind, Keeps-branch}
use terra.Lexer.State.{Token, number, text}
use terra.Lexer.Numeral.{Numbers}
use terra.Lexer.Scan.{luax_next, luax_lookahead}
use terra.Lexer.Terra.Tokens.{luax_next-KeepsTerra, luax_lookahead-KeepsTerra}
use terra.OutputBuffer.{OutputBuffer}
use terra.OutputBuffer.Printf.{printf}
use terra.Lexer.Patch as Patch
use terra.Parser.Checks.{
  check_no_terra, check_terra, error_expected, checklimit, check, next_token, testnext, checknext,
  text_of_token, str_checkname, check_match, starttoken, block_follow, check_lua_operator,
}
use terra.Parser.Output.{
  with_output, print, print_string, print_char, patchbegin, patchend, saveoutput, name_print,
  print_name_list,
}
use terra.Parser.Rules.{intern}
use terra.Parser.Frames.Basic.{
  Has-lex, pure-Keeps, get-Keeps, lex-Keeps, token-Keeps, current_token-Keeps, getposition-Keeps,
  in_terra-Keeps, syntaxerror-Keeps, failed-Keeps, when-Keeps, assert-Keeps, lift-Keeps,
  modify_lex-Keeps,
}

-- the rules for a part that keeps all sizes
ruleset keeping = (
  Keeps-bind, Keeps-branch, when-Keeps, pure-Keeps, get-Keeps, lex-Keeps, token-Keeps,
  current_token-Keeps, getposition-Keeps, in_terra-Keeps, assert-Keeps, failed-Keeps,
  syntaxerror-Keeps,
)

pub check_no_terra-Keeps : (thing : String) → Keeps (check_no_terra thing)
unfolding check_no_terra
check_no_terra-Keeps thing = search keeping depth 24

pub check_terra-Keeps : (thing : String) → Keeps (check_terra thing)
unfolding check_terra
check_terra-Keeps thing = search keeping depth 24

pub checklimit-Keeps : (v l : ℕ) (what : String) → Keeps (checklimit v l what)
unfolding checklimit
checklimit-Keeps v l what = search keeping depth 24

pub check-Keeps : (c : ℕ) → Keeps (check c)
unfolding check error_expected
check-Keeps c = search keeping depth 24

pub check_lua_operator-Keeps : (op : ℕ) → Keeps (check_lua_operator op)
unfolding check_lua_operator
check_lua_operator-Keeps op = search keeping depth 24

starttoken-Returns :
    (base : List Tree) (S : Shape) (s : PState) (fs : List FuncState)
    → Has base S s
    → Returns base S (elim fs [
      | [] ↦ fault
      | f ∷ prev ↦ elim f.bl [ [] ↦ fault | b ∷ previous ↦ ok b.starttoken s ]
    ])
starttoken-Returns base S s [] h = tt
starttoken-Returns base S s (f ∷ prev) h =
    elim f.bl
      as (λ bl. Returns base S (elim bl [ [] ↦ fault | b ∷ previous ↦ ok b.starttoken s ])) [
        | [] ↦ tt
        | b ∷ previous ↦ h
      ]

pub starttoken-Keeps : Keeps starttoken
unfolding starttoken
starttoken-Keeps = record {
  keeps = λ base S. record { at = λ s h. starttoken-Returns base S s s.fs h };
}

pub block_follow-Keeps : (withuntil : Bool) → Keeps (block_follow withuntil)
unfolding block_follow
block_follow-Keeps withuntil = search (keeping, starttoken-Keeps) depth 24

pub intern-Keeps : (str : List ℕ) → Keeps (intern str)
intern-Keeps str = modify_lex-Keeps _ λ l. refl

module _ (lib : Numbers) where
  pub next_token-Keeps : Keeps (next_token lib)
  unfolding next_token
  next_token-Keeps = lift-Keeps (luax_next lib) (luax_next-KeepsTerra lib)

  pub lookahead-Keeps : Keeps (lift (luax_lookahead lib))
  lookahead-Keeps = lift-Keeps (luax_lookahead lib) (luax_lookahead-KeepsTerra lib)

  pub testnext-Keeps : (c : ℕ) → Keeps (testnext lib c)
  unfolding testnext
  testnext-Keeps c = search (keeping, next_token-Keeps) depth 24

  pub checknext-Keeps : (c : ℕ) → Keeps (checknext lib c)
  unfolding checknext
  checknext-Keeps c = search (keeping, next_token-Keeps, check-Keeps) depth 24

  pub check_match-Keeps : (what who line : ℕ) → Keeps (check_match lib what who line)
  unfolding check_match error_expected
  check_match-Keeps what who line = search (keeping, testnext-Keeps) depth 24

  pub text_of_token-Keeps : Keeps (text_of_token lib)
  unfolding text_of_token
  text_of_token-Keeps = Keeps-bind lex _ lex-Keeps λ l.
      elim l.t.seminfo.value
        as (λ v. Keeps {A = List ℕ} (elim v [ number r ↦ failed | text ts ↦ pure ts.string ])) [
          | number r ↦ failed-Keeps
          | text ts ↦ pure-Keeps ts.string
        ]

  pub str_checkname-Keeps : Keeps (str_checkname lib)
  unfolding str_checkname
  str_checkname-Keeps =
      search (keeping, check-Keeps, text_of_token-Keeps, next_token-Keeps) depth 24

with_output-Returns :
    (base : List Tree) (S : Shape) (s : PState) (o : Option OutputBuffer)
    → Has base S s
    → Returns base S (with_output o s)
unfolding with_output
with_output-Returns base S s none h = tt
with_output-Returns base S s (some ob) h = Has-lex base S s _ h refl

pub print-Keeps : (str : List ℕ) → Keeps (print str)
unfolding print
print-Keeps str = record {
  keeps = λ base S. record {
    at = λ s h. with_output-Returns base S s (printf s.lex.output_buffer str) h;
  };
}

pub print_string-Keeps : (str : List ℕ) → Keeps (print_string str)
unfolding print_string
print_string-Keeps str = print-Keeps _

pub print_char-Keeps : (c : ℕ) → Keeps (print_char c)
unfolding print_char
print_char-Keeps c = record { keeps = λ base S. record { at = λ s h. Has-lex base S s _ h refl } }

pub patchbegin-Keeps : (begin : Token) → Keeps (patchbegin begin)
unfolding patchbegin Patch.patchbegin
patchbegin-Keeps begin = record {
  keeps = λ base S. record { at = λ s h. Has-lex base S s _ h refl };
}

pub patchend-Keeps : (begin : Token) → Keeps (patchend begin)
unfolding patchend Patch.patchend
patchend-Keeps begin = record { keeps = λ base S. record { at = λ s h. Has-lex base S s _ h refl } }

pub saveoutput-Keeps : (begin : Token) → Keeps (saveoutput begin)
unfolding saveoutput Patch.saveoutput
saveoutput-Keeps begin = record {
  keeps = λ base S. record { at = λ s h. Has-lex base S s _ h refl };
}

pub name_print-Keeps : (name : List (List ℕ)) → Keeps (name_print name)
unfolding name_print
name_print-Keeps [] = pure-Keeps tt
name_print-Keeps (str ∷ []) = print_string-Keeps str
name_print-Keeps (str ∷ str' ∷ rest) =
    Keeps-bind (print_string str) _ (print_string-Keeps str) λ _.
      Keeps-bind (print_char b'.') _ (print_char-Keeps b'.') λ _. name_print-Keeps (str' ∷ rest)

pub print_name_list-Keeps : (names : List (List (List ℕ))) → Keeps (print_name_list names)
unfolding print_name_list
print_name_list-Keeps [] = pure-Keeps tt
print_name_list-Keeps (name ∷ []) = name_print-Keeps name
print_name_list-Keeps (name ∷ name' ∷ rest) =
    Keeps-bind (name_print name) _ (name_print-Keeps name) λ _.
      Keeps-bind (print_char b',') _ (print_char-Keeps b',')
        λ _. print_name_list-Keeps (name' ∷ rest)
