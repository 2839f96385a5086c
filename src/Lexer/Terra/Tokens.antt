-- ===== src/Lexer/Terra/Tokens.antt =====
-- src/llex.cpp: numerals and the other tokens leave in_terra as it is.
use terra.Common.{ℕ, zero, suc, refl, Bool, true, false, Option, none, some, ◌==◌}
use terra.Ctype.{Charint, eoz, byte}
use terra.Token.{tk_eos}
use terra.Lexer.State
use terra.Lexer.State.{
  LexState, SemInfo, Token, Result, M, ok, err, fault, out_of_fuel, ◌>>=◌, ◌>>◌, pure, get, put,
  current, when, branch, lexerror, Message,
}
use terra.Lexer.Basic.{save_and_next}
use terra.Lexer.LongString.{Sep, sep, malformed}
use terra.Lexer.Numeral.{
  Numbers, ReadNumber, in_numeral, numeral_loop, numeral_prefix, clear_suffix, or_malformed,
  numeral_end, read_numeral,
}
use terra.Lexer.Scan.{
  again, done, short_comment, long_comment, comment, dash, long_bracket, bracket, one_or_two,
  compare_or_shift, short_string, numeral, dot, name, lex_char, lex_loop, llex, luax_next,
  luax_lookahead,
}
use terra.Lexer.Terra.{
  SameTerra, KeepsTerra, SameTerra-after, SameTerra-bind, SameTerra-if, kept, next-KeepsTerra,
  save-KeepsTerra, resetbuffer-KeepsTerra, save_and_next-KeepsTerra, inclinenumber-KeepsTerra,
  check_next-KeepsTerra, while-KeepsTerra, skip_sep-KeepsTerra,
}
use terra.Lexer.Terra.Strings.{
  newstring-KeepsTerra, long_body-KeepsTerra, read_long_string-KeepsTerra, read_string-KeepsTerra,
}

numeral_loop-KeepsTerra :
    (fuel xp : ℕ) (c : Charint) (point : Bool) → KeepsTerra (numeral_loop fuel xp c point)
unfolding numeral_loop
numeral_loop-KeepsTerra zero xp c point = record { at = λ l. tt }
numeral_loop-KeepsTerra (suc fuel) xp c point = record {
  at = λ l.
      SameTerra-if (in_numeral xp c l.current) l _ _
        (SameTerra-bind _ l (save_and_next l) (save_and_next-KeepsTerra.at l)
          λ a. numeral_loop-KeepsTerra fuel xp _ _)
        refl;
}

numeral_prefix-KeepsTerra : (c : Charint) → KeepsTerra (numeral_prefix c)
unfolding numeral_prefix
numeral_prefix-KeepsTerra c = search (kept, save_and_next-KeepsTerra) depth 24

clear_suffix-KeepsTerra : KeepsTerra clear_suffix
unfolding clear_suffix
clear_suffix-KeepsTerra = record { at = λ l. refl }

or_malformed-KeepsTerra : (r : Option ReadNumber) → KeepsTerra (or_malformed r)
unfolding or_malformed
or_malformed-KeepsTerra none = record { at = λ l. tt }
or_malformed-KeepsTerra (some read) = record { at = λ l. refl }

numeral_end-KeepsTerra :
    (lib : Numbers) (single point : Bool) (info : SemInfo)
    → KeepsTerra (numeral_end lib single point info)
unfolding numeral_end
numeral_end-KeepsTerra lib single point info =
    search (kept, clear_suffix-KeepsTerra, or_malformed-KeepsTerra) depth 24

read_numeral-KeepsTerra : (lib : Numbers) (info : SemInfo) → KeepsTerra (read_numeral lib info)
unfolding read_numeral
read_numeral-KeepsTerra lib info =
    search
      (
        kept, save-KeepsTerra, numeral_loop-KeepsTerra, numeral_prefix-KeepsTerra,
        numeral_end-KeepsTerra,
      )
      depth 24

short_comment-KeepsTerra : KeepsTerra short_comment
unfolding short_comment
short_comment-KeepsTerra = search (kept, next-KeepsTerra, while-KeepsTerra) depth 24

long_comment-KeepsTerra : (r : Sep) → KeepsTerra (long_comment r)
unfolding long_comment
long_comment-KeepsTerra (sep n) =
    search (kept, resetbuffer-KeepsTerra, long_body-KeepsTerra) depth 24
long_comment-KeepsTerra (malformed n) = short_comment-KeepsTerra

comment-KeepsTerra : KeepsTerra comment
unfolding comment
comment-KeepsTerra =
    search
      (
        kept, next-KeepsTerra, resetbuffer-KeepsTerra, skip_sep-KeepsTerra,
        short_comment-KeepsTerra, long_comment-KeepsTerra,
      )
      depth 24

dash-KeepsTerra : (info : SemInfo) → KeepsTerra (dash info)
unfolding dash
dash-KeepsTerra info = search (kept, next-KeepsTerra, comment-KeepsTerra) depth 24

long_bracket-KeepsTerra : (info : SemInfo) (r : Sep) → KeepsTerra (long_bracket info r)
unfolding long_bracket
long_bracket-KeepsTerra info (sep n) = search (kept, read_long_string-KeepsTerra) depth 24
long_bracket-KeepsTerra info (malformed zero) = search kept
long_bracket-KeepsTerra info (malformed (suc n)) = search kept

bracket-KeepsTerra : (info : SemInfo) → KeepsTerra (bracket info)
unfolding bracket
bracket-KeepsTerra info = search (kept, skip_sep-KeepsTerra, long_bracket-KeepsTerra) depth 24

one_or_two-KeepsTerra : (x k y : ℕ) (info : SemInfo) → KeepsTerra (one_or_two x k y info)
unfolding one_or_two
one_or_two-KeepsTerra x k y info = search (kept, next-KeepsTerra) depth 24

compare_or_shift-KeepsTerra :
    (x y z : ℕ) (info : SemInfo) → KeepsTerra (compare_or_shift x y z info)
unfolding compare_or_shift
compare_or_shift-KeepsTerra x y z info = search (kept, next-KeepsTerra) depth 24

short_string-KeepsTerra : (del : ℕ) (info : SemInfo) → KeepsTerra (short_string del info)
unfolding short_string
short_string-KeepsTerra del info = search (kept, read_string-KeepsTerra) depth 24

numeral-KeepsTerra : (lib : Numbers) (info : SemInfo) → KeepsTerra (numeral lib info)
unfolding numeral
numeral-KeepsTerra lib info = search (kept, read_numeral-KeepsTerra) depth 24

dot-KeepsTerra : (lib : Numbers) (info : SemInfo) → KeepsTerra (dot lib info)
unfolding dot
dot-KeepsTerra lib info =
    search (kept, save_and_next-KeepsTerra, check_next-KeepsTerra, numeral-KeepsTerra) depth 24

name-KeepsTerra : (info : SemInfo) → KeepsTerra (name info)
unfolding name
name-KeepsTerra info =
    search (kept, save_and_next-KeepsTerra, while-KeepsTerra, newstring-KeepsTerra) depth 24

lex_char-KeepsTerra :
    (lib : Numbers) (info : SemInfo) (c : Charint) → KeepsTerra (lex_char lib info c)
unfolding lex_char
lex_char-KeepsTerra lib info eoz = search kept
lex_char-KeepsTerra lib info (byte c) =
    search
      (
        kept, next-KeepsTerra, inclinenumber-KeepsTerra, dash-KeepsTerra, bracket-KeepsTerra,
        one_or_two-KeepsTerra, compare_or_shift-KeepsTerra, short_string-KeepsTerra,
        numeral-KeepsTerra, dot-KeepsTerra, name-KeepsTerra,
      )
      depth 40 fits 2000

lex_loop-KeepsTerra :
    (lib : Numbers) (fuel : ℕ) (info : SemInfo) → KeepsTerra (lex_loop lib fuel info)
unfolding lex_loop
lex_loop-KeepsTerra lib zero info = record { at = λ l. tt }
lex_loop-KeepsTerra lib (suc fuel) info = record {
  at = λ l.
      SameTerra-bind _ l (lex_char lib info l.current l)
        ((lex_char-KeepsTerra lib info l.current).at l)
        λ r. record {
          at = λ l'.
              elim r
                as (λ r. SameTerra l' (elim r as (λ r. Result (ℕ × SemInfo)) [
                  | again ↦ lex_loop lib fuel info l'
                  | done token info' ↦ ok (token, info') l'
                ])) [ again ↦ (lex_loop-KeepsTerra lib fuel info).at l' | done token info' ↦ refl ];
        };
}

llex-KeepsTerra : (lib : Numbers) (info : SemInfo) → KeepsTerra (llex lib info)
unfolding llex
llex-KeepsTerra lib info = search (kept, resetbuffer-KeepsTerra, lex_loop-KeepsTerra) depth 24

-- `luaX_next` leaves `in_terra` as it is.
pub luax_next-KeepsTerra : (lib : Numbers) → KeepsTerra (luax_next lib)
unfolding luax_next
luax_next-KeepsTerra lib = record {
  at = λ l.
      let l' : LexState = record l { lastline = l.linenumber } in
      SameTerra-if (l.lookahead.token == tk_eos) l _ _
        (SameTerra-after l l' _ refl (
          SameTerra-bind _ l' (llex lib l.t.seminfo l') ((llex-KeepsTerra lib l.t.seminfo).at l')
            λ (token, info). record { at = λ l''. refl }))
        refl;
}

SameTerra-assert :
    {A : Type 0} (b : Bool) (l : LexState) (r : Result A)
    → SameTerra l r
    → SameTerra l (State.bind (branch b (pure tt) (λ _. fault) l) λ _ _. r)
SameTerra-assert true l r h = h
SameTerra-assert false l r h = tt

-- `luaX_lookahead` leaves `in_terra` as it is.
pub luax_lookahead-KeepsTerra : (lib : Numbers) → KeepsTerra (luax_lookahead lib)
unfolding luax_lookahead
luax_lookahead-KeepsTerra lib = record {
  at = λ l. SameTerra-assert (l.lookahead.token == tk_eos) l _ (
      SameTerra-bind _ l (llex lib l.lookahead.seminfo l)
        ((llex-KeepsTerra lib l.lookahead.seminfo).at l)
        λ (token, info). record { at = λ l'. refl });
}
