-- ===== src/Lexer/Terra.antt =====
-- src/llex.cpp: no function of the lexer changes `in_terra`, which belongs to the parser.
pub mod Strings
pub mod Tokens
use terra.Common.{
  ℕ, zero, suc, ◌+◌, ◌≡◌, refl, ◌∙◌, Bool, true, false, Option, none, some, List, [], ◌∷◌, ◌==◌,
  if◌then◌else◌,
}
use terra.Ctype.{Charint, eoz, byte, is, lisdigit}
use terra.Zio.{Zio, zgetc}
use terra.Mbuffer
use terra.Mbuffer.{Mbuffer}
use terra.Token.{tk_eos}
use terra.Lexer.State
use terra.Lexer.State.{
  LexState, SemInfo, Token, Result, M, ok, err, fault, out_of_fuel, ◌>>=◌, ◌>>◌, pure, get, put,
  current, when, branch, lexerror, Message,
}
use terra.Lexer.Basic.{
  next, advance, save_and_next, save, saved, resetbuffer, assert, inclinenumber, count_line,
  bump_line, is_newline, while, check_next,
}
use terra.Lexer.LongString.{
  Sep, sep, malformed, count_equals, skip_sep, newstring, long_step, long_loop, long_body,
  read_long_string, read_long_comment,
}
use terra.Lexer.ShortString.{
  save_until_eoz, escerror, read_hexa, readhexaesc, read_decimal, readdecesc, read_save, zap_space,
  other_escape, escape_by, escape_char, string_step, string_loop, read_string,
}
use terra.Lexer.Numeral.{
  Numbers, ReadNumber, in_numeral, numeral_loop, numeral_prefix, clear_suffix, or_malformed,
  numeral_end, read_numeral,
}
use terra.Lexer.Scan.{
  again, done, short_comment, long_comment, comment, dash, long_bracket, bracket, one_or_two,
  compare_or_shift, short_string, numeral, dot, name, lex_char, lex_loop, llex, luax_next,
  luax_lookahead,
}

abbrev pub SameTerra : {A : Type 0} → LexState → Result A → Type 0
SameTerra l (ok a l') = l'.in_terra ≡ l.in_terra
SameTerra l (err e) = Unit {0}
SameTerra l fault = Unit {0}
SameTerra l out_of_fuel = Unit {0}

pub record KeepsTerra {A : Type 0} (m : M A) : Type 0 where
  pub at : (l : LexState) → SameTerra l (m l)

pub SameTerra-after :
    {A : Type 0} (l l' : LexState) (r : Result A)
    → l'.in_terra ≡ l.in_terra
    → SameTerra l' r
    → SameTerra l r
SameTerra-after l l' (ok a l'') e h = h ∙ e
SameTerra-after l l' (err x) e h = tt
SameTerra-after l l' fault e h = tt
SameTerra-after l l' out_of_fuel e h = tt

module _ {A B : Type 0} where
  pub SameTerra-bind :
      (f : A → M B) (l : LexState) (r : Result A)
      → SameTerra l r
      → ((a : A) → KeepsTerra (f a))
      → SameTerra l (State.bind r f)
  SameTerra-bind f l (ok a l') h k = SameTerra-after l l' (f a l') h ((k a).at l')
  SameTerra-bind f l (err e) h k = tt
  SameTerra-bind f l fault h k = tt
  SameTerra-bind f l out_of_fuel h k = tt

  pub KeepsTerra-bind :
      (m : M A) (f : A → M B) → KeepsTerra m → ((a : A) → KeepsTerra (f a)) → KeepsTerra (m >>= f)
  KeepsTerra-bind m f h k = record { at = λ l. SameTerra-bind f l (m l) (h.at l) k }

module _ {A : Type 0} where
  pub KeepsTerra-branch :
      (b : Bool) (m n : M A) → KeepsTerra m → KeepsTerra n → KeepsTerra (branch b m n)
  KeepsTerra-branch true m n h k = h
  KeepsTerra-branch false m n h k = k

  pub SameTerra-if :
      (b : Bool) (l : LexState) (r q : Result A)
      → SameTerra l r
      → SameTerra l q
      → SameTerra l (if b then r else q)
  SameTerra-if true l r q h k = h
  SameTerra-if false l r q h k = k

  pub KeepsTerra-pure : (a : A) → KeepsTerra (pure a)
  KeepsTerra-pure a = record { at = λ l. refl }

  pub KeepsTerra-lexerror :
      (message : Message) (token : ℕ) → KeepsTerra (lexerror {A = A} message token)
  KeepsTerra-lexerror message token = record { at = λ l. tt }

pub KeepsTerra-when : (b : Bool) (m : M (Unit {0})) → KeepsTerra m → KeepsTerra (when b m)
KeepsTerra-when true m h = h
KeepsTerra-when false m h = KeepsTerra-pure tt

pub KeepsTerra-assert : (b : Bool) → KeepsTerra (assert b)
KeepsTerra-assert true = KeepsTerra-pure tt
KeepsTerra-assert false = record { at = λ l. tt }

pub KeepsTerra-current : KeepsTerra current
KeepsTerra-current = record { at = λ l. refl }

pub KeepsTerra-get : KeepsTerra get
KeepsTerra-get = record { at = λ l. refl }

pub KeepsTerra-bump : KeepsTerra bump_line
KeepsTerra-bump = record { at = λ l. refl }

pub ruleset kept = (
  KeepsTerra-bind, KeepsTerra-branch, KeepsTerra-pure, KeepsTerra-lexerror, KeepsTerra-when,
  KeepsTerra-assert, KeepsTerra-current, KeepsTerra-get, KeepsTerra-bump,
)

advance-SameTerra : (r : Option (Charint × Zio)) (l : LexState) → SameTerra l (advance r l)
unfolding advance
advance-SameTerra none l = tt
advance-SameTerra (some (eoz, z)) l = refl
advance-SameTerra (some (byte c, z)) l = refl

pub next-KeepsTerra : KeepsTerra next
unfolding next
next-KeepsTerra = record { at = λ l. advance-SameTerra (zgetc l.z) l }

saved-SameTerra : (r : Option Mbuffer) (l : LexState) → SameTerra l (saved r l)
unfolding saved
saved-SameTerra none l = tt
saved-SameTerra (some b) l = refl

pub save-KeepsTerra : (c : ℕ) → KeepsTerra (save c)
unfolding save
save-KeepsTerra c = record { at = λ l. saved-SameTerra (Mbuffer.save l.buff c) l }

pub resetbuffer-KeepsTerra : KeepsTerra resetbuffer
unfolding resetbuffer
resetbuffer-KeepsTerra = record { at = λ l. refl }

pub save_and_next-KeepsTerra : KeepsTerra save_and_next
unfolding save_and_next
save_and_next-KeepsTerra = search (kept, next-KeepsTerra, save-KeepsTerra) depth 24

count_line-KeepsTerra : KeepsTerra count_line
unfolding count_line
count_line-KeepsTerra = search (kept) depth 24

pub inclinenumber-KeepsTerra : KeepsTerra inclinenumber
unfolding inclinenumber
inclinenumber-KeepsTerra = search (kept, next-KeepsTerra, count_line-KeepsTerra) depth 24

pub check_next-KeepsTerra : (k : ℕ) → KeepsTerra (check_next k)
unfolding check_next
check_next-KeepsTerra k = search (kept, save_and_next-KeepsTerra) depth 24

pub while-KeepsTerra :
    (fuel : ℕ) (test : Charint → Bool) (body : M (Unit {0}))
    → KeepsTerra body
    → KeepsTerra (while fuel test body)
unfolding while
while-KeepsTerra zero test body h = record { at = λ l. tt }
while-KeepsTerra (suc fuel) test body h = record {
  at = λ l.
      SameTerra-if (test l.current) l _ _
        (SameTerra-bind _ l (body l) (h.at l) λ a. while-KeepsTerra fuel test body h) refl;
}

count_equals-KeepsTerra : (fuel count : ℕ) → KeepsTerra (count_equals fuel count)
unfolding count_equals
count_equals-KeepsTerra zero count = record { at = λ l. tt }
count_equals-KeepsTerra (suc fuel) count = record {
  at = λ l.
      SameTerra-if (is b'=' l.current) l _ _
        (SameTerra-bind _ l (save_and_next l) (save_and_next-KeepsTerra.at l)
          λ a. count_equals-KeepsTerra fuel (count + 1))
        refl;
}

pub skip_sep-KeepsTerra : KeepsTerra skip_sep
unfolding skip_sep
skip_sep-KeepsTerra = search (kept, save_and_next-KeepsTerra, count_equals-KeepsTerra) depth 24
