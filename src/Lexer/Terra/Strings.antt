-- ===== src/Lexer/Terra/Strings.antt =====
-- src/llex.cpp: strings and comments leave in_terra as it is.
use terra.Common.{ℕ, zero, suc, refl, Bool, Option, none, some, List, [], ◌∷◌}
use terra.Ctype.{Charint, eoz, byte, is, lisdigit}
use terra.Lexer.State.{Message}
use terra.Lexer.Basic.{next, save, is_newline}
use terra.Lexer.LongString.{
  newstring, long_step, long_loop, long_body, read_long_string, read_long_comment,
}
use terra.Lexer.ShortString.{
  save_until_eoz, escerror, read_hexa, readhexaesc, read_decimal, readdecesc, read_save, zap_space,
  other_escape, escape_by, escape_char, string_step, string_loop, read_string,
}
use terra.Lexer.Terra.{
  KeepsTerra, SameTerra-bind, KeepsTerra-branch, SameTerra-if, KeepsTerra-pure, kept,
  next-KeepsTerra, save-KeepsTerra, resetbuffer-KeepsTerra, save_and_next-KeepsTerra,
  inclinenumber-KeepsTerra, while-KeepsTerra, skip_sep-KeepsTerra,
}

pub newstring-KeepsTerra : (part : List ℕ → List ℕ) → KeepsTerra (newstring part)
unfolding newstring
newstring-KeepsTerra part = record { at = λ l. refl }

long_step-KeepsTerra : (keep : Bool) (n : ℕ) (c : Charint) → KeepsTerra (long_step keep n c)
unfolding long_step
long_step-KeepsTerra keep n eoz = search kept
long_step-KeepsTerra keep n (byte c) =
    search
      (
        kept, next-KeepsTerra, save-KeepsTerra, resetbuffer-KeepsTerra, save_and_next-KeepsTerra,
        inclinenumber-KeepsTerra, skip_sep-KeepsTerra,
      )
      depth 24

long_loop-KeepsTerra : (fuel : ℕ) (keep : Bool) (n : ℕ) → KeepsTerra (long_loop fuel keep n)
unfolding long_loop
long_loop-KeepsTerra zero keep n = record { at = λ l. tt }
long_loop-KeepsTerra (suc fuel) keep n = record {
  at = λ l.
      SameTerra-bind _ l (long_step keep n l.current l)
        ((long_step-KeepsTerra keep n l.current).at l)
        λ last. KeepsTerra-branch last _ _ (KeepsTerra-pure tt) (long_loop-KeepsTerra fuel keep n);
}

pub long_body-KeepsTerra : (keep : Bool) (n : ℕ) → KeepsTerra (long_body keep n)
unfolding long_body
long_body-KeepsTerra keep n =
    search (kept, save_and_next-KeepsTerra, inclinenumber-KeepsTerra, long_loop-KeepsTerra) depth 24

pub read_long_string-KeepsTerra : (n : ℕ) → KeepsTerra (read_long_string n)
unfolding read_long_string
read_long_string-KeepsTerra n = search (kept, newstring-KeepsTerra, long_body-KeepsTerra) depth 24

read_long_comment-KeepsTerra : (n : ℕ) → KeepsTerra (read_long_comment n)
unfolding read_long_comment
read_long_comment-KeepsTerra n = search (kept, long_body-KeepsTerra) depth 24

save_until_eoz-KeepsTerra : (cs : List Charint) → KeepsTerra (save_until_eoz cs)
unfolding save_until_eoz
save_until_eoz-KeepsTerra [] = record { at = λ l. refl }
save_until_eoz-KeepsTerra (eoz ∷ cs) = record { at = λ l. refl }
save_until_eoz-KeepsTerra (byte c ∷ cs) = record {
  at = λ l.
      SameTerra-bind _ l (save c l) ((save-KeepsTerra c).at l) λ a. save_until_eoz-KeepsTerra cs;
}

escerror-KeepsTerra :
    {A : Type 0} (cs : List Charint) (msg : Message) → KeepsTerra (escerror {A = A} cs msg)
unfolding escerror
escerror-KeepsTerra cs msg =
    search (kept, save-KeepsTerra, resetbuffer-KeepsTerra, save_until_eoz-KeepsTerra) depth 24

read_hexa-KeepsTerra : (cs : List Charint) (r : ℕ) → KeepsTerra (read_hexa cs r)
unfolding read_hexa
read_hexa-KeepsTerra cs r = search (kept, next-KeepsTerra, escerror-KeepsTerra) depth 24

readhexaesc-KeepsTerra : KeepsTerra readhexaesc
unfolding readhexaesc
readhexaesc-KeepsTerra = search (kept, read_hexa-KeepsTerra) depth 24

read_decimal-KeepsTerra :
    (left : ℕ) (cs : List Charint) (r : ℕ) → KeepsTerra (read_decimal left cs r)
unfolding read_decimal
read_decimal-KeepsTerra zero cs r = record { at = λ l. refl }
read_decimal-KeepsTerra (suc left) cs r = record {
  at = λ l.
      SameTerra-if (lisdigit l.current) l _ _
        (SameTerra-bind _ l (next l) (next-KeepsTerra.at l) λ a. read_decimal-KeepsTerra left _ _)
        refl;
}

readdecesc-KeepsTerra : KeepsTerra readdecesc
unfolding readdecesc
readdecesc-KeepsTerra = search (kept, escerror-KeepsTerra, read_decimal-KeepsTerra) depth 24

read_save-KeepsTerra : (c : ℕ) → KeepsTerra (read_save c)
unfolding read_save
read_save-KeepsTerra c = search (kept, next-KeepsTerra, save-KeepsTerra) depth 24

zap_space-KeepsTerra : KeepsTerra zap_space
unfolding zap_space
zap_space-KeepsTerra = record {
  at = λ l.
      (KeepsTerra-branch (is_newline l.current) _ _ inclinenumber-KeepsTerra next-KeepsTerra).at l;
}

other_escape-KeepsTerra : (c : ℕ) → KeepsTerra (other_escape c)
unfolding other_escape
other_escape-KeepsTerra c =
    search
      (
        kept, next-KeepsTerra, save-KeepsTerra, inclinenumber-KeepsTerra, while-KeepsTerra,
        escerror-KeepsTerra, readhexaesc-KeepsTerra, readdecesc-KeepsTerra, read_save-KeepsTerra,
        zap_space-KeepsTerra,
      )
      depth 24

escape_by-KeepsTerra : (d : Option ℕ) (c : ℕ) → KeepsTerra (escape_by d c)
unfolding escape_by
escape_by-KeepsTerra (some d) c = read_save-KeepsTerra d
escape_by-KeepsTerra none c = other_escape-KeepsTerra c

escape_char-KeepsTerra : (c : Charint) → KeepsTerra (escape_char c)
unfolding escape_char
escape_char-KeepsTerra eoz = KeepsTerra-pure tt
escape_char-KeepsTerra (byte c) = escape_by-KeepsTerra _ c

string_step-KeepsTerra : (c : Charint) → KeepsTerra (string_step c)
unfolding string_step
string_step-KeepsTerra eoz = search kept
string_step-KeepsTerra (byte c) =
    search (kept, next-KeepsTerra, save_and_next-KeepsTerra, escape_char-KeepsTerra) depth 24

string_loop-KeepsTerra : (fuel del : ℕ) → KeepsTerra (string_loop fuel del)
unfolding string_loop
string_loop-KeepsTerra zero del = record { at = λ l. tt }
string_loop-KeepsTerra (suc fuel) del = record {
  at = λ l. SameTerra-if (is del l.current) l _ _ refl (
      SameTerra-bind _ l (string_step l.current l) ((string_step-KeepsTerra l.current).at l)
        λ a. string_loop-KeepsTerra fuel del);
}

pub read_string-KeepsTerra : (del : ℕ) → KeepsTerra (read_string del)
unfolding read_string
read_string-KeepsTerra del =
    search (kept, save_and_next-KeepsTerra, newstring-KeepsTerra, string_loop-KeepsTerra) depth 24
