-- ===== src/Lexer/ShortString.antt =====
-- src/llex.cpp, src/lobject.cpp: short strings and their escape sequences.
use terra.Common.{
  ℕ, zero, suc, ◌+◌, ◌-◌, ◌*◌, Option, none, some, List, [], ◌∷◌, ◌++◌, ltb, ◌==◌, if◌then◌else◌,
  ◌||◌,
}
use terra.Ctype.{Charint, eoz, byte, is, lisdigit, lisspace, lisxdigit, ltolower}
use terra.Strings.{TString}
use terra.Token.{tk_eos, tk_string}
use terra.Lexer.State
use terra.Lexer.State.{
  LexState, Token, SemInfo, Value, number, text, Result, M, ok, err, fault, out_of_fuel, ◌>>=◌,
  ◌>>◌, pure, get, put, current, when, branch, lexerror, Message, malformed_number,
  unfinished_long_string, unfinished_long_comment, invalid_long_delimiter, unfinished_string,
  hexadecimal_expected, decimal_too_large, invalid_escape, unread,
}
use terra.Lexer.Basic.{
  next, save, char_of, save_and_next, resetbuffer, is_newline, inclinenumber, rounds, while,
}
use terra.Lexer.LongString.{newstring, between}

-- `luaO_hexavalue`
unfoldable pub hexavalue : Charint → ℕ
unfolding lisdigit ltolower
hexavalue eoz = 0
hexavalue (byte c) = if lisdigit (byte c) then c - b'0' else ltolower c - b'a' + 10

-- the loop of `escerror`
unfoldable pub save_until_eoz : List Charint → M (Unit {0})
unfolding save
save_until_eoz [] s = ok tt s
save_until_eoz (eoz ∷ cs) s = ok tt s
save_until_eoz (byte c ∷ cs) s = State.bind (save c s) λ _. save_until_eoz cs

unfoldable pub escerror : {A : Type 0} → List Charint → Message → M A
unfolding resetbuffer save save_until_eoz
escerror cs msg = do resetbuffer; save b'\\'; save_until_eoz cs; lexerror msg tk_string

-- a round of the loop of `readhexaesc`, on the characters read before
unfoldable pub read_hexa : List Charint → ℕ → M ℕ
unfolding next lisxdigit escerror hexavalue
read_hexa cs r = do
  next
  c ← current
  branch (lisxdigit c) (pure (r * 16 + hexavalue c)) (escerror (cs ++ c ∷ []) hexadecimal_expected)

unfoldable pub readhexaesc : M ℕ
unfolding read_hexa
readhexaesc = do r ← read_hexa (byte b'x' ∷ []) 0; c ← current; read_hexa (byte b'x' ∷ c ∷ []) r

-- the loop of `readdecesc`, with the characters that it has read and the number of those left
unfoldable pub read_decimal : ℕ → List Charint → ℕ → M (List Charint × ℕ)
unfolding next lisdigit
read_decimal zero cs r s = ok (cs, r) s
read_decimal (suc left) cs r s =
    let c = s.current in
    let again =
      State.bind (next s) λ _. read_decimal left (cs ++ c ∷ []) (10 * r + char_of c - b'0') in
    if lisdigit c then again else ok (cs, r) s

unfoldable pub readdecesc : M ℕ
unfolding read_decimal escerror
readdecesc = do
  (cs, r) ← read_decimal 3 [] 0
  branch (ltb 255 r) (escerror cs decimal_too_large) (pure r)

-- the label `read_save`
unfoldable pub read_save : ℕ → M (Unit {0})
unfolding next save
read_save c = do next; save c

unfoldable pub zap_space : M (Unit {0})
unfolding inclinenumber next
zap_space s = branch (is_newline s.current) inclinenumber next s

-- the escapes of a single character
abbrev pub simple_escape : ℕ → Option ℕ
simple_escape c =
    if c == b'a'
    then some 7
    else if c == b'b'
    then some 8
    else if c == b'f'
    then some 12
    else if c == b'n'
    then some 10
    else if c == b'r'
    then some 13
    else if c == b't'
    then some 9
    else if c == b'v'
    then some 11
    else if c == b'\\' || c == b'"' || c == 39
    then some c
    else none

-- the other escapes
unfoldable pub other_escape : ℕ → M (Unit {0})
unfolding readhexaesc read_save inclinenumber save next while zap_space lisspace readdecesc escerror
other_escape c =
    branch (c == b'x') (do r ← readhexaesc; read_save r)
      (branch (is_newline (byte c)) (do inclinenumber; save b'\n')
        (branch (c == b'z') (do next; s ← get; while (rounds s) lisspace zap_space)
          (branch (lisdigit (byte c)) (do r ← readdecesc; save r)
            (escerror (byte c ∷ []) invalid_escape))))

unfoldable pub escape_by : Option ℕ → ℕ → M (Unit {0})
unfolding read_save other_escape
escape_by (some d) c = read_save d
escape_by none c = other_escape c

-- the switch behind a backslash; the end of the stream raises an error in the next round
unfoldable pub escape_char : Charint → M (Unit {0})
unfolding escape_by
escape_char eoz = pure tt
escape_char (byte c) = escape_by (simple_escape c) c

-- the body of the loop, on a character that is not the delimiter
unfoldable pub string_step : Charint → M (Unit {0})
unfolding next escape_char save_and_next
string_step eoz = lexerror unfinished_string tk_eos
string_step (byte c) =
    branch (is_newline (byte c)) (lexerror unfinished_string tk_string)
      (branch (c == b'\\') (do next; d ← current; escape_char d) save_and_next)

unfoldable pub string_loop : ℕ → ℕ → M (Unit {0})
unfolding string_step
string_loop zero del s = out_of_fuel
string_loop (suc fuel) del s =
    let again = State.bind (string_step s.current s) λ _. string_loop fuel del in
    if is del s.current then ok tt s else again

unfoldable pub read_string : ℕ → M TString
unfolding save_and_next string_loop newstring between
read_string del = do
  save_and_next
  s ← get
  string_loop (rounds s) del
  save_and_next
  newstring (between 1)
