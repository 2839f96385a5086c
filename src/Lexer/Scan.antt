-- ===== src/Lexer/Scan.antt =====
-- src/llex.cpp: `llex`, `luaX_next` and `luaX_lookahead`.
use terra.Common.{
  ℕ, zero, suc, ◌+◌, ◌-◌, Bool, false, List, [], ◌∷◌, ltb, leb, ◌==◌, if◌then◌else◌, ◌&&◌, ◌||◌,
  not,
}
use terra.Ctype.{Charint, eoz, byte, is, lislalpha, lislalnum, lisdigit}
use terra.Strings.{TString}
use terra.Token.{tk_eos, tk_string, tk_number, tk_name, tk_special, first_reserved}
use terra.Lexer.State
use terra.Lexer.State.{
  LexState, Token, SemInfo, Value, number, text, Result, M, ok, err, fault, out_of_fuel, ◌>>=◌,
  ◌>>◌, pure, get, put, current, when, branch, lexerror, Message, malformed_number,
  unfinished_long_string, unfinished_long_comment, invalid_long_delimiter, unfinished_string,
  hexadecimal_expected, decimal_too_large, invalid_escape, unread,
}
use terra.Lexer.Basic.{
  next, save_and_next, resetbuffer, is_newline, inclinenumber, rounds, while, check_next,
}
use terra.Strings.{same_text}
use terra.Token.{
  tk_func_ptr, tk_eq, tk_le, tk_lshift, tk_ge, tk_rshift, tk_ne, tk_dbcolon, tk_dots, tk_concat,
}
use terra.Lexer.LongString.{
  Sep, sep, malformed, skip_sep, read_long_string, read_long_comment, newstring,
}
use terra.Lexer.ShortString.{read_string}
use terra.Lexer.Numeral.{Numbers, read_numeral, c_str}

-- A round of the loop of `llex` returns a token, or goes on behind a space or a comment.
pub data Step : Type 0 where
  again : Step
  done : ℕ → SemInfo → Step

abbrev return : ℕ → SemInfo → M Step
return token info = pure (done token info)

-- `return token;` behind the current character
abbrev take_one : ℕ → SemInfo → M Step
take_one token info = next >> return token info

-- `while (!currIsNewline(ls) && ls->current != EOZ)`
abbrev pub in_line : Charint → Bool
in_line eoz = false
in_line (byte c) = not (is_newline (byte c))

unfoldable pub short_comment : M Step
unfolding while next
short_comment = do s ← get; while (rounds s) in_line next; pure again

unfoldable pub long_comment : Sep → M Step
unfolding read_long_comment resetbuffer short_comment
long_comment (sep n) = do read_long_comment n; resetbuffer; pure again
long_comment (malformed n) = short_comment

unfoldable pub comment : M Step
unfolding next skip_sep resetbuffer long_comment short_comment
comment = do
  next
  c ← current
  branch (is b'[' c) (do r ← skip_sep; resetbuffer; long_comment r) short_comment

unfoldable pub dash : SemInfo → M Step
unfolding next comment
dash info = do
  next
  c ← current
  branch (is b'>' c) (take_one tk_func_ptr info) (branch (is b'-' c) comment (return b'-' info))

unfoldable pub long_bracket : SemInfo → Sep → M Step
unfolding read_long_string
long_bracket info (sep n) = do
  ts ← read_long_string n
  return tk_string (record info { value = text ts })
long_bracket info (malformed zero) = return b'[' info
long_bracket info (malformed (suc n)) = lexerror invalid_long_delimiter tk_string

unfoldable pub bracket : SemInfo → M Step
unfolding skip_sep long_bracket
bracket info = do r ← skip_sep; long_bracket info r

-- one character, or two with the character `k` behind it
unfoldable pub one_or_two : ℕ → ℕ → ℕ → SemInfo → M Step
unfolding next
one_or_two single k double info = do
  next
  c ← current
  branch (is k c) (take_one double info) (return single info)

-- `<` and `>`
unfoldable pub compare_or_shift : ℕ → ℕ → ℕ → SemInfo → M Step
unfolding next
compare_or_shift single with_equals shift info = do
  next
  c ← current
  branch (is b'=' c) (take_one with_equals info)
      (branch (is single c) (take_one shift info) (return single info))

unfoldable pub short_string : ℕ → SemInfo → M Step
unfolding read_string
short_string del info = do ts ← read_string del; return tk_string (record info { value = text ts })

module _ (lib : Numbers) where
  unfoldable pub numeral : SemInfo → M Step
  unfolding read_numeral
  numeral info = do info' ← read_numeral lib info; return tk_number info'

  unfoldable pub dot : SemInfo → M Step
  unfolding save_and_next check_next numeral
  dot info = do
    save_and_next
    two ← check_next b'.'
    c ← current
    branch two (do three ← check_next b'.'; return (if three then tk_dots else tk_concat) info)
        (branch (lisdigit c) (numeral info) (return b'.' info))

-- whether the entry-point table maps the name to a table
unfoldable pub has_entry : List ℕ → List (List ℕ) → Bool
unfolding same_text
has_entry name [] = false
has_entry name (entry ∷ entries) = same_text entry name || has_entry name entries

-- the token of a name: a reserved word, the entry point of a language extension, or a name
unfoldable pub name_token : TString → LexState → ℕ
unfolding has_entry c_str
name_token ts s =
    if ltb 0 ts.reserved
    then ts.reserved - 1 + first_reserved
    else if not (s.languageextensionsenabled == 0) && has_entry (c_str ts.string) s.entry_points
    then tk_special
    else tk_name

unfoldable pub name : SemInfo → M Step
unfolding save_and_next while newstring name_token
name info = do
  save_and_next
  s ← get
  while (rounds s) lislalnum save_and_next
  ts ← newstring (λ buffer. buffer)
  s' ← get
  return (name_token ts s') (record info { value = text ts })

abbrev pub is_space : ℕ → Bool
is_space c = c == b' ' || c == 12 || c == b'\t' || c == 11

module _ (lib : Numbers) where
  -- the switch of `llex`
  unfoldable pub lex_char : SemInfo → Charint → M Step
  unfolding inclinenumber next dash bracket one_or_two compare_or_shift short_string dot numeral
      name
  lex_char info eoz = do s ← get; return tk_eos (record info { buffer_begin = s.output_buffer.n })
  lex_char info (byte c) = branch (is_newline (byte c)) (inclinenumber >> pure again) (
      branch (is_space c) (next >> pure again) (
        branch (c == b'-') (dash info) (
          branch (c == b'[') (bracket info) (
            branch (c == b'=') (one_or_two b'=' b'=' tk_eq info) (
              branch (c == b'<') (compare_or_shift b'<' tk_le tk_lshift info) (
                branch (c == b'>') (compare_or_shift b'>' tk_ge tk_rshift info) (
                  branch (c == b'~') (one_or_two b'~' b'=' tk_ne info) (
                    branch (c == b':') (one_or_two b':' b':' tk_dbcolon info) (
                      branch (c == b'"' || c == 39) (short_string c info) (
                        branch (c == b'.') (dot lib info) (
                          branch (leb b'0' c && leb c b'9') (numeral lib info)
                            (branch (lislalpha (byte c)) (name info) (take_one c info)))))))))))))

  unfoldable pub lex_loop : ℕ → SemInfo → M (ℕ × SemInfo)
  unfolding lex_char
  lex_loop zero info s = out_of_fuel
  lex_loop (suc fuel) info s =
      State.bind (lex_char info s.current s)
        λ r s'. elim r [ again ↦ lex_loop fuel info s' | done token info' ↦ ok (token, info') s' ]

  -- `llex`; the character that is already recorded is not counted. At the end of an empty input
  -- the beginning is written again before it is read.
  unfoldable pub llex : SemInfo → M (ℕ × SemInfo)
  unfolding resetbuffer lex_loop
  llex info = do
    resetbuffer
    s ← get
    lex_loop (rounds s)
        (record info { buffer_begin = s.output_buffer.n - 1; linebegin = s.linenumber })

  unfoldable pub luax_next : M (Unit {0})
  unfolding llex
  luax_next s =
      let s' = record s { lastline = s.linenumber } in
      let read =
        State.bind (llex s'.t.seminfo s') λ (token, info) s''.
          ok tt (record s'' { t = record { token = token; seminfo = info } }) in
      if s.lookahead.token == tk_eos
      then read
      else ok tt
          (record s' { t = s.lookahead; lookahead = record (s.lookahead) { token = tk_eos } })

  unfoldable pub luax_lookahead : M ℕ
  unfolding llex
  luax_lookahead s =
      State.bind (branch (s.lookahead.token == tk_eos) (pure tt) (λ _. fault) s) λ _ _.
        State.bind (llex s.lookahead.seminfo s) λ (token, info) s'.
          ok token (record s' { lookahead = record { token = token; seminfo = info } })
