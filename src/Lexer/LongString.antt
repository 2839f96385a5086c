-- ===== src/Lexer/LongString.antt =====
-- src/llex.cpp: `skip_sep` and `read_long_string`, for long strings and long comments.
use terra.Common.{
  ℕ, zero, suc, ◌+◌, ◌-◌, ◌*◌, Bool, true, false, List, ◌==◌, if◌then◌else◌, length, take, drop,
  ◌||◌, not,
}
use terra.Ctype.{Charint, eoz, byte, is}
use terra.Strings.{TString, newlstr}
use terra.Token.{tk_eos}
use terra.Lexer.State
use terra.Lexer.State.{
  LexState, Token, SemInfo, Value, number, text, Result, M, ok, err, fault, out_of_fuel, ◌>>=◌,
  ◌>>◌, pure, get, put, current, when, branch, lexerror, Message, malformed_number,
  unfinished_long_string, unfinished_long_comment, invalid_long_delimiter, unfinished_string,
  hexadecimal_expected, decimal_too_large, invalid_escape, unread,
}
use terra.Lexer.Basic.{
  next, save, save_and_next, resetbuffer, assert, is_newline, inclinenumber, rounds,
}

-- the result of `skip_sep`: the number of `=` signs, or `-count - 1` of a malformed sequence
pub data Sep : Type 0 where
  sep malformed : ℕ → Sep

abbrev pub same_char : Charint → Charint → Bool
same_char eoz eoz = true
same_char eoz (byte d) = false
same_char (byte c) eoz = false
same_char (byte c) (byte d) = c == d

unfoldable pub count_equals : ℕ → ℕ → M ℕ
unfolding save_and_next
count_equals zero count s = out_of_fuel
count_equals (suc fuel) count s =
    let again = State.bind (save_and_next s) λ _. count_equals fuel (count + 1) in
    if is b'=' s.current then again else ok count s

unfoldable pub skip_sep : M Sep
unfolding count_equals save_and_next
skip_sep = do
  c ← current
  assert (is b'[' c || is b']' c)
  save_and_next
  s ← get
  count ← count_equals (rounds s) 0
  cur ← current
  pure (if same_char cur c then sep count else malformed count)

-- `skip_sep(ls) == n`
abbrev pub is_sep : ℕ → Sep → Bool
is_sep n (sep m) = m == n
is_sep n (malformed m) = false

-- `luaX_newstring` of a part of the buffer
unfoldable pub newstring : (List ℕ → List ℕ) → M TString
unfolding newlstr
newstring part s =
    let found = newlstr s.strings (part s.buff.buffer) in
    ok found.0 (record s { strings = found.1 })

-- a round of the loop; the result tells whether it was the last. `keep` is `seminfo != NULL`.
unfoldable pub long_step : Bool → ℕ → Charint → M Bool
unfolding skip_sep save save_and_next inclinenumber resetbuffer next
long_step keep n eoz =
    lexerror (if keep then unfinished_long_string else unfinished_long_comment) tk_eos
long_step keep n (byte c) =
    branch (c == b']')
      (do r ← skip_sep; branch (is_sep n r) (save_and_next >> pure true) (pure false))
      (branch (is_newline (byte c))
        (do save b'\n'; inclinenumber; when (not keep) resetbuffer; pure false)
        (branch keep save_and_next next >> pure false))

unfoldable pub long_loop : ℕ → Bool → ℕ → M (Unit {0})
unfolding long_step
long_loop zero keep n s = out_of_fuel
long_loop (suc fuel) keep n s =
    State.bind (long_step keep n s.current s)
      λ last. branch last (pure tt) (λ s'. long_loop fuel keep n s')

unfoldable pub long_body : Bool → ℕ → M (Unit {0})
unfolding long_loop save_and_next inclinenumber
long_body keep n = do
  save_and_next
  c ← current
  when (is_newline c) inclinenumber
  s ← get
  long_loop (rounds s) keep n

-- the text between the brackets
unfoldable pub between : ℕ → List ℕ → List ℕ
between n buffer = take (length buffer - 2 * n) (drop n buffer)

-- `read_long_string` with a `seminfo`, and without one
unfoldable pub read_long_string : ℕ → M TString
unfolding long_body newstring between
read_long_string n = do long_body true n; newstring (between (2 + n))

unfoldable pub read_long_comment : ℕ → M (Unit {0})
unfolding long_body
read_long_comment n = long_body false n
