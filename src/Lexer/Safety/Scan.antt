-- ===== src/Lexer/Safety/Scan.antt =====
-- src/llex.cpp: every round of `llex` is safe, and reads a character or returns the end.
use terra.Common.{
  ℕ, zero, suc, ◌+◌, ◌-◌, ◌≤◌, ◌<◌, ◌≡◌, refl, true, false, arith, leb, ◌==◌, ◌&&◌, ◌||◌,
}
use terra.Ctype.{Charint, eoz, byte, is, lislalpha, lislalnum, lisdigit}
use terra.Token.{tk_func_ptr, tk_eq, tk_le, tk_lshift, tk_ge, tk_rshift, tk_ne, tk_dbcolon}
use terra.Lexer.State
use terra.Lexer.State.{
  LexState, Token, SemInfo, Value, number, text, Result, M, ok, err, fault, out_of_fuel, ◌>>=◌,
  ◌>>◌, pure, get, put, current, when, branch, lexerror, Message, malformed_number,
  unfinished_long_string, unfinished_long_comment, invalid_long_delimiter, unfinished_string,
  hexadecimal_expected, decimal_too_large, invalid_escape, unread,
}
use terra.Lexer.Basic.{
  next, save_and_next, resetbuffer, is_newline, inclinenumber, rounds, while, check_next,
}
use terra.Zio.{pending}
use terra.Ctype.Ranges.{eoz_classless, digit-lisdigit}
use terra.Lexer.LongString.{
  Sep, sep, malformed, skip_sep, newstring, read_long_string, read_long_comment,
}
use terra.Lexer.ShortString.{read_string}
use terra.Lexer.Numeral.{Numbers, read_numeral}
use terra.Lexer.Scan.{
  Step, again, done, in_line, short_comment, long_comment, comment, dash, long_bracket, bracket,
  one_or_two, compare_or_shift, short_string, numeral, dot, name_token, name, lex_char, lex_loop,
  llex, is_space,
}
use terra.Lexer.Safety.Numeral.{read_numeral-Safe}
use terra.Lexer.Safety.Strings.{
  newstring-Safe, AtBracket, skip_sep-Safe, long_body-Safe, read_long_string-Safe,
}
use terra.Lexer.Safety.Escapes.{read_string-Safe}
use terra.Lexer.Safety.Follows.{
  IsValid, left, Follows-refl, Follows-le, Safe, Any, Safe-bind, Safe-le, Safe-Any, Safe-branch,
  left_of_test,
}
use terra.Lexer.Safety.Basic.{
  next-Safe, save_and_next-Safe, resetbuffer-Safe, inclinenumber-Safe, Keeps, while-Safe,
  check_next-Safe,
}

-- A round that goes on has read a character.
abbrev Progress : LexState → Step → LexState → Type 0
Progress s again s' = left s' + 1 ≤ left s
Progress s (done token info) s' = Unit {0}

Safe-Progress : (s : LexState) (r : Result Step) → Safe 1 Any s r → Safe 0 (Progress s) s r
Safe-Progress s (ok again s') (f, q) = (Follows-le (omega arith) f, f.read)
Safe-Progress s (ok (done token info) s') (f, q) = (Follows-le (omega arith) f, tt)
Safe-Progress s (err e) h = tt
Safe-Progress s fault h = h
Safe-Progress s out_of_fuel h = h

take_one-Safe :
    (token : ℕ) (info : SemInfo) (s : LexState)
    → IsValid s
    → 1 ≤ left s
    → Safe 1 Any s ((next >> pure (done token info)) s)
take_one-Safe token info s v h =
    Safe-bind 1 0 Any Any s (next s) _ (next-Safe s v h) λ a s' f q. (Follows-refl s' f.valid, tt)

take_if-Safe :
    (k : ℕ) (token : ℕ) (info : SemInfo) (m : M Step) (s : LexState)
    → IsValid s
    → Safe 0 Any s (m s)
    → Safe 0 Any s (branch (is k s.current) (next >> pure (done token info)) m s)
take_if-Safe k token info m s v h =
    Safe-branch (is k s.current) 0 Any s _ m
      (λ e.
        Safe-le 1 0 Any s _ (omega arith)
          (take_one-Safe token info s v (left_of_test (is k) s.current (pending s.z) refl e)))
      (λ _. h)

short_comment-Safe : (s : LexState) → IsValid s → Safe 0 Any s (short_comment s)
unfolding short_comment
short_comment-Safe s v =
    Safe-bind 0 0 Any Any s (while (rounds s) in_line next s) _
      (while-Safe (rounds s) in_line next s v (omega arith) refl (λ s' v' e h. next-Safe s' v' h))
      λ a s' f q. (Follows-refl s' f.valid, tt)

long_comment-Safe :
    (r : Sep) (s : LexState) → IsValid s → AtBracket r s → Safe 0 Any s (long_comment r s)
unfolding long_comment
long_comment-Safe (malformed n) s v h = short_comment-Safe s v
long_comment-Safe (sep n) s v h = Safe-le 1 0 Any s _ (omega arith) (
    Safe-bind 1 0 Any Any s (read_long_comment n s) _
      (unfold read_long_comment in long_body-Safe false n s v h)
      λ a s' f q.
        Safe-bind 0 0 (Keeps s') Any s' (resetbuffer s') (λ _. State.pure again)
          (resetbuffer-Safe s' f.valid) λ a' s'' f' q'. (Follows-refl s'' f'.valid, tt))

AtBracket-Keeps : (r : Sep) (s s' : LexState) → left s' ≡ left s → AtBracket r s → AtBracket r s'
AtBracket-Keeps (sep n) s s' e h = omega arith
AtBracket-Keeps (malformed n) s s' e h = tt

comment-Safe : (s : LexState) → IsValid s → 1 ≤ left s → Safe 1 Any s (comment s)
unfolding comment
comment-Safe s v h = Safe-bind 1 0 Any Any s (next s) _ (next-Safe s v h) λ a s' f q.
    Safe-branch (is b'[' s'.current) 0 Any s' _ short_comment
      (λ e. Safe-le 1 0 Any s' _ (omega arith) (
        Safe-bind 1 0 AtBracket Any s' (skip_sep s') _ (skip_sep-Safe s' f.valid (rw e refl))
          λ r s'' f' q'.
            Safe-bind 0 0 (Keeps s'') Any s'' (resetbuffer s'') _ (resetbuffer-Safe s'' f'.valid)
              λ a' s3 f'' q''.
                long_comment-Safe r s3 f''.valid (AtBracket-Keeps r s'' s3 q''.1 q')))
      (λ _. short_comment-Safe s' f.valid)

dash-Safe : (info : SemInfo) (s : LexState) → IsValid s → 1 ≤ left s → Safe 1 Any s (dash info s)
unfolding dash
dash-Safe info s v h = Safe-bind 1 0 Any Any s (next s) _ (next-Safe s v h) λ a s' f q.
    take_if-Safe b'>' tk_func_ptr info _ s' f.valid (
      Safe-branch (is b'-' s'.current) 0 Any s' comment _
        (λ e.
          Safe-le 1 0 Any s' (comment s') (omega arith)
            (comment-Safe s' f.valid (left_of_test (is b'-') s'.current (pending s'.z) refl e)))
        (λ _. (Follows-refl s' f.valid, tt)))

long_bracket-Safe :
    (info : SemInfo) (r : Sep) (s : LexState)
    → IsValid s
    → AtBracket r s
    → Safe 0 Any s (long_bracket info r s)
unfolding long_bracket
long_bracket-Safe info (sep n) s v h = Safe-le 1 0 Any s _ (omega arith) (
    Safe-bind 1 0 Any Any s (read_long_string n s) _ (read_long_string-Safe n s v h)
      λ ts s' f q. (Follows-refl s' f.valid, tt))
long_bracket-Safe info (malformed zero) s v h = (Follows-refl s v, tt)
long_bracket-Safe info (malformed (suc n)) s v h = tt

bracket-Safe :
    (info : SemInfo) (s : LexState)
    → IsValid s
    → is b'[' s.current || is b']' s.current ≡ true
    → Safe 1 Any s (bracket info s)
unfolding bracket
bracket-Safe info s v h =
    Safe-bind 1 0 AtBracket Any s (skip_sep s) _ (skip_sep-Safe s v h)
      λ r s' f q. long_bracket-Safe info r s' f.valid q

one_or_two-Safe :
    (single k double : ℕ) (info : SemInfo) (s : LexState)
    → IsValid s
    → 1 ≤ left s
    → Safe 1 Any s (one_or_two single k double info s)
unfolding one_or_two
one_or_two-Safe single k double info s v h =
    Safe-bind 1 0 Any Any s (next s) _ (next-Safe s v h)
      λ a s' f q. take_if-Safe k double info _ s' f.valid (Follows-refl s' f.valid, tt)

compare_or_shift-Safe :
    (single with_equals shift : ℕ) (info : SemInfo) (s : LexState)
    → IsValid s
    → 1 ≤ left s
    → Safe 1 Any s (compare_or_shift single with_equals shift info s)
unfolding compare_or_shift
compare_or_shift-Safe single with_equals shift info s v h =
    Safe-bind 1 0 Any Any s (next s) _ (next-Safe s v h) λ a s' f q.
      take_if-Safe b'=' with_equals info _ s' f.valid
        (take_if-Safe single shift info _ s' f.valid (Follows-refl s' f.valid, tt))

short_string-Safe :
    (del : ℕ) (info : SemInfo) (s : LexState)
    → IsValid s
    → 1 ≤ left s
    → Safe 1 Any s (short_string del info s)
unfolding short_string
short_string-Safe del info s v h = Safe-le 2 1 Any s _ (omega arith) (
    Safe-bind 2 0 Any Any s (read_string del s) _ (read_string-Safe del s v h)
      λ ts s' f q. (Follows-refl s' f.valid, tt))

numeral-Safe :
    (lib : Numbers) (info : SemInfo) (s s' : LexState)
    → IsValid s'
    → lisdigit s'.current ≡ true
    → Safe 0 (Progress s) s' (numeral lib info s')
unfolding numeral
numeral-Safe lib info s s' v h =
    Safe-bind 0 0 Any (Progress s) s' (read_numeral lib info s') _
      (read_numeral-Safe lib info s' v h) λ info' s'' f q. (Follows-refl s'' f.valid, tt)

dot-Safe :
    (lib : Numbers) (info : SemInfo) (s : LexState)
    → IsValid s
    → 1 ≤ left s
    → Safe 1 Any s (dot lib info s)
unfolding dot
dot-Safe lib info s v h =
    Safe-bind 1 0 Any Any s (save_and_next s) _ (save_and_next-Safe s v h) λ a s1 f1 q1.
      Safe-bind 0 0 Any Any s1 (check_next b'.' s1) _ (check_next-Safe s1 b'.' f1.valid)
        λ two s2 f2 q2.
          Safe-branch two 0 Any s2 _ _
            (λ _.
              Safe-bind 0 0 Any Any s2 (check_next b'.' s2) _ (check_next-Safe s2 b'.' f2.valid)
                λ three s3 f3 q3. (Follows-refl s3 f3.valid, tt))
            (λ _.
              Safe-branch (lisdigit s2.current) 0 Any s2 _ _
                (λ digit.
                  Safe-Any 0 (Progress s) s2 (numeral lib info s2)
                    (numeral-Safe lib info s s2 f2.valid digit))
                (λ _. (Follows-refl s2 f2.valid, tt)))

name-Safe : (info : SemInfo) (s : LexState) → IsValid s → 1 ≤ left s → Safe 1 Any s (name info s)
unfolding name
name-Safe info s v h =
    Safe-bind 1 0 Any Any s (save_and_next s) _ (save_and_next-Safe s v h) λ a s1 f1 q1.
      Safe-bind 0 0 Any Any s1 (while (rounds s1) lislalnum save_and_next s1) _
        (while-Safe (rounds s1) lislalnum save_and_next s1 f1.valid (omega arith) eoz_classless.1
          (λ s' v' e k. save_and_next-Safe s' v' k))
        λ a' s2 f2 q2.
          Safe-bind 0 0 Any Any s2 (newstring (λ buffer. buffer) s2)
            (λ ts s3. ok (done (name_token ts s3) (record info { value = text ts })) s3)
            (newstring-Safe (λ buffer. buffer) s2 f2.valid)
            λ ts s3 f3 q3. (Follows-refl s3 f3.valid, tt)

lex_char-Safe :
    (lib : Numbers) (info : SemInfo) (s : LexState) (c : Charint)
    → IsValid s
    → s.current ≡ c
    → Safe 0 (Progress s) s (lex_char lib info c s)
unfolding lex_char
lex_char-Safe lib info s eoz v e = (Follows-refl s v, tt)
lex_char-Safe lib info s (byte c) v e =
    let here : 1 ≤ left s = rw e (omega arith) in
    let P = Progress s in
    Safe-branch (is_newline (byte c)) 0 P s _ _
      (λ nl. Safe-Progress s _ (
        Safe-bind 1 0 Any Any s (inclinenumber s) _ (inclinenumber-Safe s v (rw e nl))
          λ a s' f q. (Follows-refl s' f.valid, tt)))
      λ _.
        Safe-branch (is_space c) 0 P s _ _
          (λ _. Safe-Progress s _ (
            Safe-bind 1 0 Any Any s (next s) _ (next-Safe s v here)
              λ a s' f q. (Follows-refl s' f.valid, tt)))
          λ _.
            Safe-branch (c == b'-') 0 P s _ _ (λ _. Safe-Progress s _ (dash-Safe info s v here))
              λ _.
                Safe-branch (c == b'[') 0 P s _ _
                  (λ k. Safe-Progress s _ (bracket-Safe info s v (rw e (rw k refl))))
                  λ _.
                    Safe-branch (c == b'=') 0 P s _ _
                      (λ _. Safe-Progress s _ (one_or_two-Safe b'=' b'=' tk_eq info s v here))
                      λ _.
                        Safe-branch (c == b'<') 0 P s _ _
                          (λ _.
                            Safe-Progress s _
                              (compare_or_shift-Safe b'<' tk_le tk_lshift info s v here))
                          λ _.
                            Safe-branch (c == b'>') 0 P s _ _
                              (λ _.
                                Safe-Progress s _
                                  (compare_or_shift-Safe b'>' tk_ge tk_rshift info s v here))
                              λ _.
                                Safe-branch (c == b'~') 0 P s _ _
                                  (λ _.
                                    Safe-Progress s _
                                      (one_or_two-Safe b'~' b'=' tk_ne info s v here))
                                  λ _.
                                    Safe-branch (c == b':') 0 P s _ _
                                      (λ _.
                                        Safe-Progress s _
                                          (one_or_two-Safe b':' b':' tk_dbcolon info s v here))
                                      λ _.
                                        Safe-branch (c == b'"' || c == 39) 0 P s _ _
                                          (λ _.
                                            Safe-Progress s _ (short_string-Safe c info s v here))
                                          λ _.
                                            Safe-branch (c == b'.') 0 P s _ _
                                              (λ _. Safe-Progress s _ (dot-Safe lib info s v here))
                                              λ _.
                                                Safe-branch (leb b'0' c && leb c b'9') 0 P s _ _
                                                  (λ k.
                                                    numeral-Safe lib info s s v
                                                      (rw e (digit-lisdigit c k)))
                                                  λ _.
                                                    Safe-branch (lislalpha (byte c)) 0 P s _ _
                                                      (λ _.
                                                        Safe-Progress s _ (name-Safe info s v here))
                                                      λ _.
                                                        Safe-Progress s _
                                                          (take_one-Safe c info s v here)

lex_loop-Safe :
    (lib : Numbers) (fuel : ℕ) (info : SemInfo) (s : LexState)
    → IsValid s
    → left s < fuel
    → Safe 0 Any s (lex_loop lib fuel info s)
unfolding lex_loop
lex_loop-Safe lib zero info s v h = elim h [ ]
lex_loop-Safe lib (suc fuel) info s v h =
    Safe-bind 0 0 (Progress s) Any s (lex_char lib info s.current s) _
      (lex_char-Safe lib info s s.current v refl)
      λ r s' f q. go r s' f.valid q (λ k. lex_loop-Safe lib fuel info s' f.valid (omega arith))
  where
    go :
        (r : Step) (s' : LexState)
        → IsValid s'
        → Progress s r s'
        → (left s' + 1 ≤ left s → Safe 0 Any s' (lex_loop lib fuel info s'))
        → Safe 0 Any s'
            (elim r [ again ↦ lex_loop lib fuel info s' | done token info' ↦ ok (token, info') s' ])
    go again s' w p next_round = next_round p
    go (done token info') s' w p next_round = (Follows-refl s' w, tt)

-- From a valid state `llex` ends, and does not read behind the end of the input. It returns a token
-- and a valid state, with the input that it has read copied to the output buffer, or a syntax error.
pub llex-Safe :
    (lib : Numbers) (info : SemInfo) (s : LexState) → IsValid s → Safe 0 Any s (llex lib info s)
unfolding llex
llex-Safe lib info s v =
    let begin = λ (s' : LexState).
      let info' : SemInfo = record info {
        buffer_begin = s'.output_buffer.n - 1;
        linebegin = s'.linenumber;
      } in
      info' in
    Safe-bind 0 0 (Keeps s) Any s (resetbuffer s) (λ a s'. lex_loop lib (rounds s') (begin s') s')
      (resetbuffer-Safe s v)
      λ a s' f q. lex_loop-Safe lib (rounds s') (begin s') s' f.valid (omega arith)
