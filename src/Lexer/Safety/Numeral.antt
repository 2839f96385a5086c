-- ===== src/Lexer/Safety/Numeral.antt =====
-- src/llex.cpp: numerals are safe.
use terra.Common.{
  ℕ, zero, suc, ◌-◌, ◌≤◌, ◌<◌, ◌≡◌, refl, Bool, true, false, Option, none, some, List, [], ◌∷◌,
  arith, ◌==◌, length, inl, inr, Bool-cases, ◌&&◌, ◌||◌, not,
}
use terra.Ctype.{Charint, eoz, is, lisdigit}
use terra.Lexer.State
use terra.Lexer.State.{
  LexState, Token, SemInfo, Value, number, text, Result, M, ok, err, fault, out_of_fuel, ◌>>=◌,
  ◌>>◌, pure, get, put, current, when, branch, lexerror, Message, malformed_number,
  unfinished_long_string, unfinished_long_comment, invalid_long_delimiter, unfinished_string,
  hexadecimal_expected, decimal_too_large, invalid_escape, unread,
}
use terra.Lexer.Basic.{save, save_and_next, rounds}
use terra.Zio.{pending}
use terra.Ctype.Ranges.{eoz_classless}
use terra.Lexer.Numeral.{
  Numbers, ReadNumber, numeral_loop, numeral_prefix, clear_suffix, set, or_malformed, number_info,
  read_numeral, numeral_end, in_numeral, is_lower, treadnumber, c_str,
}
use terra.Lexer.Safety.Escapes.{lisdigit-left}
use terra.Lexer.Safety.Follows.{
  IsValid, left, Follows-refl, Safe, Any, Safe-bind, Safe-le, Safe-branch, Safe-when, left_of_test,
}
use terra.Lexer.Safety.Basic.{save-Safe, save_and_next-Safe, Safe-assert, Follows-with, Keeps}

is_lower-eoz : (k : ℕ) → is_lower k eoz ≡ false
unfolding is_lower
is_lower-eoz k = refl

in_numeral-eoz : (xp : ℕ) (c : Charint) → in_numeral xp c eoz ≡ false
unfolding in_numeral
in_numeral-eoz xp c = rw eoz_classless.1 refl

numeral_loop-Safe :
    (fuel xp : ℕ) (c : Charint) (point : Bool) (s : LexState)
    → IsValid s
    → left s < fuel
    → Safe 0 Any s (numeral_loop fuel xp c point s)
unfolding numeral_loop
numeral_loop-Safe zero xp c point s v h = elim h [ ]
numeral_loop-Safe (suc fuel) xp c point s v h = elim (Bool-cases (in_numeral xp c s.current)) [
  | inl go ↦
      let here = left_of_test (in_numeral xp c) s.current (pending s.z) (in_numeral-eoz xp c) go in
      rw go (
        Safe-le 1 0 Any s _ (omega arith) (
          Safe-bind 1 0 Any Any s (save_and_next s) _ (save_and_next-Safe s v here) λ a s' f q.
            numeral_loop-Safe fuel xp s.current (point || is b'.' s.current) s' f.valid
              (omega arith)))
  | inr stop ↦ rw stop (Follows-refl s v, tt)
]

-- a leading zero is read here, and any other first digit in the loop
numeral_prefix-Safe :
    (s : LexState) → IsValid s → 1 ≤ left s → Safe 0 Any s (numeral_prefix s.current s)
unfolding numeral_prefix
numeral_prefix-Safe s v h =
    Safe-branch (is b'0' s.current) 0 Any s _ _
      (λ _. Safe-le 1 0 Any s _ (omega arith) (
        Safe-bind 1 0 Any Any s (save_and_next s) _ (save_and_next-Safe s v h)
          λ a s' f q. (Follows-refl s' f.valid, tt)))
      (λ _. (Follows-refl s v, tt))

length-set : (xs : List ℕ) (i v : ℕ) → length (set xs i v) ≡ length xs
length-set [] i v = refl
length-set (x ∷ xs) zero v = refl
length-set (x ∷ xs) (suc i) v = omega (arith, length-set xs i v)

clear_suffix-Safe : (s : LexState) → IsValid s → Safe 0 Any s (clear_suffix s)
unfolding clear_suffix
clear_suffix-Safe s v =
    let e = length-set s.buff.buffer (length s.buff.buffer - 2) 0 in
    (
      Follows-with s _ s.linenumber s.strings v
          (record { fits = omega arith; roomy = v.buff.roomy }) (omega arith),
      tt,
    )

or_malformed-Safe :
    (r : Option ReadNumber) (s : LexState) → IsValid s → Safe 0 Any s (or_malformed r s)
unfolding or_malformed
or_malformed-Safe none s v = tt
or_malformed-Safe (some r) s v = (Follows-refl s v, tt)

numeral_end-Safe :
    (lib : Numbers) (single point : Bool) (info : SemInfo) (s : LexState)
    → IsValid s
    → Safe 0 Any s (numeral_end lib single point info s)
unfolding numeral_end
numeral_end-Safe lib single point info s v =
    Safe-bind {B = SemInfo} 0 0 Any Any s (when single clear_suffix s)
      (λ _ s'.
        State.bind
          (or_malformed
            (treadnumber lib (c_str s'.buff.buffer) (not (s'.in_terra == 0) && not single)) s')
          (λ read. pure (number_info lib single point info read)))
      (Safe-when single s clear_suffix v (λ _. clear_suffix-Safe s v))
      λ a s' f q.
        let r = treadnumber lib (c_str s'.buff.buffer) (not (s'.in_terra == 0) && not single) in
        Safe-bind 0 0 Any Any s' (or_malformed r s')
          (λ read. pure (number_info lib single point info read)) (or_malformed-Safe r s' f.valid)
          λ read s'' f' q'. (Follows-refl s'' f'.valid, tt)

pub read_numeral-Safe :
    (lib : Numbers) (info : SemInfo) (s : LexState)
    → IsValid s
    → lisdigit s.current ≡ true
    → Safe 0 Any s (read_numeral lib info s)
unfolding read_numeral
read_numeral-Safe lib info s v h = Safe-assert (lisdigit s.current) 0 Any s _ h (
    Safe-bind 0 0 Any Any s (numeral_prefix s.current s) _
      (numeral_prefix-Safe s v (lisdigit-left s h))
      λ xp s1 f1 q1.
        Safe-bind 0 0 Any Any s1 (numeral_loop (rounds s1) xp s.current false s1) _
          (numeral_loop-Safe (rounds s1) xp s.current false s1 f1.valid (omega arith))
          λ last s2 f2 q2.
            Safe-bind 0 0 (Keeps s2) Any s2 (save 0 s2) _ (save-Safe s2 0 f2.valid)
              λ a s3 f3 q3. numeral_end-Safe lib _ last.1 info s3 f3.valid)
