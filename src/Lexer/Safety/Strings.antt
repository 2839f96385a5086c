-- ===== src/Lexer/Safety/Strings.antt =====
-- src/llex.cpp: strings and numerals are safe.
use terra.Common.{
  ℕ, zero, suc, ◌+◌, ◌≤◌, ◌<◌, ◌≡◌, refl, Bool, true, false, List, arith, ◌==◌, if◌then◌else◌, inl,
  inr, Bool-cases, ◌||◌, not,
}
use terra.Ctype.{Charint, eoz, byte, is}
use terra.Lexer.State.{LexState, ◌>>◌, pure, when, branch}
use terra.Lexer.Basic.{next, save, save_and_next, resetbuffer, is_newline, inclinenumber, rounds}
use terra.Zio.{pending}
use terra.Lexer.LongString.{
  Sep, sep, malformed, same_char, count_equals, skip_sep, is_sep, newstring, long_step, long_loop,
  long_body, read_long_string, between,
}
use terra.Lexer.Safety.Follows.{
  IsValid, left, Follows-refl, Safe, Any, Safe-bind, Safe-le, Safe-Any, Safe-branch, Safe-when,
  left_of_test,
}
use terra.Lexer.Safety.Basic.{
  next-Safe, save-Safe, save_and_next-Safe, resetbuffer-Safe, inclinenumber-Safe, Safe-assert,
  Follows-with, Keeps,
}

count_equals-Safe :
    (fuel count : ℕ) (s : LexState)
    → IsValid s
    → left s < fuel
    → Safe 0 Any s (count_equals fuel count s)
unfolding count_equals
count_equals-Safe zero count s v h = elim h [ ]
count_equals-Safe (suc fuel) count s v h = elim (Bool-cases (is b'=' s.current)) [
  | inl go ↦ rw go (
      Safe-le 1 0 Any s _ (omega arith) (
        Safe-bind 1 0 Any Any s (save_and_next s) _
          (save_and_next-Safe s v (left_of_test (is b'=') s.current (pending s.z) refl go))
          λ a s' f q. count_equals-Safe fuel (count + 1) s' f.valid (omega arith)))
  | inr stop ↦ rw stop (Follows-refl s v, tt)
]

-- behind a well-formed sequence stands the second bracket
abbrev pub AtBracket : Sep → LexState → Type 0
AtBracket (sep n) s = 1 ≤ left s
AtBracket (malformed n) s = Unit {0}

AtBracket-if :
    (old cur : Charint) (count : ℕ) (s : LexState)
    → is b'[' old || is b']' old ≡ true
    → s.current ≡ cur
    → AtBracket (if same_char cur old then sep count else malformed count) s
AtBracket-if eoz cur count s h e = cc
AtBracket-if (byte c) eoz count s h e = tt
AtBracket-if (byte c) (byte d) count s h e = elim (Bool-cases (d == c)) [
  | inl same ↦ rw same (rw e (omega arith))
  | inr other ↦ rw other tt
]

pub skip_sep-Safe :
    (s : LexState)
    → IsValid s
    → is b'[' s.current || is b']' s.current ≡ true
    → Safe 1 AtBracket s (skip_sep s)
unfolding skip_sep
skip_sep-Safe s v h =
    let here = left_of_test (λ c. is b'[' c || is b']' c) s.current (pending s.z) refl h in
    Safe-assert _ 1 AtBracket s _ h (
      Safe-bind 1 0 Any AtBracket s (save_and_next s) _ (save_and_next-Safe s v here) λ a s' f q.
        Safe-bind 0 0 Any AtBracket s' (count_equals (rounds s') 0 s') _
          (count_equals-Safe (rounds s') 0 s' f.valid (omega arith))
          λ count s'' f' q'.
            (Follows-refl s'' f'.valid, AtBracket-if s.current s''.current count s'' h refl))

pub newstring-Safe :
    (part : List ℕ → List ℕ) (s : LexState) → IsValid s → Safe 0 Any s (newstring part s)
unfolding newstring
newstring-Safe part s v = (Follows-with s s.buff s.linenumber _ v v.buff (omega arith), tt)

close-Safe :
    (n : ℕ) (r : Sep) (s : LexState)
    → IsValid s
    → AtBracket r s
    → Safe 0 Any s (branch (is_sep n r) (save_and_next >> pure true) (pure false) s)
close-Safe n (malformed m) s v h = (Follows-refl s v, tt)
close-Safe n (sep m) s v h =
    Safe-branch (m == n) 0 Any s _ (pure false)
      (λ _. Safe-le 1 0 Any s _ (omega arith) (
        Safe-bind 1 0 Any Any s (save_and_next s) _ (save_and_next-Safe s v h)
          λ a s' f q. (Follows-refl s' f.valid, tt)))
      (λ _. (Follows-refl s v, tt))

-- A round of a long string reads a character.
long_step-Safe :
    (keep : Bool) (n : ℕ) (c : Charint) (s : LexState)
    → IsValid s
    → s.current ≡ c
    → Safe 1 Any s (long_step keep n c s)
unfolding long_step
long_step-Safe keep n eoz s v e = tt
long_step-Safe keep n (byte c) s v e =
    let here : 1 ≤ left s = rw e (omega arith) in
    Safe-branch (c == b']') 1 Any s _ _
      (λ h.
        Safe-bind 1 0 AtBracket Any s (skip_sep s) _ (skip_sep-Safe s v (rw e (ground arith)))
          λ r s' f q. close-Safe n r s' f.valid q)
      (λ h.
        Safe-branch (is_newline (byte c)) 1 Any s _ _
          (λ nl. Safe-bind 0 1 (Keeps s) Any s (save b'\n' s) _ (save-Safe s b'\n' v) λ a s' f q.
            Safe-bind 1 0 Any Any s' (inclinenumber s') _
              (inclinenumber-Safe s' f.valid (rw (q.0, e) nl))
              λ a' s'' f' q'.
                Safe-bind 0 0 Any Any s'' (when (not keep) resetbuffer s'') _
                  (Safe-when (not keep) s'' resetbuffer f'.valid λ k.
                    Safe-Any 0 (Keeps s'') s'' (resetbuffer s'') (resetbuffer-Safe s'' f'.valid))
                  λ a'' s3 f'' q''. (Follows-refl s3 f''.valid, tt))
          (λ other.
            Safe-bind 1 0 Any Any s (branch keep save_and_next next s) _
              (Safe-branch keep 1 Any s save_and_next next (λ k. save_and_next-Safe s v here)
                (λ k. next-Safe s v here))
              λ a s' f q. (Follows-refl s' f.valid, tt)))

long_loop-Safe :
    (fuel : ℕ) (keep : Bool) (n : ℕ) (s : LexState)
    → IsValid s
    → left s < fuel
    → Safe 0 Any s (long_loop fuel keep n s)
unfolding long_loop
long_loop-Safe zero keep n s v h = elim h [ ]
long_loop-Safe (suc fuel) keep n s v h = Safe-le 1 0 Any s _ (omega arith) (
    Safe-bind 1 0 Any Any s (long_step keep n s.current s) _
      (long_step-Safe keep n s.current s v refl)
      λ last s' f q.
        Safe-branch last 0 Any s' (pure tt) _ (λ _. (Follows-refl s' f.valid, tt))
          (λ _. long_loop-Safe fuel keep n s' f.valid (omega arith)))

pub long_body-Safe :
    (keep : Bool) (n : ℕ) (s : LexState)
    → IsValid s
    → 1 ≤ left s
    → Safe 1 Any s (long_body keep n s)
unfolding long_body
long_body-Safe keep n s v h =
    Safe-bind 1 0 Any Any s (save_and_next s) _ (save_and_next-Safe s v h) λ a s' f q.
      Safe-bind 0 0 Any Any s' (when (is_newline s'.current) inclinenumber s') _
        (Safe-when (is_newline s'.current) s' inclinenumber f.valid λ nl.
          Safe-le 1 0 Any s' (inclinenumber s') (omega arith) (inclinenumber-Safe s' f.valid nl))
        λ a' s'' f' q'. long_loop-Safe (rounds s'') keep n s'' f'.valid (omega arith)

pub read_long_string-Safe :
    (n : ℕ) (s : LexState) → IsValid s → 1 ≤ left s → Safe 1 Any s (read_long_string n s)
unfolding read_long_string
read_long_string-Safe n s v h =
    Safe-bind 1 0 Any Any s (long_body true n s) _ (long_body-Safe true n s v h)
      λ a s' f q. newstring-Safe (between (2 + n)) s' f.valid
