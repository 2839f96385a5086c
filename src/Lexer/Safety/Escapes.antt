-- ===== src/Lexer/Safety/Escapes.antt =====
-- src/llex.cpp: short strings and their escape sequences are safe.
use terra.Common.{
  ℕ, zero, suc, ◌≤◌, ◌<◌, ◌≡◌, refl, true, Option, none, some, List, [], ◌∷◌, ◌++◌, arith, ltb,
  ◌==◌, inl, inr, Bool-cases,
}
use terra.Ctype.{Charint, eoz, byte, is, lisdigit, lisspace, lisxdigit}
use terra.Token.{tk_string}
use terra.Lexer.State.{
  LexState, Result, M, ok, err, fault, out_of_fuel, ◌>>◌, lexerror, Message, hexadecimal_expected,
  decimal_too_large, invalid_escape,
}
use terra.Lexer.Basic.{next, save, save_and_next, resetbuffer, is_newline, inclinenumber, rounds}
use terra.Zio.{pending}
use terra.Ctype.Ranges.{eoz_classless}
use terra.Lexer.LongString.{between}
use terra.Lexer.ShortString.{
  save_until_eoz, escerror, read_hexa, readhexaesc, read_decimal, readdecesc, read_save, zap_space,
  simple_escape, other_escape, escape_by, escape_char, string_step, string_loop, read_string,
}
use terra.Lexer.Safety.Strings.{newstring-Safe}
use terra.Lexer.Safety.Follows.{
  IsValid, left, Follows-refl, Safe, Any, Safe-bind, Safe-le, Safe-Any, Safe-branch, left_of_test,
}
use terra.Lexer.Safety.Basic.{
  next-Safe, save-Safe, save_and_next-Safe, resetbuffer-Safe, inclinenumber-Safe, Keeps, while-Safe,
}

save_until_eoz-Safe :
    (cs : List Charint) (s : LexState) → IsValid s → Safe 0 Any s (save_until_eoz cs s)
unfolding save_until_eoz
save_until_eoz-Safe [] s v = (Follows-refl s v, tt)
save_until_eoz-Safe (eoz ∷ cs) s v = (Follows-refl s v, tt)
save_until_eoz-Safe (byte c ∷ cs) s v =
    Safe-bind 0 0 (Keeps s) Any s (save c s) _ (save-Safe s c v)
      λ a s' f q. save_until_eoz-Safe cs s' f.valid

-- an error is raised
abbrev Never : {A : Type 0} → A → LexState → Type 0
Never a s = ⊥

Safe-Never :
    {A : Type 0} (k : ℕ) (Q : A → LexState → Type 0) (s : LexState) (r : Result A)
    → Safe 0 Never s r
    → Safe k Q s r
Safe-Never k Q s (ok a s') h = absurd h.1
Safe-Never k Q s (err e) h = tt
Safe-Never k Q s fault h = h
Safe-Never k Q s out_of_fuel h = h

escerror-Never :
    (A : Type 0) (cs : List Charint) (msg : Message) (s : LexState)
    → IsValid s
    → Safe {A = A} 0 Never s (escerror cs msg s)
unfolding escerror
escerror-Never A cs msg s v =
    let raise : Unit {0} → M A = λ _. lexerror msg tk_string in
    let saves : Unit {0} → M A = λ _. save_until_eoz cs >> raise tt in
    Safe-bind {B = A} 0 0 (Keeps s) Never s (resetbuffer s) (λ _. save b'\\' >> saves tt)
      (resetbuffer-Safe s v)
      λ a s' f q.
        Safe-bind {B = A} 0 0 (Keeps s') Never s' (save b'\\' s') saves (save-Safe s' b'\\' f.valid)
          λ a' s'' f' q'.
            Safe-bind {B = A} 0 0 Any Never s'' (save_until_eoz cs s'') raise
              (save_until_eoz-Safe cs s'' f'.valid) λ a'' s3 f'' q''. tt {0}

lisxdigit-left : (s : LexState) → lisxdigit s.current ≡ true → 1 ≤ left s
lisxdigit-left s h = left_of_test lisxdigit s.current (pending s.z) eoz_classless.5 h

pub lisdigit-left : (s : LexState) → lisdigit s.current ≡ true → 1 ≤ left s
lisdigit-left s h = left_of_test lisdigit s.current (pending s.z) eoz_classless.2 h

-- behind a digit of a hexadecimal escape stands that digit
abbrev HasChar : {A : Type 0} → A → LexState → Type 0
HasChar a s = 1 ≤ left s

read_hexa-Safe :
    (cs : List Charint) (r : ℕ) (s : LexState)
    → IsValid s
    → 1 ≤ left s
    → Safe 1 HasChar s (read_hexa cs r s)
unfolding read_hexa
read_hexa-Safe cs r s v h = Safe-bind 1 0 Any HasChar s (next s) _ (next-Safe s v h) λ a s' f q.
    Safe-branch (lisxdigit s'.current) 0 HasChar s' _ _
      (λ digit. (Follows-refl s' f.valid, lisxdigit-left s' digit))
      (λ _. Safe-Never 0 HasChar s' _ (escerror-Never _ _ hexadecimal_expected s' f.valid))

readhexaesc-Safe : (s : LexState) → IsValid s → 1 ≤ left s → Safe 2 HasChar s (readhexaesc s)
unfolding readhexaesc
readhexaesc-Safe s v h =
    Safe-bind 1 1 HasChar HasChar s (read_hexa (byte b'x' ∷ []) 0 s) _
      (read_hexa-Safe (byte b'x' ∷ []) 0 s v h)
      λ r s' f q. read_hexa-Safe (byte b'x' ∷ s'.current ∷ []) r s' f.valid q

read_decimal-Safe :
    (n : ℕ) (cs : List Charint) (r : ℕ) (s : LexState)
    → IsValid s
    → Safe 0 Any s (read_decimal n cs r s)
unfolding read_decimal
read_decimal-Safe zero cs r s v = (Follows-refl s v, tt)
read_decimal-Safe (suc n) cs r s v = elim (Bool-cases (lisdigit s.current)) [
  | inl go ↦ rw go (
      Safe-le 1 0 Any s _ (omega arith) (
        Safe-bind 1 0 Any Any s (next s) _ (next-Safe s v (lisdigit-left s go))
          λ a s' f q. read_decimal-Safe n (cs ++ s.current ∷ []) _ s' f.valid))
  | inr stop ↦ rw stop (Follows-refl s v, tt)
]

readdecesc-Safe : (s : LexState) → IsValid s → Safe 0 Any s (readdecesc s)
unfolding readdecesc
readdecesc-Safe s v =
    Safe-bind 0 0 Any Any s (read_decimal 3 [] 0 s) _ (read_decimal-Safe 3 [] 0 s v) λ r s' f q.
      Safe-branch (ltb 255 r.1) 0 Any s' _ _
        (λ _. Safe-Never 0 Any s' _ (escerror-Never _ r.0 decimal_too_large s' f.valid))
        (λ _. (Follows-refl s' f.valid, tt))

read_save-Safe : (s : LexState) (c : ℕ) → IsValid s → 1 ≤ left s → Safe 1 Any s (read_save c s)
unfolding read_save
read_save-Safe s c v h =
    Safe-bind 1 0 Any Any s (next s) _ (next-Safe s v h)
      λ a s' f q. Safe-Any 0 (Keeps s') s' (save c s') (save-Safe s' c f.valid)

zap_space-Safe : (s : LexState) → IsValid s → 1 ≤ left s → Safe 1 Any s (zap_space s)
unfolding zap_space
zap_space-Safe s v h =
    Safe-branch (is_newline s.current) 1 Any s inclinenumber next (λ nl. inclinenumber-Safe s v nl)
      (λ _. next-Safe s v h)

other_escape-Safe :
    (s : LexState) (c : ℕ) → IsValid s → s.current ≡ byte c → Safe 0 Any s (other_escape c s)
unfolding other_escape
other_escape-Safe s c v e =
    let here : 1 ≤ left s = rw e (omega arith) in
    Safe-branch (c == b'x') 0 Any s _ _
      (λ _. Safe-le 3 0 Any s _ (omega arith) (
        Safe-bind 2 1 HasChar Any s (readhexaesc s) _ (readhexaesc-Safe s v here)
          λ r s' f q. read_save-Safe s' r f.valid q))
      (λ _.
        Safe-branch (is_newline (byte c)) 0 Any s _ _
          (λ nl. Safe-le 1 0 Any s _ (omega arith) (
            Safe-bind 1 0 Any Any s (inclinenumber s) _ (inclinenumber-Safe s v (rw e nl))
              λ a s' f q. Safe-Any 0 (Keeps s') s' (save b'\n' s') (save-Safe s' b'\n' f.valid)))
          (λ _.
            Safe-branch (c == b'z') 0 Any s _ _
              (λ _. Safe-le 1 0 Any s _ (omega arith) (
                Safe-bind 1 0 Any Any s (next s) _ (next-Safe s v here) λ a s' f q.
                  while-Safe (rounds s') lisspace zap_space s' f.valid (omega arith) eoz_classless.3
                    (λ s'' v' space h. zap_space-Safe s'' v' h)))
              (λ _.
                Safe-branch (lisdigit (byte c)) 0 Any s _ _
                  (λ _.
                    Safe-bind 0 0 Any Any s (readdecesc s) _ (readdecesc-Safe s v)
                      λ r s' f q. Safe-Any 0 (Keeps s') s' (save r s') (save-Safe s' r f.valid))
                  (λ _. Safe-Never 0 Any s _ (escerror-Never _ (byte c ∷ []) invalid_escape s v)))))

escape_by-Safe :
    (s : LexState) (d : Option ℕ) (c : ℕ)
    → IsValid s
    → s.current ≡ byte c
    → Safe 0 Any s (escape_by d c s)
unfolding escape_by
escape_by-Safe s none c v e = other_escape-Safe s c v e
escape_by-Safe s (some d) c v e =
    Safe-le 1 0 Any s (read_save d s) (omega arith) (read_save-Safe s d v (rw e (omega arith)))

escape_char-Safe :
    (s : LexState) (c : Charint) → IsValid s → s.current ≡ c → Safe 0 Any s (escape_char c s)
unfolding escape_char
escape_char-Safe s eoz v e = (Follows-refl s v, tt)
escape_char-Safe s (byte c) v e = escape_by-Safe s (simple_escape c) c v e

-- A round of a short string reads a character.
string_step-Safe :
    (s : LexState) (c : Charint) → IsValid s → s.current ≡ c → Safe 1 Any s (string_step c s)
unfolding string_step
string_step-Safe s eoz v e = tt
string_step-Safe s (byte c) v e =
    let here : 1 ≤ left s = rw e (omega arith) in
    Safe-branch (is_newline (byte c)) 1 Any s _ _ (λ _. tt)
      (λ _.
        Safe-branch (c == b'\\') 1 Any s _ save_and_next
          (λ _.
            Safe-bind 1 0 Any Any s (next s) _ (next-Safe s v here)
              λ a s' f q. escape_char-Safe s' s'.current f.valid refl)
          (λ _. save_and_next-Safe s v here))

-- The loop ends at the delimiter.
string_loop-Safe :
    (fuel del : ℕ) (s : LexState)
    → IsValid s
    → left s < fuel
    → Safe 0 HasChar s (string_loop fuel del s)
unfolding string_loop
string_loop-Safe zero del s v h = elim h [ ]
string_loop-Safe (suc fuel) del s v h = elim (Bool-cases (is del s.current)) [
  | inl stop ↦ rw stop (Follows-refl s v, left_of_test (is del) s.current (pending s.z) refl stop)
  | inr go ↦ rw go (
      Safe-le 1 0 HasChar s _ (omega arith) (
        Safe-bind 1 0 Any HasChar s (string_step s.current s) _
          (string_step-Safe s s.current v refl)
          λ a s' f q. string_loop-Safe fuel del s' f.valid (omega arith)))
]

pub read_string-Safe :
    (del : ℕ) (s : LexState) → IsValid s → 1 ≤ left s → Safe 2 Any s (read_string del s)
unfolding read_string
read_string-Safe del s v h =
    Safe-bind 1 1 Any Any s (save_and_next s) _ (save_and_next-Safe s v h) λ a s' f q.
      Safe-bind 0 1 HasChar Any s' (string_loop (rounds s') del s') _
        (string_loop-Safe (rounds s') del s' f.valid (omega arith))
        λ a' s'' f' q'.
          Safe-bind 1 0 Any Any s'' (save_and_next s'') _ (save_and_next-Safe s'' f'.valid q')
            λ a'' s3 f'' q''. newstring-Safe (between 1) s3 f''.valid
