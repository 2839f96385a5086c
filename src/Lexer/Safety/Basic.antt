-- ===== src/Lexer/Safety/Basic.antt =====
-- src/llex.cpp: `next`, `save` and `inclinenumber` are safe where a character is at hand.
use terra.Common.{
  ℕ, zero, suc, ◌+◌, ◌≤◌, ◌<◌, ◌≡◌, refl, ap, sym, Bool, true, false, Option, none, some, List, [],
  ◌∷◌, ◌++◌, append_assoc, arith, leb, length, inl, inr, Bool-cases, ◌&&◌, not,
}
use terra.Ctype.{Charint, eoz, byte, is}
use terra.Mbuffer
use terra.Mbuffer.{Mbuffer}
use terra.Strings.{Tables}
use terra.Lexer.State.{LexState, M, ◌>>◌, pure, when, unread}
use terra.Lexer.Basic.{
  next, save, char_of, save_and_next, resetbuffer, assert, is_newline, inclinenumber, while,
  check_next,
}
use terra.Zio.{zgetc, pending}
use terra.Zio.Pending.{Gets, zgetc-pending}
use terra.OutputBuffer.{contents}
use terra.OutputBuffer.Laws.{contents-putc}
use terra.Lexer.Safety.Follows.{
  IsLive, IsValid, stream, left, Follows, Follows-refl, Safe, Any, Safe-bind, Safe-le, Safe-branch,
  Safe-when, left_of_test,
}
use terra.Lexer.Basic.{advance, saved, count_line, max_int, is_other_newline}
use terra.Mbuffer.{save-IsValid}

advance-Safe :
    (s : LexState) (c : ℕ) (rest : List ℕ)
    → IsValid s
    → s.current ≡ byte c
    → pending s.z ≡ rest
    → Gets rest (zgetc s.z)
    → Safe 1 Any s (advance (zgetc s.z) s)
unfolding advance
advance-Safe s c [] v h e (z, got) =
    let before : stream s ≡ contents s.output_buffer ++ [] = rw (h, e) refl in
    let count : left s ≡ 1 = rw (h, e) refl in
    rw got (
      record {
        valid = record { output = v.output; buff = v.buff; live = tt };
        copied = sym before;
        read = omega arith;
        lines = omega arith;
        grows = omega arith;
        same_t = refl;
        same_lookahead = refl;
      },
      tt,
    )
advance-Safe s c (d ∷ rest) v h e (z, got, v', e') =
    let put = contents-putc s.output_buffer d v.output in
    let before : stream s ≡ contents s.output_buffer ++ (d ∷ rest) = rw (h, e) refl in
    let count : left s ≡ suc (suc (length rest)) = rw (h, e) refl in
    let after : length (pending z) ≡ length rest = ap length e' in
    rw got (
      record {
        valid = record { output = put.0; buff = v.buff; live = (v', omega arith) };
        copied = rw (put.1, e', append_assoc (contents s.output_buffer) (d ∷ []) rest) (sym before);
        read = omega arith;
        lines = omega arith;
        grows = omega arith;
        same_t = refl;
        same_lookahead = refl;
      },
      tt,
    )

next-live :
    (s : LexState) (c : Charint)
    → IsValid s
    → s.current ≡ c
    → IsLive c s
    → 1 ≤ length (unread c (pending s.z))
    → Safe 1 Any s (next s)
unfolding next
next-live s eoz v h l k = elim k [ ]
next-live s (byte c) v h l k = advance-Safe s c (pending s.z) v h refl (zgetc-pending s.z l.0)

-- At a character `next` is safe and reads one.
pub next-Safe : (s : LexState) → IsValid s → 1 ≤ left s → Safe 1 Any s (next s)
next-Safe s v h = next-live s s.current v refl v.live h

-- a change of the fields that the invariant does not tie to the input
pub Follows-with :
    (s : LexState) (b : Mbuffer) (line : ℕ) (tables : Tables)
    → IsValid s
    → Mbuffer.IsValid b
    → s.linenumber ≤ line
    → Follows 0 s (record s { buff = b; linenumber = line; strings = tables })
Follows-with s b line tables v w h = record {
  valid = record { output = v.output; buff = w; live = live s.current v.live };
  copied = refl;
  read = omega arith;
  lines = h;
  grows = omega arith;
  same_t = refl;
  same_lookahead = refl;
}
  where
    live :
        (c : Charint)
        → IsLive c s
        → IsLive c (record s { buff = b; linenumber = line; strings = tables })
    live eoz l = tt
    live (byte c) l = l

-- the result of a function that reads nothing
abbrev pub Keeps : {A : Type 0} → LexState → A → LexState → Type 0
Keeps s a s' = (s'.current ≡ s.current) × (left s' ≡ left s) × (s'.linenumber ≡ s.linenumber)

saved-Safe :
    (s : LexState) (r : Option Mbuffer)
    → IsValid s
    → ((b : Mbuffer) → r ≡ some b → Mbuffer.IsValid b)
    → Safe 0 (Keeps s) s (saved r s)
unfolding saved
saved-Safe s none v h = tt
saved-Safe s (some b) v h =
    (Follows-with s b s.linenumber s.strings v (h b refl) (omega arith), (refl, refl, refl))

pub save-Safe : (s : LexState) (c : ℕ) → IsValid s → Safe 0 (Keeps s) s (save c s)
unfolding save
save-Safe s c v = saved-Safe s (Mbuffer.save s.buff c) v (save-IsValid s.buff c v.buff)

pub resetbuffer-Safe : (s : LexState) → IsValid s → Safe 0 (Keeps s) s (resetbuffer s)
unfolding resetbuffer Mbuffer.reset
resetbuffer-Safe s v = (
  Follows-with s (Mbuffer.reset s.buff) s.linenumber s.strings v
      (record { fits = omega arith; roomy = v.buff.roomy }) (omega arith),
  (refl, refl, refl),
)

pub save_and_next-Safe : (s : LexState) → IsValid s → 1 ≤ left s → Safe 1 Any s (save_and_next s)
unfolding save_and_next
save_and_next-Safe s v h =
    Safe-bind 0 1 (Keeps s) Any s (save (char_of s.current) s) _ (save-Safe s _ v)
      λ a s' f q. next-Safe s' f.valid (omega arith)

count_line-Safe : (s : LexState) → IsValid s → Safe 0 Any s (count_line s)
unfolding count_line
count_line-Safe s v = elim (Bool-cases (leb max_int (s.linenumber + 1))) [
  | inl many ↦ rw many tt
  | inr few ↦ rw few (Follows-with s s.buff (s.linenumber + 1) s.strings v v.buff (omega arith), tt)
]

pub Safe-assert :
    {A : Type 0} (b : Bool) (k : ℕ) (Q : A → LexState → Type 0) (s : LexState) (m : M A)
    → b ≡ true
    → Safe k Q s (m s)
    → Safe k Q s ((assert b >> m) s)
Safe-assert true k Q s m h p = p
Safe-assert false k Q s m h p = cc

is_other_newline-eoz : (old : Charint) → is_other_newline old eoz ≡ false
unfolding is_other_newline
is_other_newline-eoz eoz = refl
is_other_newline-eoz (byte c) = refl

-- At a newline the sequence is skipped, its second character only if it is the other one.
pub inclinenumber-Safe :
    (s : LexState) → IsValid s → is_newline s.current ≡ true → Safe 1 Any s (inclinenumber s)
unfolding inclinenumber
inclinenumber-Safe s v h =
    let here = left_of_test is_newline s.current (pending s.z) refl h in
    Safe-assert (is_newline s.current) 1 Any s _ h (
      Safe-bind 1 0 Any Any s (next s) _ (next-Safe s v here) λ a s' f q.
        Safe-bind 0 0 Any Any s' (when (is_other_newline s.current s'.current) next s') _
          (Safe-when (is_other_newline s.current s'.current) s' next f.valid λ other.
            Safe-le 1 0 Any s' (next s') (omega arith) (
              next-Safe s' f.valid (
                left_of_test (is_other_newline s.current) s'.current (pending s'.z)
                  (is_other_newline-eoz s.current) other)))
          λ a' s'' f' q'. count_line-Safe s'' f'.valid)

-- A loop whose body reads a character wherever its test succeeds ends within `rounds`.
pub while-Safe :
    (fuel : ℕ) (test : Charint → Bool) (body : M (Unit {0})) (s : LexState)
    → IsValid s
    → left s < fuel
    → test eoz ≡ false
    → ((s' : LexState)
        → IsValid s'
        → test s'.current ≡ true
        → 1 ≤ left s'
        → Safe 1 Any s' (body s'))
    → Safe 0 Any s (while fuel test body s)
unfolding while
while-Safe zero test body s v h e safe = elim h [ ]
while-Safe (suc fuel) test body s v h e safe = elim (Bool-cases (test s.current)) [
  | inl go ↦
      let here = left_of_test test s.current (pending s.z) e go in
      rw go (
        Safe-le 1 0 Any s _ (omega arith) (
          Safe-bind 1 0 Any Any s (body s) _ (safe s v go here)
            λ a s' f q. while-Safe fuel test body s' f.valid (omega arith) e safe))
  | inr stop ↦ rw stop (Follows-refl s v, tt)
]

pub check_next-Safe : (s : LexState) (k : ℕ) → IsValid s → Safe 0 Any s (check_next k s)
unfolding check_next
check_next-Safe s k v =
    Safe-branch (is k s.current && not (is 0 s.current)) 0 Any s _ (pure false)
      (λ h. Safe-le 1 0 Any s _ (omega arith) (
        Safe-bind 1 0 Any Any s (save_and_next s) _
          (save_and_next-Safe s v
            (left_of_test (λ c. is k c && not (is 0 c)) s.current (pending s.z) refl h))
          λ a s' f q. (Follows-refl s' f.valid, tt)))
      (λ _. (Follows-refl s v, tt))
