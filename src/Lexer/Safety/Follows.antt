-- ===== src/Lexer/Safety/Follows.antt =====
-- src/llex.cpp: the invariant of the lexer's state, the relation between the states before and after
-- a function, and the rules for its composition.
use terra.Common.{ℕ, ◌+◌, ◌≤◌, ◌≡◌, refl, ◌∙◌, Bool, true, false, List, [], ◌++◌, arith, length}
use terra.Ctype.{Charint, eoz, byte}
use terra.Zio
use terra.Zio.{pending}
use terra.Mbuffer
use terra.OutputBuffer
use terra.OutputBuffer.{contents}
use terra.Lexer.State
use terra.Lexer.State.{
  LexState, Result, M, ok, err, fault, out_of_fuel, unread, branch, when, LexError,
}
use terra.Lexer.Basic.{input}

-- Behind the end of the stream it is not read again, and the first character has been recorded.
abbrev pub IsLive : Charint → LexState → Type 0
IsLive eoz s = Unit {0}
IsLive (byte c) s = Zio.IsValid s.z × (1 ≤ s.output_buffer.n)

pub record IsValid (s : LexState) : Type 0 where
  pub output : OutputBuffer.IsValid s.output_buffer
  pub buff : Mbuffer.IsValid s.buff
  pub live : IsLive s.current s

-- the unread input behind the current character, which is already in the output buffer
abbrev pub behind : Charint → List ℕ → List ℕ
behind eoz rest = []
behind (byte c) rest = rest

-- the output buffer and what will be copied into it
abbrev pub stream : LexState → List ℕ
stream s = contents s.output_buffer ++ behind s.current (pending s.z)

-- the number of unread characters, the current one included
abbrev pub left : LexState → ℕ
left s = length (input s)

-- The state `s'` comes after `s` and at least `k` characters.
pub record Follows (k : ℕ) (s s' : LexState) : Type 0 where
  pub valid : IsValid s'
  pub copied : stream s' ≡ stream s
  pub read : left s' + k ≤ left s
  pub lines : s.linenumber ≤ s'.linenumber
  pub grows : s.output_buffer.n ≤ s'.output_buffer.n
  pub same_t : s'.t ≡ s.t
  pub same_lookahead : s'.lookahead ≡ s.lookahead

pub Follows-refl : (s : LexState) → IsValid s → Follows 0 s s
Follows-refl s v = record {
  valid = v;
  copied = refl;
  read = omega arith;
  lines = omega arith;
  grows = omega arith;
  same_t = refl;
  same_lookahead = refl;
}

pub Follows-trans :
    {j k : ℕ} {s s' s'' : LexState} → Follows j s s' → Follows k s' s'' → Follows (j + k) s s''
Follows-trans f g = record {
  valid = g.valid;
  copied = g.copied ∙ f.copied;
  read = omega arith;
  lines = omega arith;
  grows = omega arith;
  same_t = g.same_t ∙ f.same_t;
  same_lookahead = g.same_lookahead ∙ f.same_lookahead;
}

pub Follows-le : {j k : ℕ} {s s' : LexState} → k ≤ j → Follows j s s' → Follows k s s'
Follows-le h f = record {
  valid = f.valid;
  copied = f.copied;
  read = omega arith;
  lines = f.lines;
  grows = f.grows;
  same_t = f.same_t;
  same_lookahead = f.same_lookahead;
}

-- The function neither faults nor loops; where it returns, at least `k` characters have been read,
-- and `Q` holds of the result.
abbrev pub Safe : {A : Type 0} → ℕ → (A → LexState → Type 0) → LexState → Result A → Type 0
Safe k Q s (ok a s') = Follows k s s' × Q a s'
Safe k Q s (err e) = Unit {0}
Safe k Q s fault = ⊥
Safe k Q s out_of_fuel = ⊥

-- no condition on the result
abbrev pub Any : {A : Type 0} → A → LexState → Type 0
Any a s = Unit {0}

Safe-after :
    {B : Type 0} (j k : ℕ) (R : B → LexState → Type 0) (s s' : LexState) (r : Result B)
    → Follows j s s'
    → Safe k R s' r
    → Safe (j + k) R s r
Safe-after j k R s s' (ok b s'') h (p, q) = (Follows-trans h p, q)
Safe-after j k R s s' (err e) h p = tt
Safe-after j k R s s' fault h p = p
Safe-after j k R s s' out_of_fuel h p = p

pub Safe-bind :
    {A B : Type 0} (j k : ℕ) (Q : A → LexState → Type 0) (R : B → LexState → Type 0) (s : LexState)
    (r : Result A) (f : A → M B)
    → Safe j Q s r
    → ((a : A) (s' : LexState) → Follows j s s' → Q a s' → Safe k R s' (f a s'))
    → Safe (j + k) R s (State.bind r f)
Safe-bind j k Q R s (ok a s') f h g = Safe-after j k R s s' (f a s') h.0 (g a s' h.0 h.1)
Safe-bind j k Q R s (err e) f h g = tt
Safe-bind j k Q R s fault f h g = absurd h
Safe-bind j k Q R s out_of_fuel f h g = absurd h

pub Safe-le :
    {A : Type 0} (j k : ℕ) (Q : A → LexState → Type 0) (s : LexState) (r : Result A)
    → k ≤ j
    → Safe j Q s r
    → Safe k Q s r
Safe-le j k Q s (ok a s') h (f, q) = (Follows-le h f, q)
Safe-le j k Q s (err e) h p = tt
Safe-le j k Q s fault h p = p
Safe-le j k Q s out_of_fuel h p = p

pub Safe-branch :
    {A : Type 0} (b : Bool) (k : ℕ) (Q : A → LexState → Type 0) (s : LexState) (m n : M A)
    → (b ≡ true → Safe k Q s (m s))
    → (b ≡ false → Safe k Q s (n s))
    → Safe k Q s (branch b m n s)
Safe-branch true k Q s m n h h' = h refl
Safe-branch false k Q s m n h h' = h' refl

pub Safe-when :
    (b : Bool) (s : LexState) (m : M (Unit {0}))
    → IsValid s
    → (b ≡ true → Safe 0 Any s (m s))
    → Safe 0 Any s (when b m s)
Safe-when true s m v h = h refl
Safe-when false s m v h = (Follows-refl s v, tt)

-- A character is at hand wherever a test of the current one succeeds that fails at the end.
pub left_of_test :
    (test : Charint → Bool) (c : Charint) (rest : List ℕ)
    → test eoz ≡ false
    → test c ≡ true
    → 1 ≤ length (unread c rest)
left_of_test test eoz rest h k = cc
left_of_test test (byte c) rest h k = omega arith

pub Safe-Any :
    {A : Type 0} (k : ℕ) (Q : A → LexState → Type 0) (s : LexState) (r : Result A)
    → Safe k Q s r
    → Safe k Any s r
Safe-Any k Q s (ok a s') (f, q) = (f, tt)
Safe-Any k Q s (err e) p = tt
Safe-Any k Q s fault p = p
Safe-Any k Q s out_of_fuel p = p
