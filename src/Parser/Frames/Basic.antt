-- ===== src/Parser/Frames/Basic.antt =====
-- src/lparser.cpp: the sizes that the basic actions of the parser keep.
use terra.Common.{ℕ, ◌≡◌, refl, ◌∙◌, Bool, true, false, List, length}
use terra.Parser.State.{
  Tree, Message, PState, ok, P, ◌>>=◌, pure, get, failed, exhausted, lex, when, assert, lift,
  lifted, modify_lex, token, syntaxerror, in_terra, getposition,
}
use terra.Parser.Frames.{Shape, sizes, block_counts, Has, Returns, From, Keeps, Pushes}
use terra.Lexer.State as Lexer
use terra.Lexer.State.{LexState, Token}
use terra.Lexer.Terra.{SameTerra, KeepsTerra}

pub Has-same :
    (base : List Tree) (S : Shape) (s s' : PState)
    → Has base S s
    → s'.lex.in_terra ≡ s.lex.in_terra
    → s'.c_calls ≡ s.c_calls
    → length s'.terracnt ≡ length s.terracnt
    → block_counts s'.fs ≡ block_counts s.fs
    → s'.stack ≡ s.stack
    → Has base S s'
Has-same base (sizes it lv pt bk fs n) s s' h a b c d e =
    let (xs, e', l) = h.above in
    record {
      terra = a ∙ h.terra;
      levels = b ∙ h.levels;
      parts = c ∙ h.parts;
      chain = d ∙ h.chain;
      above = (xs, e ∙ e', l);
    }

-- a change of the lexer's state
pub Has-lex :
    (base : List Tree) (S : Shape) (s : PState) (l : LexState)
    → Has base S s
    → l.in_terra ≡ s.lex.in_terra
    → Has base S (record s { lex = l })
Has-lex base S s l h e = Has-same base S s (record s { lex = l }) h e refl refl refl refl

pub pure-Keeps : {A : Type 0} (a : A) → Keeps (pure a)
pure-Keeps a = record { keeps = λ base S. record { at = λ s h. h } }

pub get-Keeps : Keeps get
get-Keeps = record { keeps = λ base S. record { at = λ s h. h } }

pub lex-Keeps : Keeps lex
lex-Keeps = record { keeps = λ base S. record { at = λ s h. h } }

pub token-Keeps : Keeps token
token-Keeps = record { keeps = λ base S. record { at = λ s h. h } }

pub current_token-Keeps : Keeps {A = Token} (λ s. ok s.lex.t s)
current_token-Keeps = record { keeps = λ base S. record { at = λ s h. h } }

pub getposition-Keeps : Keeps getposition
getposition-Keeps = record { keeps = λ base S. record { at = λ s h. h } }

pub in_terra-Keeps : Keeps in_terra
in_terra-Keeps = record { keeps = λ base S. record { at = λ s h. h } }

pub failed-From : {A : Type 0} (base : List Tree) (S E : Shape) → From base S E (failed {A = A})
failed-From base S E = record { at = λ s h. tt }

pub exhausted-From :
    {A : Type 0} (base : List Tree) (S E : Shape) → From base S E (exhausted {A = A})
exhausted-From base S E = record { at = λ s h. tt }

pub syntaxerror-From :
    {A : Type 0} (base : List Tree) (S E : Shape) (message : Message)
    → From base S E (syntaxerror {A = A} message)
syntaxerror-From base S E message = record { at = λ s h. tt }

pub syntaxerror-Keeps : {A : Type 0} (message : Message) → Keeps (syntaxerror {A = A} message)
syntaxerror-Keeps message = record { keeps = λ base S. syntaxerror-From base S S message }

pub syntaxerror-Pushes : {A : Type 0} (message : Message) → Pushes (syntaxerror {A = A} message)
syntaxerror-Pushes message = record {
  pushes = λ base it lv pt bk fs n. syntaxerror-From base _ _ message;
}

pub failed-Keeps : {A : Type 0} → Keeps (failed {A = A})
failed-Keeps = record { keeps = λ base S. failed-From base S S }

pub when-Keeps : (b : Bool) (m : P (Unit {0})) → Keeps m → Keeps (when b m)
when-Keeps true m h = h
when-Keeps false m h = pure-Keeps tt

pub assert-Keeps : (b : Bool) → Keeps (assert b)
assert-Keeps true = pure-Keeps tt
assert-Keeps false = record { keeps = λ base S. record { at = λ s h. tt } }

lifted-Returns :
    {A : Type 0} (base : List Tree) (S : Shape) (s : PState) (r : Lexer.Result A)
    → Has base S s
    → SameTerra s.lex r
    → Returns base S (lifted s r)
lifted-Returns base S s (Lexer.ok a l) h e = Has-lex base S s l h e
lifted-Returns base S s (Lexer.err x) h e = tt
lifted-Returns base S s Lexer.fault h e = tt
lifted-Returns base S s Lexer.out_of_fuel h e = tt

pub lift-Keeps : {A : Type 0} (m : Lexer.M A) → KeepsTerra m → Keeps (lift m)
lift-Keeps m k = record {
  keeps = λ base S. record { at = λ s h. lifted-Returns base S s (m s.lex) h (k.at s.lex) };
}

pub modify_lex-Keeps :
    (f : LexState → LexState)
    → ((l : LexState) → (f l).in_terra ≡ l.in_terra)
    → Keeps (modify_lex f)
modify_lex-Keeps f k = record {
  keeps = λ base S. record { at = λ s h. Has-lex base S s (f s.lex) h (k s.lex) };
}

module _ {A : Type 0} (base : List Tree) (E : Shape) where
  pub syntaxerror-then :
      {B : Type 0} (S : Shape) (message : Message) (f : B → P A)
      → From base S E (syntaxerror message >>= f)
  syntaxerror-then S message f = record { at = λ s h. tt }

  -- the value of `in_terra` that is read
  pub lex-then :
      (it lv pt bk : ℕ) (fs : List ℕ) (n : ℕ) (f : LexState → P A)
      → ((l : LexState) → l.in_terra ≡ it → From base (sizes it lv pt bk fs n) E (f l))
      → From base (sizes it lv pt bk fs n) E (lex >>= f)
  lex-then it lv pt bk fs n f k = record { at = λ s h. (k s.lex h.terra).at s h }
