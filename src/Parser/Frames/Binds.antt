-- ===== src/Parser/Frames/Binds.antt =====
-- src/lparser.cpp: the sizes behind actions in sequence, and behind tests.
use terra.Common.{ℕ, suc, Bool, true, false, List}
use terra.Parser.State
use terra.Parser.State.{
  Tree, BlockCnt, FuncState, PState, Result, ok, err, fault, out_of_fuel, P, ◌>>=◌, branch, when,
  pure,
}
use terra.Parser.Frames.{Shape, sizes, Returns, From, Keeps, Pushes, Replaces}

module _ {A B : Type 0} where
  pub Returns-bind :
      (base : List Tree) (S E : Shape) (r : Result A) (f : A → P B)
      → Returns base S r
      → ((a : A) → From base S E (f a))
      → Returns base E (State.bind r f)
  Returns-bind base S E (ok a s) f h k = (k a).at s h
  Returns-bind base S E (err e s) f h k = tt
  Returns-bind base S E fault f h k = tt
  Returns-bind base S E out_of_fuel f h k = tt

  pub From-bind :
      (base : List Tree) (S T E : Shape) (m : P A) (f : A → P B)
      → From base S T m
      → ((a : A) → From base T E (f a))
      → From base S E (m >>= f)
  From-bind base S T E m f h k = record { at = λ s e. Returns-bind base T E (m s) f (h.at s e) k }

  -- a part that keeps the sizes, and what follows it
  pub keep-then :
      (base : List Tree) (S E : Shape) (m : P A) (f : A → P B)
      → Keeps m
      → ((a : A) → From base S E (f a))
      → From base S E (m >>= f)
  keep-then base S E m f h k = From-bind base S S E m f (h.keeps base S) k

  pub loop-then :
      (base : List Tree) (S E : Shape) (m : P A) (f : A → P B)
      → From base S S m
      → ((a : A) → From base S E (f a))
      → From base S E (m >>= f)
  loop-then base S E m f h k = From-bind base S S E m f h k

  pub push-then :
      (base : List Tree) (it lv pt bk : ℕ) (fs : List ℕ) (n : ℕ) (E : Shape) (m : P A) (f : A → P B)
      → Pushes m
      → ((a : A) → From base (sizes it lv pt bk fs (suc n)) E (f a))
      → From base (sizes it lv pt bk fs n) E (m >>= f)
  push-then base it lv pt bk fs n E m f h k =
      From-bind base _ _ E m f (h.pushes base it lv pt bk fs n) k

  pub replace-then :
      (base : List Tree) (it lv pt bk : ℕ) (fs : List ℕ) (n : ℕ) (E : Shape) (m : P A) (f : A → P B)
      → Replaces m
      → ((a : A) → From base (sizes it lv pt bk fs (suc n)) E (f a))
      → From base (sizes it lv pt bk fs (suc n)) E (m >>= f)
  replace-then base it lv pt bk fs n E m f h k =
      From-bind base _ _ E m f (h.replaces base it lv pt bk fs n) k

  pub branch-then :
      (base : List Tree) (S E : Shape) (b : Bool) (m k : P A) (f : A → P B)
      → From base S E (m >>= f)
      → From base S E (k >>= f)
      → From base S E (branch b m k >>= f)
  branch-then base S E true m k f h h' = h
  branch-then base S E false m k f h h' = h'

  pub Keeps-bind : (m : P A) (f : A → P B) → Keeps m → ((a : A) → Keeps (f a)) → Keeps (m >>= f)
  Keeps-bind m f h k = record { keeps = λ base S. keep-then base S S m f h λ a. (k a).keeps base S }

  pub Keeps-Pushes-bind :
      (m : P A) (f : A → P B) → Keeps m → ((a : A) → Pushes (f a)) → Pushes (m >>= f)
  Keeps-Pushes-bind m f h k = record {
    pushes =
        λ base it lv pt bk fs n. keep-then base _ _ m f h λ a. (k a).pushes base it lv pt bk fs n;
  }

  pub Pushes-Keeps-bind :
      (m : P A) (f : A → P B) → Pushes m → ((a : A) → Keeps (f a)) → Pushes (m >>= f)
  Pushes-Keeps-bind m f h k = record {
    pushes = λ base it lv pt bk fs n.
        push-then base it lv pt bk fs n _ m f h
          λ a. (k a).keeps base (sizes it lv pt bk fs (suc n));
  }

  pub Pushes-Replaces-bind :
      (m : P A) (f : A → P B) → Pushes m → ((a : A) → Replaces (f a)) → Pushes (m >>= f)
  Pushes-Replaces-bind m f h k = record {
    pushes = λ base it lv pt bk fs n.
        push-then base it lv pt bk fs n _ m f h λ a. (k a).replaces base it lv pt bk fs n;
  }

  pub Replaces-Keeps-bind :
      (m : P A) (f : A → P B) → Replaces m → ((a : A) → Keeps (f a)) → Replaces (m >>= f)
  Replaces-Keeps-bind m f h k = record {
    replaces = λ base it lv pt bk fs n.
        replace-then base it lv pt bk fs n _ m f h
          λ a. (k a).keeps base (sizes it lv pt bk fs (suc n));
  }

module _ {A : Type 0} where
  pub From-branch :
      (base : List Tree) (S E : Shape) (b : Bool) (m k : P A)
      → From base S E m
      → From base S E k
      → From base S E (branch b m k)
  From-branch base S E true m k h h' = h
  From-branch base S E false m k h h' = h'

  pub keep-end : (base : List Tree) (S : Shape) (m : P A) → Keeps m → From base S S m
  keep-end base S m h = h.keeps base S

  pub push-end :
      (base : List Tree) (it lv pt bk : ℕ) (fs : List ℕ) (n : ℕ) (m : P A)
      → Pushes m
      → From base (sizes it lv pt bk fs n) (sizes it lv pt bk fs (suc n)) m
  push-end base it lv pt bk fs n m h = h.pushes base it lv pt bk fs n

  pub replace-end :
      (base : List Tree) (it lv pt bk : ℕ) (fs : List ℕ) (n : ℕ) (m : P A)
      → Replaces m
      → From base (sizes it lv pt bk fs (suc n)) (sizes it lv pt bk fs (suc n)) m
  replace-end base it lv pt bk fs n m h = h.replaces base it lv pt bk fs n

  pub Keeps-branch : (b : Bool) (m k : P A) → Keeps m → Keeps k → Keeps (branch b m k)
  Keeps-branch true m k h h' = h
  Keeps-branch false m k h h' = h'

  sized :
      (m : P A)
      → ((base : List Tree) (it lv pt bk : ℕ) (fs : List ℕ) (n : ℕ)
          → From base (sizes it lv pt bk fs n) (sizes it lv pt bk fs n) m)
      → (base : List Tree) (S : Shape) → From base S S m
  sized m h base (sizes it lv pt bk fs n) = h base it lv pt bk fs n

  pub Pushes-branch : (b : Bool) (m k : P A) → Pushes m → Pushes k → Pushes (branch b m k)
  Pushes-branch true m k h h' = h
  Pushes-branch false m k h h' = h'

  pub Keeps-by :
      (m : P A)
      → ((base : List Tree) (it lv pt bk : ℕ) (fs : List ℕ) (n : ℕ)
          → From base (sizes it lv pt bk fs n) (sizes it lv pt bk fs n) m)
      → Keeps m
  Keeps-by m h = record { keeps = λ base S. sized m h base S }

  pub Pushes-by :
      (m : P A)
      → ((base : List Tree) (it lv pt bk : ℕ) (fs : List ℕ) (n : ℕ)
          → From base (sizes it lv pt bk fs n) (sizes it lv pt bk fs (suc n)) m)
      → Pushes m
  Pushes-by m h = record { pushes = h }

  pub Replaces-branch : (b : Bool) (m k : P A) → Replaces m → Replaces k → Replaces (branch b m k)
  Replaces-branch true m k h h' = h
  Replaces-branch false m k h h' = h'

bind-again :
    {A B C : Type 0} (base : List Tree) (E : Shape) (r : Result A) (g : A → P B) (f : B → P C)
    → Returns base E (State.bind r λ a. g a >>= f)
    → Returns base E (State.bind (State.bind r g) f)
bind-again base E (ok a s) g f h = h
bind-again base E (err e s) g f h = h
bind-again base E fault g f h = h
bind-again base E out_of_fuel g f h = h

pub bind-then :
    {A B C : Type 0} (base : List Tree) (S E : Shape) (m : P A) (g : A → P B) (f : B → P C)
    → From base S E (m >>= λ a. g a >>= f)
    → From base S E ((m >>= g) >>= f)
bind-then base S E m g f h = record { at = λ s e. bind-again base E (m s) g f (h.at s e) }

-- a test that keeps the sizes where it holds, and the rest
pub From-when :
    (base : List Tree) (S : Shape) (b : Bool) (m : P (Unit {0}))
    → From base S S m
    → From base S S (when b m)
From-when base S true m h = h
From-when base S false m h = record { at = λ s e. e }
