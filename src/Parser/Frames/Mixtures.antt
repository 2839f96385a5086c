-- ===== src/Parser/Frames/Mixtures.antt =====
-- src/lparser.cpp: a part of the grammar that may leave its value out.
use terra.Common.{ℕ, suc, ◌⊎◌, inl, inr, Bool, true, false, List}
use terra.Parser.State
use terra.Parser.State.{
  Tree, BlockCnt, FuncState, PState, Result, ok, err, fault, out_of_fuel, P, ◌>>=◌, branch, when,
  pure,
}
use terra.Parser.Frames.{sizes, Has, Returns, Keeps, Pushes}

-- A part that in Terra code puts a value on the stack or leaves it out.
pub record Mixed {A : Type 0} (m : P A) : Type 0 where
  pub mixed :
      (base : List Tree) (it lv pt bk : ℕ) (fs : List ℕ) (n : ℕ) (s : PState)
      → Has base (sizes it lv pt bk fs n) s
      → Returns base (sizes it lv pt bk fs n) (m s)
        ⊎ Returns base (sizes it lv pt bk fs (suc n)) (m s)

module _ {A : Type 0} where
  pub Keeps-Mixed : (m : P A) → Keeps m → Mixed m
  Keeps-Mixed m h = record {
    mixed = λ base it lv pt bk fs n s e. inl ((h.keeps base (sizes it lv pt bk fs n)).at s e);
  }

  pub Pushes-Mixed : (m : P A) → Pushes m → Mixed m
  Pushes-Mixed m h = record {
    mixed = λ base it lv pt bk fs n s e. inr ((h.pushes base it lv pt bk fs n).at s e);
  }

  pub Mixed-branch : (b : Bool) (m k : P A) → Mixed m → Mixed k → Mixed (branch b m k)
  Mixed-branch true m k h h' = h
  Mixed-branch false m k h h' = h'

Mixed-bind :
    {A B : Type 0} (base : List Tree) (it lv pt bk : ℕ) (fs : List ℕ) (n : ℕ) (r : Result B)
    (f : B → P A)
    → Returns base (sizes it lv pt bk fs n) r
    → ((b : B) → Mixed (f b))
    → Returns base (sizes it lv pt bk fs n) (State.bind r f)
      ⊎ Returns base (sizes it lv pt bk fs (suc n)) (State.bind r f)
Mixed-bind base it lv pt bk fs n (ok b s) f h k = (k b).mixed base it lv pt bk fs n s h
Mixed-bind base it lv pt bk fs n (err e s) f h k = inl tt
Mixed-bind base it lv pt bk fs n fault f h k = inl tt
Mixed-bind base it lv pt bk fs n out_of_fuel f h k = inl tt

pub Mixed-then :
    {A B : Type 0} (m : P B) (f : B → P A) → Keeps m → ((b : B) → Mixed (f b)) → Mixed (m >>= f)
Mixed-then m f h k = record {
  mixed = λ base it lv pt bk fs n s e.
      Mixed-bind base it lv pt bk fs n (m s) f ((h.keeps base (sizes it lv pt bk fs n)).at s e) k;
}
