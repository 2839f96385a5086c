-- ===== src/Parser/Frames/Returning.antt =====
-- src/lparser.cpp: RETURNS_N about a part of the grammar.
use terra.Common.{
  ℕ, zero, suc, ◌+◌, ◌≡◌, ap, ◌∙◌, true, false, List, arith, length, ltb, ◌==◌, not, ◌&&◌, inl, inr,
}
use terra.Parser.State
use terra.Parser.State.{
  Tree, Trees, empty, item, list, Position, Message, BlockCnt, FuncState, PState, Result, ok, err,
  fault, out_of_fuel, P, ◌>>=◌, ◌>>◌, pure, get, put, failed, exhausted, lex, set_lex, when, branch,
  assert, lift, lifted, modify_lex, token, syntaxerror, is_terra, in_terra, position, getposition,
}
use terra.Parser.Frames.{Shape, sizes, Has, Returns, From, Keeps, Pushes, Replaces, depth}
use terra.Parser.Frames.Binds.{Returns-bind, From-branch}
use terra.Parser.Frames.Mixtures.{Mixed}
use terra.Parser.State.{unmatched_return}
use terra.Parser.Frames.Basic.{pure-Keeps, syntaxerror-From}
use terra.Parser.Stack.{returns, gettop}
use terra.Parser.Frames.Stack.{lua-Has, Above-length}

module _ {A : Type 0} where
  -- the test behind the part
  checked : ℕ → PState → A → P A
  checked k s a s' =
      branch (is_terra s && not (gettop s + k == gettop s')) (syntaxerror unmatched_return) (pure a)
        s'

  checked-Keeps : (k : ℕ) (s : PState) (a : A) → Keeps (checked k s a)
  unfolding checked
  checked-Keeps k s a = record {
    keeps = λ base S. record {
      at = λ s' h.
          (From-branch base S S (is_terra s && not (gettop s + k == gettop s'))
              (syntaxerror unmatched_return) (pure a) (syntaxerror-From base S S unmatched_return)
              ((pure-Keeps a).keeps base S)).at
            s' h;
    };
  }

  pub returns-From :
      (base : List Tree) (S E : Shape) (k : ℕ) (m : P A)
      → From base S E m
      → From base S E (returns k m)
  unfolding returns checked
  returns-From base S E k m h = record {
    at = λ s e.
        Returns-bind base E E (m s) (checked k s) (h.at s e)
          λ a. (checked-Keeps k s a).keeps base E;
  }

  pub returns-Keeps : (k : ℕ) (m : P A) → Keeps m → Keeps (returns k m)
  returns-Keeps k m h = record { keeps = λ base S. returns-From base S S k m (h.keeps base S) }

  pub returns-Pushes : (k : ℕ) (m : P A) → Pushes m → Pushes (returns k m)
  returns-Pushes k m h = record {
    pushes = λ base it lv pt bk fs n. returns-From base _ _ k m (h.pushes base it lv pt bk fs n);
  }

  pub returns-Replaces : (k : ℕ) (m : P A) → Replaces m → Replaces (returns k m)
  returns-Replaces k m h = record {
    replaces =
        λ base it lv pt bk fs n. returns-From base _ _ k m (h.replaces base it lv pt bk fs n);
  }

  missing :
      (base : List Tree) (it lv pt bk : ℕ) (fs : List ℕ) (n : ℕ) (s : PState) (r : Result A)
      → Has base (sizes it lv pt bk fs n) s
      → Returns base (sizes it lv pt bk fs n) r
      → Returns base (sizes it lv pt bk fs (suc n)) (State.bind r (checked 1 s))
  unfolding checked depth
  missing base zero lv pt bk fs n s (ok a s') h h' =
      let e : is_terra s ≡ false = ap (ltb 0) h.terra in
      rw e (lua-Has base lv pt bk fs n (suc n) s' h')
  missing base (suc it) lv pt bk fs n s (ok a s') h h' =
      let e : is_terra s ≡ true = ap (ltb 0) h.terra ∙ (ground arith) in
      let before : length s.stack ≡ n + length base = Above-length n base s.stack h.above in
      let after : length s'.stack ≡ n + length base = Above-length n base s'.stack h'.above in
      let differs : (gettop s + 1 == gettop s') ≡ false = ground arith in rw (e, differs) tt
  missing base it lv pt bk fs n s (err e s') h h' = tt
  missing base it lv pt bk fs n s fault h h' = tt
  missing base it lv pt bk fs n s out_of_fuel h h' = tt

  -- Where the value has been left out, the part is refused.
  pub Mixed-returns : (m : P A) → Mixed m → Pushes (returns 1 m)
  unfolding returns checked
  Mixed-returns m h = record {
    pushes = λ base it lv pt bk fs n. record {
      at = λ s e. elim (h.mixed base it lv pt bk fs n s e) [
        | inl kept ↦ missing base it lv pt bk fs n s (m s) e kept
        | inr pushed ↦
            Returns-bind base _ _ (m s) (checked 1 s) pushed
              λ a. (checked-Keeps 1 s a).keeps base (sizes it lv pt bk fs (suc n))
      ];
    };
  }
