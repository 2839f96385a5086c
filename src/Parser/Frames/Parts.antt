-- ===== src/Parser/Frames/Parts.antt =====
-- src/lparser.cpp: the sizes at the end of Terra parts and functions, and those of the levels.
use terra.Common.{
  subst, ℕ, suc, ◌+◌, ◌-◌, ◌≡◌, refl, ap, sym, ◌∙◌, Bool, true, false, List, [], ◌∷◌, arith, length,
  ◌==◌, not,
}
use terra.Parser.State
use terra.Parser.State.{
  Tree, Trees, empty, item, list, Position, Message, BlockCnt, FuncState, PState, Result, ok, err,
  fault, out_of_fuel, P, ◌>>=◌, ◌>>◌, pure, get, put, failed, exhausted, lex, set_lex, when, branch,
  assert, lift, lifted, modify_lex, token, syntaxerror, is_terra, in_terra, position, getposition,
}
use terra.Parser.Frames.{Shape, sizes, block_counts, Above, Has, Returns, From, depth}
use terra.Parser.Frames.Binds.{Returns-bind, From-bind}
use terra.Parser.Scopes.{Entries, leaveblock, leaveterra, open_func, close_func}
use terra.Parser.Checks.{enterlevel, leavelevel, maxccalls}
use terra.Parser.Frames.Checks.{checklimit-Keeps}
use terra.Parser.Frames.Blocks.{chain-Has, functions, enterblock-From, leaveblock-From}

module _ (unimportlanguages : ℕ → Entries → Entries) where
  left_terra :
      (base : List Tree) (it lv pt bk : ℕ) (fs : List ℕ) (n m : ℕ) (s : PState)
      (parts : List (List (List ℕ)))
      → s.terracnt ≡ parts
      → depth it n ≡ m
      → Has base (sizes (suc it) lv (suc pt) bk fs m) s
      → Returns base (sizes it lv pt bk fs n) (
          elim parts as (λ x. P (List (List ℕ))) [
            | [] ↦ failed
            | tc ∷ previous ↦
                put (record s {
                  terracnt = previous;
                  lex = record (s.lex) { in_terra = s.lex.in_terra - 1 };
                })
                >> pure tc
          ]
            s)
  left_terra base it lv pt bk fs n m s [] e e' h = tt
  left_terra base it lv pt bk fs n m s (tc ∷ previous) e e' h = record {
    terra = omega (arith, h.terra);
    levels = h.levels;
    parts = omega (arith, ap length e, h.parts);
    chain = h.chain;
    above = subst (λ x. Above x base s.stack) (sym e') (unfold depth in h.above);
  }

  asserted :
      {A : Type 0} (base : List Tree) (E : Shape) (b : Bool) (s : PState) (m : P A)
      → Returns base E (m s)
      → Returns base E (State.bind (assert b s) λ a. m)
  asserted base E true s m h = h
  asserted base E false s m h = tt

  -- It ends with the values that it began with.
  pub leaveterra-From :
      (base : List Tree) (it lv pt bk : ℕ) (fs : List ℕ) (n : ℕ)
      → From base
          (sizes (suc it) lv (suc pt) (suc bk) fs (depth it n))
          (sizes it lv pt bk fs n)
          (leaveterra unimportlanguages)
  unfolding leaveterra
  leaveterra-From base it lv pt bk fs n = record {
    at = λ s h. asserted base (sizes it lv pt bk fs n) (is_terra s) s _ (
        asserted base (sizes it lv pt bk fs n) (not (length s.terracnt == 0)) s _ (
          Returns-bind base (sizes (suc it) lv (suc pt) bk fs (depth it n)) (sizes it lv pt bk fs n)
            (leaveblock unimportlanguages s) _
            ((leaveblock-From unimportlanguages base (suc it) lv (suc pt) bk fs (depth it n)).at s
              h)
            λ a. record {
              at = λ s' h'.
                  left_terra base it lv pt bk fs n (depth it n) s' s'.terracnt refl refl h';
            }));
  }

  opened :
      (base : List Tree) (it lv pt bk : ℕ) (fs : List ℕ) (n : ℕ) (s : PState)
      (chain : List FuncState)
      → s.fs ≡ chain
      → Has base (sizes it lv pt bk fs n) s
      → length (elim chain as (λ x. List BlockCnt) [ [] ↦ [] | f ∷ prev ↦ f.bl ]) ≡ bk
  opened base it lv pt bk fs n s [] e h =
      let none_left : [] ≡ bk ∷ fs = sym (ap block_counts e) ∙ h.chain in ground arith
  opened base it lv pt bk fs n s (f ∷ prev) e h = (functions s bk fs f prev e h.chain).0

  pub open_func-From :
      (base : List Tree) (it lv pt bk : ℕ) (fs : List ℕ) (n : ℕ)
      → From base
          (sizes it lv pt bk fs n)
          (sizes it lv pt (suc bk) (bk ∷ fs) n)
          (open_func unimportlanguages)
  unfolding open_func
  open_func-From base it lv pt bk fs n = record {
    at = λ s h.
        let outer : List BlockCnt = elim s.fs [ [] ↦ [] | f ∷ prev ↦ f.bl ] in
        let chain : List FuncState =
          record { linedefined = 0; lastlinedefined = 0; is_vararg = 0; bl = outer } ∷ s.fs in
        (enterblock-From base it lv pt bk (bk ∷ fs) n 0).at (record s { fs = chain })
          (chain-Has base it lv pt bk bk fs (bk ∷ fs) n s chain h (
            ap (λ l. l ∷ block_counts s.fs) (opened base it lv pt bk fs n s s.fs refl h)
            ∙ ap (λ l. bk ∷ l) h.chain));
  }

  closed :
      (base : List Tree) (it lv pt bk bk' : ℕ) (fs : List ℕ) (n : ℕ) (s : PState)
      (chain : List FuncState)
      → s.fs ≡ chain
      → Has base (sizes it lv pt bk' (bk ∷ fs) n) s
      → Returns base (sizes it lv pt bk fs n) (
          elim chain as (λ x. P (Unit {0})) [
            | [] ↦ failed
            | f ∷ prev ↦ put (record s { fs = prev })
          ]
            s)
  closed base it lv pt bk bk' fs n s [] e h = tt
  closed base it lv pt bk bk' fs n s (f ∷ prev) e h =
      chain-Has base it lv pt bk' bk (bk ∷ fs) fs n s prev h
        ((functions s bk' (bk ∷ fs) f prev e h.chain).1)

  pub close_func-From :
      (base : List Tree) (it lv pt bk bk' : ℕ) (fs : List ℕ) (n : ℕ)
      → From base
          (sizes it lv pt (suc bk') (bk ∷ fs) n)
          (sizes it lv pt bk fs n)
          (close_func unimportlanguages)
  unfolding close_func
  close_func-From base it lv pt bk bk' fs n =
      From-bind base _ (sizes it lv pt bk' (bk ∷ fs) n) _ (leaveblock unimportlanguages) _
        (leaveblock-From unimportlanguages base it lv pt bk' (bk ∷ fs) n)
        λ a. record { at = λ s h. closed base it lv pt bk bk' fs n s s.fs refl h }

pub enterlevel-From :
    (base : List Tree) (it lv pt bk : ℕ) (fs : List ℕ) (n : ℕ)
    → From base (sizes it lv pt bk fs n) (sizes it (suc lv) pt bk fs n) enterlevel
unfolding enterlevel
enterlevel-From base it lv pt bk fs n = record {
  at = λ s h.
      ((checklimit-Keeps (s.c_calls + 1) maxccalls "C levels").keeps base
          (sizes it (suc lv) pt bk fs n)).at
        (record s { c_calls = s.c_calls + 1 })
        (record {
          terra = h.terra;
          levels = omega (arith, h.levels);
          parts = h.parts;
          chain = h.chain;
          above = h.above;
        });
}

pub leavelevel-From :
    (base : List Tree) (it lv pt bk : ℕ) (fs : List ℕ) (n : ℕ)
    → From base (sizes it (suc lv) pt bk fs n) (sizes it lv pt bk fs n) leavelevel
unfolding leavelevel
leavelevel-From base it lv pt bk fs n = record {
  at = λ s h. record {
    terra = h.terra;
    levels = omega (arith, h.levels);
    parts = h.parts;
    chain = h.chain;
    above = h.above;
  };
}
