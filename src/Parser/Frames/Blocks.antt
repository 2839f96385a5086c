-- ===== src/Parser/Frames/Blocks.antt =====
-- src/lparser.cpp: the sizes that blocks, functions, Terra parts and levels change.
use terra.Common.{ℕ, suc, ◌+◌, ◌≡◌, refl, ap, sym, ◌∙◌, List, [], ◌∷◌, arith, length, ltb}
use terra.Parser.State.{Tree, BlockCnt, FuncState, PState, Result, ok, fault, when}
use terra.Parser.Frames.{sizes, block_counts, Has, Returns, From, depth}
use terra.Parser.Scopes.{with_fs, enterblock, Entries, unimport, leaveblock, enterterra}
use terra.Parser.Frames.Basic.{modify_lex-Keeps, when-Keeps}

-- the sizes of the chains behind a change of them
pub chain-Has :
    (base : List Tree) (it lv pt bk bk' : ℕ) (fs fs' : List ℕ) (n : ℕ) (s : PState)
    (chain : List FuncState)
    → Has base (sizes it lv pt bk fs n) s
    → block_counts chain ≡ bk' ∷ fs'
    → Has base (sizes it lv pt bk' fs' n) (record s { fs = chain })
chain-Has base it lv pt bk bk' fs fs' n s chain h e = record {
  terra = h.terra;
  levels = h.levels;
  parts = h.parts;
  chain = e;
  above = h.above;
}

first : List ℕ → ℕ
first [] = 0
first (x ∷ xs) = x

others : List ℕ → List ℕ
others [] = []
others (x ∷ xs) = xs

-- the current function of a state
pub functions :
    (s : PState) (bk : ℕ) (fs : List ℕ) (f : FuncState) (prev : List FuncState)
    → s.fs ≡ f ∷ prev
    → block_counts s.fs ≡ bk ∷ fs
    → (length f.bl ≡ bk) × (block_counts prev ≡ fs)
unfolding first others
functions s bk fs f prev e h =
    let same : length f.bl ∷ block_counts prev ≡ bk ∷ fs = sym (ap block_counts e) ∙ h in
    (ap first same, ap others same)

entered :
    (base : List Tree) (it lv pt bk : ℕ) (fs : List ℕ) (n : ℕ) (s : PState) (b : BlockCnt)
    (chain : List FuncState)
    → s.fs ≡ chain
    → Has base (sizes it lv pt bk fs n) s
    → Returns base (sizes it lv pt (suc bk) fs n) (elim chain [
      | [] ↦ fault
      | f ∷ prev ↦ ok tt (record s { fs = record f { bl = b ∷ f.bl } ∷ prev })
    ])
entered base it lv pt bk fs n s b [] e h = tt
entered base it lv pt bk fs n s b (f ∷ prev) e h =
    let (a, a') = functions s bk fs f prev e h.chain in
    chain-Has base it lv pt bk (suc bk) fs fs n s (record f { bl = b ∷ f.bl } ∷ prev) h
      (ap (λ l. suc l ∷ block_counts prev) a ∙ ap (λ l. suc bk ∷ l) a')

pub enterblock-From :
    (base : List Tree) (it lv pt bk : ℕ) (fs : List ℕ) (n starttoken : ℕ)
    → From base (sizes it lv pt bk fs n) (sizes it lv pt (suc bk) fs n) (enterblock starttoken)
unfolding enterblock with_fs
enterblock-From base it lv pt bk fs n starttoken = record {
  at = λ s h. entered base it lv pt bk fs n s _ s.fs refl h;
}

module _ (unimportlanguages : ℕ → Entries → Entries) where
  left_block :
      (base : List Tree) (it lv pt bk : ℕ) (fs : List ℕ) (n : ℕ) (s : PState) (f : FuncState)
      (prev : List FuncState) (blocks : List BlockCnt)
      → s.fs ≡ f ∷ prev
      → f.bl ≡ blocks
      → Has base (sizes it lv pt (suc bk) fs n) s
      → Returns base (sizes it lv pt bk fs n) (elim blocks [
        | [] ↦ fault
        | b ∷ previous ↦
            let k = b.languageextensionsdefined in
            when
              (ltb 0 k)
              (unimport unimportlanguages k)
              (record s { fs = record f { bl = previous } ∷ prev })
      ])
  left_block base it lv pt bk fs n s f prev [] e e' h = tt
  left_block base it lv pt bk fs n s f prev (b ∷ previous) e e' h =
      let (a, a') = functions s (suc bk) fs f prev e h.chain in
      let size : length previous ≡ bk = omega (arith, ap length e', a) in
      ((when-Keeps (ltb 0 b.languageextensionsdefined)
            (unimport unimportlanguages b.languageextensionsdefined)
            (modify_lex-Keeps _ λ l. refl)).keeps
          base (sizes it lv pt bk fs n)).at
        (record s { fs = record f { bl = previous } ∷ prev })
        (chain-Has base it lv pt (suc bk) bk fs fs n s (record f { bl = previous } ∷ prev) h
          (ap (λ l. l ∷ block_counts prev) size ∙ ap (λ l. bk ∷ l) a'))

  left :
      (base : List Tree) (it lv pt bk : ℕ) (fs : List ℕ) (n : ℕ) (s : PState)
      (chain : List FuncState)
      → s.fs ≡ chain
      → Has base (sizes it lv pt (suc bk) fs n) s
      → Returns base (sizes it lv pt bk fs n) (elim chain [
        | [] ↦ fault
        | f ∷ prev ↦ elim f.bl as (λ x. Result (Unit {0})) [
          | [] ↦ fault
          | b ∷ previous ↦
              let k = b.languageextensionsdefined in
              when
                (ltb 0 k)
                (unimport unimportlanguages k)
                (record s { fs = record f { bl = previous } ∷ prev })
        ]
      ])
  left base it lv pt bk fs n s [] e h = tt
  left base it lv pt bk fs n s (f ∷ prev) e h =
      left_block base it lv pt bk fs n s f prev f.bl e refl h

  pub leaveblock-From :
      (base : List Tree) (it lv pt bk : ℕ) (fs : List ℕ) (n : ℕ)
      → From base
          (sizes it lv pt (suc bk) fs n)
          (sizes it lv pt bk fs n)
          (leaveblock unimportlanguages)
  unfolding leaveblock
  leaveblock-From base it lv pt bk fs n = record {
    at = λ s h. left base it lv pt bk fs n s s.fs refl h;
  }

  -- A Terra part begins with the values that Terra code around it has put on the stack.
  pub enterterra-From :
      (base : List Tree) (it lv pt bk : ℕ) (fs : List ℕ) (n : ℕ)
      → From base
          (sizes it lv pt bk fs n)
          (sizes (suc it) lv (suc pt) (suc bk) fs (depth it n))
          (enterterra unimportlanguages)
  unfolding enterterra depth
  enterterra-From base it lv pt bk fs n = record {
    at = λ s h.
        (enterblock-From base (suc it) lv (suc pt) bk fs (depth it n) 0).at
          (record s {
            terracnt = [] ∷ s.terracnt;
            lex = record (s.lex) { in_terra = s.lex.in_terra + 1 };
          })
          (record {
            terra = omega (arith, h.terra);
            levels = h.levels;
            parts = ap suc h.parts;
            chain = h.chain;
            above = h.above;
          });
  }
