-- ===== src/Parser/Frames/Scopes.antt =====
-- src/lparser.cpp: the sizes that the blocks, the functions and the Terra parts change.
use terra.Common.{
  ℕ, zero, suc, ◌≡◌, refl, ap, sym, ◌∙◌, Option, none, some, List, [], ◌∷◌, length, ◌==◌, inl, inr,
  Bool-cases,
}
use terra.Parser.State.{Tree, BlockCnt, FuncState, PState, Result, ok, fault}
use terra.Parser.Frames.{Shape, block_counts, Has, Returns, Keeps}
use terra.Parser.Scopes.{
  with_fs, with_block, definevariable, capture_at, captured, Search, elsewhere, captured_by,
  no_part, search_blocks, chain, refvariable,
}
use terra.Parser.Rules.{set_vararg, function}
use terra.Parser.Frames.Basic.{Has-same}

with_fs-Returns :
    (base : List Tree) (S : Shape) (f : FuncState → FuncState) (s : PState) (fs : List FuncState)
    → ((fs : FuncState) → length (f fs).bl ≡ length fs.bl)
    → s.fs ≡ fs
    → Has base S s
    → Returns base S (elim fs [ [] ↦ fault | g ∷ prev ↦ ok tt (record s { fs = f g ∷ prev }) ])
with_fs-Returns base S f s [] k e h = tt
with_fs-Returns base S f s (g ∷ prev) k e h =
    Has-same base S s (record s { fs = f g ∷ prev }) h refl refl refl
      (ap (λ l. l ∷ block_counts prev) (k g) ∙ sym (ap block_counts e)) refl

-- a change of the current function that leaves its number of blocks
pub with_fs-Keeps :
    (f : FuncState → FuncState)
    → ((fs : FuncState) → length (f fs).bl ≡ length fs.bl)
    → Keeps (with_fs λ fs. some (f fs))
unfolding with_fs
with_fs-Keeps f k = record {
  keeps = λ base S. record { at = λ s h. with_fs-Returns base S f s s.fs k refl h };
}

pub set_vararg-Keeps : (n : ℕ) → Keeps (set_vararg n)
set_vararg-Keeps n = with_fs-Keeps (λ fs. record fs { is_vararg = n }) λ fs. refl

pub linedefined-Keeps : (line : ℕ) → Keeps (with_fs λ fs. some (record fs { linedefined = line }))
linedefined-Keeps line = with_fs-Keeps (λ fs. record fs { linedefined = line }) λ fs. refl

pub lastlinedefined-Keeps :
    (line : ℕ) → Keeps (with_fs λ fs. some (record fs { lastlinedefined = line }))
lastlinedefined-Keeps line = with_fs-Keeps (λ fs. record fs { lastlinedefined = line }) λ fs. refl

function-Returns :
    (base : List Tree) (S : Shape) (s : PState) (fs : List FuncState)
    → Has base S s
    → Returns base S (elim fs [ [] ↦ fault | f ∷ prev ↦ ok f s ])
function-Returns base S s [] h = tt
function-Returns base S s (f ∷ prev) h = h

pub function-Keeps : Keeps function
function-Keeps = record {
  keeps = λ base S. record { at = λ s h. function-Returns base S s s.fs h };
}

block-Returns :
    (base : List Tree) (S : Shape) (g : BlockCnt → BlockCnt) (s : PState) (f : FuncState)
    (prev : List FuncState) (bl : List BlockCnt)
    → f.bl ≡ bl
    → s.fs ≡ f ∷ prev
    → Has base S s
    → Returns base S
        (elim (elim bl as (λ x. Option FuncState) [
          | [] ↦ none
          | b ∷ previous ↦ some (record f { bl = g b ∷ previous })
        ]) [ none ↦ fault | some fs' ↦ ok tt (record s { fs = fs' ∷ prev }) ])
block-Returns base S g s f prev [] e e' h = tt
block-Returns base S g s f prev (b ∷ previous) e e' h =
    Has-same base S s (record s { fs = record f { bl = g b ∷ previous } ∷ prev }) h refl refl refl
      (ap (λ bl. length bl ∷ block_counts prev) (sym e) ∙ sym (ap block_counts e')) refl

with_block-Returns :
    (base : List Tree) (S : Shape) (g : BlockCnt → BlockCnt) (s : PState) (fs : List FuncState)
    → s.fs ≡ fs
    → Has base S s
    → Returns base S (elim fs [
      | [] ↦ fault
      | f ∷ prev ↦
          elim (elim f.bl as (λ x. Option FuncState) [
            | [] ↦ none
            | b ∷ previous ↦ some (record f { bl = g b ∷ previous })
          ]) [ none ↦ fault | some fs' ↦ ok tt (record s { fs = fs' ∷ prev }) ]
    ])
with_block-Returns base S g s [] e h = tt
with_block-Returns base S g s (f ∷ prev) e h = block-Returns base S g s f prev f.bl refl e h

pub with_block-Keeps : (g : BlockCnt → BlockCnt) → Keeps (with_block g)
unfolding with_block with_fs
with_block-Keeps g = record {
  keeps = λ base S. record { at = λ s h. with_block-Returns base S g s s.fs refl h };
}

pub definevariable-Keeps : (name : List ℕ) → Keeps (definevariable name)
unfolding definevariable
definevariable-Keeps name = with_block-Keeps _

length-capture_at :
    (i : ℕ) (name : List ℕ) (parts : List (List (List ℕ)))
    → length (capture_at i name parts) ≡ length parts
unfolding capture_at
length-capture_at i name [] = refl
length-capture_at zero name (captured ∷ outer) = refl
length-capture_at (suc i) name (captured ∷ outer) = ap suc (length-capture_at i name outer)

captured-Returns :
    (base : List Tree) (S : Shape) (name : List ℕ) (where_to : Search) (s : PState)
    → Has base S s
    → Returns base S (captured name where_to s)
unfolding captured
captured-Returns base S name elsewhere s h = h
captured-Returns base S name (captured_by i) s h =
    Has-same base S s (record s { terracnt = capture_at i name s.terracnt }) h refl refl
      (length-capture_at i name s.terracnt) refl refl
captured-Returns base S name no_part s h = tt

found-Returns :
    (base : List Tree) (S : Shape) (name : List ℕ) (s : PState) (o : Option (List BlockCnt))
    → Has base S s
    → Returns base S (elim o as (λ x. Result (Unit {0})) [
      | none ↦ fault
      | some blocks ↦ captured name (search_blocks name (length s.terracnt) 0 blocks) s
    ])
found-Returns base S name s none h = tt
found-Returns base S name s (some blocks) h = captured-Returns base S name _ s h

pub refvariable-Keeps : (name : List ℕ) → Keeps (refvariable name)
unfolding refvariable
refvariable-Keeps name = record {
  keeps = λ base S. record {
    at = λ s h. elim (Bool-cases (length s.terracnt == 0)) [
      | inl e ↦ rw e h
      | inr e ↦ rw e (found-Returns base S name s (chain s.fs) h)
    ];
  };
}
