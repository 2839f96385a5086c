-- ===== src/Parser/Frames/Ending.antt =====
-- src/lparser.cpp: whole programs leave the stack, the functions and the Terra parts empty.
use terra.Common.{subst, ℕ, ◌≡◌, refl, ap, sym, ◌∙◌, List, [], ◌∷◌, arith, length}
use terra.Parser.State
use terra.Parser.State.{
  Tree, Trees, empty, item, list, Position, Message, unexpected_symbol, arguments_expected,
  parameter_expected, outside_vararg, case_outside_switch, case_not_terminated, in_expected,
  reported, BlockCnt, FuncState, PState, Result, ok, err, fault, out_of_fuel, P, ◌>>=◌, ◌>>◌, pure,
  get, put, failed, exhausted, lex, set_lex, when, branch, assert, lift, lifted, modify_lex, token,
  syntaxerror, is_terra, in_terra, position, getposition,
}
use terra.Parser.Frames.{Shape, sizes, block_counts, Has, Returns, depth}
use terra.Token.{tk_eos}
use terra.Lexer.State.{LexState}
use terra.Parser.Scopes.{definevariable, refvariable, enterblock, with_fs, with_block, Entries}
use terra.Parser.Checks.{check}
use terra.Parser.Env.{Lua}
use terra.Parser.Rules.{next, leaveblock, close_func, statlist}
use terra.Parser.Frames.Checks.{check-Keeps, next_token-Keeps}
use terra.Parser.Frames.Blocks.{leaveblock-From}
use terra.Parser.Frames.Rules.{parts, statlist-Pushes}
use terra.Parser.Frames.Grammar.{rules-Good}
use terra.Ctype.{Charint}
use terra.Zio.{Zio}
use terra.Parser.Scopes
use terra.Parser.Scopes.{open_mainfunc}
use terra.Parser.Checks.{check}
use terra.OutputBuffer
use terra.OutputBuffer.{putc}
use terra.Strings.{poptstringtable}
use terra.Lexer.Patch.{setinput}
use terra.Parser.Main.{
  rules, initial, main_function, main_body, finish, parser, parsed, rewind_zeros,
}
use terra.Parser.Frames.Stack.{Above-zero}

other_counts : List ℕ → List ℕ
other_counts [] = []
other_counts (x ∷ xs) = xs

-- what `luaY_parser` asserts at its end, and that the levels are those at its beginning
pub record Ended (lv : ℕ) (s : PState) : Type 0 where
  pub stack : s.stack ≡ []
  pub functions : s.fs ≡ []
  pub parts : s.terracnt ≡ []
  pub lua : s.lex.in_terra ≡ 0
  pub levels : s.c_calls ≡ lv

abbrev Ends : ℕ → Result (Unit {0}) → Type 0
Ends lv (ok a s) = Ended lv s
Ends lv (err e s) = Unit {0}
Ends lv fault = Unit {0}
Ends lv out_of_fuel = Unit {0}

Ends-bind :
    {A : Type 0} (lv : ℕ) (S : Shape) (r : Result A) (f : A → P (Unit {0}))
    → Returns [] S r
    → ((a : A) (s : PState) → Has [] S s → Ends lv (f a s))
    → Ends lv (State.bind r f)
Ends-bind lv S (ok a s) f h k = k a s h
Ends-bind lv S (err e s) f h k = tt
Ends-bind lv S fault f h k = tt
Ends-bind lv S out_of_fuel f h k = tt

no_functions : (chain : List FuncState) → block_counts chain ≡ [] → chain ≡ []
no_functions [] e = refl
no_functions (f ∷ prev) e = ground arith

no_parts : (parts : List (List (List ℕ))) → length parts ≡ 0 → parts ≡ []
no_parts [] e = refl
no_parts (tc ∷ parts) e = ground arith

ended :
    (lv n : ℕ) (s : PState) (chain : List FuncState)
    → s.fs ≡ chain
    → Has [] (sizes 0 lv 0 0 [] n) s
    → Ends lv (
        elim chain as (λ x. P (Unit {0})) [ [] ↦ failed | f ∷ prev ↦ put (record s { fs = prev }) ]
          s)
unfolding depth other_counts
ended lv n s [] e h = tt
ended lv n s (f ∷ prev) e h =
    let counts : block_counts s.fs ≡ length f.bl ∷ block_counts prev = ap block_counts e in
    let rest : block_counts prev ≡ [] = ap other_counts (sym counts ∙ h.chain) in
    record {
      stack = Above-zero [] s.stack h.above;
      functions = no_functions prev rest;
      parts = no_parts s.terracnt h.parts;
      lua = h.terra;
      levels = h.levels;
    }

close-Ends :
    (env : Lua) (lv n : ℕ) (s : PState)
    → Has [] (sizes 0 lv 0 1 [] n) s
    → Ends lv (close_func env s)
unfolding Scopes.close_func
close-Ends env lv n s h =
    Ends-bind lv (sizes 0 lv 0 0 [] n) (leaveblock env s) _
      ((leaveblock-From env.unimportlanguages [] 0 lv 0 0 [] n).at s h)
      λ a s' h'. ended lv n s' s'.fs refl h'

-- the state behind `open_mainfunc`
opened-Has :
    (un : ℕ → Entries → Entries) (memory : LexState) (source : List ℕ) (z : Zio)
    (firstchar : Charint) (trees : List Tree) (c_calls : ℕ)
    → Returns []
        (sizes 0 c_calls 0 1 [] 0)
        (open_mainfunc un (initial memory source z firstchar trees c_calls))
unfolding open_mainfunc Scopes.open_func enterblock with_fs initial setinput depth
opened-Has un memory source z firstchar trees c_calls = record {
  terra = refl;
  levels = refl;
  parts = refl;
  chain = refl;
  above = ([], refl, refl);
}

main-Ends :
    (env : Lua) (fuel : ℕ) (memory : LexState) (source : List ℕ) (z : Zio) (firstchar : Charint)
    (trees : List Tree) (c_calls : ℕ)
    → Ends c_calls (main_function env fuel (initial memory source z firstchar trees c_calls))
unfolding main_function
main-Ends env fuel memory source z firstchar trees c_calls =
    let self = rules env fuel in
    let inside = sizes 0 c_calls 0 1 [] in
    Ends-bind c_calls (inside 0)
      (open_mainfunc env.unimportlanguages (initial memory source z firstchar trees c_calls)) _
      (opened-Has env.unimportlanguages memory source z firstchar trees c_calls)
      λ _ s1 h1.
        Ends-bind c_calls (inside 0) (next env s1) _
          (((next_token-Keeps env.numbers).keeps [] (inside 0)).at s1 h1)
          λ _ s2 h2.
            Ends-bind c_calls (inside 1) (statlist env self s2) _
              (((statlist-Pushes env self (rules-Good env fuel)).pushes [] 0 c_calls 0 1 [] 0).at s2
                h2)
              λ _ s3 h3.
                Ends-bind c_calls (inside 1) (check tk_eos s3) _
                  (((check-Keeps tk_eos).keeps [] (inside 1)).at s3 h3)
                  λ _ s4 h4. close-Ends env c_calls 1 s4 h4

-- Where the main function of a program ends without an error, the assertions at the end of `luaY_parser`
-- hold: the stack of Lua is empty and no function is open. No Terra part is open either, the level count
-- is the one at the beginning, and `luaY_parser` returns the text and the trees.
pub parser-Ended :
    (env : Lua) (fuel : ℕ) (memory : LexState) (source : List ℕ) (z : Zio) (firstchar : Charint)
    (trees : List Tree) (c_calls : ℕ) (s : PState)
    → main_function env fuel (initial memory source z firstchar trees c_calls) ≡ ok tt s
    → Ended c_calls s
      × (parser env fuel memory source z firstchar trees c_calls
          ≡ parsed
              (rewind_zeros (OutputBuffer.contents (putc s.lex.output_buffer 0)))
              s.trees
              (poptstringtable s.lex.strings)
              c_calls)
unfolding parser main_body finish
parser-Ended env fuel memory source z firstchar trees c_calls s h =
    let done : Ended c_calls s =
      subst (Ends c_calls) h (main-Ends env fuel memory source z firstchar trees c_calls) in
    let stack = done.stack in
    let functions = done.functions in
    let levels = done.levels in (done, rw (h, functions, stack, levels) refl)
