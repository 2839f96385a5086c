-- ===== src/Parser/Scopes.antt =====
-- src/lparser.cpp: the blocks, the functions and the Terra parts that a name is looked up in.
pub mod Brackets
pub mod Lookup
use terra.Common.{
  ℕ, zero, suc, ◌+◌, ◌-◌, Bool, true, false, Option, none, some, List, [], ◌∷◌, ltb, ◌==◌, length,
  not, if◌then◌else◌, ◌&&◌,
}
use terra.Parser.State.{
  BlockCnt, FuncState, Result, ok, fault, P, ◌>>=◌, ◌>>◌, pure, get, put, failed, when, assert,
  is_terra, count, insert, modify_lex,
}

-- a change of `ls->fs`
unfoldable pub with_fs : (FuncState → Option FuncState) → P (Unit {0})
with_fs f s = elim s.fs [
  | [] ↦ fault
  | fs ∷ prev ↦ elim (f fs) [ none ↦ fault | some fs' ↦ ok tt (record s { fs = fs' ∷ prev }) ]
]

-- a change of `ls->fs->bl`
unfoldable pub with_block : (BlockCnt → BlockCnt) → P (Unit {0})
unfolding with_fs
with_block f =
    with_fs λ fs. elim fs.bl [ [] ↦ none | b ∷ previous ↦ some (record fs { bl = f b ∷ previous }) ]

unfoldable pub definevariable : List ℕ → P (Unit {0})
unfolding with_block insert
definevariable name = with_block λ b. record b { defined = insert b.defined name }

-- whether the search goes on outside of a Terra part
abbrev pub leaves_terra : BlockCnt → List BlockCnt → Bool
leaves_terra b [] = false
leaves_terra b (p ∷ previous) = b.isterra && not p.isterra

-- Where the search ends: at no Terra part, at the one of an index, or at a failed assertion. `cur`
-- is the number of Terra parts that the search has left, and `parts` the number of them all.
pub data Search : Type 0 where
  elsewhere : Search
  captured_by : ℕ → Search
  no_part : Search

abbrev pub at_definition : ℕ → Bool → Search
at_definition zero isterra = elsewhere
at_definition (suc cur) true = elsewhere
at_definition (suc cur) false = captured_by cur

unfoldable pub search_blocks : List ℕ → ℕ → ℕ → List BlockCnt → Search
unfolding count
search_blocks name parts cur [] = elsewhere
search_blocks name parts cur (b ∷ previous) =
    let further = search_blocks name parts (cur + 1) previous in
    let same = search_blocks name parts cur previous in
    if count b.defined name
    then at_definition cur b.isterra
    else if leaves_terra b previous
    then (if ltb cur parts then further else no_part)
    else same

unfoldable pub capture_at : ℕ → List ℕ → List (List (List ℕ)) → List (List (List ℕ))
unfolding insert
capture_at i name [] = []
capture_at zero name (captured ∷ outer) = insert captured name ∷ outer
capture_at (suc i) name (captured ∷ outer) = captured ∷ capture_at i name outer

-- the chain of blocks that begins at `ls->fs->bl`
abbrev pub chain : List FuncState → Option (List BlockCnt)
chain [] = none
chain (fs ∷ prev) = some fs.bl

unfoldable pub captured : List ℕ → Search → P (Unit {0})
unfolding capture_at
captured name elsewhere s = ok tt s
captured name (captured_by i) s = ok tt (record s { terracnt = capture_at i name s.terracnt })
captured name no_part s = fault

unfoldable pub refvariable : List ℕ → P (Unit {0})
unfolding captured search_blocks
refvariable name s =
    let found : Result (Unit {0}) = elim (chain s.fs) [
      | none ↦ fault
      | some blocks ↦ captured name (search_blocks name (length s.terracnt) 0 blocks) s
    ] in
    if length s.terracnt == 0 then ok tt s else found

unfoldable pub enterblock : ℕ → P (Unit {0})
unfolding with_fs
enterblock starttoken = do
  s ← get
  with_fs λ fs. some (record fs {
    bl =
        record {
          defined = [];
          isterra = is_terra s;
          languageextensionsdefined = 0;
          starttoken = starttoken;
        }
        ∷ fs.bl;
  })

abbrev pub Entries : Type 0
Entries = List (List ℕ)

-- the Lua functions that change the entry points; `unimportlanguages` is told how many languages
module _ (unimportlanguages : ℕ → Entries → Entries) where
  abbrev pub unimport : ℕ → P (Unit {0})
  unimport n = modify_lex λ l. record l {
    entry_points = unimportlanguages n l.entry_points;
    languageextensionsenabled = l.languageextensionsenabled - n;
  }

  unfoldable pub leaveblock : P (Unit {0})
  leaveblock s = elim s.fs [
    | [] ↦ fault
    | fs ∷ prev ↦ elim fs.bl [
      | [] ↦ fault
      | b ∷ previous ↦
          let n = b.languageextensionsdefined in
          when (ltb 0 n) (unimport n) (record s { fs = record fs { bl = previous } ∷ prev })
    ]
  ]

  unfoldable pub enterterra : P (Unit {0})
  unfolding enterblock
  enterterra = do
    s ← get
    put (record s {
      terracnt = [] ∷ s.terracnt;
      lex = record (s.lex) { in_terra = s.lex.in_terra + 1 };
    })
    enterblock 0

  -- the `TerraCnt` that is left is returned to the function in which it stands
  unfoldable pub leaveterra : P (List (List ℕ))
  unfolding leaveblock
  leaveterra = do
    s ← get
    assert (is_terra s)
    assert (not (length s.terracnt == 0))
    leaveblock
    s' ← get
    elim s'.terracnt [
      | [] ↦ failed
      | tc ∷ previous ↦
          put (record s' {
            terracnt = previous;
            lex = record (s'.lex) { in_terra = s'.lex.in_terra - 1 };
          })
          >> pure tc
    ]

  unfoldable pub open_func : P (Unit {0})
  unfolding enterblock
  open_func = do
    s ← get
    let outer : List BlockCnt = elim s.fs [ [] ↦ [] | fs ∷ prev ↦ fs.bl ]
    put (record s {
      fs = record { linedefined = 0; lastlinedefined = 0; is_vararg = 0; bl = outer } ∷ s.fs;
    })
    enterblock 0

  unfoldable pub close_func : P (Unit {0})
  unfolding leaveblock
  close_func = do
    leaveblock
    s ← get
    elim s.fs [ [] ↦ failed | fs ∷ prev ↦ put (record s { fs = prev }) ]

  unfoldable pub open_mainfunc : P (Unit {0})
  unfolding open_func with_fs
  open_mainfunc = do open_func; with_fs λ fs. some (record fs { is_vararg = 1 })
