-- ===== src/Parser/Scopes/Lookup.antt =====
-- src/lparser.cpp: which Terra part captures a name that it refers to.
use terra.Common.{
  ℕ, zero, suc, ◌+◌, ◌≤◌, ◌≡◌, refl, ap, sym, ◌∙◌, append-nil, ==→eq, Bool, true, false, some, List,
  [], ◌∷◌, ◌++◌, arith, ltb, ◌==◌, if◌then◌else◌, length, inl, inr, Bool-cases,
}
use terra.Parser.State.{BlockCnt, FuncState, PState, ok, count}
use terra.Parser.Scopes.{
  leaves_terra, elsewhere, at_definition, search_blocks, capture_at, captured, chain, refvariable,
}

-- the number of Terra parts that begin in `inner`, which lies within `outer`
abbrev pub parts_left : List BlockCnt → List BlockCnt → ℕ
parts_left [] outer = 0
parts_left (b ∷ inner) outer =
    let rest = parts_left inner outer in if leaves_terra b (inner ++ outer) then suc rest else rest

-- no block of the chain defines the name
abbrev pub Undefined : List ℕ → List BlockCnt → Type 0
Undefined name [] = Unit {0}
Undefined name (b ∷ inner) = (count b.defined name ≡ false) × Undefined name inner

-- The search finds the innermost block that defines the name, and counts the Terra parts between.
pub search_blocks-found :
    (name : List ℕ) (parts cur : ℕ) (inner : List BlockCnt) (b : BlockCnt) (outer : List BlockCnt)
    → Undefined name inner
    → count b.defined name ≡ true
    → cur + parts_left inner (b ∷ outer) ≤ parts
    → search_blocks name parts cur (inner ++ b ∷ outer)
      ≡ at_definition (cur + parts_left inner (b ∷ outer)) b.isterra
unfolding search_blocks
search_blocks-found name parts cur [] b outer u d h =
    let e : cur + 0 ≡ cur = omega arith in rw (d, e) refl
search_blocks-found name parts cur (x ∷ inner) b outer u d h =
    elim (Bool-cases (leaves_terra x (inner ++ b ∷ outer))) [
      | inl l ↦
          let e : cur + suc (parts_left inner (b ∷ outer))
              ≡ cur + 1 + parts_left inner (b ∷ outer) =
            omega arith in
          let room : ltb cur parts ≡ true = ground arith in
          let ih = search_blocks-found name parts (cur + 1) inner b outer u.1 d (ground arith) in
          rw (u.0, l, room, e) ih
      | inr l ↦
          let ih = search_blocks-found name parts cur inner b outer u.1 d (ground arith) in
          rw (u.0, l) ih
    ]

pub search_blocks-missing :
    (name : List ℕ) (parts cur : ℕ) (blocks : List BlockCnt)
    → Undefined name blocks
    → cur + parts_left blocks [] ≤ parts
    → search_blocks name parts cur blocks ≡ elsewhere
unfolding search_blocks
search_blocks-missing name parts cur [] u h = refl
search_blocks-missing name parts cur (x ∷ blocks) u h =
    let e : blocks ++ [] ≡ blocks = append-nil blocks in
    elim (Bool-cases (leaves_terra x blocks)) [
      | inl l ↦
          let l' : leaves_terra x (blocks ++ []) ≡ true = ap (leaves_terra x) e ∙ l in
          let room : ltb cur parts ≡ true = ground arith in
          rw (u.0, l, room) (search_blocks-missing name parts (cur + 1) blocks u.1 (ground arith))
      | inr l ↦
          let l' : leaves_terra x (blocks ++ []) ≡ false = ap (leaves_terra x) e ∙ l in
          rw (u.0, l) (search_blocks-missing name parts cur blocks u.1 (ground arith))
    ]

-- what a name captures that is defined in a block outside of `left` Terra parts
abbrev pub captures : ℕ → Bool → List ℕ → List (List (List ℕ)) → List (List (List ℕ))
captures zero isterra name parts = parts
captures (suc left) true name parts = parts
captures (suc left) false name parts = capture_at left name parts

captured-at_definition :
    (left : ℕ) (isterra : Bool) (name : List ℕ) (s : PState)
    → captured name (at_definition left isterra) s
      ≡ ok tt (record s { terracnt = captures left isterra name s.terracnt })
unfolding captured
captured-at_definition zero isterra name s = refl
captured-at_definition (suc left) true name s = refl
captured-at_definition (suc left) false name s = refl

captures-none :
    (left : ℕ) (isterra : Bool) (name : List ℕ) (parts : List (List (List ℕ)))
    → left ≤ 0
    → captures left isterra name parts ≡ parts
captures-none zero isterra name parts h = refl
captures-none (suc left) isterra name parts h = elim h [ ]

-- The innermost block that defines a name decides. When it is a block of Lua and the reference stands
-- within Terra parts that begin in it, the outermost of these captures the name; otherwise no Terra
-- part does. Nothing else changes. There are at least as many Terra parts as the search leaves.
pub refvariable-captures :
    (name : List ℕ) (s : PState) (fs : FuncState) (prev : List FuncState) (inner : List BlockCnt)
    (b : BlockCnt) (outer : List BlockCnt)
    → s.fs ≡ fs ∷ prev
    → fs.bl ≡ inner ++ b ∷ outer
    → Undefined name inner
    → count b.defined name ≡ true
    → parts_left inner (b ∷ outer) ≤ length s.terracnt
    → refvariable name s
      ≡ ok tt (record s {
        terracnt = captures (parts_left inner (b ∷ outer)) b.isterra name s.terracnt;
      })
unfolding refvariable
refvariable-captures name s fs prev inner b outer e e' u d h =
    let left = parts_left inner (b ∷ outer) in
    let found = search_blocks-found name (length s.terracnt) 0 inner b outer u d (omega arith) in
    let zero_left : 0 + left ≡ left = omega arith in
    let blocks : chain s.fs ≡ some (inner ++ b ∷ outer) = ap chain e ∙ ap some e' in
    elim (Bool-cases (length s.terracnt == 0)) [
      | inl none_there ↦
          let empty = ==→eq _ _ none_there in
          rw none_there (
            ap (λ parts. ok tt (record s { terracnt = parts }))
              (sym (captures-none left b.isterra name s.terracnt (omega arith))))
      | inr there ↦
          rw (there, blocks, found, zero_left) (captured-at_definition left b.isterra name s)
    ]

-- A name that no block defines is captured by no Terra part, where there are at least as many of them
-- as the blocks begin.
pub refvariable-missing :
    (name : List ℕ) (s : PState) (fs : FuncState) (prev : List FuncState)
    → s.fs ≡ fs ∷ prev
    → Undefined name fs.bl
    → parts_left fs.bl [] ≤ length s.terracnt
    → refvariable name s ≡ ok tt s
unfolding refvariable captured
refvariable-missing name s fs prev e u h =
    let found = search_blocks-missing name (length s.terracnt) 0 fs.bl u (omega arith) in
    let blocks : chain s.fs ≡ some fs.bl = ap chain e in
    elim (Bool-cases (length s.terracnt == 0)) [
      | inl none_there ↦ rw none_there refl
      | inr there ↦ rw (there, blocks, found) refl
    ]
