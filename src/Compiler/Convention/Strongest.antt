-- ===== src/Compiler/Convention/Strongest.antt =====
-- src/tcompiler.cpp: the classes that `MergeValue` finds, from the scalars of a type.
use terra.Common.{
  ℕ, zero, suc, ◌+◌, ◌*◌, ◌/◌, ◌≤◌, ◌≡◌, refl, sym, ap, ◌∙◌, Option, none, some, List, [], ◌∷◌,
  ◌++◌, ltb, ◌==◌, if◌then◌else◌, arith, Bool-cases, inl, inr,
}
use terra.Compiler.Types.{
  LlvmType, LlvmTypes, void, float, double, pointer, integer, vector, array, struct, Obj, Entries,
  scalar, structure, array_of, no_entries, entry, type_of, Target, ◌>>=◌,
}
use terra.Compiler.Convention.{
  RegisterClass, c_no_class, c_sse_float, c_sse_double, c_integer, c_memory, rank, meet, Classes,
  set_class, merge_scalar, merge_elements, merge_value, merge_entries,
}
use terra.Compiler.Convention.Inside.{IsDefined, IsLaid, merge_value-IsDefined}
use terra.Compiler.Classify.Formed.{Every}

-- The rank of the class that a scalar needs.
abbrev need : LlvmType → ℕ
need float = 1
need double = 2
need (integer bits) = 3
need pointer = 3
need (vector n elem) = 4
need _ = 0

abbrev larger : ℕ → ℕ → ℕ
larger a b = if ltb a b then b else a

abbrev elements_scalars : (ℕ → List (ℕ × LlvmType)) → ℕ → ℕ → ℕ → ℕ → List (ℕ × LlvmType)
elements_scalars f offset size i zero = []
elements_scalars f offset size i (suc left) =
    f (offset + i * size) ++ elements_scalars f offset size (i + 1) left

-- the scalars of a type with their offsets
abbrev mutual
  pub scalars : Target → ℕ → Obj → List (ℕ × LlvmType)
  scalars target offset (scalar t sign logical) = (offset, t) ∷ []
  scalars target offset (structure elements parts) = entries_scalars target offset elements parts
  scalars target offset (array_of n elem) =
      elements_scalars (λ o. scalars target o elem) offset (target.alloc_size (type_of elem)) 0 n

  entries_scalars : Target → ℕ → LlvmTypes → Entries → List (ℕ × LlvmType)
  entries_scalars target offset elements no_entries = []
  entries_scalars target offset elements (entry allocation t rest) =
      scalars target (offset + target.element_offset elements allocation) t
      ++ entries_scalars target offset elements rest

-- `k`, where the part lies in the eightbyte `j`
abbrev share : ℕ → ℕ → ℕ → ℕ
share i j k = if i == j then k else 0

-- the largest need of the scalars in the eightbyte `j`
abbrev pub strongest : ℕ → List (ℕ × LlvmType) → ℕ
strongest j [] = 0
strongest j ((o, t) ∷ rest) = larger (share (o / 8) j (need t)) (strongest j rest)

-- The classes are raised to the needs of the scalars.
abbrev Raised : Classes → List (ℕ × LlvmType) → Classes → Type 0
Raised classes parts classes' =
    (rank classes'.0 ≡ larger (rank classes.0) (strongest 0 parts))
    × (rank classes'.1 ≡ larger (rank classes.1) (strongest 1 parts))

larger_assoc : (a b c : ℕ) → larger a (larger b c) ≡ larger (larger a b) c
larger_assoc a b c = ground arith

strongest-append :
    (j : ℕ) (xs ys : List (ℕ × LlvmType))
    → strongest j (xs ++ ys) ≡ larger (strongest j xs) (strongest j ys)
strongest-append j [] ys = ground arith
strongest-append j ((o, t) ∷ xs) ys =
    ap (λ n. larger (share (o / 8) j (need t)) n) (strongest-append j xs ys)
    ∙ larger_assoc (share (o / 8) j (need t)) (strongest j xs) (strongest j ys)

raised_again :
    (j r r' r'' : ℕ) (xs ys : List (ℕ × LlvmType))
    → r' ≡ larger r (strongest j xs)
    → r'' ≡ larger r' (strongest j ys)
    → r'' ≡ larger r (strongest j (xs ++ ys))
raised_again j r r' r'' xs ys h k =
    k
    ∙ ap (λ n. larger n (strongest j ys)) h
    ∙ sym (larger_assoc r (strongest j xs) (strongest j ys))
    ∙ ap (λ n. larger r n) (sym (strongest-append j xs ys))

then-Raised :
    (classes c : Classes) (xs ys : List (ℕ × LlvmType)) (o : Option Classes)
    → Raised classes xs c
    → Every (Raised c ys) o
    → Every (Raised classes (xs ++ ys)) o
then-Raised classes c xs ys none h k = tt
then-Raised classes c xs ys (some c') h k = (
  raised_again 0 (rank classes.0) (rank c.0) (rank c'.0) xs ys h.0 k.0,
  raised_again 1 (rank classes.1) (rank c.1) (rank c'.1) xs ys h.1 k.1,
)

bind-Raised :
    (o : Option Classes) (f : Classes → Option Classes) (classes : Classes)
    (xs ys : List (ℕ × LlvmType))
    → Every (Raised classes xs) o
    → ((c : Classes) → Every (Raised c ys) (f c))
    → Every (Raised classes (xs ++ ys)) (o >>= f)
bind-Raised none f classes xs ys h k = tt
bind-Raised (some c) f classes xs ys h k = then-Raised classes c xs ys (f c) h (k c)

rank-meet : (a b : RegisterClass) → rank (meet a b) ≡ larger (rank a) (rank b)
unfolding meet
rank-meet a b = elim (Bool-cases (ltb (rank b) (rank a))) [
  | inl e ↦ rw e (ground (arith, e))
  | inr e ↦ rw e (ground (arith, e))
]

rank_limit : (a : RegisterClass) → 4 ≡ larger (rank a) 4
rank_limit c_no_class = refl
rank_limit c_sse_float = refl
rank_limit c_sse_double = refl
rank_limit c_integer = refl
rank_limit c_memory = refl

-- the classes with one that is raised
abbrev RaisedAt : ℕ → ℕ → Classes → Classes → Type 0
RaisedAt i k classes classes' =
    (rank classes'.0 ≡ larger (rank classes.0) (larger (share i 0 k) 0))
    × (rank classes'.1 ≡ larger (rank classes.1) (larger (share i 1 k) 0))

set_class-Raised :
    (i : ℕ) (f : RegisterClass → RegisterClass) (k : ℕ) (classes : Classes)
    → ((c : RegisterClass) → rank (f c) ≡ larger (rank c) k)
    → Every (RaisedAt i k classes) (set_class i f classes)
unfolding set_class
set_class-Raised zero f k (a, b) h = let e = h a in (ground (arith, e), ground arith)
set_class-Raised (suc zero) f k (a, b) h = let e = h b in (ground arith, ground (arith, e))
set_class-Raised (suc (suc i)) f k (a, b) h = tt

scalar-Raised :
    (t : LlvmType) (i : ℕ) (classes : Classes)
    → Every (RaisedAt i (need t) classes) (merge_scalar t i classes)
unfolding merge_scalar
scalar-Raised (vector n elem) i classes = set_class-Raised i _ 4 classes rank_limit
scalar-Raised float i classes = set_class-Raised i _ 1 classes λ c. rank-meet c c_sse_float
scalar-Raised double i classes = set_class-Raised i _ 2 classes λ c. rank-meet c c_sse_double
scalar-Raised (integer bits) i classes = set_class-Raised i _ 3 classes λ c. rank-meet c c_integer
scalar-Raised pointer i classes = set_class-Raised i _ 3 classes λ c. rank-meet c c_integer
scalar-Raised void i classes = tt
scalar-Raised (array n elem) i classes = tt
scalar-Raised (struct elements) i classes = tt

nothing-Raised : (classes : Classes) → Raised classes [] classes
nothing-Raised (a, b) = (ground arith, ground arith)

elements-Raised :
    (merge : ℕ → Classes → Option Classes) (f : ℕ → List (ℕ × LlvmType)) (offset size i left : ℕ)
    (classes : Classes)
    → ((o : ℕ) (c : Classes) → Every (Raised c (f o)) (merge o c))
    → Every
        (Raised classes (elements_scalars f offset size i left))
        (merge_elements merge offset size i left classes)
unfolding merge_elements
elements-Raised merge f offset size i zero classes each = nothing-Raised classes
elements-Raised merge f offset size i (suc left) classes each =
    bind-Raised (merge (offset + i * size) classes) _ classes (f (offset + i * size)) _
      (each (offset + i * size) classes)
      λ c. elements-Raised merge f offset size (i + 1) left c each

mutual
  unfolding merge_value

  value-Raised :
      (target : Target) (offset : ℕ) (t : Obj) (classes : Classes)
      → Every (Raised classes (scalars target offset t)) (merge_value target offset t classes)
  value-Raised target offset (scalar t sign logical) classes = scalar-Raised t (offset / 8) classes
  value-Raised target offset (structure elements parts) classes =
      entries-Raised target offset elements parts classes
  value-Raised target offset (array_of n elem) classes =
      elements-Raised _ (λ o. scalars target o elem) offset (target.alloc_size (type_of elem)) 0 n
        classes λ o c. value-Raised target o elem c

  entries-Raised :
      (target : Target) (offset : ℕ) (elements : LlvmTypes) (parts : Entries) (classes : Classes)
      → Every
          (Raised classes (entries_scalars target offset elements parts))
          (merge_entries target offset elements parts classes)
  entries-Raised target offset elements no_entries classes = nothing-Raised classes
  entries-Raised target offset elements (entry allocation t rest) classes =
      bind-Raised
        (merge_value target (offset + target.element_offset elements allocation) t classes) _
        classes (scalars target (offset + target.element_offset elements allocation) t) _
        (value-Raised target (offset + target.element_offset elements allocation) t classes)
        λ c. entries-Raised target offset elements rest c

-- the two classes that are found, with their ranks
abbrev pub Found : Option Classes → ℕ → ℕ → Type 0
Found o first second =
    (classes : Classes) × (o ≡ some classes) × (rank classes.0 ≡ first) × (rank classes.1 ≡ second)

from_none : (k : ℕ) → larger 0 k ≡ k
from_none k = ground arith

defined-Raised :
    (parts : List (ℕ × LlvmType)) (o : Option Classes)
    → IsDefined o
    → Every (Raised (c_no_class, c_no_class) parts) o
    → Found o (strongest 0 parts) (strongest 1 parts)
defined-Raised parts none h k = elim h [ ]
defined-Raised parts (some c) h k =
    (c, refl, k.0 ∙ from_none (strongest 0 parts), k.1 ∙ from_none (strongest 1 parts))

-- For an aggregate of 16 bytes at most whose parts lie in it, `MergeValue` finds for each of the two
-- eightbytes the strongest of the classes that the scalars in it need, in the order of `RegisterClass`.
pub merge_value-strongest :
    (target : Target) (t : Obj)
    → IsLaid target t
    → target.alloc_size (type_of t) ≤ 16
    → Found
        (merge_value target 0 t (c_no_class, c_no_class))
        (strongest 0 (scalars target 0 t))
        (strongest 1 (scalars target 0 t))
merge_value-strongest target t laid h =
    defined-Raised (scalars target 0 t) _
      (merge_value-IsDefined target t (c_no_class, c_no_class) laid h)
      (value-Raised target 0 t (c_no_class, c_no_class))
