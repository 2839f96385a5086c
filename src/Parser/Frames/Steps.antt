-- ===== src/Parser/Frames/Steps.antt =====
-- src/lparser.cpp: an action of the parser that changes the sizes, with what follows it.
use terra.Common.{ℕ, suc, List, ◌∷◌}
use Prim.Native.String.{String}
use terra.Parser.State.{Tree, Position, P, ◌>>=◌}
use terra.Parser.Frames.{Shape, sizes, From, Inside, depth}
use terra.Parser.Frames.Binds.{From-bind}
use terra.Parser.Stack.{push_string_before, add_entry, new_object, store_value}
use terra.Parser.Scopes.{
  enterblock, Entries, leaveblock, enterterra, leaveterra, open_func, close_func,
}
use terra.Parser.Checks.{enterlevel, leavelevel}
use terra.Parser.Frames.Trees.{new_object-From}
use terra.Parser.Frames.Entries.{add_entry-From, push_string_before-From}
use terra.Parser.Frames.Lists.{store_value-From}
use terra.Parser.Frames.Blocks.{enterblock-From, leaveblock-From, enterterra-From}
use terra.Parser.Frames.Parts.{
  leaveterra-From, open_func-From, close_func-From, enterlevel-From, leavelevel-From,
}

module _ {A : Type 0} (base : List Tree) (E : Shape) where
  pub object0-then :
      (it lv pt bk : ℕ) (fs : List ℕ) (n : ℕ) (kind : String) (p : Position) (f : Unit {0} → P A)
      → ((a : Unit {0}) → From base (sizes it lv pt bk fs (suc n)) E (f a))
      → From base (sizes it lv pt bk fs n) E ((new_object kind 0 p) >>= f)
  object0-then it lv pt bk fs n kind p f k =
      From-bind base _ (sizes it lv pt bk fs (suc n)) E (new_object kind 0 p) f
        (new_object-From base it lv pt bk fs 0 n kind p) k

  pub object1-then :
      (it lv pt bk : ℕ) (fs : List ℕ) (n : ℕ) (kind : String) (p : Position) (f : Unit {0} → P A)
      → ((a : Unit {0}) → From base (sizes it lv pt bk fs (suc n)) E (f a))
      → From base (sizes it lv pt bk fs (suc n)) E ((new_object kind 1 p) >>= f)
  object1-then it lv pt bk fs n kind p f k =
      From-bind base _ (sizes it lv pt bk fs (suc n)) E (new_object kind 1 p) f
        (new_object-From base it lv pt bk fs 1 n kind p) k

  pub object2-then :
      (it lv pt bk : ℕ) (fs : List ℕ) (n : ℕ) (kind : String) (p : Position) (f : Unit {0} → P A)
      → ((a : Unit {0}) → From base (sizes it lv pt bk fs (suc n)) E (f a))
      → From base (sizes it lv pt bk fs (suc (suc n))) E ((new_object kind 2 p) >>= f)
  object2-then it lv pt bk fs n kind p f k =
      From-bind base _ (sizes it lv pt bk fs (suc n)) E (new_object kind 2 p) f
        (new_object-From base it lv pt bk fs 2 n kind p) k

  pub object3-then :
      (it lv pt bk : ℕ) (fs : List ℕ) (n : ℕ) (kind : String) (p : Position) (f : Unit {0} → P A)
      → ((a : Unit {0}) → From base (sizes it lv pt bk fs (suc n)) E (f a))
      → From base (sizes it lv pt bk fs (suc (suc (suc n)))) E ((new_object kind 3 p) >>= f)
  object3-then it lv pt bk fs n kind p f k =
      From-bind base _ (sizes it lv pt bk fs (suc n)) E (new_object kind 3 p) f
        (new_object-From base it lv pt bk fs 3 n kind p) k

  pub object4-then :
      (it lv pt bk : ℕ) (fs : List ℕ) (n : ℕ) (kind : String) (p : Position) (f : Unit {0} → P A)
      → ((a : Unit {0}) → From base (sizes it lv pt bk fs (suc n)) E (f a))
      → From base (sizes it lv pt bk fs (suc (suc (suc (suc n))))) E ((new_object kind 4 p) >>= f)
  object4-then it lv pt bk fs n kind p f k =
      From-bind base _ (sizes it lv pt bk fs (suc n)) E (new_object kind 4 p) f
        (new_object-From base it lv pt bk fs 4 n kind p) k

  pub object5-then :
      (it lv pt bk : ℕ) (fs : List ℕ) (n : ℕ) (kind : String) (p : Position) (f : Unit {0} → P A)
      → ((a : Unit {0}) → From base (sizes it lv pt bk fs (suc n)) E (f a))
      → From base
          (sizes it lv pt bk fs (suc (suc (suc (suc (suc n))))))
          E
          ((new_object kind 5 p) >>= f)
  object5-then it lv pt bk fs n kind p f k =
      From-bind base _ (sizes it lv pt bk fs (suc n)) E (new_object kind 5 p) f
        (new_object-From base it lv pt bk fs 5 n kind p) k

  pub entry-then :
      (it lv pt bk : ℕ) (fs : List ℕ) (n : ℕ) (tbl : ℕ) (f : Unit {0} → P A)
      → Inside base it tbl
      → ((a : Unit {0}) → From base (sizes it lv pt bk fs (suc n)) E (f a))
      → From base (sizes it lv pt bk fs (suc (suc n))) E ((add_entry tbl) >>= f)
  entry-then it lv pt bk fs n tbl f i k =
      From-bind base _ (sizes it lv pt bk fs (suc n)) E (add_entry tbl) f
        (add_entry-From base it lv pt bk fs n tbl i) k

  pub string_before-then :
      (it lv pt bk : ℕ) (fs : List ℕ) (n : ℕ) (str : List ℕ) (f : Unit {0} → P A)
      → ((a : Unit {0}) → From base (sizes it lv pt bk fs (suc (suc n))) E (f a))
      → From base (sizes it lv pt bk fs (suc n)) E ((push_string_before str) >>= f)
  string_before-then it lv pt bk fs n str f k =
      From-bind base _ (sizes it lv pt bk fs (suc (suc n))) E (push_string_before str) f
        (push_string_before-From base it lv pt bk fs n str) k

  pub store-then :
      (it lv pt bk : ℕ) (fs : List ℕ) (n : ℕ) (f : ℕ → P A)
      → ((a : ℕ) → From base (sizes it lv pt bk fs n) E (f a))
      → From base (sizes it lv pt bk fs (suc n)) E (store_value >>= f)
  store-then it lv pt bk fs n f k =
      From-bind base _ (sizes it lv pt bk fs n) E store_value f
        (store_value-From base it lv pt bk fs n) k

  pub enterblock-then :
      (it lv pt bk : ℕ) (fs : List ℕ) (n : ℕ) (starttoken : ℕ) (f : Unit {0} → P A)
      → ((a : Unit {0}) → From base (sizes it lv pt (suc bk) fs n) E (f a))
      → From base (sizes it lv pt bk fs n) E ((enterblock starttoken) >>= f)
  enterblock-then it lv pt bk fs n starttoken f k =
      From-bind base _ (sizes it lv pt (suc bk) fs n) E (enterblock starttoken) f
        (enterblock-From base it lv pt bk fs n starttoken) k

  pub enterlevel-then :
      (it lv pt bk : ℕ) (fs : List ℕ) (n : ℕ) (f : Unit {0} → P A)
      → ((a : Unit {0}) → From base (sizes it (suc lv) pt bk fs n) E (f a))
      → From base (sizes it lv pt bk fs n) E (enterlevel >>= f)
  enterlevel-then it lv pt bk fs n f k =
      From-bind base _ (sizes it (suc lv) pt bk fs n) E enterlevel f
        (enterlevel-From base it lv pt bk fs n) k

  pub leavelevel-then :
      (it lv pt bk : ℕ) (fs : List ℕ) (n : ℕ) (f : Unit {0} → P A)
      → ((a : Unit {0}) → From base (sizes it lv pt bk fs n) E (f a))
      → From base (sizes it (suc lv) pt bk fs n) E (leavelevel >>= f)
  leavelevel-then it lv pt bk fs n f k =
      From-bind base _ (sizes it lv pt bk fs n) E leavelevel f
        (leavelevel-From base it lv pt bk fs n) k

module _ {A : Type 0} (un : ℕ → Entries → Entries) (base : List Tree) (E : Shape) where
  pub leaveblock-then :
      (it lv pt bk : ℕ) (fs : List ℕ) (n : ℕ) (f : Unit {0} → P A)
      → ((a : Unit {0}) → From base (sizes it lv pt bk fs n) E (f a))
      → From base (sizes it lv pt (suc bk) fs n) E ((leaveblock un) >>= f)
  leaveblock-then it lv pt bk fs n f k =
      From-bind base _ (sizes it lv pt bk fs n) E (leaveblock un) f
        (leaveblock-From un base it lv pt bk fs n) k

  pub enterterra-then :
      (it lv pt bk : ℕ) (fs : List ℕ) (n : ℕ) (f : Unit {0} → P A)
      → ((a : Unit {0}) → From base (sizes (suc it) lv (suc pt) (suc bk) fs (depth it n)) E (f a))
      → From base (sizes it lv pt bk fs n) E ((enterterra un) >>= f)
  enterterra-then it lv pt bk fs n f k =
      From-bind base _ (sizes (suc it) lv (suc pt) (suc bk) fs (depth it n)) E (enterterra un) f
        (enterterra-From un base it lv pt bk fs n) k

  pub leaveterra-then :
      (it lv pt bk : ℕ) (fs : List ℕ) (n : ℕ) (f : List (List ℕ) → P A)
      → ((a : List (List ℕ)) → From base (sizes it lv pt bk fs n) E (f a))
      → From base (sizes (suc it) lv (suc pt) (suc bk) fs (depth it n)) E ((leaveterra un) >>= f)
  leaveterra-then it lv pt bk fs n f k =
      From-bind base _ (sizes it lv pt bk fs n) E (leaveterra un) f
        (leaveterra-From un base it lv pt bk fs n) k

  pub open_func-then :
      (it lv pt bk : ℕ) (fs : List ℕ) (n : ℕ) (f : Unit {0} → P A)
      → ((a : Unit {0}) → From base (sizes it lv pt (suc bk) (bk ∷ fs) n) E (f a))
      → From base (sizes it lv pt bk fs n) E ((open_func un) >>= f)
  open_func-then it lv pt bk fs n f k =
      From-bind base _ (sizes it lv pt (suc bk) (bk ∷ fs) n) E (open_func un) f
        (open_func-From un base it lv pt bk fs n) k

  pub close_func-then :
      (it lv pt bk : ℕ) (fs : List ℕ) (n : ℕ) (bk' : ℕ) (f : Unit {0} → P A)
      → ((a : Unit {0}) → From base (sizes it lv pt bk fs n) E (f a))
      → From base (sizes it lv pt (suc bk') (bk ∷ fs) n) E ((close_func un) >>= f)
  close_func-then it lv pt bk fs n bk' f k =
      From-bind base _ (sizes it lv pt bk fs n) E (close_func un) f
        (close_func-From un base it lv pt bk bk' fs n) k

module _ (base : List Tree) (it lv pt bk : ℕ) (fs : List ℕ) (n : ℕ) where
  pub object0-end :
      (kind : String) (p : Position)
      → From base (sizes it lv pt bk fs n) (sizes it lv pt bk fs (suc n)) (new_object kind 0 p)
  object0-end kind p = new_object-From base it lv pt bk fs 0 n kind p

  pub object1-end :
      (kind : String) (p : Position)
      → From base
          (sizes it lv pt bk fs (suc n))
          (sizes it lv pt bk fs (suc n))
          (new_object kind 1 p)
  object1-end kind p = new_object-From base it lv pt bk fs 1 n kind p

  pub object2-end :
      (kind : String) (p : Position)
      → From base
          (sizes it lv pt bk fs (suc (suc n)))
          (sizes it lv pt bk fs (suc n))
          (new_object kind 2 p)
  object2-end kind p = new_object-From base it lv pt bk fs 2 n kind p

  pub object3-end :
      (kind : String) (p : Position)
      → From base
          (sizes it lv pt bk fs (suc (suc (suc n))))
          (sizes it lv pt bk fs (suc n))
          (new_object kind 3 p)
  object3-end kind p = new_object-From base it lv pt bk fs 3 n kind p

  pub object4-end :
      (kind : String) (p : Position)
      → From base
          (sizes it lv pt bk fs (suc (suc (suc (suc n)))))
          (sizes it lv pt bk fs (suc n))
          (new_object kind 4 p)
  object4-end kind p = new_object-From base it lv pt bk fs 4 n kind p

  pub object5-end :
      (kind : String) (p : Position)
      → From base
          (sizes it lv pt bk fs (suc (suc (suc (suc (suc n))))))
          (sizes it lv pt bk fs (suc n))
          (new_object kind 5 p)
  object5-end kind p = new_object-From base it lv pt bk fs 5 n kind p
