-- ===== src/Parser/Output/Captured.antt =====
-- src/lparser.cpp: what `print_captured_locals` prints, and the table of the names that it stores.
use terra.Common.{
  ℕ, suc, ◌+◌, ◌-◌, ◌≡◌, refl, ap, sym, ◌∙◌, true, Option, some, List, [], ◌∷◌, ◌++◌, arith, ltb,
  length, append_assoc, append-nil,
}
use terra.Token.{codes}
use terra.OutputBuffer
use terra.OutputBuffer.{OutputBuffer, contents}
use terra.Lexer.Numeral.{c_str}
use terra.Parser.State.{Tree, table, with_field, boolean, PState, ok, is_terra}
use terra.Parser.Stack.{consume, update_below, set_field, with_stack, add_field, snoc}
use terra.Parser.Output.{print_locals, print_captured_locals, tree_text}
use terra.Parser.Output.Names.{print-Prints, with_buffer}

-- the table with the names as its keys
abbrev pub fields : Tree → List (List ℕ) → Tree
fields t [] = t
fields t (str ∷ rest) = fields (with_field t (c_str str) (boolean true)) rest

-- the text that sets the fields of the environment
abbrev pub fields_text : List (List ℕ) → List ℕ
fields_text [] = []
fields_text (str ∷ rest) =
    (c_str str ++ (codes " = " ++ (c_str str ++ codes ";"))) ++ fields_text rest

-- a value whose fields can be set
abbrev TakesFields : Tree → Type 0
TakesFields t = (field : List ℕ) (v : Tree) → set_field field v t ≡ some (with_field t field v)

consume-top :
    (f : Tree → Tree → Option Tree) (v t w : Tree) (below : List Tree)
    → f v t ≡ some w
    → consume (length below + 1) f (v ∷ t ∷ below) ≡ some (w ∷ below)
unfolding consume update_below
consume-top f v t w below e =
    let i : length below + 1 ≡ suc (length below) = omega arith in
    let inside : ltb (length below) (suc (length below)) ≡ true = ground arith in
    let depth : suc (length below) - (length below + 1) ≡ 0 = omega arith in
    rw (i, inside, depth) (rw (e, update_below) refl)

print_locals-text :
    (names : List (List ℕ)) (s : PState) (t : Tree) (below : List Tree)
    → TakesFields t
    → is_terra s ≡ true
    → OutputBuffer.IsValid s.lex.output_buffer
    → (ob : OutputBuffer) × (print_locals (length below + 1) names (record s { stack = t ∷ below })
        ≡ ok tt (with_buffer (record s { stack = fields t names ∷ below }) ob))
      × OutputBuffer.IsValid ob
      × (contents ob ≡ contents s.lex.output_buffer ++ fields_text names)
unfolding print_locals add_field with_stack
print_locals-text [] s t below h terra v = (s.lex.output_buffer, refl, v, sym (append-nil _))
print_locals-text (str ∷ rest) s t below h terra v =
    let text : List ℕ = c_str str ++ (codes " = " ++ (c_str str ++ codes ";")) in
    let t' : Tree = with_field t (c_str str) (boolean true) in
    let set =
      consume-top (set_field (c_str str)) (boolean true) t t' below
        (h (c_str str) (boolean true)) in
    let (ob, e, v', c) = print-Prints text (record s { stack = t' ∷ below }) v in
    let (ob', e', v'', c') =
      print_locals-text rest (with_buffer s ob) t' below (λ field value. refl) terra v' in
    (
      ob',
      rw (terra, set, e) e',
      v'',
      c' ∙ ap (λ r. r ++ fields_text rest) c ∙ append_assoc _ text (fields_text rest),
    )

appended : (xs ys zs ws : List ℕ) → ((xs ++ ys) ++ zs) ++ ws ≡ xs ++ (ys ++ (zs ++ ws))
appended xs ys zs ws = append_assoc (xs ++ ys) zs ws ∙ append_assoc xs ys (zs ++ ws)

abbrev head_text : List ℕ
head_text = codes "function() return terra.makeenv({ "

abbrev tail_text : ℕ → List ℕ
tail_text id = codes " }," ++ (tree_text (some id) ++ codes ",getfenv()) end")

-- The function that makes the environment of a Terra part is printed to a valid buffer, with a field
-- for each captured local; the table of their names becomes the next tree, and the rest of the state
-- is as before.
pub print_captured_locals-text :
    (names : List (List ℕ)) (s : PState)
    → OutputBuffer.IsValid s.lex.output_buffer
    → (ob : OutputBuffer) × (print_captured_locals names s
        ≡ ok tt (with_buffer (record s { trees = snoc s.trees (fields table names) }) ob))
      × OutputBuffer.IsValid ob
      × (contents ob
          ≡ contents s.lex.output_buffer
            ++ (codes "function() return terra.makeenv({ "
                ++ (fields_text names
                    ++ (codes " },"
                        ++ (tree_text (some (length s.trees + 1)) ++ codes ",getfenv()) end")))))
unfolding print_captured_locals
print_captured_locals-text names s v =
    let (ob, e, w, c) = print-Prints head_text s v in
    let inner : PState = record (with_buffer s ob) {
      lex = record (s.lex) { output_buffer = ob; in_terra = 1 };
    } in
    let (ob', e', w', c') =
      print_locals-text names inner table s.stack (λ field value. refl) refl w in
    let stored : PState = record (with_buffer s ob') {
      trees = snoc s.trees (fields table names);
    } in
    let (ob'', e'', w'', c'') = print-Prints (tail_text (length s.trees + 1)) stored w' in
    (
      ob'',
      rw (e, e', e'') refl,
      w'',
      c''
          ∙ ap (λ r. r ++ tail_text (length s.trees + 1)) (c' ∙ ap (λ r. r ++ fields_text names) c)
          ∙ appended (contents s.lex.output_buffer) head_text (fields_text names)
              (tail_text (length s.trees + 1)),
    )
