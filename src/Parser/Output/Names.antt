-- ===== src/Parser/Output/Names.antt =====
-- src/lparser.cpp: what `Name_print` and `print_name_list` append to the output buffer.
use terra.Common.{ℕ, ◌≡◌, refl, ap, sym, ◌∙◌, List, [], ◌∷◌, ◌++◌, append_assoc, append-nil}
use terra.OutputBuffer
use terra.OutputBuffer.{OutputBuffer, contents}
use terra.OutputBuffer.Laws.{contents-putc}
use terra.OutputBuffer.Printf.{printf-Appends}
use terra.Lexer.Numeral.{c_str}
use terra.Parser.State.{PState, Result, ok, P, bind, ◌>>◌}
use terra.Parser.Output.{with_output, print, print_string, print_char, name_print, print_name_list}

-- the state with another output buffer
abbrev pub with_buffer : PState → OutputBuffer → PState
with_buffer s ob = record s { lex = record (s.lex) { output_buffer = ob } }

-- The run ends, has appended the text to the output buffer, and has changed nothing else.
abbrev pub Prints : List ℕ → PState → Result (Unit {0}) → Type 0
Prints str s r =
    (ob : OutputBuffer) × (r ≡ ok tt (with_buffer s ob))
    × OutputBuffer.IsValid ob
    × (contents ob ≡ contents s.lex.output_buffer ++ str)

pub print-Prints :
    (str : List ℕ) (s : PState)
    → OutputBuffer.IsValid s.lex.output_buffer
    → Prints str s (print str s)
unfolding print with_output
print-Prints str s v =
    let (ob, e, v', c, n) = printf-Appends s.lex.output_buffer str v in (ob, rw e refl, v', c)

pub print_char-Prints :
    (c : ℕ) (s : PState)
    → OutputBuffer.IsValid s.lex.output_buffer
    → Prints (c ∷ []) s (print_char c s)
unfolding print_char
print_char-Prints c s v =
    let put = contents-putc s.lex.output_buffer c v in
    (OutputBuffer.putc s.lex.output_buffer c, refl, put.0, put.1)

-- One run after the other.
pub Prints-bind :
    (xs ys : List ℕ) (s : PState) (r : Result (Unit {0})) (k : P (Unit {0}))
    → Prints xs s r
    → ((ob : OutputBuffer)
        → OutputBuffer.IsValid ob
        → Prints ys (with_buffer s ob) (k (with_buffer s ob)))
    → Prints (xs ++ ys) s (bind r (λ _. k))
Prints-bind xs ys s r k (ob, e, v, c) next =
    let (ob', e', v', c') = next ob v in
    (ob', rw e e', v', c' ∙ ap (λ t. t ++ ys) c ∙ append_assoc (contents s.lex.output_buffer) xs ys)

-- the texts with a character between them
abbrev pub join : ℕ → List (List ℕ) → List ℕ
join c [] = []
join c (str ∷ []) = str
join c (str ∷ str' ∷ rest) = str ++ (c ∷ join c (str' ∷ rest))

abbrev pub c_strs : List (List ℕ) → List (List ℕ)
c_strs [] = []
c_strs (str ∷ rest) = c_str str ∷ c_strs rest

-- A name is printed as its parts with points between them.
pub name_print-Prints :
    (name : List (List ℕ)) (s : PState)
    → OutputBuffer.IsValid s.lex.output_buffer
    → Prints (join b'.' (c_strs name)) s (name_print name s)
unfolding name_print print_string
name_print-Prints [] s v = (s.lex.output_buffer, refl, v, sym (append-nil _))
name_print-Prints (str ∷ []) s v = print-Prints (c_str str) s v
name_print-Prints (str ∷ str' ∷ rest) s v =
    Prints-bind (c_str str) (b'.' ∷ join b'.' (c_strs (str' ∷ rest))) s (print (c_str str) s)
      (print_char b'.' >> name_print (str' ∷ rest)) (print-Prints (c_str str) s v)
      λ ob v'.
        Prints-bind (b'.' ∷ []) (join b'.' (c_strs (str' ∷ rest))) (with_buffer s ob)
          (print_char b'.' (with_buffer s ob)) (name_print (str' ∷ rest))
          (print_char-Prints b'.' (with_buffer s ob) v')
          λ ob' v''. name_print-Prints (str' ∷ rest) (with_buffer s ob') v''

abbrev pub texts : List (List (List ℕ)) → List (List ℕ)
texts [] = []
texts (name ∷ names) = join b'.' (c_strs name) ∷ texts names

-- A list of names is printed to a valid buffer with commas between the names and points between the
-- parts of a name, and nothing else changes.
pub print_name_list-Prints :
    (names : List (List (List ℕ))) (s : PState)
    → OutputBuffer.IsValid s.lex.output_buffer
    → Prints (join b',' (texts names)) s (print_name_list names s)
unfolding print_name_list
print_name_list-Prints [] s v = (s.lex.output_buffer, refl, v, sym (append-nil _))
print_name_list-Prints (name ∷ []) s v = name_print-Prints name s v
print_name_list-Prints (name ∷ name' ∷ rest) s v =
    let text = join b'.' (c_strs name) in
    Prints-bind text (b',' ∷ join b',' (texts (name' ∷ rest))) s (name_print name s)
      (print_char b',' >> print_name_list (name' ∷ rest)) (name_print-Prints name s v)
      λ ob v'.
        Prints-bind (b',' ∷ []) (join b',' (texts (name' ∷ rest))) (with_buffer s ob)
          (print_char b',' (with_buffer s ob)) (print_name_list (name' ∷ rest))
          (print_char-Prints b',' (with_buffer s ob) v')
          λ ob' v''. print_name_list-Prints (name' ∷ rest) (with_buffer s ob') v''
