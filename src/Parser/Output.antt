-- ===== src/Parser/Output.antt =====
-- src/lparser.cpp: what the parser writes into the output buffer, through the functions of the lexer.
pub mod Captured
pub mod Names
use terra.Common.{
  ℕ, zero, suc, ◌+◌, ◌-◌, ◌/◌, ◌%◌, true, Option, none, some, List, [], ◌∷◌, ◌++◌, ltb, ◌==◌,
  if◌then◌else◌, get_or,
}
use Prim.Native.String.{String}
use terra.Token.{codes, first_reserved, reserved_words, other_texts}
use terra.OutputBuffer.{OutputBuffer, putc}
use terra.OutputBuffer.Printf.{printf}
use terra.Lexer.State.{Token}
use terra.Lexer.Numeral.{c_str}
use terra.Lexer.Patch as Patch
use terra.Parser.State.{boolean, ok, out_of_fuel, P, ◌>>=◌, ◌>>◌, pure, get, lex}
use terra.Parser.Stack.{new_table, push, add_field, store_value}

-- the text of a number in base 10; 20 digits are enough for 64 bits.
unfoldable pub digits : ℕ → ℕ → List ℕ → List ℕ
digits zero n text = text
digits (suc fuel) n text =
    let text' = (b'0' + n % 10) ∷ text in
    let more = digits fuel (n / 10) text' in if n / 10 == 0 then text' else more

unfoldable pub decimal : ℕ → List ℕ
unfolding digits
decimal n = digits 20 n []

unfoldable pub with_output : Option OutputBuffer → P (Unit {0})
with_output none s = out_of_fuel
with_output (some ob) s = ok tt (record s { lex = record (s.lex) { output_buffer = ob } })

-- `OutputBuffer_printf` of a formatted text
unfoldable pub print : List ℕ → P (Unit {0})
unfolding with_output printf
print str = do s ← get; with_output (printf s.lex.output_buffer str)

abbrev pub print_text : String → P (Unit {0})
print_text str = print (codes str)

-- `OutputBuffer_printf` of `%s`
unfoldable pub print_string : List ℕ → P (Unit {0})
unfolding print c_str
print_string str = print (c_str str)

unfoldable pub print_char : ℕ → P (Unit {0})
unfolding putc
print_char c s =
    ok tt (record s { lex = record (s.lex) { output_buffer = putc s.lex.output_buffer c } })

-- `_G.terra._trees[%d]`, where -1 stands for no tree
unfoldable pub tree_text : Option ℕ → List ℕ
unfolding decimal
tree_text none = codes "_G.terra._trees[-1]"
tree_text (some id) = codes "_G.terra._trees[" ++ (decimal id ++ codes "]")

unfoldable pub patchbegin : Token → P Token
unfolding Patch.patchbegin
patchbegin begin s =
    let patched = Patch.patchbegin s.lex begin in ok patched.1 (record s { lex = patched.0 })

unfoldable pub patchend : Token → P (Unit {0})
unfolding Patch.patchend
patchend begin s = ok tt (record s { lex = Patch.patchend s.lex begin })

unfoldable pub saveoutput : Token → P (List ℕ)
unfolding Patch.saveoutput
saveoutput begin s =
    let saved = Patch.saveoutput s.lex begin in ok saved.0 (record s { lex = saved.1 })

-- `Name_print`; a name is the list of the texts between its points.
unfoldable pub name_print : List (List ℕ) → P (Unit {0})
unfolding print_string print_char
name_print [] = pure tt
name_print (str ∷ []) = print_string str
name_print (str ∷ str' ∷ rest) = do print_string str; print_char b'.'; name_print (str' ∷ rest)

unfoldable pub print_name_list : List (List (List ℕ)) → P (Unit {0})
unfolding name_print print_char
print_name_list [] = pure tt
print_name_list (name ∷ []) = name_print name
print_name_list (name ∷ name' ∷ rest) = do
  name_print name
  print_char b','
  print_name_list (name' ∷ rest)

-- the loop of `print_captured_locals`, over the set in its order, with the table at an index
unfoldable pub print_locals : ℕ → List (List ℕ) → P (Unit {0})
unfolding add_field print c_str
print_locals tbl [] = pure tt
print_locals tbl (str ∷ rest) = do
  push (boolean true)
  add_field tbl (c_str str)
  print (c_str str ++ (codes " = " ++ (c_str str ++ codes ";")))
  print_locals tbl rest

abbrev pub set_in_terra : ℕ → P (Unit {0})
set_in_terra n s = ok tt (record s { lex = record (s.lex) { in_terra = n } })

-- `print_captured_locals` of a set in its order
unfoldable pub print_captured_locals : List (List ℕ) → P (Unit {0})
unfolding print new_table print_locals store_value tree_text
print_captured_locals captured = do
  print_text "function() return terra.makeenv({ "
  l ← lex
  set_in_terra 1
  tbl ← new_table
  print_locals tbl captured
  defined ← store_value
  set_in_terra l.in_terra
  print (codes " }," ++ (tree_text (some defined) ++ codes ",getfenv()) end"))

-- `luaX_token2rawstr`
unfoldable pub token2rawstr : ℕ → List ℕ
unfolding c_str
token2rawstr token =
    if ltb token first_reserved
    then c_str (token ∷ [])
    else get_or (reserved_words ++ other_texts) (token - first_reserved) []
