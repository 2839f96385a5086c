-- ===== src/ParserTests.antt =====
-- The parser's theorems at concrete inputs.
use terra.Parser.State.{◌>>◌}
use terra.Parser.Scopes.{enterblock, leaveblock, enterterra, leaveterra, open_func, close_func}
use terra.Parser.Scopes.Brackets.{leave-enter}
use terra.Common.{none}
use terra.OutputBuffer
use terra.OutputBuffer.{OutputBuffer, contents}
use terra.Common.{◌≡◌, refl, true, false, [], ◌∷◌, arith}
use terra.Ctype.{byte}
use terra.Token.{codes, tk_eos}
use terra.Strings
use terra.Lexer.Numeral.{c_str}
use terra.Lexer.State.{LexState, Token, SemInfo, number}
use terra.Parser.State.{
  empty, item, list, boolean, object, nil, Position, BlockCnt, FuncState, PState, ok, count,
}
use terra.Parser.State.{table, with_field}
use terra.Parser.Stack.{snoc}
use terra.Parser.Output.{print_captured_locals, tree_text}
use terra.Parser.Output.Names.{with_buffer}
use terra.Parser.Output.Captured.{print_captured_locals-text}
use terra.Lexer.Numeral.{int}
use terra.Parser.Env.{Lua, imported, finished}
use terra.Parser.Operators.{pow, binds_above, priority, unary_priority}
use terra.Parser.Operators.Levels.{binds_above-level}
use terra.Parser.Scopes.{refvariable, capture_at}
use terra.Parser.Scopes.Lookup.{refvariable-captures, refvariable-missing}
use terra.Parser.Stack.{new_object}
use terra.Parser.Stack.Laws.{new_object-pushed}
use terra.Parser.Output.{print_name_list, decimal}
use terra.Parser.Output.Names.{Prints, print_name_list-Prints}

binds_above-level_example :
    (binds_above (priority pow).1 pow ≡ true)
    × (binds_above unary_priority pow ≡ true)
    × (binds_above 0 pow ≡ true)
binds_above-level_example = binds_above-level pow pow (λ e. ground arith) (λ e. ground arith)

abbrev no_info : SemInfo
no_info = record { value = number 0; flags = 0; i = 0; linebegin = 0; buffer_begin = 0 }

abbrev no_token : Token
no_token = record { token = tk_eos; seminfo = no_info }

-- a state within Terra code, on the text `x`
abbrev lex_state : LexState
lex_state = record {
  current = byte b'x';
  linenumber = 1;
  lastline = 1;
  currentoffset = 1;
  t = no_token;
  lookahead = no_token;
  z = record { n = 0; p = []; blocks = [] };
  buff = record { buffer = []; buffsize = 32 };
  in_terra = 1;
  output_buffer = record { n = 1; space = 1024; bytes = b'x' ∷ [] };
  patchinfo = record { buffer = []; space = 32 };
  languageextensionsenabled = 0;
  strings = [];
  entry_points = [];
}

abbrev terra_block : BlockCnt
terra_block = record {
  defined = codes "y" ∷ [];
  isterra = true;
  languageextensionsdefined = 0;
  starttoken = 0;
}

abbrev lua_block : BlockCnt
lua_block = record {
  defined = codes "x" ∷ [];
  isterra = false;
  languageextensionsdefined = 0;
  starttoken = 0;
}

abbrev main_function : FuncState
main_function = record {
  linedefined = 0;
  lastlinedefined = 0;
  is_vararg = 1;
  bl = terra_block ∷ lua_block ∷ [];
}

abbrev sample : PState
sample = record {
  lex = lex_state;
  stack = boolean true ∷ nil ∷ list empty ∷ [];
  trees = [];
  fs = main_function ∷ [];
  terracnt = [] ∷ [];
  c_calls = 0;
}

abbrev capturing : PState
capturing = record sample { terracnt = (codes "x" ∷ []) ∷ [] }

refvariable-captures_example : refvariable (codes "x") sample ≡ ok tt capturing
unfolding count Strings.same_text capture_at
refvariable-captures_example =
    refvariable-captures (codes "x") sample main_function [] (terra_block ∷ []) lua_block [] refl
      refl (refl, tt) refl (omega arith)

refvariable-missing_example : refvariable (codes "print") sample ≡ ok tt sample
unfolding count Strings.same_text
refvariable-missing_example =
    refvariable-missing (codes "print") sample main_function [] refl (refl, (refl, tt))
      (omega arith)

abbrev here : Position
here = record { linenumber = 1; currentoffset = 1 }

new_object-pushed_example :
    new_object "var" 2 here sample
    ≡ ok tt (record sample {
      stack = object (codes "var") (item nil (item (boolean true) empty)) here ∷ list empty ∷ [];
    })
new_object-pushed_example =
    new_object-pushed "var" (item nil (item (boolean true) empty)) here sample (list empty ∷ [])
      refl refl

print_name_list-Prints_example :
    Prints
      (codes "a.b,c")
      sample
      (print_name_list ((codes "a" ∷ codes "b" ∷ []) ∷ (codes "c" ∷ []) ∷ []) sample)
unfolding c_str
print_name_list-Prints_example =
    print_name_list-Prints ((codes "a" ∷ codes "b" ∷ []) ∷ (codes "c" ∷ []) ∷ []) sample
      (record { within = omega arith; fits = omega arith; roomy = omega arith })

print_captured_locals-text_example :
    (ob : OutputBuffer) × (print_captured_locals (codes "x" ∷ codes "y" ∷ []) sample
      ≡ ok tt (
          with_buffer
            (record sample {
              trees =
                  with_field
                    (with_field table (codes "x") (boolean true))
                    (codes "y")
                    (boolean true)
                  ∷ [];
            })
            ob))
    × OutputBuffer.IsValid ob
    × (contents ob
        ≡ codes
            "xfunction() return terra.makeenv({ x = x;y = y; },_G.terra._trees[1],getfenv()) end")
unfolding c_str decimal tree_text snoc
print_captured_locals-text_example =
    print_captured_locals-text (codes "x" ∷ codes "y" ∷ []) sample
      (record { within = omega arith; fits = omega arith; roomy = omega arith })

abbrev plain_lua : Lua
plain_lua = record {
  numbers = record { strscan = λ text opt. (int, 7); double_of = λ n. n; uninitialised = 0 };
  importlanguage = λ language entries. imported entries;
  unimportlanguages = λ n entries. entries;
  runlanguage = λ language isstatement islocal. finished [] [] nil;
  load_error = λ code. none;
  order = λ names. names;
}

leave-enter_example :
    ((enterblock 1 >> leaveblock (λ n entries. entries)) sample ≡ ok tt sample)
    × ((enterterra (λ n entries. entries) >> leaveterra (λ n entries. entries)) sample
        ≡ ok [] sample)
    × ((open_func (λ n entries. entries) >> close_func (λ n entries. entries)) sample
        ≡ ok tt sample)
leave-enter_example = leave-enter (λ n entries. entries) 1 main_function [] sample refl
