-- ===== src/ParserRuns.antt =====
-- Runs of the parser on programs, with a Lua that accepts every chunk.
use terra.Common.{get_or}
use terra.OutputBuffer.{putc}
use terra.Strings.{poptstringtable}
use terra.Parser.State
use terra.Parser.State.{Result, ok, err, fault, PState, FuncState, ◌>>◌, lift}
use terra.Parser.Scopes.{open_mainfunc, enterterra}
use terra.Parser.Operators.{nobinopr}
use terra.Parser.Expressions.{subexpr}
use terra.Parser.Main.{statement, rules, initial, main_function, rewind_zeros}
use terra.Parser.Frames.Whole.{Balanced, statement-Balanced, subexpr-Balanced}
use terra.Parser.Frames.Ending.{Ended, parser-Ended}
use terra.Common.{ℕ, ◌≡◌, refl, none, List, [], ◌∷◌, length}
use terra.Ctype.{byte, lislalpha, lislalnum, lisdigit, lisspace, lisprint, lisxdigit}
use terra.OutputBuffer
use terra.OutputBuffer.{OutputBuffer, contents}
use terra.OutputBuffer.Printf.{Appends, printf, printf-Appends}
use terra.Strings
use terra.Token.{codes, tk_eos}
use terra.Lexer.State.{LexState, Token, SemInfo, number}
use terra.Lexer.Numeral.{Numbers, int}
use terra.Lexer.Scan.{luax_next, luax_lookahead}
use terra.Lexer.Patch.{patchbegin, skip_blanks, count_newlines, insertbeforecurrenttoken, setinput}
use terra.Parser.Env.{Lua, imported, finished}
use terra.Parser.State.{nil}
use terra.Parser.Main
use terra.Parser.Main.{Parsed, parsed, refused, crashed, parser}

abbrev empty_info : SemInfo
empty_info = record { value = number 0; flags = 0; i = 0; linebegin = 0; buffer_begin = 0 }

abbrev no_token : Token
no_token = record { token = tk_eos; seminfo = empty_info }

-- a state on the text `c ∷ cs`, whose first character has been read
abbrev start : ℕ → List ℕ → LexState
start c cs = record {
  current = byte c;
  linenumber = 1;
  lastline = 1;
  currentoffset = 0;
  t = no_token;
  lookahead = no_token;
  z = record { n = length cs; p = cs; blocks = [] };
  buff = record { buffer = []; buffsize = 32 };
  in_terra = 0;
  output_buffer = record { n = 1; space = 1024; bytes = c ∷ [] };
  patchinfo = record { buffer = []; space = 32 };
  languageextensionsenabled = 0;
  strings = Strings.init;
  entry_points = [];
}

-- a scanner that takes every numeral for the integer 7
abbrev sevens : Numbers
sevens = record { strscan = λ text opt. (int, 7); double_of = λ n. n; uninitialised = 0 }

abbrev plain_lua : Lua
plain_lua = record {
  numbers = sevens;
  importlanguage = λ language entries. imported entries;
  unimportlanguages = λ n entries. entries;
  runlanguage = λ language isstatement islocal. finished [] [] nil;
  load_error = λ chunk. none;
  order = λ names. names;
}

-- the text that the parser hands to Lua
output_of : Parsed → List ℕ
output_of (parsed text trees strings levels) = text
output_of (refused e trees strings levels) = 1 ∷ []
output_of crashed = 2 ∷ []
output_of Main.out_of_fuel = 3 ∷ []

-- `luaY_parser` on the text `c ∷ cs`
parse : ℕ → List ℕ → Parsed
unfolding terra.Parser.Main.localfunc terra.Parser.Main.declarations terra.Parser.Main.localstat
    terra.Parser.Main.funcname terra.Parser.Main.funcstat terra.Parser.Main.exprstat
    terra.Parser.Main.retstat terra.Parser.Main.imports terra.Parser.Main.importstat
    terra.Parser.Main.deferstat terra.Parser.Main.local_statement terra.Parser.Main.statement_of
    terra.Parser.Main.statement terra.Parser.Main.rules terra.Parser.Main.initial
    terra.Parser.Main.main_body terra.Parser.Main.rewind_zeros terra.Parser.Main.finish
    terra.Parser.Main.parser terra.Parser.Output.digits terra.Parser.Output.decimal
    terra.Parser.Output.with_output terra.Parser.Output.print terra.Parser.Output.print_string
    terra.Parser.Output.print_char terra.Parser.Output.tree_text terra.Parser.Output.patchbegin
    terra.Parser.Output.patchend terra.Parser.Output.saveoutput terra.Parser.Output.name_print
    terra.Parser.Output.print_name_list terra.Parser.Output.print_locals
    terra.Parser.Output.print_captured_locals terra.Parser.Output.token2rawstr
    terra.Parser.Checks.check_no_terra terra.Parser.Checks.check_terra
    terra.Parser.Checks.error_expected terra.Parser.Checks.checklimit terra.Parser.Checks.check
    terra.Parser.Checks.next_token terra.Parser.Checks.testnext terra.Parser.Checks.checknext
    terra.Parser.Checks.check_match terra.Parser.Checks.text_of_token
    terra.Parser.Checks.str_checkname terra.Parser.Checks.enterlevel terra.Parser.Checks.leavelevel
    terra.Parser.Checks.starttoken terra.Parser.Checks.block_follow
    terra.Parser.Checks.check_lua_operator terra.Parser.Stack.returns
    terra.Parser.Stack.insert_before terra.Parser.Stack.new_table terra.Parser.Stack.new_list
    terra.Parser.Stack.new_list_before terra.Parser.Stack.push_string_before
    terra.Parser.Stack.push_string terra.Parser.Stack.push_boolean terra.Parser.Stack.push_nil
    terra.Parser.Stack.push_double terra.Parser.Stack.push_integer terra.Parser.Stack.push_type
    terra.Parser.Stack.update_below terra.Parser.Stack.consume terra.Parser.Stack.with_stack
    terra.Parser.Stack.set_field terra.Parser.Stack.add_field terra.Parser.Stack.append
    terra.Parser.Stack.set_entry terra.Parser.Stack.with_entry terra.Parser.Stack.add_entry
    terra.Parser.Stack.pop terra.Parser.Stack.pushed_object terra.Parser.Stack.new_object
    terra.Parser.Stack.push_literal terra.Parser.Stack.snoc terra.Parser.Stack.move_top
    terra.Parser.Stack.store_value terra.Parser.Constructors.kind_of
    terra.Parser.Constructors.is_luaexpression terra.Parser.Constructors.check_luaexpression
    terra.Parser.Constructors.recfield_value terra.Parser.Constructors.recfield
    terra.Parser.Constructors.listfield terra.Parser.Constructors.field
    terra.Parser.Constructors.fields terra.Parser.Constructors.constructor
    terra.Parser.Constructors.structfield terra.Parser.Constructors.structbody_round
    terra.Parser.Constructors.structbody terra.Parser.Constructors.structconstructor
    terra.Parser.State.count terra.Parser.State.insert terra.Parser.Rules.loop
    terra.Parser.Rules.singlevar terra.Parser.Rules.expr terra.Parser.Rules.luaexpr
    terra.Parser.Rules.terratype terra.Parser.Rules.checksymbol terra.Parser.Rules.yindex
    terra.Parser.Rules.statlist_round terra.Parser.Rules.statlist terra.Parser.Rules.block
    terra.Parser.Scopes.with_fs terra.Parser.Scopes.with_block terra.Parser.Scopes.definevariable
    terra.Parser.Scopes.search_blocks terra.Parser.Scopes.capture_at terra.Parser.Scopes.captured
    terra.Parser.Scopes.refvariable terra.Parser.Scopes.enterblock terra.Parser.Scopes.leaveblock
    terra.Parser.Scopes.enterterra terra.Parser.Scopes.leaveterra terra.Parser.Scopes.open_func
    terra.Parser.Scopes.close_func terra.Parser.Scopes.open_mainfunc
    terra.Parser.Definitions.print_new_locals terra.Parser.Definitions.print_returns
    terra.Parser.Definitions.print_kinds terra.Parser.Definitions.print_definitions
    terra.Parser.Definitions.name_parts terra.Parser.Definitions.terraname
    terra.Parser.Definitions.starts_terra_stat terra.Parser.Definitions.definition_tree
    terra.Parser.Definitions.definition terra.Parser.Definitions.definitions
    terra.Parser.Definitions.terrastats terra.Parser.Definitions.take_expression
    terra.Parser.Definitions.run terra.Parser.Definitions.reference_all
    terra.Parser.Definitions.intern_name terra.Parser.Definitions.intern_names
    terra.Parser.Definitions.define_first terra.Parser.Definitions.languageextension
    terra.Parser.Expressions.number_type terra.Parser.Expressions.skip_spaces
    terra.Parser.Expressions.number_of_token terra.Parser.Expressions.number_literal
    terra.Parser.Expressions.replace_anonymous terra.Parser.Expressions.anonymous_terra
    terra.Parser.Expressions.anonymous_struct terra.Parser.Expressions.vararg
    terra.Parser.Expressions.simpleexp terra.Parser.Expressions.replace_pointer
    terra.Parser.Expressions.replace_funcpointer terra.Parser.Expressions.unary
    terra.Parser.Expressions.replace_lhs terra.Parser.Expressions.binary
    terra.Parser.Expressions.saved_lhs terra.Parser.Expressions.subexpr
    terra.Parser.Operators.getunopr terra.Parser.Operators.getbinopr terra.Parser.Operators.ordinal
    terra.Parser.Operators.priority terra.Parser.Operators.binds_above
    terra.Parser.Functions.define_all terra.Parser.Functions.vardecl terra.Parser.Functions.params
    terra.Parser.Functions.parlist terra.Parser.Functions.body terra.Parser.Functions.bodyortype
    terra.Parser.Functions.explist terra.Parser.Primary.funcargs terra.Parser.Primary.prefixexp
    terra.Parser.Primary.issplitprimary terra.Parser.Primary.apply
    terra.Parser.Primary.primary_round terra.Parser.Primary.primaryexp terra.Parser.Primary.quoted
    terra.Parser.Primary.print_current_locals terra.Parser.Primary.doquote
    terra.Parser.Primary.blockescape terra.Parser.Statements.load_chunk
    terra.Parser.Statements.embeddedcode terra.Parser.Statements.lhsexp
    terra.Parser.Statements.assignment terra.Parser.Statements.cond terra.Parser.Statements.gotostat
    terra.Parser.Statements.labelstat terra.Parser.Statements.casestat
    terra.Parser.Statements.switchstat terra.Parser.Statements.whilestat
    terra.Parser.Statements.repeatstat terra.Parser.Statements.forbody
    terra.Parser.Statements.fornum terra.Parser.Statements.forlist terra.Parser.Statements.forstat
    terra.Parser.Statements.test_then_block terra.Parser.Statements.ifstat
    terra.Lexer.Scan.luax_next terra.Lexer.Scan.luax_lookahead terra.Lexer.Patch.setinput
    terra.Lexer.Patch.patchbegin terra.Lexer.Patch.patchend terra.Lexer.Patch.saveoutput
    terra.Lexer.Patch.getoutput terra.Lexer.Patch.insertbeforecurrenttoken
    terra.Lexer.Patch.insert_at terra.Strings.init terra.Strings.same_text
    terra.Strings.pushtstringtable terra.Strings.newlstr terra.Strings.poptstringtable
    terra.Lexer.Numeral.c_str terra.OutputBuffer.init terra.OutputBuffer.putc
    terra.OutputBuffer.write_at terra.OutputBuffer.Printf.printf terra.Ctype.lislalpha
    terra.Ctype.lislalnum terra.Ctype.lisdigit terra.Ctype.lisspace terra.Ctype.lisxdigit
    terra.Parser.Main.main_function terra.Parser.Definitions.expression_of
parse c cs =
    parser plain_lua 60 (start c cs) (codes "test") (record { n = length cs; p = cs; blocks = [] })
      (byte c) [] 0

-- The definitions of a program are replaced, the lines are kept, and the captured locals are named.
parse_definitions :
    output_of (
      parse b'l' (
        codes
          "ocal x = 3\nlocal struct S { a : int } terra S:get()\n  var y = x\n  return self.a * y end\nprint(`x + [x])"))
    ≡ codes
        "local x = 3\nlocal S;S = terra.defineobjects(\"sm\",function() return terra.makeenv({ x = x;S = S; },_G.terra._trees[3],getfenv()) end, \"S\", _G.terra._trees[1], \"S.get\", _G.terra._trees[2])\n\n\nprint((terra.definequote(_G.terra._trees[4],function() return terra.makeenv({ x = x; },_G.terra._trees[5],getfenv()) end)))"
unfolding parse output_of
parse_definitions = refl

-- Types of pointers and functions are replaced.
parse_types :
    output_of (parse b'l' (codes "ocal t = &int -> {int}"))
    ≡ codes "local t = terra.types.funcpointer(terra.types.pointer(int), {int})"
unfolding parse output_of
parse_types = refl

-- the levels that a run leaves in the `terra_State`
levels_of : Parsed → ℕ
levels_of (parsed text trees strings levels) = levels
levels_of (refused e trees strings levels) = levels
levels_of crashed = 0
levels_of Main.out_of_fuel = 0

-- A program without an error leaves no level behind, and one with an error does.
levels_of_program : levels_of (parse b'x' (codes " = 1")) ≡ 0
unfolding parse levels_of
levels_of_program = refl

levels_of_error : levels_of (parse b'x' (codes " = )")) ≡ 2
unfolding parse levels_of
levels_of_error = refl

state_of : {A : Type 0} → Result A → PState → PState
state_of (ok a s) d = s
state_of (err e s) d = s
state_of fault d = d
state_of State.out_of_fuel d = d

-- the state in front of the rest of a program, in the main function
abbrev before : ℕ → List ℕ → PState
before c cs =
    initial (start c cs) (codes "test") (record { n = length cs; p = cs; blocks = [] }) (byte c) []
      0

-- the state in front of the first token of the text
within : ℕ → List ℕ → PState
unfolding terra.Parser.Main.localfunc terra.Parser.Main.declarations terra.Parser.Main.localstat
    terra.Parser.Main.funcname terra.Parser.Main.funcstat terra.Parser.Main.exprstat
    terra.Parser.Main.retstat terra.Parser.Main.imports terra.Parser.Main.importstat
    terra.Parser.Main.deferstat terra.Parser.Main.local_statement terra.Parser.Main.statement_of
    terra.Parser.Main.statement terra.Parser.Main.rules terra.Parser.Main.initial
    terra.Parser.Main.main_body terra.Parser.Main.rewind_zeros terra.Parser.Main.finish
    terra.Parser.Main.parser terra.Parser.Output.digits terra.Parser.Output.decimal
    terra.Parser.Output.with_output terra.Parser.Output.print terra.Parser.Output.print_string
    terra.Parser.Output.print_char terra.Parser.Output.tree_text terra.Parser.Output.patchbegin
    terra.Parser.Output.patchend terra.Parser.Output.saveoutput terra.Parser.Output.name_print
    terra.Parser.Output.print_name_list terra.Parser.Output.print_locals
    terra.Parser.Output.print_captured_locals terra.Parser.Output.token2rawstr
    terra.Parser.Checks.check_no_terra terra.Parser.Checks.check_terra
    terra.Parser.Checks.error_expected terra.Parser.Checks.checklimit terra.Parser.Checks.check
    terra.Parser.Checks.next_token terra.Parser.Checks.testnext terra.Parser.Checks.checknext
    terra.Parser.Checks.check_match terra.Parser.Checks.text_of_token
    terra.Parser.Checks.str_checkname terra.Parser.Checks.enterlevel terra.Parser.Checks.leavelevel
    terra.Parser.Checks.starttoken terra.Parser.Checks.block_follow
    terra.Parser.Checks.check_lua_operator terra.Parser.Stack.returns
    terra.Parser.Stack.insert_before terra.Parser.Stack.new_table terra.Parser.Stack.new_list
    terra.Parser.Stack.new_list_before terra.Parser.Stack.push_string_before
    terra.Parser.Stack.push_string terra.Parser.Stack.push_boolean terra.Parser.Stack.push_nil
    terra.Parser.Stack.push_double terra.Parser.Stack.push_integer terra.Parser.Stack.push_type
    terra.Parser.Stack.update_below terra.Parser.Stack.consume terra.Parser.Stack.with_stack
    terra.Parser.Stack.set_field terra.Parser.Stack.add_field terra.Parser.Stack.append
    terra.Parser.Stack.set_entry terra.Parser.Stack.with_entry terra.Parser.Stack.add_entry
    terra.Parser.Stack.pop terra.Parser.Stack.pushed_object terra.Parser.Stack.new_object
    terra.Parser.Stack.push_literal terra.Parser.Stack.snoc terra.Parser.Stack.move_top
    terra.Parser.Stack.store_value terra.Parser.Constructors.kind_of
    terra.Parser.Constructors.is_luaexpression terra.Parser.Constructors.check_luaexpression
    terra.Parser.Constructors.recfield_value terra.Parser.Constructors.recfield
    terra.Parser.Constructors.listfield terra.Parser.Constructors.field
    terra.Parser.Constructors.fields terra.Parser.Constructors.constructor
    terra.Parser.Constructors.structfield terra.Parser.Constructors.structbody_round
    terra.Parser.Constructors.structbody terra.Parser.Constructors.structconstructor
    terra.Parser.State.count terra.Parser.State.insert terra.Parser.Rules.loop
    terra.Parser.Rules.singlevar terra.Parser.Rules.expr terra.Parser.Rules.luaexpr
    terra.Parser.Rules.terratype terra.Parser.Rules.checksymbol terra.Parser.Rules.yindex
    terra.Parser.Rules.statlist_round terra.Parser.Rules.statlist terra.Parser.Rules.block
    terra.Parser.Scopes.with_fs terra.Parser.Scopes.with_block terra.Parser.Scopes.definevariable
    terra.Parser.Scopes.search_blocks terra.Parser.Scopes.capture_at terra.Parser.Scopes.captured
    terra.Parser.Scopes.refvariable terra.Parser.Scopes.enterblock terra.Parser.Scopes.leaveblock
    terra.Parser.Scopes.enterterra terra.Parser.Scopes.leaveterra terra.Parser.Scopes.open_func
    terra.Parser.Scopes.close_func terra.Parser.Scopes.open_mainfunc
    terra.Parser.Definitions.print_new_locals terra.Parser.Definitions.print_returns
    terra.Parser.Definitions.print_kinds terra.Parser.Definitions.print_definitions
    terra.Parser.Definitions.name_parts terra.Parser.Definitions.terraname
    terra.Parser.Definitions.starts_terra_stat terra.Parser.Definitions.definition_tree
    terra.Parser.Definitions.definition terra.Parser.Definitions.definitions
    terra.Parser.Definitions.terrastats terra.Parser.Definitions.take_expression
    terra.Parser.Definitions.run terra.Parser.Definitions.reference_all
    terra.Parser.Definitions.intern_name terra.Parser.Definitions.intern_names
    terra.Parser.Definitions.define_first terra.Parser.Definitions.languageextension
    terra.Parser.Expressions.number_type terra.Parser.Expressions.skip_spaces
    terra.Parser.Expressions.number_of_token terra.Parser.Expressions.number_literal
    terra.Parser.Expressions.replace_anonymous terra.Parser.Expressions.anonymous_terra
    terra.Parser.Expressions.anonymous_struct terra.Parser.Expressions.vararg
    terra.Parser.Expressions.simpleexp terra.Parser.Expressions.replace_pointer
    terra.Parser.Expressions.replace_funcpointer terra.Parser.Expressions.unary
    terra.Parser.Expressions.replace_lhs terra.Parser.Expressions.binary
    terra.Parser.Expressions.saved_lhs terra.Parser.Expressions.subexpr
    terra.Parser.Operators.getunopr terra.Parser.Operators.getbinopr terra.Parser.Operators.ordinal
    terra.Parser.Operators.priority terra.Parser.Operators.binds_above
    terra.Parser.Functions.define_all terra.Parser.Functions.vardecl terra.Parser.Functions.params
    terra.Parser.Functions.parlist terra.Parser.Functions.body terra.Parser.Functions.bodyortype
    terra.Parser.Functions.explist terra.Parser.Primary.funcargs terra.Parser.Primary.prefixexp
    terra.Parser.Primary.issplitprimary terra.Parser.Primary.apply
    terra.Parser.Primary.primary_round terra.Parser.Primary.primaryexp terra.Parser.Primary.quoted
    terra.Parser.Primary.print_current_locals terra.Parser.Primary.doquote
    terra.Parser.Primary.blockescape terra.Parser.Statements.load_chunk
    terra.Parser.Statements.embeddedcode terra.Parser.Statements.lhsexp
    terra.Parser.Statements.assignment terra.Parser.Statements.cond terra.Parser.Statements.gotostat
    terra.Parser.Statements.labelstat terra.Parser.Statements.casestat
    terra.Parser.Statements.switchstat terra.Parser.Statements.whilestat
    terra.Parser.Statements.repeatstat terra.Parser.Statements.forbody
    terra.Parser.Statements.fornum terra.Parser.Statements.forlist terra.Parser.Statements.forstat
    terra.Parser.Statements.test_then_block terra.Parser.Statements.ifstat
    terra.Lexer.Scan.luax_next terra.Lexer.Scan.luax_lookahead terra.Lexer.Patch.setinput
    terra.Lexer.Patch.patchbegin terra.Lexer.Patch.patchend terra.Lexer.Patch.saveoutput
    terra.Lexer.Patch.getoutput terra.Lexer.Patch.insertbeforecurrenttoken
    terra.Lexer.Patch.insert_at terra.Strings.init terra.Strings.same_text
    terra.Strings.pushtstringtable terra.Strings.newlstr terra.Strings.poptstringtable
    terra.Lexer.Numeral.c_str terra.OutputBuffer.init terra.OutputBuffer.putc
    terra.OutputBuffer.write_at terra.OutputBuffer.Printf.printf terra.Ctype.lislalpha
    terra.Ctype.lislalnum terra.Ctype.lisdigit terra.Ctype.lisspace terra.Ctype.lisxdigit
    terra.Parser.Main.main_function terra.Parser.Definitions.expression_of
within c cs =
    state_of ((open_mainfunc plain_lua.unimportlanguages >> lift (luax_next sevens)) (before c cs))
      (before c cs)

abbrev do_program : PState
do_program = within b'd' (codes "o end")

after_statement : PState
unfolding terra.Parser.Main.localfunc terra.Parser.Main.declarations terra.Parser.Main.localstat
    terra.Parser.Main.funcname terra.Parser.Main.funcstat terra.Parser.Main.exprstat
    terra.Parser.Main.retstat terra.Parser.Main.imports terra.Parser.Main.importstat
    terra.Parser.Main.deferstat terra.Parser.Main.local_statement terra.Parser.Main.statement_of
    terra.Parser.Main.statement terra.Parser.Main.rules terra.Parser.Main.initial
    terra.Parser.Main.main_body terra.Parser.Main.rewind_zeros terra.Parser.Main.finish
    terra.Parser.Main.parser terra.Parser.Output.digits terra.Parser.Output.decimal
    terra.Parser.Output.with_output terra.Parser.Output.print terra.Parser.Output.print_string
    terra.Parser.Output.print_char terra.Parser.Output.tree_text terra.Parser.Output.patchbegin
    terra.Parser.Output.patchend terra.Parser.Output.saveoutput terra.Parser.Output.name_print
    terra.Parser.Output.print_name_list terra.Parser.Output.print_locals
    terra.Parser.Output.print_captured_locals terra.Parser.Output.token2rawstr
    terra.Parser.Checks.check_no_terra terra.Parser.Checks.check_terra
    terra.Parser.Checks.error_expected terra.Parser.Checks.checklimit terra.Parser.Checks.check
    terra.Parser.Checks.next_token terra.Parser.Checks.testnext terra.Parser.Checks.checknext
    terra.Parser.Checks.check_match terra.Parser.Checks.text_of_token
    terra.Parser.Checks.str_checkname terra.Parser.Checks.enterlevel terra.Parser.Checks.leavelevel
    terra.Parser.Checks.starttoken terra.Parser.Checks.block_follow
    terra.Parser.Checks.check_lua_operator terra.Parser.Stack.returns
    terra.Parser.Stack.insert_before terra.Parser.Stack.new_table terra.Parser.Stack.new_list
    terra.Parser.Stack.new_list_before terra.Parser.Stack.push_string_before
    terra.Parser.Stack.push_string terra.Parser.Stack.push_boolean terra.Parser.Stack.push_nil
    terra.Parser.Stack.push_double terra.Parser.Stack.push_integer terra.Parser.Stack.push_type
    terra.Parser.Stack.update_below terra.Parser.Stack.consume terra.Parser.Stack.with_stack
    terra.Parser.Stack.set_field terra.Parser.Stack.add_field terra.Parser.Stack.append
    terra.Parser.Stack.set_entry terra.Parser.Stack.with_entry terra.Parser.Stack.add_entry
    terra.Parser.Stack.pop terra.Parser.Stack.pushed_object terra.Parser.Stack.new_object
    terra.Parser.Stack.push_literal terra.Parser.Stack.snoc terra.Parser.Stack.move_top
    terra.Parser.Stack.store_value terra.Parser.Constructors.kind_of
    terra.Parser.Constructors.is_luaexpression terra.Parser.Constructors.check_luaexpression
    terra.Parser.Constructors.recfield_value terra.Parser.Constructors.recfield
    terra.Parser.Constructors.listfield terra.Parser.Constructors.field
    terra.Parser.Constructors.fields terra.Parser.Constructors.constructor
    terra.Parser.Constructors.structfield terra.Parser.Constructors.structbody_round
    terra.Parser.Constructors.structbody terra.Parser.Constructors.structconstructor
    terra.Parser.State.count terra.Parser.State.insert terra.Parser.Rules.loop
    terra.Parser.Rules.singlevar terra.Parser.Rules.expr terra.Parser.Rules.luaexpr
    terra.Parser.Rules.terratype terra.Parser.Rules.checksymbol terra.Parser.Rules.yindex
    terra.Parser.Rules.statlist_round terra.Parser.Rules.statlist terra.Parser.Rules.block
    terra.Parser.Scopes.with_fs terra.Parser.Scopes.with_block terra.Parser.Scopes.definevariable
    terra.Parser.Scopes.search_blocks terra.Parser.Scopes.capture_at terra.Parser.Scopes.captured
    terra.Parser.Scopes.refvariable terra.Parser.Scopes.enterblock terra.Parser.Scopes.leaveblock
    terra.Parser.Scopes.enterterra terra.Parser.Scopes.leaveterra terra.Parser.Scopes.open_func
    terra.Parser.Scopes.close_func terra.Parser.Scopes.open_mainfunc
    terra.Parser.Definitions.print_new_locals terra.Parser.Definitions.print_returns
    terra.Parser.Definitions.print_kinds terra.Parser.Definitions.print_definitions
    terra.Parser.Definitions.name_parts terra.Parser.Definitions.terraname
    terra.Parser.Definitions.starts_terra_stat terra.Parser.Definitions.definition_tree
    terra.Parser.Definitions.definition terra.Parser.Definitions.definitions
    terra.Parser.Definitions.terrastats terra.Parser.Definitions.take_expression
    terra.Parser.Definitions.run terra.Parser.Definitions.reference_all
    terra.Parser.Definitions.intern_name terra.Parser.Definitions.intern_names
    terra.Parser.Definitions.define_first terra.Parser.Definitions.languageextension
    terra.Parser.Expressions.number_type terra.Parser.Expressions.skip_spaces
    terra.Parser.Expressions.number_of_token terra.Parser.Expressions.number_literal
    terra.Parser.Expressions.replace_anonymous terra.Parser.Expressions.anonymous_terra
    terra.Parser.Expressions.anonymous_struct terra.Parser.Expressions.vararg
    terra.Parser.Expressions.simpleexp terra.Parser.Expressions.replace_pointer
    terra.Parser.Expressions.replace_funcpointer terra.Parser.Expressions.unary
    terra.Parser.Expressions.replace_lhs terra.Parser.Expressions.binary
    terra.Parser.Expressions.saved_lhs terra.Parser.Expressions.subexpr
    terra.Parser.Operators.getunopr terra.Parser.Operators.getbinopr terra.Parser.Operators.ordinal
    terra.Parser.Operators.priority terra.Parser.Operators.binds_above
    terra.Parser.Functions.define_all terra.Parser.Functions.vardecl terra.Parser.Functions.params
    terra.Parser.Functions.parlist terra.Parser.Functions.body terra.Parser.Functions.bodyortype
    terra.Parser.Functions.explist terra.Parser.Primary.funcargs terra.Parser.Primary.prefixexp
    terra.Parser.Primary.issplitprimary terra.Parser.Primary.apply
    terra.Parser.Primary.primary_round terra.Parser.Primary.primaryexp terra.Parser.Primary.quoted
    terra.Parser.Primary.print_current_locals terra.Parser.Primary.doquote
    terra.Parser.Primary.blockescape terra.Parser.Statements.load_chunk
    terra.Parser.Statements.embeddedcode terra.Parser.Statements.lhsexp
    terra.Parser.Statements.assignment terra.Parser.Statements.cond terra.Parser.Statements.gotostat
    terra.Parser.Statements.labelstat terra.Parser.Statements.casestat
    terra.Parser.Statements.switchstat terra.Parser.Statements.whilestat
    terra.Parser.Statements.repeatstat terra.Parser.Statements.forbody
    terra.Parser.Statements.fornum terra.Parser.Statements.forlist terra.Parser.Statements.forstat
    terra.Parser.Statements.test_then_block terra.Parser.Statements.ifstat
    terra.Lexer.Scan.luax_next terra.Lexer.Scan.luax_lookahead terra.Lexer.Patch.setinput
    terra.Lexer.Patch.patchbegin terra.Lexer.Patch.patchend terra.Lexer.Patch.saveoutput
    terra.Lexer.Patch.getoutput terra.Lexer.Patch.insertbeforecurrenttoken
    terra.Lexer.Patch.insert_at terra.Strings.init terra.Strings.same_text
    terra.Strings.pushtstringtable terra.Strings.newlstr terra.Strings.poptstringtable
    terra.Lexer.Numeral.c_str terra.OutputBuffer.init terra.OutputBuffer.putc
    terra.OutputBuffer.write_at terra.OutputBuffer.Printf.printf terra.Ctype.lislalpha
    terra.Ctype.lislalnum terra.Ctype.lisdigit terra.Ctype.lisspace terra.Ctype.lisxdigit
    terra.Parser.Main.main_function terra.Parser.Definitions.expression_of within
after_statement = state_of (statement plain_lua (rules plain_lua 12) do_program) do_program

abbrev function_of : PState → FuncState
function_of s =
    get_or s.fs 0 (record { linedefined = 0; lastlinedefined = 0; is_vararg = 0; bl = [] })

statement-Balanced_example : Balanced do_program after_statement
unfolding terra.Parser.Main.localfunc terra.Parser.Main.declarations terra.Parser.Main.localstat
    terra.Parser.Main.funcname terra.Parser.Main.funcstat terra.Parser.Main.exprstat
    terra.Parser.Main.retstat terra.Parser.Main.imports terra.Parser.Main.importstat
    terra.Parser.Main.deferstat terra.Parser.Main.local_statement terra.Parser.Main.statement_of
    terra.Parser.Main.statement terra.Parser.Main.rules terra.Parser.Main.initial
    terra.Parser.Main.main_body terra.Parser.Main.rewind_zeros terra.Parser.Main.finish
    terra.Parser.Main.parser terra.Parser.Output.digits terra.Parser.Output.decimal
    terra.Parser.Output.with_output terra.Parser.Output.print terra.Parser.Output.print_string
    terra.Parser.Output.print_char terra.Parser.Output.tree_text terra.Parser.Output.patchbegin
    terra.Parser.Output.patchend terra.Parser.Output.saveoutput terra.Parser.Output.name_print
    terra.Parser.Output.print_name_list terra.Parser.Output.print_locals
    terra.Parser.Output.print_captured_locals terra.Parser.Output.token2rawstr
    terra.Parser.Checks.check_no_terra terra.Parser.Checks.check_terra
    terra.Parser.Checks.error_expected terra.Parser.Checks.checklimit terra.Parser.Checks.check
    terra.Parser.Checks.next_token terra.Parser.Checks.testnext terra.Parser.Checks.checknext
    terra.Parser.Checks.check_match terra.Parser.Checks.text_of_token
    terra.Parser.Checks.str_checkname terra.Parser.Checks.enterlevel terra.Parser.Checks.leavelevel
    terra.Parser.Checks.starttoken terra.Parser.Checks.block_follow
    terra.Parser.Checks.check_lua_operator terra.Parser.Stack.returns
    terra.Parser.Stack.insert_before terra.Parser.Stack.new_table terra.Parser.Stack.new_list
    terra.Parser.Stack.new_list_before terra.Parser.Stack.push_string_before
    terra.Parser.Stack.push_string terra.Parser.Stack.push_boolean terra.Parser.Stack.push_nil
    terra.Parser.Stack.push_double terra.Parser.Stack.push_integer terra.Parser.Stack.push_type
    terra.Parser.Stack.update_below terra.Parser.Stack.consume terra.Parser.Stack.with_stack
    terra.Parser.Stack.set_field terra.Parser.Stack.add_field terra.Parser.Stack.append
    terra.Parser.Stack.set_entry terra.Parser.Stack.with_entry terra.Parser.Stack.add_entry
    terra.Parser.Stack.pop terra.Parser.Stack.pushed_object terra.Parser.Stack.new_object
    terra.Parser.Stack.push_literal terra.Parser.Stack.snoc terra.Parser.Stack.move_top
    terra.Parser.Stack.store_value terra.Parser.Constructors.kind_of
    terra.Parser.Constructors.is_luaexpression terra.Parser.Constructors.check_luaexpression
    terra.Parser.Constructors.recfield_value terra.Parser.Constructors.recfield
    terra.Parser.Constructors.listfield terra.Parser.Constructors.field
    terra.Parser.Constructors.fields terra.Parser.Constructors.constructor
    terra.Parser.Constructors.structfield terra.Parser.Constructors.structbody_round
    terra.Parser.Constructors.structbody terra.Parser.Constructors.structconstructor
    terra.Parser.State.count terra.Parser.State.insert terra.Parser.Rules.loop
    terra.Parser.Rules.singlevar terra.Parser.Rules.expr terra.Parser.Rules.luaexpr
    terra.Parser.Rules.terratype terra.Parser.Rules.checksymbol terra.Parser.Rules.yindex
    terra.Parser.Rules.statlist_round terra.Parser.Rules.statlist terra.Parser.Rules.block
    terra.Parser.Scopes.with_fs terra.Parser.Scopes.with_block terra.Parser.Scopes.definevariable
    terra.Parser.Scopes.search_blocks terra.Parser.Scopes.capture_at terra.Parser.Scopes.captured
    terra.Parser.Scopes.refvariable terra.Parser.Scopes.enterblock terra.Parser.Scopes.leaveblock
    terra.Parser.Scopes.enterterra terra.Parser.Scopes.leaveterra terra.Parser.Scopes.open_func
    terra.Parser.Scopes.close_func terra.Parser.Scopes.open_mainfunc
    terra.Parser.Definitions.print_new_locals terra.Parser.Definitions.print_returns
    terra.Parser.Definitions.print_kinds terra.Parser.Definitions.print_definitions
    terra.Parser.Definitions.name_parts terra.Parser.Definitions.terraname
    terra.Parser.Definitions.starts_terra_stat terra.Parser.Definitions.definition_tree
    terra.Parser.Definitions.definition terra.Parser.Definitions.definitions
    terra.Parser.Definitions.terrastats terra.Parser.Definitions.take_expression
    terra.Parser.Definitions.run terra.Parser.Definitions.reference_all
    terra.Parser.Definitions.intern_name terra.Parser.Definitions.intern_names
    terra.Parser.Definitions.define_first terra.Parser.Definitions.languageextension
    terra.Parser.Expressions.number_type terra.Parser.Expressions.skip_spaces
    terra.Parser.Expressions.number_of_token terra.Parser.Expressions.number_literal
    terra.Parser.Expressions.replace_anonymous terra.Parser.Expressions.anonymous_terra
    terra.Parser.Expressions.anonymous_struct terra.Parser.Expressions.vararg
    terra.Parser.Expressions.simpleexp terra.Parser.Expressions.replace_pointer
    terra.Parser.Expressions.replace_funcpointer terra.Parser.Expressions.unary
    terra.Parser.Expressions.replace_lhs terra.Parser.Expressions.binary
    terra.Parser.Expressions.saved_lhs terra.Parser.Expressions.subexpr
    terra.Parser.Operators.getunopr terra.Parser.Operators.getbinopr terra.Parser.Operators.ordinal
    terra.Parser.Operators.priority terra.Parser.Operators.binds_above
    terra.Parser.Functions.define_all terra.Parser.Functions.vardecl terra.Parser.Functions.params
    terra.Parser.Functions.parlist terra.Parser.Functions.body terra.Parser.Functions.bodyortype
    terra.Parser.Functions.explist terra.Parser.Primary.funcargs terra.Parser.Primary.prefixexp
    terra.Parser.Primary.issplitprimary terra.Parser.Primary.apply
    terra.Parser.Primary.primary_round terra.Parser.Primary.primaryexp terra.Parser.Primary.quoted
    terra.Parser.Primary.print_current_locals terra.Parser.Primary.doquote
    terra.Parser.Primary.blockescape terra.Parser.Statements.load_chunk
    terra.Parser.Statements.embeddedcode terra.Parser.Statements.lhsexp
    terra.Parser.Statements.assignment terra.Parser.Statements.cond terra.Parser.Statements.gotostat
    terra.Parser.Statements.labelstat terra.Parser.Statements.casestat
    terra.Parser.Statements.switchstat terra.Parser.Statements.whilestat
    terra.Parser.Statements.repeatstat terra.Parser.Statements.forbody
    terra.Parser.Statements.fornum terra.Parser.Statements.forlist terra.Parser.Statements.forstat
    terra.Parser.Statements.test_then_block terra.Parser.Statements.ifstat
    terra.Lexer.Scan.luax_next terra.Lexer.Scan.luax_lookahead terra.Lexer.Patch.setinput
    terra.Lexer.Patch.patchbegin terra.Lexer.Patch.patchend terra.Lexer.Patch.saveoutput
    terra.Lexer.Patch.getoutput terra.Lexer.Patch.insertbeforecurrenttoken
    terra.Lexer.Patch.insert_at terra.Strings.init terra.Strings.same_text
    terra.Strings.pushtstringtable terra.Strings.newlstr terra.Strings.poptstringtable
    terra.Lexer.Numeral.c_str terra.OutputBuffer.init terra.OutputBuffer.putc
    terra.OutputBuffer.write_at terra.OutputBuffer.Printf.printf terra.Ctype.lislalpha
    terra.Ctype.lislalnum terra.Ctype.lisdigit terra.Ctype.lisspace terra.Ctype.lisxdigit
    terra.Parser.Main.main_function terra.Parser.Definitions.expression_of within after_statement
    state_of
statement-Balanced_example =
    statement-Balanced plain_lua 12 do_program after_statement (function_of do_program) [] refl refl

-- the expression stands in Terra code
sum : PState
unfolding terra.Parser.Main.localfunc terra.Parser.Main.declarations terra.Parser.Main.localstat
    terra.Parser.Main.funcname terra.Parser.Main.funcstat terra.Parser.Main.exprstat
    terra.Parser.Main.retstat terra.Parser.Main.imports terra.Parser.Main.importstat
    terra.Parser.Main.deferstat terra.Parser.Main.local_statement terra.Parser.Main.statement_of
    terra.Parser.Main.statement terra.Parser.Main.rules terra.Parser.Main.initial
    terra.Parser.Main.main_body terra.Parser.Main.rewind_zeros terra.Parser.Main.finish
    terra.Parser.Main.parser terra.Parser.Output.digits terra.Parser.Output.decimal
    terra.Parser.Output.with_output terra.Parser.Output.print terra.Parser.Output.print_string
    terra.Parser.Output.print_char terra.Parser.Output.tree_text terra.Parser.Output.patchbegin
    terra.Parser.Output.patchend terra.Parser.Output.saveoutput terra.Parser.Output.name_print
    terra.Parser.Output.print_name_list terra.Parser.Output.print_locals
    terra.Parser.Output.print_captured_locals terra.Parser.Output.token2rawstr
    terra.Parser.Checks.check_no_terra terra.Parser.Checks.check_terra
    terra.Parser.Checks.error_expected terra.Parser.Checks.checklimit terra.Parser.Checks.check
    terra.Parser.Checks.next_token terra.Parser.Checks.testnext terra.Parser.Checks.checknext
    terra.Parser.Checks.check_match terra.Parser.Checks.text_of_token
    terra.Parser.Checks.str_checkname terra.Parser.Checks.enterlevel terra.Parser.Checks.leavelevel
    terra.Parser.Checks.starttoken terra.Parser.Checks.block_follow
    terra.Parser.Checks.check_lua_operator terra.Parser.Stack.returns
    terra.Parser.Stack.insert_before terra.Parser.Stack.new_table terra.Parser.Stack.new_list
    terra.Parser.Stack.new_list_before terra.Parser.Stack.push_string_before
    terra.Parser.Stack.push_string terra.Parser.Stack.push_boolean terra.Parser.Stack.push_nil
    terra.Parser.Stack.push_double terra.Parser.Stack.push_integer terra.Parser.Stack.push_type
    terra.Parser.Stack.update_below terra.Parser.Stack.consume terra.Parser.Stack.with_stack
    terra.Parser.Stack.set_field terra.Parser.Stack.add_field terra.Parser.Stack.append
    terra.Parser.Stack.set_entry terra.Parser.Stack.with_entry terra.Parser.Stack.add_entry
    terra.Parser.Stack.pop terra.Parser.Stack.pushed_object terra.Parser.Stack.new_object
    terra.Parser.Stack.push_literal terra.Parser.Stack.snoc terra.Parser.Stack.move_top
    terra.Parser.Stack.store_value terra.Parser.Constructors.kind_of
    terra.Parser.Constructors.is_luaexpression terra.Parser.Constructors.check_luaexpression
    terra.Parser.Constructors.recfield_value terra.Parser.Constructors.recfield
    terra.Parser.Constructors.listfield terra.Parser.Constructors.field
    terra.Parser.Constructors.fields terra.Parser.Constructors.constructor
    terra.Parser.Constructors.structfield terra.Parser.Constructors.structbody_round
    terra.Parser.Constructors.structbody terra.Parser.Constructors.structconstructor
    terra.Parser.State.count terra.Parser.State.insert terra.Parser.Rules.loop
    terra.Parser.Rules.singlevar terra.Parser.Rules.expr terra.Parser.Rules.luaexpr
    terra.Parser.Rules.terratype terra.Parser.Rules.checksymbol terra.Parser.Rules.yindex
    terra.Parser.Rules.statlist_round terra.Parser.Rules.statlist terra.Parser.Rules.block
    terra.Parser.Scopes.with_fs terra.Parser.Scopes.with_block terra.Parser.Scopes.definevariable
    terra.Parser.Scopes.search_blocks terra.Parser.Scopes.capture_at terra.Parser.Scopes.captured
    terra.Parser.Scopes.refvariable terra.Parser.Scopes.enterblock terra.Parser.Scopes.leaveblock
    terra.Parser.Scopes.enterterra terra.Parser.Scopes.leaveterra terra.Parser.Scopes.open_func
    terra.Parser.Scopes.close_func terra.Parser.Scopes.open_mainfunc
    terra.Parser.Definitions.print_new_locals terra.Parser.Definitions.print_returns
    terra.Parser.Definitions.print_kinds terra.Parser.Definitions.print_definitions
    terra.Parser.Definitions.name_parts terra.Parser.Definitions.terraname
    terra.Parser.Definitions.starts_terra_stat terra.Parser.Definitions.definition_tree
    terra.Parser.Definitions.definition terra.Parser.Definitions.definitions
    terra.Parser.Definitions.terrastats terra.Parser.Definitions.take_expression
    terra.Parser.Definitions.run terra.Parser.Definitions.reference_all
    terra.Parser.Definitions.intern_name terra.Parser.Definitions.intern_names
    terra.Parser.Definitions.define_first terra.Parser.Definitions.languageextension
    terra.Parser.Expressions.number_type terra.Parser.Expressions.skip_spaces
    terra.Parser.Expressions.number_of_token terra.Parser.Expressions.number_literal
    terra.Parser.Expressions.replace_anonymous terra.Parser.Expressions.anonymous_terra
    terra.Parser.Expressions.anonymous_struct terra.Parser.Expressions.vararg
    terra.Parser.Expressions.simpleexp terra.Parser.Expressions.replace_pointer
    terra.Parser.Expressions.replace_funcpointer terra.Parser.Expressions.unary
    terra.Parser.Expressions.replace_lhs terra.Parser.Expressions.binary
    terra.Parser.Expressions.saved_lhs terra.Parser.Expressions.subexpr
    terra.Parser.Operators.getunopr terra.Parser.Operators.getbinopr terra.Parser.Operators.ordinal
    terra.Parser.Operators.priority terra.Parser.Operators.binds_above
    terra.Parser.Functions.define_all terra.Parser.Functions.vardecl terra.Parser.Functions.params
    terra.Parser.Functions.parlist terra.Parser.Functions.body terra.Parser.Functions.bodyortype
    terra.Parser.Functions.explist terra.Parser.Primary.funcargs terra.Parser.Primary.prefixexp
    terra.Parser.Primary.issplitprimary terra.Parser.Primary.apply
    terra.Parser.Primary.primary_round terra.Parser.Primary.primaryexp terra.Parser.Primary.quoted
    terra.Parser.Primary.print_current_locals terra.Parser.Primary.doquote
    terra.Parser.Primary.blockescape terra.Parser.Statements.load_chunk
    terra.Parser.Statements.embeddedcode terra.Parser.Statements.lhsexp
    terra.Parser.Statements.assignment terra.Parser.Statements.cond terra.Parser.Statements.gotostat
    terra.Parser.Statements.labelstat terra.Parser.Statements.casestat
    terra.Parser.Statements.switchstat terra.Parser.Statements.whilestat
    terra.Parser.Statements.repeatstat terra.Parser.Statements.forbody
    terra.Parser.Statements.fornum terra.Parser.Statements.forlist terra.Parser.Statements.forstat
    terra.Parser.Statements.test_then_block terra.Parser.Statements.ifstat
    terra.Lexer.Scan.luax_next terra.Lexer.Scan.luax_lookahead terra.Lexer.Patch.setinput
    terra.Lexer.Patch.patchbegin terra.Lexer.Patch.patchend terra.Lexer.Patch.saveoutput
    terra.Lexer.Patch.getoutput terra.Lexer.Patch.insertbeforecurrenttoken
    terra.Lexer.Patch.insert_at terra.Strings.init terra.Strings.same_text
    terra.Strings.pushtstringtable terra.Strings.newlstr terra.Strings.poptstringtable
    terra.Lexer.Numeral.c_str terra.OutputBuffer.init terra.OutputBuffer.putc
    terra.OutputBuffer.write_at terra.OutputBuffer.Printf.printf terra.Ctype.lislalpha
    terra.Ctype.lislalnum terra.Ctype.lisdigit terra.Ctype.lisspace terra.Ctype.lisxdigit
    terra.Parser.Main.main_function terra.Parser.Definitions.expression_of within state_of
sum =
    state_of (enterterra plain_lua.unimportlanguages (within b'x' (codes "+y")))
      (within b'x' (codes "+y"))

after_expression : PState
unfolding terra.Parser.Main.localfunc terra.Parser.Main.declarations terra.Parser.Main.localstat
    terra.Parser.Main.funcname terra.Parser.Main.funcstat terra.Parser.Main.exprstat
    terra.Parser.Main.retstat terra.Parser.Main.imports terra.Parser.Main.importstat
    terra.Parser.Main.deferstat terra.Parser.Main.local_statement terra.Parser.Main.statement_of
    terra.Parser.Main.statement terra.Parser.Main.rules terra.Parser.Main.initial
    terra.Parser.Main.main_body terra.Parser.Main.rewind_zeros terra.Parser.Main.finish
    terra.Parser.Main.parser terra.Parser.Output.digits terra.Parser.Output.decimal
    terra.Parser.Output.with_output terra.Parser.Output.print terra.Parser.Output.print_string
    terra.Parser.Output.print_char terra.Parser.Output.tree_text terra.Parser.Output.patchbegin
    terra.Parser.Output.patchend terra.Parser.Output.saveoutput terra.Parser.Output.name_print
    terra.Parser.Output.print_name_list terra.Parser.Output.print_locals
    terra.Parser.Output.print_captured_locals terra.Parser.Output.token2rawstr
    terra.Parser.Checks.check_no_terra terra.Parser.Checks.check_terra
    terra.Parser.Checks.error_expected terra.Parser.Checks.checklimit terra.Parser.Checks.check
    terra.Parser.Checks.next_token terra.Parser.Checks.testnext terra.Parser.Checks.checknext
    terra.Parser.Checks.check_match terra.Parser.Checks.text_of_token
    terra.Parser.Checks.str_checkname terra.Parser.Checks.enterlevel terra.Parser.Checks.leavelevel
    terra.Parser.Checks.starttoken terra.Parser.Checks.block_follow
    terra.Parser.Checks.check_lua_operator terra.Parser.Stack.returns
    terra.Parser.Stack.insert_before terra.Parser.Stack.new_table terra.Parser.Stack.new_list
    terra.Parser.Stack.new_list_before terra.Parser.Stack.push_string_before
    terra.Parser.Stack.push_string terra.Parser.Stack.push_boolean terra.Parser.Stack.push_nil
    terra.Parser.Stack.push_double terra.Parser.Stack.push_integer terra.Parser.Stack.push_type
    terra.Parser.Stack.update_below terra.Parser.Stack.consume terra.Parser.Stack.with_stack
    terra.Parser.Stack.set_field terra.Parser.Stack.add_field terra.Parser.Stack.append
    terra.Parser.Stack.set_entry terra.Parser.Stack.with_entry terra.Parser.Stack.add_entry
    terra.Parser.Stack.pop terra.Parser.Stack.pushed_object terra.Parser.Stack.new_object
    terra.Parser.Stack.push_literal terra.Parser.Stack.snoc terra.Parser.Stack.move_top
    terra.Parser.Stack.store_value terra.Parser.Constructors.kind_of
    terra.Parser.Constructors.is_luaexpression terra.Parser.Constructors.check_luaexpression
    terra.Parser.Constructors.recfield_value terra.Parser.Constructors.recfield
    terra.Parser.Constructors.listfield terra.Parser.Constructors.field
    terra.Parser.Constructors.fields terra.Parser.Constructors.constructor
    terra.Parser.Constructors.structfield terra.Parser.Constructors.structbody_round
    terra.Parser.Constructors.structbody terra.Parser.Constructors.structconstructor
    terra.Parser.State.count terra.Parser.State.insert terra.Parser.Rules.loop
    terra.Parser.Rules.singlevar terra.Parser.Rules.expr terra.Parser.Rules.luaexpr
    terra.Parser.Rules.terratype terra.Parser.Rules.checksymbol terra.Parser.Rules.yindex
    terra.Parser.Rules.statlist_round terra.Parser.Rules.statlist terra.Parser.Rules.block
    terra.Parser.Scopes.with_fs terra.Parser.Scopes.with_block terra.Parser.Scopes.definevariable
    terra.Parser.Scopes.search_blocks terra.Parser.Scopes.capture_at terra.Parser.Scopes.captured
    terra.Parser.Scopes.refvariable terra.Parser.Scopes.enterblock terra.Parser.Scopes.leaveblock
    terra.Parser.Scopes.enterterra terra.Parser.Scopes.leaveterra terra.Parser.Scopes.open_func
    terra.Parser.Scopes.close_func terra.Parser.Scopes.open_mainfunc
    terra.Parser.Definitions.print_new_locals terra.Parser.Definitions.print_returns
    terra.Parser.Definitions.print_kinds terra.Parser.Definitions.print_definitions
    terra.Parser.Definitions.name_parts terra.Parser.Definitions.terraname
    terra.Parser.Definitions.starts_terra_stat terra.Parser.Definitions.definition_tree
    terra.Parser.Definitions.definition terra.Parser.Definitions.definitions
    terra.Parser.Definitions.terrastats terra.Parser.Definitions.take_expression
    terra.Parser.Definitions.run terra.Parser.Definitions.reference_all
    terra.Parser.Definitions.intern_name terra.Parser.Definitions.intern_names
    terra.Parser.Definitions.define_first terra.Parser.Definitions.languageextension
    terra.Parser.Expressions.number_type terra.Parser.Expressions.skip_spaces
    terra.Parser.Expressions.number_of_token terra.Parser.Expressions.number_literal
    terra.Parser.Expressions.replace_anonymous terra.Parser.Expressions.anonymous_terra
    terra.Parser.Expressions.anonymous_struct terra.Parser.Expressions.vararg
    terra.Parser.Expressions.simpleexp terra.Parser.Expressions.replace_pointer
    terra.Parser.Expressions.replace_funcpointer terra.Parser.Expressions.unary
    terra.Parser.Expressions.replace_lhs terra.Parser.Expressions.binary
    terra.Parser.Expressions.saved_lhs terra.Parser.Expressions.subexpr
    terra.Parser.Operators.getunopr terra.Parser.Operators.getbinopr terra.Parser.Operators.ordinal
    terra.Parser.Operators.priority terra.Parser.Operators.binds_above
    terra.Parser.Functions.define_all terra.Parser.Functions.vardecl terra.Parser.Functions.params
    terra.Parser.Functions.parlist terra.Parser.Functions.body terra.Parser.Functions.bodyortype
    terra.Parser.Functions.explist terra.Parser.Primary.funcargs terra.Parser.Primary.prefixexp
    terra.Parser.Primary.issplitprimary terra.Parser.Primary.apply
    terra.Parser.Primary.primary_round terra.Parser.Primary.primaryexp terra.Parser.Primary.quoted
    terra.Parser.Primary.print_current_locals terra.Parser.Primary.doquote
    terra.Parser.Primary.blockescape terra.Parser.Statements.load_chunk
    terra.Parser.Statements.embeddedcode terra.Parser.Statements.lhsexp
    terra.Parser.Statements.assignment terra.Parser.Statements.cond terra.Parser.Statements.gotostat
    terra.Parser.Statements.labelstat terra.Parser.Statements.casestat
    terra.Parser.Statements.switchstat terra.Parser.Statements.whilestat
    terra.Parser.Statements.repeatstat terra.Parser.Statements.forbody
    terra.Parser.Statements.fornum terra.Parser.Statements.forlist terra.Parser.Statements.forstat
    terra.Parser.Statements.test_then_block terra.Parser.Statements.ifstat
    terra.Lexer.Scan.luax_next terra.Lexer.Scan.luax_lookahead terra.Lexer.Patch.setinput
    terra.Lexer.Patch.patchbegin terra.Lexer.Patch.patchend terra.Lexer.Patch.saveoutput
    terra.Lexer.Patch.getoutput terra.Lexer.Patch.insertbeforecurrenttoken
    terra.Lexer.Patch.insert_at terra.Strings.init terra.Strings.same_text
    terra.Strings.pushtstringtable terra.Strings.newlstr terra.Strings.poptstringtable
    terra.Lexer.Numeral.c_str terra.OutputBuffer.init terra.OutputBuffer.putc
    terra.OutputBuffer.write_at terra.OutputBuffer.Printf.printf terra.Ctype.lislalpha
    terra.Ctype.lislalnum terra.Ctype.lisdigit terra.Ctype.lisspace terra.Ctype.lisxdigit
    terra.Parser.Main.main_function terra.Parser.Definitions.expression_of within sum
after_expression = state_of (subexpr plain_lua (rules plain_lua 12) 0 sum) sum

subexpr-Balanced_example : Balanced sum after_expression
unfolding terra.Parser.Main.localfunc terra.Parser.Main.declarations terra.Parser.Main.localstat
    terra.Parser.Main.funcname terra.Parser.Main.funcstat terra.Parser.Main.exprstat
    terra.Parser.Main.retstat terra.Parser.Main.imports terra.Parser.Main.importstat
    terra.Parser.Main.deferstat terra.Parser.Main.local_statement terra.Parser.Main.statement_of
    terra.Parser.Main.statement terra.Parser.Main.rules terra.Parser.Main.initial
    terra.Parser.Main.main_body terra.Parser.Main.rewind_zeros terra.Parser.Main.finish
    terra.Parser.Main.parser terra.Parser.Output.digits terra.Parser.Output.decimal
    terra.Parser.Output.with_output terra.Parser.Output.print terra.Parser.Output.print_string
    terra.Parser.Output.print_char terra.Parser.Output.tree_text terra.Parser.Output.patchbegin
    terra.Parser.Output.patchend terra.Parser.Output.saveoutput terra.Parser.Output.name_print
    terra.Parser.Output.print_name_list terra.Parser.Output.print_locals
    terra.Parser.Output.print_captured_locals terra.Parser.Output.token2rawstr
    terra.Parser.Checks.check_no_terra terra.Parser.Checks.check_terra
    terra.Parser.Checks.error_expected terra.Parser.Checks.checklimit terra.Parser.Checks.check
    terra.Parser.Checks.next_token terra.Parser.Checks.testnext terra.Parser.Checks.checknext
    terra.Parser.Checks.check_match terra.Parser.Checks.text_of_token
    terra.Parser.Checks.str_checkname terra.Parser.Checks.enterlevel terra.Parser.Checks.leavelevel
    terra.Parser.Checks.starttoken terra.Parser.Checks.block_follow
    terra.Parser.Checks.check_lua_operator terra.Parser.Stack.returns
    terra.Parser.Stack.insert_before terra.Parser.Stack.new_table terra.Parser.Stack.new_list
    terra.Parser.Stack.new_list_before terra.Parser.Stack.push_string_before
    terra.Parser.Stack.push_string terra.Parser.Stack.push_boolean terra.Parser.Stack.push_nil
    terra.Parser.Stack.push_double terra.Parser.Stack.push_integer terra.Parser.Stack.push_type
    terra.Parser.Stack.update_below terra.Parser.Stack.consume terra.Parser.Stack.with_stack
    terra.Parser.Stack.set_field terra.Parser.Stack.add_field terra.Parser.Stack.append
    terra.Parser.Stack.set_entry terra.Parser.Stack.with_entry terra.Parser.Stack.add_entry
    terra.Parser.Stack.pop terra.Parser.Stack.pushed_object terra.Parser.Stack.new_object
    terra.Parser.Stack.push_literal terra.Parser.Stack.snoc terra.Parser.Stack.move_top
    terra.Parser.Stack.store_value terra.Parser.Constructors.kind_of
    terra.Parser.Constructors.is_luaexpression terra.Parser.Constructors.check_luaexpression
    terra.Parser.Constructors.recfield_value terra.Parser.Constructors.recfield
    terra.Parser.Constructors.listfield terra.Parser.Constructors.field
    terra.Parser.Constructors.fields terra.Parser.Constructors.constructor
    terra.Parser.Constructors.structfield terra.Parser.Constructors.structbody_round
    terra.Parser.Constructors.structbody terra.Parser.Constructors.structconstructor
    terra.Parser.State.count terra.Parser.State.insert terra.Parser.Rules.loop
    terra.Parser.Rules.singlevar terra.Parser.Rules.expr terra.Parser.Rules.luaexpr
    terra.Parser.Rules.terratype terra.Parser.Rules.checksymbol terra.Parser.Rules.yindex
    terra.Parser.Rules.statlist_round terra.Parser.Rules.statlist terra.Parser.Rules.block
    terra.Parser.Scopes.with_fs terra.Parser.Scopes.with_block terra.Parser.Scopes.definevariable
    terra.Parser.Scopes.search_blocks terra.Parser.Scopes.capture_at terra.Parser.Scopes.captured
    terra.Parser.Scopes.refvariable terra.Parser.Scopes.enterblock terra.Parser.Scopes.leaveblock
    terra.Parser.Scopes.enterterra terra.Parser.Scopes.leaveterra terra.Parser.Scopes.open_func
    terra.Parser.Scopes.close_func terra.Parser.Scopes.open_mainfunc
    terra.Parser.Definitions.print_new_locals terra.Parser.Definitions.print_returns
    terra.Parser.Definitions.print_kinds terra.Parser.Definitions.print_definitions
    terra.Parser.Definitions.name_parts terra.Parser.Definitions.terraname
    terra.Parser.Definitions.starts_terra_stat terra.Parser.Definitions.definition_tree
    terra.Parser.Definitions.definition terra.Parser.Definitions.definitions
    terra.Parser.Definitions.terrastats terra.Parser.Definitions.take_expression
    terra.Parser.Definitions.run terra.Parser.Definitions.reference_all
    terra.Parser.Definitions.intern_name terra.Parser.Definitions.intern_names
    terra.Parser.Definitions.define_first terra.Parser.Definitions.languageextension
    terra.Parser.Expressions.number_type terra.Parser.Expressions.skip_spaces
    terra.Parser.Expressions.number_of_token terra.Parser.Expressions.number_literal
    terra.Parser.Expressions.replace_anonymous terra.Parser.Expressions.anonymous_terra
    terra.Parser.Expressions.anonymous_struct terra.Parser.Expressions.vararg
    terra.Parser.Expressions.simpleexp terra.Parser.Expressions.replace_pointer
    terra.Parser.Expressions.replace_funcpointer terra.Parser.Expressions.unary
    terra.Parser.Expressions.replace_lhs terra.Parser.Expressions.binary
    terra.Parser.Expressions.saved_lhs terra.Parser.Expressions.subexpr
    terra.Parser.Operators.getunopr terra.Parser.Operators.getbinopr terra.Parser.Operators.ordinal
    terra.Parser.Operators.priority terra.Parser.Operators.binds_above
    terra.Parser.Functions.define_all terra.Parser.Functions.vardecl terra.Parser.Functions.params
    terra.Parser.Functions.parlist terra.Parser.Functions.body terra.Parser.Functions.bodyortype
    terra.Parser.Functions.explist terra.Parser.Primary.funcargs terra.Parser.Primary.prefixexp
    terra.Parser.Primary.issplitprimary terra.Parser.Primary.apply
    terra.Parser.Primary.primary_round terra.Parser.Primary.primaryexp terra.Parser.Primary.quoted
    terra.Parser.Primary.print_current_locals terra.Parser.Primary.doquote
    terra.Parser.Primary.blockescape terra.Parser.Statements.load_chunk
    terra.Parser.Statements.embeddedcode terra.Parser.Statements.lhsexp
    terra.Parser.Statements.assignment terra.Parser.Statements.cond terra.Parser.Statements.gotostat
    terra.Parser.Statements.labelstat terra.Parser.Statements.casestat
    terra.Parser.Statements.switchstat terra.Parser.Statements.whilestat
    terra.Parser.Statements.repeatstat terra.Parser.Statements.forbody
    terra.Parser.Statements.fornum terra.Parser.Statements.forlist terra.Parser.Statements.forstat
    terra.Parser.Statements.test_then_block terra.Parser.Statements.ifstat
    terra.Lexer.Scan.luax_next terra.Lexer.Scan.luax_lookahead terra.Lexer.Patch.setinput
    terra.Lexer.Patch.patchbegin terra.Lexer.Patch.patchend terra.Lexer.Patch.saveoutput
    terra.Lexer.Patch.getoutput terra.Lexer.Patch.insertbeforecurrenttoken
    terra.Lexer.Patch.insert_at terra.Strings.init terra.Strings.same_text
    terra.Strings.pushtstringtable terra.Strings.newlstr terra.Strings.poptstringtable
    terra.Lexer.Numeral.c_str terra.OutputBuffer.init terra.OutputBuffer.putc
    terra.OutputBuffer.write_at terra.OutputBuffer.Printf.printf terra.Ctype.lislalpha
    terra.Ctype.lislalnum terra.Ctype.lisdigit terra.Ctype.lisspace terra.Ctype.lisxdigit
    terra.Parser.Main.main_function terra.Parser.Definitions.expression_of within sum
    after_expression state_of
subexpr-Balanced_example =
    subexpr-Balanced plain_lua 12 0 sum after_expression nobinopr (function_of sum) [] refl refl

after_program : PState
unfolding terra.Parser.Main.localfunc terra.Parser.Main.declarations terra.Parser.Main.localstat
    terra.Parser.Main.funcname terra.Parser.Main.funcstat terra.Parser.Main.exprstat
    terra.Parser.Main.retstat terra.Parser.Main.imports terra.Parser.Main.importstat
    terra.Parser.Main.deferstat terra.Parser.Main.local_statement terra.Parser.Main.statement_of
    terra.Parser.Main.statement terra.Parser.Main.rules terra.Parser.Main.initial
    terra.Parser.Main.main_body terra.Parser.Main.rewind_zeros terra.Parser.Main.finish
    terra.Parser.Main.parser terra.Parser.Output.digits terra.Parser.Output.decimal
    terra.Parser.Output.with_output terra.Parser.Output.print terra.Parser.Output.print_string
    terra.Parser.Output.print_char terra.Parser.Output.tree_text terra.Parser.Output.patchbegin
    terra.Parser.Output.patchend terra.Parser.Output.saveoutput terra.Parser.Output.name_print
    terra.Parser.Output.print_name_list terra.Parser.Output.print_locals
    terra.Parser.Output.print_captured_locals terra.Parser.Output.token2rawstr
    terra.Parser.Checks.check_no_terra terra.Parser.Checks.check_terra
    terra.Parser.Checks.error_expected terra.Parser.Checks.checklimit terra.Parser.Checks.check
    terra.Parser.Checks.next_token terra.Parser.Checks.testnext terra.Parser.Checks.checknext
    terra.Parser.Checks.check_match terra.Parser.Checks.text_of_token
    terra.Parser.Checks.str_checkname terra.Parser.Checks.enterlevel terra.Parser.Checks.leavelevel
    terra.Parser.Checks.starttoken terra.Parser.Checks.block_follow
    terra.Parser.Checks.check_lua_operator terra.Parser.Stack.returns
    terra.Parser.Stack.insert_before terra.Parser.Stack.new_table terra.Parser.Stack.new_list
    terra.Parser.Stack.new_list_before terra.Parser.Stack.push_string_before
    terra.Parser.Stack.push_string terra.Parser.Stack.push_boolean terra.Parser.Stack.push_nil
    terra.Parser.Stack.push_double terra.Parser.Stack.push_integer terra.Parser.Stack.push_type
    terra.Parser.Stack.update_below terra.Parser.Stack.consume terra.Parser.Stack.with_stack
    terra.Parser.Stack.set_field terra.Parser.Stack.add_field terra.Parser.Stack.append
    terra.Parser.Stack.set_entry terra.Parser.Stack.with_entry terra.Parser.Stack.add_entry
    terra.Parser.Stack.pop terra.Parser.Stack.pushed_object terra.Parser.Stack.new_object
    terra.Parser.Stack.push_literal terra.Parser.Stack.snoc terra.Parser.Stack.move_top
    terra.Parser.Stack.store_value terra.Parser.Constructors.kind_of
    terra.Parser.Constructors.is_luaexpression terra.Parser.Constructors.check_luaexpression
    terra.Parser.Constructors.recfield_value terra.Parser.Constructors.recfield
    terra.Parser.Constructors.listfield terra.Parser.Constructors.field
    terra.Parser.Constructors.fields terra.Parser.Constructors.constructor
    terra.Parser.Constructors.structfield terra.Parser.Constructors.structbody_round
    terra.Parser.Constructors.structbody terra.Parser.Constructors.structconstructor
    terra.Parser.State.count terra.Parser.State.insert terra.Parser.Rules.loop
    terra.Parser.Rules.singlevar terra.Parser.Rules.expr terra.Parser.Rules.luaexpr
    terra.Parser.Rules.terratype terra.Parser.Rules.checksymbol terra.Parser.Rules.yindex
    terra.Parser.Rules.statlist_round terra.Parser.Rules.statlist terra.Parser.Rules.block
    terra.Parser.Scopes.with_fs terra.Parser.Scopes.with_block terra.Parser.Scopes.definevariable
    terra.Parser.Scopes.search_blocks terra.Parser.Scopes.capture_at terra.Parser.Scopes.captured
    terra.Parser.Scopes.refvariable terra.Parser.Scopes.enterblock terra.Parser.Scopes.leaveblock
    terra.Parser.Scopes.enterterra terra.Parser.Scopes.leaveterra terra.Parser.Scopes.open_func
    terra.Parser.Scopes.close_func terra.Parser.Scopes.open_mainfunc
    terra.Parser.Definitions.print_new_locals terra.Parser.Definitions.print_returns
    terra.Parser.Definitions.print_kinds terra.Parser.Definitions.print_definitions
    terra.Parser.Definitions.name_parts terra.Parser.Definitions.terraname
    terra.Parser.Definitions.starts_terra_stat terra.Parser.Definitions.definition_tree
    terra.Parser.Definitions.definition terra.Parser.Definitions.definitions
    terra.Parser.Definitions.terrastats terra.Parser.Definitions.take_expression
    terra.Parser.Definitions.run terra.Parser.Definitions.reference_all
    terra.Parser.Definitions.intern_name terra.Parser.Definitions.intern_names
    terra.Parser.Definitions.define_first terra.Parser.Definitions.languageextension
    terra.Parser.Expressions.number_type terra.Parser.Expressions.skip_spaces
    terra.Parser.Expressions.number_of_token terra.Parser.Expressions.number_literal
    terra.Parser.Expressions.replace_anonymous terra.Parser.Expressions.anonymous_terra
    terra.Parser.Expressions.anonymous_struct terra.Parser.Expressions.vararg
    terra.Parser.Expressions.simpleexp terra.Parser.Expressions.replace_pointer
    terra.Parser.Expressions.replace_funcpointer terra.Parser.Expressions.unary
    terra.Parser.Expressions.replace_lhs terra.Parser.Expressions.binary
    terra.Parser.Expressions.saved_lhs terra.Parser.Expressions.subexpr
    terra.Parser.Operators.getunopr terra.Parser.Operators.getbinopr terra.Parser.Operators.ordinal
    terra.Parser.Operators.priority terra.Parser.Operators.binds_above
    terra.Parser.Functions.define_all terra.Parser.Functions.vardecl terra.Parser.Functions.params
    terra.Parser.Functions.parlist terra.Parser.Functions.body terra.Parser.Functions.bodyortype
    terra.Parser.Functions.explist terra.Parser.Primary.funcargs terra.Parser.Primary.prefixexp
    terra.Parser.Primary.issplitprimary terra.Parser.Primary.apply
    terra.Parser.Primary.primary_round terra.Parser.Primary.primaryexp terra.Parser.Primary.quoted
    terra.Parser.Primary.print_current_locals terra.Parser.Primary.doquote
    terra.Parser.Primary.blockescape terra.Parser.Statements.load_chunk
    terra.Parser.Statements.embeddedcode terra.Parser.Statements.lhsexp
    terra.Parser.Statements.assignment terra.Parser.Statements.cond terra.Parser.Statements.gotostat
    terra.Parser.Statements.labelstat terra.Parser.Statements.casestat
    terra.Parser.Statements.switchstat terra.Parser.Statements.whilestat
    terra.Parser.Statements.repeatstat terra.Parser.Statements.forbody
    terra.Parser.Statements.fornum terra.Parser.Statements.forlist terra.Parser.Statements.forstat
    terra.Parser.Statements.test_then_block terra.Parser.Statements.ifstat
    terra.Lexer.Scan.luax_next terra.Lexer.Scan.luax_lookahead terra.Lexer.Patch.setinput
    terra.Lexer.Patch.patchbegin terra.Lexer.Patch.patchend terra.Lexer.Patch.saveoutput
    terra.Lexer.Patch.getoutput terra.Lexer.Patch.insertbeforecurrenttoken
    terra.Lexer.Patch.insert_at terra.Strings.init terra.Strings.same_text
    terra.Strings.pushtstringtable terra.Strings.newlstr terra.Strings.poptstringtable
    terra.Lexer.Numeral.c_str terra.OutputBuffer.init terra.OutputBuffer.putc
    terra.OutputBuffer.write_at terra.OutputBuffer.Printf.printf terra.Ctype.lislalpha
    terra.Ctype.lislalnum terra.Ctype.lisdigit terra.Ctype.lisspace terra.Ctype.lisxdigit
    terra.Parser.Main.main_function terra.Parser.Definitions.expression_of
after_program =
    state_of (main_function plain_lua 12 (before b'x' (codes " = 1"))) (before b'x' (codes " = 1"))

parser-Ended_example :
    Ended 0 after_program
    × (parser plain_lua 12
          (start b'x' (codes " = 1"))
          (codes "test")
          (record { n = 4; p = codes " = 1"; blocks = [] })
          (byte b'x')
          []
          0
        ≡ parsed
            (rewind_zeros (contents (putc after_program.lex.output_buffer 0)))
            after_program.trees
            (poptstringtable after_program.lex.strings)
            0)
unfolding terra.Parser.Main.localfunc terra.Parser.Main.declarations terra.Parser.Main.localstat
    terra.Parser.Main.funcname terra.Parser.Main.funcstat terra.Parser.Main.exprstat
    terra.Parser.Main.retstat terra.Parser.Main.imports terra.Parser.Main.importstat
    terra.Parser.Main.deferstat terra.Parser.Main.local_statement terra.Parser.Main.statement_of
    terra.Parser.Main.statement terra.Parser.Main.rules terra.Parser.Main.initial
    terra.Parser.Main.main_body terra.Parser.Main.rewind_zeros terra.Parser.Main.finish
    terra.Parser.Main.parser terra.Parser.Output.digits terra.Parser.Output.decimal
    terra.Parser.Output.with_output terra.Parser.Output.print terra.Parser.Output.print_string
    terra.Parser.Output.print_char terra.Parser.Output.tree_text terra.Parser.Output.patchbegin
    terra.Parser.Output.patchend terra.Parser.Output.saveoutput terra.Parser.Output.name_print
    terra.Parser.Output.print_name_list terra.Parser.Output.print_locals
    terra.Parser.Output.print_captured_locals terra.Parser.Output.token2rawstr
    terra.Parser.Checks.check_no_terra terra.Parser.Checks.check_terra
    terra.Parser.Checks.error_expected terra.Parser.Checks.checklimit terra.Parser.Checks.check
    terra.Parser.Checks.next_token terra.Parser.Checks.testnext terra.Parser.Checks.checknext
    terra.Parser.Checks.check_match terra.Parser.Checks.text_of_token
    terra.Parser.Checks.str_checkname terra.Parser.Checks.enterlevel terra.Parser.Checks.leavelevel
    terra.Parser.Checks.starttoken terra.Parser.Checks.block_follow
    terra.Parser.Checks.check_lua_operator terra.Parser.Stack.returns
    terra.Parser.Stack.insert_before terra.Parser.Stack.new_table terra.Parser.Stack.new_list
    terra.Parser.Stack.new_list_before terra.Parser.Stack.push_string_before
    terra.Parser.Stack.push_string terra.Parser.Stack.push_boolean terra.Parser.Stack.push_nil
    terra.Parser.Stack.push_double terra.Parser.Stack.push_integer terra.Parser.Stack.push_type
    terra.Parser.Stack.update_below terra.Parser.Stack.consume terra.Parser.Stack.with_stack
    terra.Parser.Stack.set_field terra.Parser.Stack.add_field terra.Parser.Stack.append
    terra.Parser.Stack.set_entry terra.Parser.Stack.with_entry terra.Parser.Stack.add_entry
    terra.Parser.Stack.pop terra.Parser.Stack.pushed_object terra.Parser.Stack.new_object
    terra.Parser.Stack.push_literal terra.Parser.Stack.snoc terra.Parser.Stack.move_top
    terra.Parser.Stack.store_value terra.Parser.Constructors.kind_of
    terra.Parser.Constructors.is_luaexpression terra.Parser.Constructors.check_luaexpression
    terra.Parser.Constructors.recfield_value terra.Parser.Constructors.recfield
    terra.Parser.Constructors.listfield terra.Parser.Constructors.field
    terra.Parser.Constructors.fields terra.Parser.Constructors.constructor
    terra.Parser.Constructors.structfield terra.Parser.Constructors.structbody_round
    terra.Parser.Constructors.structbody terra.Parser.Constructors.structconstructor
    terra.Parser.State.count terra.Parser.State.insert terra.Parser.Rules.loop
    terra.Parser.Rules.singlevar terra.Parser.Rules.expr terra.Parser.Rules.luaexpr
    terra.Parser.Rules.terratype terra.Parser.Rules.checksymbol terra.Parser.Rules.yindex
    terra.Parser.Rules.statlist_round terra.Parser.Rules.statlist terra.Parser.Rules.block
    terra.Parser.Scopes.with_fs terra.Parser.Scopes.with_block terra.Parser.Scopes.definevariable
    terra.Parser.Scopes.search_blocks terra.Parser.Scopes.capture_at terra.Parser.Scopes.captured
    terra.Parser.Scopes.refvariable terra.Parser.Scopes.enterblock terra.Parser.Scopes.leaveblock
    terra.Parser.Scopes.enterterra terra.Parser.Scopes.leaveterra terra.Parser.Scopes.open_func
    terra.Parser.Scopes.close_func terra.Parser.Scopes.open_mainfunc
    terra.Parser.Definitions.print_new_locals terra.Parser.Definitions.print_returns
    terra.Parser.Definitions.print_kinds terra.Parser.Definitions.print_definitions
    terra.Parser.Definitions.name_parts terra.Parser.Definitions.terraname
    terra.Parser.Definitions.starts_terra_stat terra.Parser.Definitions.definition_tree
    terra.Parser.Definitions.definition terra.Parser.Definitions.definitions
    terra.Parser.Definitions.terrastats terra.Parser.Definitions.take_expression
    terra.Parser.Definitions.run terra.Parser.Definitions.reference_all
    terra.Parser.Definitions.intern_name terra.Parser.Definitions.intern_names
    terra.Parser.Definitions.define_first terra.Parser.Definitions.languageextension
    terra.Parser.Expressions.number_type terra.Parser.Expressions.skip_spaces
    terra.Parser.Expressions.number_of_token terra.Parser.Expressions.number_literal
    terra.Parser.Expressions.replace_anonymous terra.Parser.Expressions.anonymous_terra
    terra.Parser.Expressions.anonymous_struct terra.Parser.Expressions.vararg
    terra.Parser.Expressions.simpleexp terra.Parser.Expressions.replace_pointer
    terra.Parser.Expressions.replace_funcpointer terra.Parser.Expressions.unary
    terra.Parser.Expressions.replace_lhs terra.Parser.Expressions.binary
    terra.Parser.Expressions.saved_lhs terra.Parser.Expressions.subexpr
    terra.Parser.Operators.getunopr terra.Parser.Operators.getbinopr terra.Parser.Operators.ordinal
    terra.Parser.Operators.priority terra.Parser.Operators.binds_above
    terra.Parser.Functions.define_all terra.Parser.Functions.vardecl terra.Parser.Functions.params
    terra.Parser.Functions.parlist terra.Parser.Functions.body terra.Parser.Functions.bodyortype
    terra.Parser.Functions.explist terra.Parser.Primary.funcargs terra.Parser.Primary.prefixexp
    terra.Parser.Primary.issplitprimary terra.Parser.Primary.apply
    terra.Parser.Primary.primary_round terra.Parser.Primary.primaryexp terra.Parser.Primary.quoted
    terra.Parser.Primary.print_current_locals terra.Parser.Primary.doquote
    terra.Parser.Primary.blockescape terra.Parser.Statements.load_chunk
    terra.Parser.Statements.embeddedcode terra.Parser.Statements.lhsexp
    terra.Parser.Statements.assignment terra.Parser.Statements.cond terra.Parser.Statements.gotostat
    terra.Parser.Statements.labelstat terra.Parser.Statements.casestat
    terra.Parser.Statements.switchstat terra.Parser.Statements.whilestat
    terra.Parser.Statements.repeatstat terra.Parser.Statements.forbody
    terra.Parser.Statements.fornum terra.Parser.Statements.forlist terra.Parser.Statements.forstat
    terra.Parser.Statements.test_then_block terra.Parser.Statements.ifstat
    terra.Lexer.Scan.luax_next terra.Lexer.Scan.luax_lookahead terra.Lexer.Patch.setinput
    terra.Lexer.Patch.patchbegin terra.Lexer.Patch.patchend terra.Lexer.Patch.saveoutput
    terra.Lexer.Patch.getoutput terra.Lexer.Patch.insertbeforecurrenttoken
    terra.Lexer.Patch.insert_at terra.Strings.init terra.Strings.same_text
    terra.Strings.pushtstringtable terra.Strings.newlstr terra.Strings.poptstringtable
    terra.Lexer.Numeral.c_str terra.OutputBuffer.init terra.OutputBuffer.putc
    terra.OutputBuffer.write_at terra.OutputBuffer.Printf.printf terra.Ctype.lislalpha
    terra.Ctype.lislalnum terra.Ctype.lisdigit terra.Ctype.lisspace terra.Ctype.lisxdigit
    terra.Parser.Main.main_function terra.Parser.Definitions.expression_of after_program state_of
parser-Ended_example =
    parser-Ended plain_lua 12 (start b'x' (codes " = 1")) (codes "test")
      (record { n = 4; p = codes " = 1"; blocks = [] }) (byte b'x') [] 0 after_program refl
