-- ===== src/Lib.antt =====
-- The front end of Terra, which reads a Lua program with Terra code in it, and the conventions that
-- its compiler follows for calls.
--
-- The lexer (src/llex.cpp, src/llex.h) reads the bytes of a ZIO stream (src/lzio.cpp), copies each
-- into an output buffer and returns tokens; the parser (src/lparser.cpp) then replaces the Terra
-- parts of the output buffer by Lua code and hands the result to Lua.
--
--   Ctype, Ctype/Table: src/lctype.cpp and src/lctype.h, the character classes.
--   Zio: src/lzio.cpp and the macro `zgetc`; Mbuffer: the token buffer with `save`.
--   OutputBuffer, OutputBuffer/Printf: the output buffer of src/llex.h.
--   Token, Strings: the token codes and the interned strings (src/lstring.cpp, `luaX_init`).
--   Lexer/State: `LexState`, `SemInfo`, `Token` of src/llex.h, and the monad of the functions.
--   Lexer/Basic: `next`, `save`, `inclinenumber`, `check_next`; Lexer/Numeral: `read_numeral` and
--     src/treadnumber.c; Lexer/LongString: `skip_sep`, `read_long_string`; Lexer/ShortString:
--     `read_string` and the escapes; Lexer/Scan: `llex`, `luaX_next`, `luaX_lookahead`.
--   Lexer/Patch: `luaX_setinput` and the functions that replace a part of the output buffer;
--     Lexer/Patch/Replace, Lines and Insert: what they do to the buffer and to its lines.
--   Lexer/Safety: the invariant of the lexer's state and its preservation.
--   Parser/State: `PState`, the trees and the monad of src/lparser.cpp; Parser/Env: Lua and LLVM.
--   Parser/Stack: `new_list` to `store_value`; Parser/Scopes: `definevariable`, `refvariable`, the
--     blocks, functions and Terra parts; Parser/Checks: `check` to `block_follow`;
--     Parser/Operators: the priorities; Parser/Output: `Name_print`, `print_captured_locals`.
--   Parser/Rules, Constructors, Functions, Primary, Expressions, Statements, Definitions, Main: the
--     functions of the grammar in the order of src/lparser.cpp, and `luaY_parser`. A function calls
--     those that are declared before it, and the others through the fields of the record `Rules`,
--     which `rules` ties together.
--
--   Compiler: the calling conventions of src/tcompiler.cpp, `CCallingConv`. Compiler/Types: the types
--     of LLVM and of Terra; Convention: its settings, `MergeValue` and `TypeForClass`; Aggregates: the
--     functions for PowerPC, AArch64 and WebAssembly; Classify: `ClassifyArgument` and `Classify`;
--     Signature: `CreateFunctionType` and `AttributeFnOrCall`.
--
--   Lexer/Terra and Parser/Frames: what every function of the lexer and of the grammar keeps of the
--     state. Parser/Frames has the sizes of a state and the relation `From` between those before
--     and behind a part; Binds to InLua the rules for the actions, Rules to Grammar the functions
--     of the grammar by search with those rules, Whole and Ending the statements, the expressions
--     and the programs.
--
-- A thrown syntax error is a result, with its message, line and token as data; its text is not
-- formatted. Undefined behaviour, such as a read behind the end of a block and a failed `assert`,
-- is the result `fault`. A constructor of a tree (src/terralib.lua) does not raise an error. A
-- loop of the lexer takes as fuel one more than the number of unread characters, since each of its
-- rounds reads one. The fuel of the parser bounds the depth of its calls and the rounds of its
-- loops, and is an argument of `parser`. An int is a natural number, so the overflow of the sizes
-- of the output buffer is not modelled; the counter of the stream and the size of the token buffer
-- have their limits. The number scanner (src/lj_strscan.c, a copy of LuaJIT's), the conversion of
-- integers to doubles, the reader of the stream, Lua, the language extensions and the order of an
-- `llvm::SmallSet` are parameters. A pointer to an interned string is its text. What printf makes
-- of a number is the definition `decimal`. The blanks in front of a token that is replaced are skipped
-- up to the end of the memory that has been written, where the source would read on; the token itself
-- stands behind them, so that the loop of `luaX_patchbegin` ends there.
--
-- The rest of the compiler (src/tcompiler.cpp and what it uses, which emits the code of LLVM), the C importer,
-- the debugger and the driver are not modelled: they work on the structures of LLVM and Clang.
--
-- LLVM's layout of data and `isunit` are the record `Target`, an argument of the conventions. An
-- alignment is a power of 2, so that rounding up is a multiplication. An index or a size is a natural
-- number. A failed `assert` and an access behind the two classes are `none`. The attributes are those
-- of LLVM 12 and later.
mod Common
pub mod Ctype
pub mod OutputBuffer
pub mod Zio
pub mod Mbuffer
pub mod Token
pub mod Strings
pub mod Lexer
pub mod Parser
pub mod Compiler
mod Tests
mod ParserTests
mod ParserRuns
mod CompilerTests
