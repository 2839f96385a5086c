-- ===== src/Token.antt =====
-- src/llex.h, src/llex.cpp: the token codes, single characters below 257 and the others in the order
-- of the enumeration, and their texts.
use Prim.Native.Char.{code}
use Prim.Native.String.{String}
use terra.Common.{ℕ, List, [], ◌∷◌}

abbrev pub first_reserved : ℕ
first_reserved = 257

abbrev pub tk_and : ℕ
tk_and = 257

abbrev pub tk_break : ℕ
tk_break = 258

abbrev pub tk_case : ℕ
tk_case = 259

abbrev pub tk_do : ℕ
tk_do = 260

abbrev pub tk_else : ℕ
tk_else = 261

abbrev pub tk_elseif : ℕ
tk_elseif = 262

abbrev pub tk_end : ℕ
tk_end = 263

abbrev pub tk_false : ℕ
tk_false = 264

abbrev pub tk_for : ℕ
tk_for = 265

abbrev pub tk_function : ℕ
tk_function = 266

abbrev pub tk_goto : ℕ
tk_goto = 267

abbrev pub tk_if : ℕ
tk_if = 268

abbrev pub tk_in : ℕ
tk_in = 269

abbrev pub tk_local : ℕ
tk_local = 270

abbrev pub tk_nil : ℕ
tk_nil = 271

abbrev pub tk_not : ℕ
tk_not = 272

abbrev pub tk_or : ℕ
tk_or = 273

abbrev pub tk_repeat : ℕ
tk_repeat = 274

abbrev pub tk_return : ℕ
tk_return = 275

abbrev pub tk_then : ℕ
tk_then = 276

abbrev pub tk_true : ℕ
tk_true = 277

abbrev pub tk_until : ℕ
tk_until = 278

abbrev pub tk_while : ℕ
tk_while = 279

abbrev pub tk_terra : ℕ
tk_terra = 280

abbrev pub tk_var : ℕ
tk_var = 281

abbrev pub tk_struct : ℕ
tk_struct = 282

abbrev pub tk_switch : ℕ
tk_switch = 283

abbrev pub tk_union : ℕ
tk_union = 284

abbrev pub tk_quote : ℕ
tk_quote = 285

abbrev pub tk_import : ℕ
tk_import = 286

abbrev pub tk_defer : ℕ
tk_defer = 287

abbrev pub tk_escape : ℕ
tk_escape = 288

abbrev pub tk_concat : ℕ
tk_concat = 289

abbrev pub tk_dots : ℕ
tk_dots = 290

abbrev pub tk_eq : ℕ
tk_eq = 291

abbrev pub tk_ge : ℕ
tk_ge = 292

abbrev pub tk_le : ℕ
tk_le = 293

abbrev pub tk_ne : ℕ
tk_ne = 294

abbrev pub tk_dbcolon : ℕ
tk_dbcolon = 295

abbrev pub tk_func_ptr : ℕ
tk_func_ptr = 296

abbrev pub tk_lshift : ℕ
tk_lshift = 297

abbrev pub tk_rshift : ℕ
tk_rshift = 298

abbrev pub tk_eos : ℕ
tk_eos = 299

abbrev pub tk_number : ℕ
tk_number = 300

abbrev pub tk_name : ℕ
tk_name = 301

abbrev pub tk_string : ℕ
tk_string = 302

abbrev pub tk_special : ℕ
tk_special = 303

-- `NUM_RESERVED`: the reserved words are the codes up to that of `escape`.
abbrev pub num_reserved : ℕ
num_reserved = 32

-- the bytes of an ASCII text
abbrev pub codes : String → List ℕ
codes String.[] = []
codes (String.◌∷◌ c s) = code c ∷ codes s

-- `luaX_tokens` up to `num_reserved`
abbrev pub reserved_words : List (List ℕ)
reserved_words =
    codes "and"
    ∷ codes "break"
    ∷ codes "case"
    ∷ codes "do"
    ∷ codes "else"
    ∷ codes "elseif"
    ∷ codes "end"
    ∷ codes "false"
    ∷ codes "for"
    ∷ codes "function"
    ∷ codes "goto"
    ∷ codes "if"
    ∷ codes "in"
    ∷ codes "local"
    ∷ codes "nil"
    ∷ codes "not"
    ∷ codes "or"
    ∷ codes "repeat"
    ∷ codes "return"
    ∷ codes "then"
    ∷ codes "true"
    ∷ codes "until"
    ∷ codes "while"
    ∷ codes "terra"
    ∷ codes "var"
    ∷ codes "struct"
    ∷ codes "switch"
    ∷ codes "union"
    ∷ codes "quote"
    ∷ codes "import"
    ∷ codes "defer"
    ∷ codes "escape"
    ∷ []

-- the rest of `luaX_tokens`
abbrev pub other_texts : List (List ℕ)
other_texts =
    codes ".."
    ∷ codes "..."
    ∷ codes "=="
    ∷ codes ">="
    ∷ codes "<="
    ∷ codes "~="
    ∷ codes "::"
    ∷ codes "->"
    ∷ codes "<<"
    ∷ codes ">>"
    ∷ codes "<eof>"
    ∷ codes "<number>"
    ∷ codes "<name>"
    ∷ codes "<string>"
    ∷ codes "<special>"
    ∷ []
