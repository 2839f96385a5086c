-- ===== src/Lexer/State.antt =====
-- src/llex.h: `LexState` and the tokens, and the monad of the lexer's functions. The fields that
-- only the parser reads (the scopes, the Lua state) are in the parser's modules.
use terra.Common.{ℕ, Bool, true, false, List, [], ◌∷◌}
use terra.Ctype.{Charint, eoz, byte}
use terra.Zio.{Zio}
use terra.Mbuffer.{Mbuffer}
use terra.OutputBuffer.{OutputBuffer}
use terra.Strings.{TString, Tables}

-- the union of `r` and `ts`; a double is its 64-bit pattern
pub data Value : Type 0 where
  number : ℕ → Value
  text : TString → Value

pub record SemInfo : Type 0 where
  pub value : Value
  pub flags : ℕ
  pub i : ℕ
  pub linebegin : ℕ
  pub buffer_begin : ℕ

pub record Token : Type 0 where
  pub token : ℕ
  pub seminfo : SemInfo

pub record PatchInfo : Type 0 where
  pub buffer : List ℕ
  pub space : ℕ

-- `strings` is the string table of the `terra_State`, and `entry_points` holds the names that the
-- entry-point table maps to a table.
pub record LexState : Type 0 where
  pub current : Charint
  pub linenumber : ℕ
  pub lastline : ℕ
  pub currentoffset : ℕ
  pub t : Token
  pub lookahead : Token
  pub z : Zio
  pub buff : Mbuffer
  pub in_terra : ℕ
  pub output_buffer : OutputBuffer
  pub patchinfo : PatchInfo
  pub languageextensionsenabled : ℕ
  pub strings : Tables
  pub entry_points : List (List ℕ)

-- the messages of `lexerror`
pub data Message : Type 0 where
  element_too_long too_many_lines malformed_number : Message
  unfinished_long_string unfinished_long_comment invalid_long_delimiter : Message
  unfinished_string hexadecimal_expected decimal_too_large invalid_escape : Message

-- a syntax error: its message, its line and the token that it is `near`, zero for none
pub record LexError : Type 0 where
  pub message : Message
  pub linenumber : ℕ
  pub near : ℕ

-- `fault` is an undefined behaviour, such as a read behind the end of the input, and `out_of_fuel`
-- an endless loop; a syntax error is thrown.
pub data Result (A : Type 0) : Type 0 where
  ok : A → LexState → Result A
  err : LexError → Result A
  fault out_of_fuel : Result A

abbrev pub M : Type 0 → Type 0
M A = LexState → Result A

abbrev pub bind : {A B : Type 0} → Result A → (A → M B) → Result B
bind (ok a s) f = f a s
bind (err e) f = err e
bind fault f = fault
bind out_of_fuel f = out_of_fuel

infixl 5 ◌>>=◌ ◌>>◌
abbrev pub ◌>>=◌ : {A B : Type 0} → M A → (A → M B) → M B
m >>= f = λ s. bind (m s) f

abbrev pub ◌>>◌ : {A B : Type 0} → M A → M B → M B
m >> k = m >>= λ _. k

abbrev pub pure : {A : Type 0} → A → M A
pure a s = ok a s

abbrev pub get : M LexState
get s = ok s s

abbrev pub put : LexState → M (Unit {0})
put s' s = ok tt s'

abbrev pub current : M Charint
current s = ok s.current s

abbrev pub when : Bool → M (Unit {0}) → M (Unit {0})
when true m = m
when false m = pure tt

abbrev pub branch : {A : Type 0} → Bool → M A → M A → M A
branch true m k = m
branch false m k = k

-- `lexerror`
abbrev pub lexerror : {A : Type 0} → Message → ℕ → M A
lexerror message token s =
    err (record { message = message; linenumber = s.linenumber; near = token })

-- the unread input, the current character first
abbrev pub unread : Charint → List ℕ → List ℕ
unread eoz rest = []
unread (byte c) rest = c ∷ rest
