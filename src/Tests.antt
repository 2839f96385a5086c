-- ===== src/Tests.antt =====
-- The theorems at concrete inputs, and runs of the definitions.
use terra.Common.{
  ℕ, zero, suc, ◌/◌, ◌≤◌, ◌≡◌, refl, none, some, List, [], ◌∷◌, arith, ◌==◌, if◌then◌else◌, length,
  drop, ◌⊎◌, ◌||◌,
}
use terra.Ctype.{byte, lislalpha, lislalnum, lisdigit, lisspace, lisprint, lisxdigit}
use terra.Ctype.Ranges.{lislalnum-ranges, is_letter, is_digit, is_space, is_hexa, within}
use terra.Zio
use terra.Zio.{Zio, zgetc, pending}
use terra.Zio.Pending.{Gets, zgetc-pending}
use terra.Zio.Read.{Reads, read-pending}
use terra.Mbuffer
use terra.Mbuffer.{Mbuffer, save_lem}
use terra.OutputBuffer
use terra.OutputBuffer.{OutputBuffer, contents}
use terra.OutputBuffer.Laws.{contents-putc, contents-puts}
use terra.OutputBuffer.Printf.{Appends, printf, printf-Appends}
use terra.Strings
use terra.Strings.Reserved.{
  Fits, KnowsReserved, reserved_code, newlstr-KnowsReserved, init-KnowsReserved,
}
use terra.Token.{codes, tk_eos}
use terra.Lexer.State.{LexState, Token, SemInfo, number, Result, ok, err, fault, out_of_fuel}
use terra.Lexer.Numeral.{Numbers, int}
use terra.Lexer.Scan.{luax_next, luax_lookahead}
use terra.Lexer.Patch.{patchbegin, skip_blanks, count_newlines, insertbeforecurrenttoken, setinput}
use terra.Lexer.Patch.Insert.{insertbeforecurrenttoken_lem}
use terra.Lexer.Patch.Replace.{replaced, replaced_lem, setinput-IsValid}
use terra.Lexer.Safety.Follows.{IsValid}
use terra.Lexer.Patch.Lines.{line_at, replaced_lines}
use terra.Lexer.Safety.Tokens.{EndsOnNext, luax_next-Ends, luax_next-lookahead}

abbrev empty_info : SemInfo
empty_info = record { value = number 0; flags = 0; i = 0; linebegin = 0; buffer_begin = 0 }

abbrev no_token : Token
no_token = record { token = tk_eos; seminfo = empty_info }

-- a state on the text `c ∷ cs`, whose first character has been read
abbrev start : ℕ → List ℕ → LexState
start c cs = record {
  current = byte c;
  linenumber = 1;
  lastline = 1;
  currentoffset = 0;
  t = no_token;
  lookahead = no_token;
  z = record { n = length cs; p = cs; blocks = [] };
  buff = record { buffer = []; buffsize = 32 };
  in_terra = 0;
  output_buffer = record { n = 1; space = 1024; bytes = c ∷ [] };
  patchinfo = record { buffer = []; space = 32 };
  languageextensionsenabled = 0;
  strings = Strings.init;
  entry_points = [];
}

start-IsValid : (c : ℕ) (cs : List ℕ) → IsValid (start c cs)
start-IsValid c cs = record {
  output = record { within = omega arith; fits = omega arith; roomy = omega arith };
  buff = record { fits = omega arith; roomy = omega arith };
  live = (refl, omega arith);
}

-- a scanner that takes every numeral for the integer 7
abbrev sevens : Numbers
sevens = record { strscan = λ text opt. (int, 7); double_of = λ n. n; uninitialised = 0 }

tokens : ℕ → LexState → List ℕ
unfolding luax_next
tokens zero s = []
tokens (suc n) s = elim (luax_next sevens s) [
  | ok a s' ↦ let rest = tokens n s' in if s'.t.token == tk_eos then [] else s'.t.token ∷ rest
  | err e ↦ 1 ∷ []
  | fault ↦ 2 ∷ []
  | out_of_fuel ↦ 3 ∷ []
]

-- if f x_1 == 0x1p-5 then, two comments, return, a long string, .., a short string, end, ~
tokens_sample :
    tokens 20 (
      start b'i' (
        codes
          "f x_1 == 0x1p-5 then\n-- c\n --[=[ d ]] ]=] return [[a]] .. '\\065\\x41\\z  q' end ~"))
    ≡ 268 ∷ 301 ∷ 291 ∷ 300 ∷ 276 ∷ 275 ∷ 302 ∷ 289 ∷ 302 ∷ 263 ∷ 126 ∷ []
unfolding tokens Strings.init lislalpha lislalnum lisdigit lisspace lisxdigit
tokens_sample = refl

luax_next-Ends_example :
    EndsOnNext sevens (start b'i' (codes "f x")) (luax_next sevens (start b'i' (codes "f x")))
luax_next-Ends_example =
    luax_next-Ends sevens (start b'i' (codes "f x")) (start-IsValid b'i' (codes "f x"))

-- two blocks of a reader, the first one partly read
abbrev blocks_stream : Zio
blocks_stream = record { n = 2; p = 1 ∷ 2 ∷ []; blocks = (3 ∷ 4 ∷ []) ∷ (5 ∷ []) ∷ [] }

read-pending_example : Reads [] 4 (1 ∷ 2 ∷ 3 ∷ 4 ∷ 5 ∷ []) (Zio.read blocks_stream 4)
read-pending_example = read-pending blocks_stream 4 refl

zgetc-pending_example : Gets (1 ∷ 2 ∷ 3 ∷ 4 ∷ 5 ∷ []) (zgetc blocks_stream)
zgetc-pending_example = zgetc-pending blocks_stream refl

-- a full buffer of two bytes
abbrev full_buffer : OutputBuffer
full_buffer = record { n = 2; space = 2; bytes = 7 ∷ 8 ∷ [] }

full_buffer-IsValid : OutputBuffer.IsValid full_buffer
full_buffer-IsValid = record { within = omega arith; fits = omega arith; roomy = omega arith }

printf-Appends_example : Appends full_buffer (1 ∷ 2 ∷ 3 ∷ []) (printf full_buffer (1 ∷ 2 ∷ 3 ∷ []))
printf-Appends_example = printf-Appends full_buffer (1 ∷ 2 ∷ 3 ∷ []) full_buffer-IsValid

contents-puts_example :
    OutputBuffer.IsValid (OutputBuffer.puts full_buffer (1 ∷ 2 ∷ []))
    × (contents (OutputBuffer.puts full_buffer (1 ∷ 2 ∷ [])) ≡ 7 ∷ 8 ∷ 1 ∷ 2 ∷ [])
    × ((OutputBuffer.puts full_buffer (1 ∷ 2 ∷ [])).n ≡ 4)
contents-puts_example = contents-puts full_buffer (1 ∷ 2 ∷ []) full_buffer-IsValid

contents-putc_example :
    OutputBuffer.IsValid (OutputBuffer.putc full_buffer 1)
    × (contents (OutputBuffer.putc full_buffer 1) ≡ 7 ∷ 8 ∷ 1 ∷ [])
    × ((OutputBuffer.putc full_buffer 1).n ≡ 3)
contents-putc_example = contents-putc full_buffer 1 full_buffer-IsValid

abbrev small_mbuffer : Mbuffer
small_mbuffer = record { buffer = 1 ∷ []; buffsize = 1 }

save_example :
    ((r : Mbuffer) × (Mbuffer.save small_mbuffer 2 ≡ some r)
      × (r.buffer ≡ 1 ∷ 2 ∷ [])
      × Mbuffer.IsValid r)
    ⊎ ((Mbuffer.save small_mbuffer 2 ≡ none) × (Mbuffer.max_sizet / 2 ≤ 1))
save_example = save_lem small_mbuffer 2 (record { fits = omega arith; roomy = omega arith })

lislalnum-ranges_example :
    (lislalpha (byte b'x') ≡ is_letter b'x')
    × (lislalnum (byte b'x') ≡ (is_letter b'x' || is_digit b'x'))
    × (lisdigit (byte b'x') ≡ is_digit b'x')
    × (lisspace (byte b'x') ≡ is_space b'x')
    × (lisprint (byte b'x') ≡ within 32 126 b'x')
    × (lisxdigit (byte b'x') ≡ is_hexa b'x')
lislalnum-ranges_example = lislalnum-ranges b'x' (omega arith)

-- the state behind a run
state_of : Result ℕ → LexState → LexState
state_of (ok a s) d = s
state_of (err e) d = d
state_of fault d = d
state_of out_of_fuel d = d

abbrev if_x : LexState
if_x = start b'i' (codes "f x")

looked_ahead : LexState
unfolding state_of luax_lookahead Strings.init lislalpha lislalnum
looked_ahead = state_of (luax_lookahead sevens if_x) if_x

lookahead_run : luax_lookahead sevens if_x ≡ ok 268 looked_ahead
unfolding looked_ahead
lookahead_run = refl

luax_next-lookahead_example :
    (looked_ahead.t ≡ no_token)
    × ((s : LexState) × (luax_next sevens looked_ahead ≡ ok tt s)
        × (s.t ≡ looked_ahead.lookahead)
        × (s.t.token ≡ 268)
        × (s.lookahead.token ≡ tk_eos)
        × (s.current ≡ looked_ahead.current)
        × (s.z ≡ looked_ahead.z)
        × (s.output_buffer ≡ looked_ahead.output_buffer))
luax_next-lookahead_example =
    luax_next-lookahead sevens if_x looked_ahead 268 (start-IsValid b'i' (codes "f x"))
      lookahead_run (omega arith)

-- The current token is the `u`, on line 4 of the source; the token to replace begins behind `a`.
abbrev patched_buffer : OutputBuffer
patched_buffer = record { n = 6; space = 1024; bytes = codes "a\n t u" }

abbrev patched_state : LexState
patched_state = record (start b'a' []) {
  output_buffer = patched_buffer;
  t = record { token = b'u'; seminfo = record empty_info { linebegin = 4; buffer_begin = 5 } };
}

abbrev replaced_token : Token
replaced_token = record {
  token = b't';
  seminfo = record empty_info { linebegin = 1; buffer_begin = 1 };
}

-- `r` has been written in place of `t `.
abbrev written_buffer : OutputBuffer
written_buffer = record { n = 4; space = 1024; bytes = codes "a\n r u" }

patched_buffer-IsValid : OutputBuffer.IsValid patched_buffer
patched_buffer-IsValid = record { within = omega arith; fits = omega arith; roomy = omega arith }

replaced_lem_example :
    OutputBuffer.IsValid (replaced patched_state replaced_token written_buffer).output_buffer
    × (contents (replaced patched_state replaced_token written_buffer).output_buffer
        ≡ codes "a\n r\n\nu")
    × (drop
          (replaced patched_state replaced_token written_buffer).t.seminfo.buffer_begin
          (contents (replaced patched_state replaced_token written_buffer).output_buffer)
        ≡ codes "u")
unfolding patchbegin skip_blanks count_newlines
replaced_lem_example =
    replaced_lem patched_state replaced_token (b'r' ∷ []) written_buffer patched_buffer-IsValid
      (omega arith) (omega arith)
      (record { within = omega arith; fits = omega arith; roomy = omega arith }) refl

replaced_lines_example :
    line_at
      (replaced patched_state replaced_token written_buffer).output_buffer
      (replaced patched_state replaced_token written_buffer).t.seminfo.buffer_begin
    ≡ 4
unfolding patchbegin skip_blanks count_newlines
replaced_lines_example =
    replaced_lines patched_state replaced_token (b'r' ∷ []) written_buffer patched_buffer-IsValid
      (omega arith) (omega arith)
      (record { within = omega arith; fits = omega arith; roomy = omega arith }) refl refl
      ((λ e. omega arith), ((λ e. omega arith), tt))

insertbeforecurrenttoken_lem_example :
    OutputBuffer.IsValid (insertbeforecurrenttoken patched_state b'(').output_buffer
    × (contents (insertbeforecurrenttoken patched_state b'(').output_buffer ≡ codes "a\n t (u")
    × ((insertbeforecurrenttoken patched_state b'(').t.seminfo.buffer_begin ≡ 6)
insertbeforecurrenttoken_lem_example =
    insertbeforecurrenttoken_lem patched_state b'(' patched_buffer-IsValid (omega arith)

setinput-IsValid_example : IsValid (setinput blocks_stream (byte b'a') patched_state)
setinput-IsValid_example =
    setinput-IsValid blocks_stream b'a' patched_state refl patched_buffer-IsValid (omega arith)

newlstr-KnowsReserved_example :
    ((Strings.newlstr Strings.init (codes "while")).0.string ≡ codes "while")
    × ((Strings.newlstr Strings.init (codes "while")).0.reserved ≡ reserved_code (codes "while"))
    × KnowsReserved (Strings.newlstr Strings.init (codes "while")).1
newlstr-KnowsReserved_example =
    newlstr-KnowsReserved Strings.init (codes "while") init-KnowsReserved

init-KnowsReserved_example : Fits (codes "quote") (Strings.gettable (codes "quote") Strings.init)
init-KnowsReserved_example = init-KnowsReserved (codes "quote")
