-- ===== src/Lexer/Patch/Laws.antt =====
-- src/llex.cpp: the parts of a replacement in the output buffer.
use terra.Common.{
  ℕ, zero, suc, ◌+◌, ◌-◌, ◌≤◌, ◌≡◌, refl, ap, ◌∙◌, sym, List, [], ◌∷◌, ◌++◌, append_assoc,
  append-nil, arith, length, take, drop, length-take, take-nil,
}
use terra.OutputBuffer
use terra.OutputBuffer.{OutputBuffer, contents, write_at, putc, puts}
use terra.OutputBuffer.Laws.{contents-putc}
use terra.Lexer.Patch.{pad, count_newlines}

pub drop-take {ℓ} :
    {A : Type ℓ} (i n : ℕ) (xs : List A) → i ≤ n → drop i (take n xs) ≡ take (n - i) (drop i xs)
drop-take zero n xs h = let e : n - 0 ≡ n = omega arith in rw e refl
drop-take (suc i) zero xs h = elim h [ ]
drop-take (suc i) (suc n) [] h = sym (take-nil (suc n - suc i))
drop-take (suc i) (suc n) (x ∷ xs) h =
    let e : suc n - suc i ≡ n - i = omega arith in rw e (drop-take i n xs (omega arith))

abbrev pub newlines : ℕ → List ℕ
newlines zero = []
newlines (suc n) = b'\n' ∷ newlines n

pub count_newlines-newlines : (n : ℕ) → count_newlines (newlines n) ≡ n
unfolding count_newlines
count_newlines-newlines zero = refl
count_newlines-newlines (suc n) = omega (arith, count_newlines-newlines n)

pub count_newlines-append :
    (xs ys : List ℕ) → count_newlines (xs ++ ys) ≡ count_newlines xs + count_newlines ys
unfolding count_newlines
count_newlines-append [] ys = omega arith
count_newlines-append (c ∷ xs) ys = ground (arith, count_newlines-append xs ys)

-- The padding appends newlines.
pub pad_lem :
    (n : ℕ) (ob : OutputBuffer)
    → OutputBuffer.IsValid ob
    → OutputBuffer.IsValid (pad n ob)
      × (contents (pad n ob) ≡ contents ob ++ newlines n)
      × ((pad n ob).n ≡ ob.n + n)
unfolding pad
pad_lem zero ob v = (v, sym (append-nil (contents ob)), omega arith)
pad_lem (suc n) ob v =
    let put = contents-putc ob b'\n' v in
    let rest = pad_lem n (putc ob b'\n') put.0 in
    (
      rest.0,
      rest.1
          ∙ ap (λ r. r ++ newlines n) put.1
          ∙ append_assoc (contents ob) (b'\n' ∷ []) (newlines n),
      omega arith,
    )

pub length-contents : (ob : OutputBuffer) → OutputBuffer.IsValid ob → length (contents ob) ≡ ob.n
length-contents ob v = length-take ob.n ob.bytes v.within
