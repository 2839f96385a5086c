-- ===== src/OutputBuffer/Laws.antt =====
-- src/llex.h: the writes of `OutputBuffer` append, stay within the space, and double it.
use terra.Common.{
  ℕ, zero, suc, ◌+◌, ◌-◌, ◌*◌, ◌≤◌, min, max, ◌≡◌, refl, ap, ◌∙◌, sym, List, [], ◌∷◌, ◌++◌,
  append_assoc, arith, ltb, ◌==◌, length, take, drop, length-append, take-length_append,
  length-take, length-drop, inl, inr, Bool-cases, ==→eq,
}
use terra.OutputBuffer.{
  OutputBuffer, IsValid, contents, write_at, resize, make_room, append_bytes, putc, puts, rewind,
}

pub take-all {ℓ} : {A : Type ℓ} (n : ℕ) (xs : List A) → length xs ≤ n → take n xs ≡ xs
take-all zero [] h = refl
take-all zero (x ∷ xs) h = elim h [ ]
take-all (suc n) [] h = refl
take-all (suc n) (x ∷ xs) h = ap (λ r. x ∷ r) (take-all n xs (omega arith))

pub take_front {ℓ} :
    {A : Type ℓ} (xs ys zs : List A) → take (length xs + length ys) (xs ++ (ys ++ zs)) ≡ xs ++ ys
take_front [] ys zs =
    let e : 0 + length ys ≡ length ys = omega arith in rw e (take-length_append ys zs)
take_front (x ∷ xs) ys zs =
    let e : suc (length xs) + length ys ≡ suc (length xs + length ys) = omega arith in
    rw e (ap (λ r. x ∷ r) (take_front xs ys zs))

pub write_at-length :
    (bytes str : List ℕ) (at space : ℕ)
    → at ≤ length bytes
    → at + length str ≤ space
    → length bytes ≤ space
    → (at + length str ≤ length (write_at bytes at str)) × (length (write_at bytes at str) ≤ space)
unfolding write_at
write_at-length bytes str at space h k l =
    let rest : List ℕ = drop (at + length str) bytes in
    let e1 = length-append (take at bytes) (str ++ rest) in
    let e2 = length-append str rest in
    let e3 = length-take at bytes h in let e4 = length-drop (at + length str) bytes in omega arith

pub take-write_at :
    (bytes str : List ℕ) (at : ℕ)
    → at ≤ length bytes
    → take (at + length str) (write_at bytes at str) ≡ take at bytes ++ str
unfolding write_at
take-write_at bytes str at h =
    let e = take_front (take at bytes) str (drop (at + length str) bytes) in
    rw (length-take at bytes h) at e

-- the front of a write that goes on
pub take-write_at_part :
    (bytes str extra : List ℕ) (at : ℕ)
    → at ≤ length bytes
    → take (at + length str) (write_at bytes at (str ++ extra)) ≡ take at bytes ++ str
unfolding write_at
take-write_at_part bytes str extra at h =
    let rest : List ℕ = drop (at + length (str ++ extra)) bytes in
    let e = take_front (take at bytes) str (extra ++ rest) in
    rw (append_assoc str extra rest) (rw (length-take at bytes h) at e)

pub take-take_le {ℓ} : {A : Type ℓ} (n m : ℕ) (xs : List A) → n ≤ m → take n (take m xs) ≡ take n xs
take-take_le zero m xs h = refl
take-take_le (suc n) zero xs h = elim h [ ]
take-take_le (suc n) (suc m) [] h = refl
take-take_le (suc n) (suc m) (x ∷ xs) h = ap (λ r. x ∷ r) (take-take_le n m xs (omega arith))

-- A reallocation to a larger space keeps everything.
pub resize_larger :
    (buf : OutputBuffer) (newsize : ℕ)
    → IsValid buf
    → buf.space ≤ newsize
    → IsValid (resize buf newsize)
      × (contents (resize buf newsize) ≡ contents buf)
      × ((resize buf newsize).n ≡ buf.n)
unfolding resize
resize_larger buf newsize v h =
    let whole = take-all newsize buf.bytes (omega arith) in
    let same : min newsize buf.n ≡ buf.n = omega arith in
    (
      rw whole (record { within = omega arith; fits = omega arith; roomy = omega arith }),
      rw (whole, same) refl,
      same,
    )

pub make_room_lem :
    (buf : OutputBuffer)
    → IsValid buf
    → IsValid (make_room buf)
      × (contents (make_room buf) ≡ contents buf)
      × ((make_room buf).n ≡ buf.n)
      × (suc buf.n ≤ (make_room buf).space)
unfolding make_room
make_room_lem buf v = elim (Bool-cases (buf.n == buf.space)) [
  | inl full ↦
      let e = ==→eq _ _ full in
      let larger = resize_larger buf (buf.space * 2) v (omega arith) in
      rw full (larger.0, larger.1, larger.2, unfold resize in omega arith)
  | inr room ↦ rw room (v, refl, refl, ground arith)
]

append_bytes_lem :
    (buf : OutputBuffer) (str : List ℕ)
    → IsValid buf
    → buf.n + length str ≤ buf.space
    → IsValid (append_bytes buf str) × (contents (append_bytes buf str) ≡ contents buf ++ str)
unfolding append_bytes
append_bytes_lem buf str v h =
    let sizes = write_at-length buf.bytes str buf.n buf.space v.within h v.fits in
    (
      record { within = sizes.0; fits = sizes.1; roomy = v.roomy },
      take-write_at buf.bytes str buf.n v.within,
    )

-- A byte is appended behind what the buffer holds, within its space.
pub contents-putc :
    (buf : OutputBuffer) (c : ℕ)
    → IsValid buf
    → IsValid (putc buf c)
      × (contents (putc buf c) ≡ contents buf ++ c ∷ [])
      × ((putc buf c).n ≡ buf.n + 1)
unfolding putc append_bytes
contents-putc buf c v =
    let room = make_room_lem buf v in
    let done = append_bytes_lem (make_room buf) (c ∷ []) room.0 (omega arith) in
    (done.0, done.1 ∙ ap (λ r. r ++ c ∷ []) room.1, omega arith)

-- A text is appended behind what the buffer holds, within its space.
pub contents-puts :
    (buf : OutputBuffer) (str : List ℕ)
    → IsValid buf
    → IsValid (puts buf str)
      × (contents (puts buf str) ≡ contents buf ++ str)
      × ((puts buf str).n ≡ buf.n + length str)
unfolding puts
contents-puts buf str v = elim (Bool-cases (ltb buf.space (buf.n + length str))) [
  | inl full ↦
      let size = max (buf.space * 2) (buf.n + length str) in
      let larger = resize_larger buf size v (omega arith) in
      let done = append_bytes_lem (resize buf size) str larger.0 (unfold resize in omega arith) in
      rw full (done.0, done.1 ∙ ap (λ r. r ++ str) larger.1, unfold append_bytes in omega arith)
  | inr room ↦
      let done = append_bytes_lem buf str v (ground arith) in
      rw room (done.0, done.1, unfold append_bytes in refl)
]

-- A rewind forgets the last `size` bytes, or all of them.
pub contents-rewind :
    (buf : OutputBuffer) (size : ℕ)
    → IsValid buf
    → IsValid (rewind buf size) × (contents (rewind buf size) ≡ take (buf.n - size) (contents buf))
unfolding rewind
contents-rewind buf size v =
    let e : buf.n - min buf.n size ≡ buf.n - size = omega arith in
    (
      record { within = omega arith; fits = v.fits; roomy = v.roomy },
      rw e (sym (take-take_le (buf.n - size) buf.n buf.bytes (omega arith))),
    )
