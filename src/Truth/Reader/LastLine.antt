-- ===== src/Truth/Reader/LastLine.antt =====
-- The last line of a file that lines are appended to (truth-service/app/jsonl_reader.py).
use pg_stress.Prelude.{
  ℕ, zero, suc, ◌+◌, ◌-◌, ◌≤◌, ◌<◌, false, some, [], ◌∷◌, ◌++◌, append_assoc, length, length-append,
  ltb, nat_eq, ◌&&◌, ◌≡◌, refl, sym, ap, ◌∙◌, ◌⊎◌, inl, inr, arith,
}
use pg_stress.Prelude.Chars.{Chars, any_char, has_char, strip}
use pg_stress.Prelude.Result.{ok}
use pg_stress.Floats.{Floats}
use pg_stress.Truth.Reader.{
  Decoders, byte_at, drop, readline, line_start, last_bytes, decoded, read_bytes, read_last_line,
}

sum_suc : (m n : ℕ) → suc m + n ≡ suc (m + n)
sum_suc m n = omega arith

byte_at-append : (p s : Chars) (i : ℕ) → byte_at (length p + i) (p ++ s) ≡ byte_at i s
unfolding byte_at
byte_at-append [] s i = ap (λ n. byte_at n s) (omega arith)
byte_at-append (c ∷ p) s i =
    ap (λ n. byte_at n (c ∷ (p ++ s))) (sum_suc (length p) i) ∙ byte_at-append p s i

drop-append : (p s : Chars) → drop (length p) (p ++ s) ≡ s
unfolding drop
drop-append [] s = refl
drop-append (c ∷ p) s = drop-append p s

readline-append : (l : Chars) → has_char 10 l ≡ false → readline (l ++ 10 ∷ []) ≡ l ++ 10 ∷ []
unfolding readline any_char
readline-append [] h = refl
readline-append (c ∷ l) h = ground (arith, readline-append l)

-- No byte of the last line ends an earlier one.
no_line_end :
    (l : Chars) (i : ℕ)
    → i ≤ length l
    → has_char 10 l ≡ false
    → (nat_eq (byte_at i (l ++ 10 ∷ [])) 10 && ltb i (length l)) ≡ false
unfolding byte_at any_char
no_line_end [] i b h = ground arith
no_line_end (c ∷ l) zero b h = ground (arith, h)
no_line_end (c ∷ l) (suc i) b h = ground (arith, no_line_end l i, h)

module _ (f l : Chars) (plain : has_char 10 l ≡ false) where
  size : length (f ++ (l ++ 10 ∷ [])) - 1 ≡ length f + length l
  size = omega (arith, length-append f (l ++ 10 ∷ []), length-append l (10 ∷ []))

  line_start-suc :
      (j i : ℕ)
      → suc j ≡ length f + i
      → i ≤ length l
      → line_start (suc j) (f ++ (l ++ 10 ∷ [])) ≡ line_start j (f ++ (l ++ 10 ∷ []))
  unfolding line_start
  line_start-suc j i e b =
      rw (e, size, byte_at-append f (l ++ 10 ∷ []) i) (ground (arith, no_line_end l i b plain))

-- A file to which lines are appended: empty, or a line end after at least one byte.
abbrev pub IsClosed : Chars → Type 0
IsClosed f = (f ≡ []) ⊎ ((p : Chars) × (0 < length p) × (f ≡ p ++ 10 ∷ []))

-- From any byte of the last line the scan ends where the line begins.
line_start-only :
    (l : Chars) (i : ℕ) → has_char 10 l ≡ false → i ≤ length l → line_start i (l ++ 10 ∷ []) ≡ 0
unfolding line_start
line_start-only l zero h b = refl
line_start-only l (suc i) h b =
    line_start-suc [] l h i (suc i) (omega arith) b ∙ line_start-only l i h (omega (arith, b))

line_start-found :
    (s : Chars) (n : ℕ)
    → byte_at (suc n) s ≡ 10
    → suc n < length s - 1
    → line_start (suc n) s ≡ suc (suc n)
unfolding line_start
line_start-found s n h b = ground (arith, h, b)

length_closed : (p : Chars) → length (p ++ 10 ∷ []) ≡ suc (length p)
length_closed p = omega (arith, length-append p (10 ∷ []))

byte_at_line_end : (p s : Chars) → byte_at (length p) ((p ++ 10 ∷ []) ++ s) ≡ 10
unfolding byte_at
byte_at_line_end p s =
    ap (λ n. byte_at n ((p ++ 10 ∷ []) ++ s)) (omega arith)
    ∙ ap (byte_at (length p + 0)) (append_assoc p (10 ∷ []) s)
    ∙ byte_at-append p (10 ∷ s) 0

line_start-line_end :
    (p l : Chars)
    → 0 < length p
    → has_char 10 l ≡ false
    → line_start (length p) ((p ++ 10 ∷ []) ++ (l ++ 10 ∷ [])) ≡ suc (length p)
line_start-line_end p l n h =
    let e : length p ≡ suc (length p - 1) = omega (arith, n) in
    ap (λ k. line_start k ((p ++ 10 ∷ []) ++ (l ++ 10 ∷ []))) e
    ∙ line_start-found _ (length p - 1)
        (ap (λ k. byte_at k ((p ++ 10 ∷ []) ++ (l ++ 10 ∷ []))) (sym e)
          ∙ byte_at_line_end p (l ++ 10 ∷ []))
        (omega (arith, n, size (p ++ 10 ∷ []) l h, length_closed p))
    ∙ ap suc (sym e)

line_start-after :
    (p l : Chars) (i : ℕ)
    → 0 < length p
    → has_char 10 l ≡ false
    → i ≤ length l
    → line_start (suc (length p) + i) ((p ++ 10 ∷ []) ++ (l ++ 10 ∷ [])) ≡ suc (length p)
line_start-after p l zero n h b =
    ap (λ k. line_start k ((p ++ 10 ∷ []) ++ (l ++ 10 ∷ []))) (omega arith)
    ∙ line_start-suc (p ++ 10 ∷ []) l h (length p) 0 (omega (arith, length_closed p)) b
    ∙ line_start-line_end p l n h
line_start-after p l (suc i) n h b =
    ap (λ k. line_start k ((p ++ 10 ∷ []) ++ (l ++ 10 ∷ []))) (omega arith)
    ∙ line_start-suc (p ++ 10 ∷ []) l h (suc (length p) + i) (suc i)
        (omega (arith, length_closed p)) b
    ∙ line_start-after p l i n h (omega (arith, b))

line_start-last :
    (f l : Chars)
    → IsClosed f
    → has_char 10 l ≡ false
    → line_start (length f + length l) (f ++ (l ++ 10 ∷ [])) ≡ length f
line_start-last f l (inl e) h = rw e (
    ap (λ k. line_start k (l ++ 10 ∷ [])) (omega arith)
    ∙ line_start-only l (length l) h (omega arith))
line_start-last f l (inr (p, n, e)) h =
    rw (e, length_closed p) (line_start-after p l (length l) n h (omega arith))

last_bytes-some :
    (s : Chars)
    → 0 < length s
    → last_bytes s ≡ some (readline (drop (line_start (length s - 1) s) s))
unfolding last_bytes
last_bytes-some [] h = absurd (omega (arith, h))
last_bytes-some (c ∷ s) h = refl

last_bytes-append :
    (f l : Chars)
    → IsClosed f
    → has_char 10 l ≡ false
    → last_bytes (f ++ (l ++ 10 ∷ [])) ≡ some (l ++ 10 ∷ [])
last_bytes-append f l c h =
    last_bytes-some (f ++ (l ++ 10 ∷ []))
      (omega (arith, length-append f (l ++ 10 ∷ []), length-append l (10 ∷ [])))
    ∙ ap (λ k. some (readline (drop k (f ++ (l ++ 10 ∷ [])))))
        (ap (λ k. line_start k (f ++ (l ++ 10 ∷ []))) (size f l h) ∙ line_start-last f l c h)
    ∙ ap (λ s. some (readline s)) (drop-append f (l ++ 10 ∷ []))
    ∙ ap some (readline-append l h)

-- If a line without a line end in it, and after it a line end, are appended to a file that is empty or ends
-- with a line end after at least one byte, and the bytes of the line are UTF-8, then `_read_last_line`
-- returns the text of that line, stripped.
pub read_last_line-append :
    {fl : Floats} (py : Decoders fl) (f l text : Chars)
    → IsClosed f
    → has_char 10 l ≡ false
    → py.utf8 (l ++ 10 ∷ []) ≡ some text
    → read_last_line py (some (f ++ (l ++ 10 ∷ []))) ≡ ok (some (strip text))
unfolding read_last_line read_bytes decoded
read_last_line-append py f l text c h d = rw (last_bytes-append f l c h, d) refl
