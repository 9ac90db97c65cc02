-- ===== src/Prelude/Chars/Trim.antt =====
-- What `strip`, `splitlines` and `split` leave of a text.
use pg_stress.Prelude.{
  ℕ, Bool, true, false, [], ◌∷◌, ◌++◌, append-nil, append_assoc, ◌||◌, not, All, ◌≡◌, refl, ap, ◌∙◌,
  arith, Bool-cases, inl, inr,
}
use pg_stress.Prelude.Chars.{
  Chars, is_space, is_break, lstrip, before_text, rstrip, strip, last_line, lines_from, splitlines,
  before_first, after_first, any_char, has_char,
}

-- No space stands at the start.
abbrev pub begins_text : Chars → Bool
begins_text [] = true
begins_text (c ∷ s) = not (is_space c)

lstrip-begins_text : (s : Chars) → begins_text (lstrip s) ≡ true
unfolding lstrip
lstrip-begins_text [] = refl
lstrip-begins_text (c ∷ s) = elim (Bool-cases (is_space c)) [
  | inl e ↦ rw e (lstrip-begins_text s)
  | inr e ↦ rw (e, e) refl
]

pub lstrip_done : (s : Chars) → begins_text s ≡ true → lstrip s ≡ s
unfolding lstrip
lstrip_done [] h = refl
lstrip_done (c ∷ s) h = ground (arith, h)

before_text-begins_text :
    (c : ℕ) (t : Chars) → is_space c ≡ false → begins_text (before_text c t) ≡ true
unfolding before_text
before_text-begins_text c [] h = rw (h, h) refl
before_text-begins_text c (d ∷ t) h = rw h refl

rstrip-begins_text : (s : Chars) → begins_text s ≡ true → begins_text (rstrip s) ≡ true
unfolding rstrip
rstrip-begins_text [] h = refl
rstrip-begins_text (c ∷ s) h = before_text-begins_text c (rstrip s) (ground (arith, h))

rstrip-before_text : (c : ℕ) (t : Chars) → rstrip t ≡ t → rstrip (before_text c t) ≡ before_text c t
unfolding rstrip before_text
rstrip-before_text c [] h = elim (Bool-cases (is_space c)) [
  | inl e ↦ rw e refl
  | inr e ↦ rw (e, e) refl
]
rstrip-before_text c (d ∷ t) h = rw h refl

rstrip_twice : (s : Chars) → rstrip (rstrip s) ≡ rstrip s
unfolding rstrip
rstrip_twice [] = refl
rstrip_twice (c ∷ s) = rstrip-before_text c (rstrip s) (rstrip_twice s)

-- A text that `strip` has made.
pub record IsTrimmed (s : Chars) : Type 0 where
  pub begins : begins_text s ≡ true
  pub ends : rstrip s ≡ s

pub strip-IsTrimmed : (s : Chars) → IsTrimmed (strip s)
unfolding strip
strip-IsTrimmed s = record {
  begins = rstrip-begins_text (lstrip s) (lstrip-begins_text s);
  ends = rstrip_twice (lstrip s);
}

-- What no character of a text satisfies, none of its parts does.
module _ (p : ℕ → Bool) where
  pub any_char-append : (s t : Chars) → any_char p (s ++ t) ≡ (any_char p s || any_char p t)
  unfolding any_char
  any_char-append [] t = refl
  any_char-append (c ∷ s) t = ground (arith, any_char-append s t)

  any_char-lstrip : (s : Chars) → any_char p s ≡ false → any_char p (lstrip s) ≡ false
  unfolding any_char lstrip
  any_char-lstrip [] h = refl
  any_char-lstrip (c ∷ s) h = ground (arith, any_char-lstrip s)

  any_char-before_text :
      (c : ℕ) (t : Chars)
      → p c ≡ false
      → any_char p t ≡ false
      → any_char p (before_text c t) ≡ false
  unfolding any_char before_text
  any_char-before_text c [] h k = ground (arith, h)
  any_char-before_text c (d ∷ t) h k = ground (arith, h, k)

  any_char-rstrip : (s : Chars) → any_char p s ≡ false → any_char p (rstrip s) ≡ false
  unfolding any_char rstrip
  any_char-rstrip [] h = refl
  any_char-rstrip (c ∷ s) h =
      any_char-before_text c (rstrip s) (ground (arith, h)) (any_char-rstrip s (ground (arith, h)))

  pub any_char-strip : (s : Chars) → any_char p s ≡ false → any_char p (strip s) ≡ false
  unfolding strip
  any_char-strip s h = any_char-rstrip (lstrip s) (any_char-lstrip s h)

  pub any_char-before_first :
      (sep : ℕ) (s : Chars) → any_char p s ≡ false → any_char p (before_first sep s) ≡ false
  unfolding any_char before_first
  any_char-before_first sep [] h = refl
  any_char-before_first sep (c ∷ s) h = ground (arith, any_char-before_first sep s)

  pub any_char-after_first :
      (sep : ℕ) (s : Chars) → any_char p s ≡ false → any_char p (after_first sep s) ≡ false
  unfolding any_char after_first
  any_char-after_first sep [] h = refl
  any_char-after_first sep (c ∷ s) h = ground (arith, any_char-after_first sep s)

pub before_first-has_char : (sep : ℕ) (s : Chars) → has_char sep (before_first sep s) ≡ false
unfolding any_char before_first
before_first-has_char sep [] = refl
before_first-has_char sep (c ∷ s) = ground (arith, before_first-has_char sep s)

pub before_first-append :
    (sep : ℕ) (s t : Chars) → has_char sep s ≡ false → before_first sep (s ++ sep ∷ t) ≡ s
unfolding any_char before_first
before_first-append sep [] t h = ground arith
before_first-append sep (c ∷ s) t h = ground (arith, before_first-append sep s t)

pub after_first-append :
    (sep : ℕ) (s t : Chars) → has_char sep s ≡ false → after_first sep (s ++ sep ∷ t) ≡ t
unfolding any_char after_first
after_first-append sep [] t h = ground arith
after_first-append sep (c ∷ s) t h = ground (arith, after_first-append sep s t)

pub has_char-append : (sep : ℕ) (s t : Chars) → has_char sep (s ++ sep ∷ t) ≡ true
unfolding any_char
has_char-append sep [] t = ground arith
has_char-append sep (c ∷ s) t = ground (arith, has_char-append sep s t)

last_line-plain :
    (s : Chars) → any_char is_break s ≡ false → All (λ l. any_char is_break l ≡ false) (last_line s)
unfolding last_line
last_line-plain [] h = tt
last_line-plain (c ∷ s) h = (h, tt)

lines_from-plain :
    (open_ s : Chars)
    → any_char is_break open_ ≡ false
    → All (λ l. any_char is_break l ≡ false) (lines_from open_ s)
unfolding lines_from any_char
lines_from-plain open_ [] h = last_line-plain open_ h
lines_from-plain open_ (c ∷ s) h = elim (Bool-cases (is_break c)) [
  | inl e ↦ rw e (h, lines_from-plain [] s refl)
  | inr e ↦ rw e (
      lines_from-plain (open_ ++ c ∷ []) s
        (rw (any_char-append is_break open_ (c ∷ []), h) (ground (arith, e))))
]

-- No line of a text has a line end in it.
pub splitlines-plain : (s : Chars) → All (λ l. any_char is_break l ≡ false) (splitlines s)
unfolding splitlines any_char
splitlines-plain s = lines_from-plain [] s refl

plain_head : (c : ℕ) (l : Chars) → any_char is_break (c ∷ l) ≡ false → is_break c ≡ false
unfolding any_char
plain_head c l h = ground (arith, h)

plain_tail : (c : ℕ) (l : Chars) → any_char is_break (c ∷ l) ≡ false → any_char is_break l ≡ false
unfolding any_char
plain_tail c l h = ground (arith, h)

lines_from-append :
    (open_ l rest : Chars)
    → any_char is_break l ≡ false
    → lines_from open_ (l ++ 10 ∷ rest) ≡ (open_ ++ l) ∷ splitlines rest
unfolding lines_from any_char splitlines is_break
lines_from-append open_ [] rest h = rw (append-nil open_) refl
lines_from-append open_ (c ∷ l) rest h = rw (plain_head c l h) (
    lines_from-append (open_ ++ c ∷ []) l rest (plain_tail c l h)
    ∙ ap (λ x. x ∷ splitlines rest) (append_assoc open_ (c ∷ []) l))

pub splitlines-append :
    (l rest : Chars)
    → any_char is_break l ≡ false
    → splitlines (l ++ 10 ∷ rest) ≡ l ∷ splitlines rest
unfolding splitlines
splitlines-append l rest h = lines_from-append [] l rest h
