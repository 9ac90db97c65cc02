-- ===== src/ControlPlane/Intensity/Writing.antt =====
-- The environment file that `set_intensity` writes is read back (control-plane/main.py).
use pg_stress.Prelude.{
  ℕ, String, true, false, Option, some, none, List, [], ◌∷◌, ◌++◌, elem, All, ◌≡◌, refl, sym, ap,
  ◌∙◌, arith, inl, inr, ◌⊎◌, eq-cases, eq_iff,
}
use pg_stress.Prelude.Chars.{
  Chars, is_break, strip, is_empty, splitlines, any_char, starts_with, lstrip, rstrip, before_text,
  is_space, last_line, lines_from,
}
use pg_stress.Prelude.Chars.Trim.{
  IsTrimmed, begins_text, lstrip_done, any_char-append, before_first-append, after_first-append,
  has_char-append, splitlines-append,
}
use pg_stress.ControlPlane.Intensity.Lookups.{
  or_else, lookup-update, lookup-sort_items, sort_items-Distinct,
}
use pg_stress.ControlPlane.Intensity.EnvFile.{
  Env, lookup, set_key, update, key_of, value_of, is_setting, read_existing, sort_items,
  setting_line, header_line, item_text, env_text,
}
use pg_stress.ControlPlane.Intensity.Reading.{IsItem, IsRead, sort_items-All}

before_text-append : (d c : ℕ) (s t : Chars) → before_text d (s ++ c ∷ t) ≡ d ∷ (s ++ c ∷ t)
unfolding before_text
before_text-append d c [] t = refl
before_text-append d c (e ∷ s) t = refl

rstrip-append :
    (s : Chars) (c : ℕ) (t : Chars) → rstrip (c ∷ t) ≡ c ∷ t → rstrip (s ++ c ∷ t) ≡ s ++ c ∷ t
unfolding rstrip
rstrip-append [] c t h = h
rstrip-append (d ∷ s) c t h = rw (rstrip-append s c t h) (before_text-append d c s t)

rstrip_sign : (v : Chars) → rstrip v ≡ v → rstrip (61 ∷ v) ≡ 61 ∷ v
unfolding rstrip before_text is_space
rstrip_sign [] h = refl
rstrip_sign (c ∷ v) h = rw h refl

begins_text-setting : (k v : Chars) → begins_text k ≡ true → begins_text (k ++ 61 ∷ v) ≡ true
unfolding is_space
begins_text-setting [] v h = refl
begins_text-setting (c ∷ k) v h = h

setting_line-strip : (x : Chars × Chars) → IsItem x → strip (setting_line x) ≡ setting_line x
unfolding strip setting_line
setting_line-strip (k, v) i =
    ap rstrip (lstrip_done (k ++ 61 ∷ v) (begins_text-setting k v i.key.begins))
    ∙ rstrip-append k 61 v (rstrip_sign v i.value.ends)

trimmed : (s : Chars) → IsTrimmed s → strip s ≡ s
unfolding strip
trimmed s t = ap rstrip (lstrip_done s t.begins) ∙ t.ends

setting_starts :
    (k v : Chars) → starts_with k (35 ∷ []) ≡ false → starts_with (k ++ 61 ∷ v) (35 ∷ []) ≡ false
unfolding starts_with
setting_starts [] v h = refl
setting_starts (c ∷ k) v h = h

setting_is_empty : (k v : Chars) → is_empty (k ++ 61 ∷ v) ≡ false
unfolding is_empty
setting_is_empty [] v = refl
setting_is_empty (c ∷ k) v = refl

setting_line_read :
    (x : Chars × Chars)
    → IsItem x
    → (is_setting (setting_line x) ≡ true)
      × (key_of (setting_line x) ≡ x.0)
      × (value_of (setting_line x) ≡ x.1)
unfolding is_setting key_of value_of setting_line
setting_line_read (k, v) i = (
  rw (setting_is_empty k v, setting_starts k v i.no_comment, has_char-append 61 k v) refl,
  rw (before_first-append 61 k v i.no_sign) (trimmed k i.key),
  rw (after_first-append 61 k v i.no_sign) (trimmed v i.value),
)

setting_line-plain : (x : Chars × Chars) → IsItem x → any_char is_break (setting_line x) ≡ false
unfolding setting_line is_break any_char
setting_line-plain (k, v) i =
    rw (any_char-append is_break k (61 ∷ v), i.plain_key) (ground (arith, i.plain_value))

read_setting :
    (x : Chars × Chars) (existing : Env) (lines : List Chars)
    → IsItem x
    → read_existing existing (setting_line x ∷ lines)
      ≡ read_existing (set_key x.0 x.1 existing) lines
unfolding read_existing
read_setting x existing lines i =
    rw
      (
        setting_line-strip x i,
        (setting_line_read x i).0,
        (setting_line_read x i).1,
        (setting_line_read x i).2,
      )
      refl

-- The lines of items are read as those items, in their order.
read_items :
    (items existing : Env)
    → All IsItem items
    → read_existing existing (splitlines (item_text items)) ≡ update existing items
unfolding item_text update splitlines lines_from last_line read_existing
read_items [] existing h = refl
read_items (x ∷ items) existing h =
    rw
      (
        splitlines-append (setting_line x) (item_text items) (setting_line-plain x h.0),
        read_setting x existing (splitlines (item_text items)) h.0,
      )
      (read_items items (set_key x.0 x.1 existing) h.1)

pub level-cases :
    (level : String)
    → elem level ("low" ∷ "medium" ∷ "high" ∷ []) ≡ true
    → (level ≡ "low") ⊎ ((level ≡ "medium") ⊎ (level ≡ "high"))
level-cases level h = elim (eq-cases "low" level) [
  | inl e ↦ inl (sym e)
  | inr a ↦ elim (eq-cases "medium" level) [
    | inl e ↦ inr (inl (sym e))
    | inr b ↦ inr (inr (sym ((eq_iff "high" level).0 (ground (arith, h, a, b)))))
  ]
]

header_plain :
    (level : String)
    → (level ≡ "low") ⊎ ((level ≡ "medium") ⊎ (level ≡ "high"))
    → any_char is_break (header_line level) ≡ false
unfolding header_line any_char is_break
header_plain level (inl e) = rw e refl
header_plain level (inr (inl e)) = rw e refl
header_plain level (inr (inr e)) = rw e refl

comment_before : (t : Chars) → starts_with (before_text 35 t) (35 ∷ []) ≡ true
unfolding starts_with before_text is_space
comment_before [] = refl
comment_before (c ∷ t) = refl

-- A comment sets nothing.
comment_is_setting : (t : Chars) → is_setting (strip (35 ∷ t)) ≡ false
unfolding is_setting strip lstrip rstrip is_space
comment_is_setting t = rw (comment_before (rstrip t)) (ground arith)

read_header :
    (level : String) (existing : Env) (lines : List Chars)
    → read_existing existing (header_line level ∷ lines) ≡ read_existing existing lines
unfolding read_existing header_line
read_header level existing lines = rw (comment_is_setting _) refl

or_else_missing : (k : Chars) (o : Option Chars) → or_else o (lookup k []) ≡ o
unfolding lookup
or_else_missing k none = refl
or_else_missing k (some v) = refl

-- What is written under a known level reads back as it was.
pub lookup-env_text :
    (level : String) (env : Env) (k : Chars)
    → elem level ("low" ∷ "medium" ∷ "high" ∷ []) ≡ true
    → IsRead env
    → lookup k (read_existing [] (splitlines (env_text level env))) ≡ lookup k env
unfolding env_text
lookup-env_text level env k known h =
    rw
      (
        splitlines-append (header_line level) (item_text (sort_items env))
            (header_plain level (level-cases level known)),
        read_header level [] (splitlines (item_text (sort_items env))),
        read_items (sort_items env) [] (sort_items-All env h.0),
        lookup-update k [] (sort_items env) (sort_items-Distinct env h.1),
        lookup-sort_items k env h.1,
      )
      (or_else_missing k (lookup k env))
