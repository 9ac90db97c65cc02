-- ===== src/ControlPlane/Intensity/Reading.antt =====
-- What the readers of environment files collect (control-plane/main.py).
use pg_stress.Prelude.{
  ℕ, nat_eq, Bool, true, false, List, [], ◌∷◌, ◌||◌, if◌then◌else◌, All, ◌≡◌, refl, arith,
  Bool-cases, inl, inr,
}
use pg_stress.Prelude.Chars.{
  Chars, chars_eq, chars_eq_iff, is_break, strip, is_empty, before_first, any_char, has_char,
  starts_with, lstrip, rstrip, before_text, is_space,
}
use pg_stress.Prelude.Chars.Trim.{
  IsTrimmed, strip-IsTrimmed, begins_text, any_char-strip, any_char-before_first,
  any_char-after_first, before_first-has_char,
}
use pg_stress.ControlPlane.Intensity.Lookups.{Distinct, set_key-Distinct}
use pg_stress.ControlPlane.Intensity.EnvFile.{
  Env, set_key, update, key_of, value_of, is_setting, read_existing, Preset, apply_setting,
  read_preset, item_le, insert_item, sort_items,
}

-- A key and a value that a line of the file gives.
pub record IsItem (x : Chars × Chars) : Type 0 where
  pub key : IsTrimmed x.0
  pub value : IsTrimmed x.1
  pub no_sign : has_char 61 x.0 ≡ false
  pub no_comment : starts_with x.0 (35 ∷ []) ≡ false
  pub plain_key : any_char is_break x.0 ≡ false
  pub plain_value : any_char is_break x.1 ≡ false

set_key-All :
    (k v : Chars) (env : Env) → IsItem (k, v) → All IsItem env → All IsItem (set_key k v env)
unfolding set_key
set_key-All k v [] i h = (i, tt)
set_key-All k v ((j, w) ∷ env) i h = elim (Bool-cases (chars_eq j k)) [
  | inl e ↦ rw (e, (chars_eq_iff j k).0 e) (i, h.1)
  | inr e ↦ rw e (h.0, set_key-All k v env i h.1)
]

insert_item-All :
    (x : Chars × Chars) (env : Env) → IsItem x → All IsItem env → All IsItem (insert_item x env)
unfolding insert_item
insert_item-All x [] i h = (i, tt)
insert_item-All x (y ∷ env) i h = elim (Bool-cases (item_le x y)) [
  | inl e ↦ rw e (i, h)
  | inr e ↦ rw e (h.0, insert_item-All x env i h.1)
]

pub sort_items-All : (env : Env) → All IsItem env → All IsItem (sort_items env)
unfolding sort_items
sort_items-All [] h = tt
sort_items-All (x ∷ env) h = insert_item-All x (sort_items env) h.0 (sort_items-All env h.1)

before_text_uncommented :
    (c : ℕ) (t : Chars) → nat_eq c 35 ≡ false → starts_with (before_text c t) (35 ∷ []) ≡ false
unfolding before_text starts_with
before_text_uncommented c [] h = ground (arith, h)
before_text_uncommented c (d ∷ t) h = ground (arith, h)

not_space : (c : ℕ) (l : Chars) → begins_text (c ∷ l) ≡ true → is_space c ≡ false
not_space c l h = ground (arith, h)

key_uncommented :
    (line : Chars)
    → begins_text line ≡ true
    → starts_with line (35 ∷ []) ≡ false
    → starts_with (key_of line) (35 ∷ []) ≡ false
unfolding key_of before_first strip lstrip rstrip starts_with
key_uncommented [] b h = refl
key_uncommented (c ∷ l) b h = elim (Bool-cases (nat_eq c 61)) [
  | inl e ↦ rw e refl
  | inr e ↦
      rw (e, not_space c l b)
        (before_text_uncommented c (rstrip (before_first 61 l)) (ground (arith, h)))
]

-- What a line gives, if it is read at all.
line-IsItem :
    (raw : Chars)
    → any_char is_break raw ≡ false
    → starts_with (strip raw) (35 ∷ []) ≡ false
    → IsItem (key_of (strip raw), value_of (strip raw))
unfolding key_of value_of
line-IsItem raw plain h = record {
  key = strip-IsTrimmed _;
  value = strip-IsTrimmed _;
  no_sign = any_char-strip (λ c. nat_eq c 61) _ (before_first-has_char 61 (strip raw));
  no_comment = key_uncommented (strip raw) (strip-IsTrimmed raw).begins h;
  plain_key =
      any_char-strip is_break _
        (any_char-before_first is_break 61 (strip raw) (any_char-strip is_break raw plain));
  plain_value =
      any_char-strip is_break _
        (any_char-after_first is_break 61 (strip raw) (any_char-strip is_break raw plain));
}

-- A dictionary that was read from lines.
abbrev pub IsRead : Env → Type 0
IsRead env = All IsItem env × Distinct env

set_key-IsRead : (k v : Chars) (env : Env) → IsItem (k, v) → IsRead env → IsRead (set_key k v env)
set_key-IsRead k v env i h = (set_key-All k v env i h.0, set_key-Distinct k v env h.1)

if-IsRead :
    (b : Bool) (env env' : Env)
    → (b ≡ true → IsRead env')
    → IsRead env
    → IsRead (if b then env' else env)
if-IsRead true env env' f h = f refl
if-IsRead false env env' f h = h

uncommented : (line : Chars) → is_setting line ≡ true → starts_with line (35 ∷ []) ≡ false
unfolding is_setting
uncommented line e = ground (arith, e)

pub read_existing-IsRead :
    (lines : List Chars) (env : Env)
    → All (λ l. any_char is_break l ≡ false) lines
    → IsRead env
    → IsRead (read_existing env lines)
unfolding read_existing
read_existing-IsRead [] env plain h = h
read_existing-IsRead (raw ∷ lines) env plain h = read_existing-IsRead lines _ plain.1 (
    if-IsRead (is_setting (strip raw)) env _
      (λ e. set_key-IsRead _ _ env (line-IsItem raw plain.0 (uncommented (strip raw) e)) h) h)

stop-IsRead :
    (b : Bool) (p q : Preset)
    → IsRead p.applied
    → IsRead q.applied
    → IsRead (if b then p else q).applied
stop-IsRead true p q h k = h
stop-IsRead false p q h k = k

apply_setting-IsRead :
    (k v : Chars) (p : Preset)
    → IsItem (k, v)
    → IsRead p.applied
    → IsRead (apply_setting k v p).applied
unfolding apply_setting
apply_setting-IsRead k v p i h = set_key-IsRead k v p.applied i h

no_skip :
    (line : Chars)
    → (is_empty line || starts_with line (35 ∷ [])) ≡ false
    → starts_with line (35 ∷ []) ≡ false
no_skip line e = ground (arith, e)

pub read_preset-IsRead :
    (lines : List Chars) (p : Preset)
    → All (λ l. any_char is_break l ≡ false) lines
    → IsRead p.applied
    → IsRead (read_preset p lines).applied
unfolding read_preset
read_preset-IsRead [] p plain h = h
read_preset-IsRead (raw ∷ lines) p plain h =
    elim (Bool-cases (is_empty (strip raw) || starts_with (strip raw) (35 ∷ []))) [
      | inl e ↦ rw e (read_preset-IsRead lines p plain.1 h)
      | inr e ↦ elim (Bool-cases (has_char 61 (strip raw))) [
        | inl d ↦
            let now =
              apply_setting-IsRead _ _ p (line-IsItem raw plain.0 (no_skip (strip raw) e)) h in
            rw (e, d) (stop-IsRead _ _ _ now (read_preset-IsRead lines _ plain.1 now))
        | inr d ↦ rw (e, d) (read_preset-IsRead lines p plain.1 h)
      ]
    ]

pub update-IsRead :
    (applied existing : Env)
    → All IsItem applied
    → IsRead existing
    → IsRead (update existing applied)
unfolding update
update-IsRead [] existing h e = e
update-IsRead ((k, v) ∷ applied) existing h e =
    update-IsRead applied (set_key k v existing) h.1 (set_key-IsRead k v existing h.0 e)
