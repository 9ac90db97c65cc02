-- ===== src/ControlPlane/Intensity/Lookups.antt =====
-- Dictionaries of texts (control-plane/main.py: `set_intensity`).
use pg_stress.Prelude.{
  true, Option, some, none, [], ◌∷◌, if◌then◌else◌, ◌≡◌, refl, sym, ◌∙◌, arith, Bool-cases, inl,
  inr,
}
use pg_stress.Prelude.Chars.{Chars, chars_eq, chars_eq_iff}
use pg_stress.ControlPlane.Intensity.EnvFile.{
  Env, lookup, set_key, update, item_le, insert_item, sort_items,
}

-- The first value that there is.
abbrev pub or_else : Option Chars → Option Chars → Option Chars
or_else none o = o
or_else (some v) o = some v

chars_eq_self : (s : Chars) → chars_eq s s ≡ true
chars_eq_self s = (chars_eq_iff s s).1 refl

pub lookup-set_key :
    (k j : Chars) (v : Chars) (env : Env)
    → lookup k (set_key j v env) ≡ (if chars_eq j k then some v else lookup k env)
unfolding lookup set_key
lookup-set_key k j v [] = refl
lookup-set_key k j v ((i, w) ∷ env) =
    ground (arith, chars_eq_iff i j, chars_eq_iff i k, chars_eq_iff j k, lookup-set_key k j v env)

-- No key stands twice.
abbrev pub Distinct : Env → Type 0
Distinct [] = Unit
Distinct ((k, v) ∷ env) = (lookup k env ≡ none) × Distinct env

pub set_key-Distinct : (k v : Chars) (env : Env) → Distinct env → Distinct (set_key k v env)
unfolding set_key lookup
set_key-Distinct k v [] h = (refl, tt)
set_key-Distinct k v ((j, w) ∷ env) h = elim (Bool-cases (chars_eq j k)) [
  | inl e ↦ rw e h
  | inr e ↦ rw e (
    rw (lookup-set_key j k v env) (ground (arith, h.0, e, chars_eq_iff j k, chars_eq_iff k j)),
    set_key-Distinct k v env h.1,
  )
]

pub lookup-update :
    (k : Chars) (existing applied : Env)
    → Distinct applied
    → lookup k (update existing applied) ≡ or_else (lookup k applied) (lookup k existing)
unfolding update lookup
lookup-update k existing [] h = refl
lookup-update k existing ((j, v) ∷ applied) h = elim (Bool-cases (chars_eq j k)) [
  | inl e ↦
      rw (lookup-update k (set_key j v existing) applied h.1, lookup-set_key k j v existing, e)
        (rw (sym ((chars_eq_iff j k).0 e), h.0) refl)
  | inr e ↦
      rw (lookup-update k (set_key j v existing) applied h.1, lookup-set_key k j v existing, e) refl
]

lookup-insert_item :
    (k j v : Chars) (env : Env)
    → lookup j env ≡ none
    → lookup k (insert_item (j, v) env) ≡ (if chars_eq j k then some v else lookup k env)
unfolding insert_item lookup
lookup-insert_item k j v [] h = refl
lookup-insert_item k j v ((i, w) ∷ env) h =
    ground
      (arith, chars_eq_iff i j, chars_eq_iff i k, chars_eq_iff j k, lookup-insert_item k j v env)

pub lookup-sort_items :
    (k : Chars) (env : Env) → Distinct env → lookup k (sort_items env) ≡ lookup k env
unfolding sort_items lookup
lookup-sort_items k [] h = refl
lookup-sort_items k ((j, v) ∷ env) h =
    rw
      (
        lookup-insert_item k j v (sort_items env) (lookup-sort_items j env h.1 ∙ h.0),
        lookup-sort_items k env h.1,
      )
      refl

absent : (k j w : Chars) (env : Env) → lookup k ((j, w) ∷ env) ≡ none → lookup k env ≡ none
unfolding lookup
absent k j w env h = ground (arith, h)

insert_item-Distinct :
    (k v : Chars) (env : Env)
    → lookup k env ≡ none
    → Distinct env
    → Distinct (insert_item (k, v) env)
unfolding insert_item lookup
insert_item-Distinct k v [] n h = (refl, tt)
insert_item-Distinct k v ((j, w) ∷ env) n h = elim (Bool-cases (item_le (k, v) (j, w))) [
  | inl e ↦ rw e (n, h)
  | inr e ↦ rw e (
    rw (lookup-insert_item j k v env (absent k j w env n))
        (ground (arith, n, h.0, chars_eq_iff j k, chars_eq_iff k j)),
    insert_item-Distinct k v env (absent k j w env n) h.1,
  )
]

pub sort_items-Distinct : (env : Env) → Distinct env → Distinct (sort_items env)
unfolding sort_items
sort_items-Distinct [] h = tt
sort_items-Distinct ((k, v) ∷ env) h =
    insert_item-Distinct k v (sort_items env) (lookup-sort_items k env h.1 ∙ h.0)
      (sort_items-Distinct env h.1)
