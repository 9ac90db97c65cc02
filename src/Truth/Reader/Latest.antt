-- ===== src/Truth/Reader/Latest.antt =====
-- Which sample is the latest (truth-service/app/jsonl_reader.py).
use pg_stress.Prelude.{
  ◌≤◌, Bool, true, false, Option, some, none, List, [], ◌∷◌, ◌++◌, leb, if◌then◌else◌, All,
  All-right, All-map, ◌≡◌, refl, ap, ◌∙◌, arith, Bool-cases, inl, inr, leb→le, subst,
}
use pg_stress.Prelude.Chars.{Chars, is_empty}
use pg_stress.Prelude.Int.{ℤ}
use pg_stress.Prelude.Result.{Result, ok, raise}
use pg_stress.Floats.{Floats}
use pg_stress.Truth.Reader.{
  Decoders, CollectorSample, Loaded, decode_error, object, File, insert_file, sort_files, is_recent,
  recent_or_none, try_load, try_line, try_file, after_file, search, find_latest_sample,
  collector_sample, read_last_line,
}

All-insert_file :
    (P : File → Type 0) (f : File) (fs : List File) → P f → All P fs → All P (insert_file f fs)
unfolding insert_file
All-insert_file P f [] p h = (p, tt)
All-insert_file P f (g ∷ gs) p h = elim (Bool-cases (leb g.mtime f.mtime)) [
  | inl e ↦ rw e (p, h)
  | inr e ↦ rw e (h.0, All-insert_file P f gs p h.1)
]

-- Newest first.
abbrev IsDescending : List File → Type 0
IsDescending [] = Unit
IsDescending (f ∷ fs) = All (λ g. g.mtime ≤ f.mtime) fs × IsDescending fs

insert_file-IsDescending :
    (f : File) (fs : List File) → IsDescending fs → IsDescending (insert_file f fs)
unfolding insert_file
insert_file-IsDescending f [] h = (tt, tt)
insert_file-IsDescending f (g ∷ gs) h = elim (Bool-cases (leb g.mtime f.mtime)) [
  | inl e ↦
      let b = leb→le g.mtime f.mtime e in
      rw e (
        (
          b,
          All-map (λ x. x.mtime ≤ g.mtime) (λ x. x.mtime ≤ f.mtime) gs (λ x k. omega (arith, k, b))
              h.0,
        ),
        h,
      )
  | inr e ↦ rw e (
    All-insert_file (λ x. x.mtime ≤ g.mtime) f gs (ground (arith, e)) h.0,
    insert_file-IsDescending f gs h.1,
  )
]

sort_files-IsDescending : (fs : List File) → IsDescending (sort_files fs)
unfolding sort_files
sort_files-IsDescending [] = tt
sort_files-IsDescending (f ∷ fs) =
    insert_file-IsDescending f (sort_files fs) (sort_files-IsDescending fs)

after_split :
    (earlier : List File) (f : File) (later : List File)
    → IsDescending (earlier ++ f ∷ later)
    → All (λ g. g.mtime ≤ f.mtime) later × All (λ g. f.mtime ≤ g.mtime) earlier
after_split [] f later h = (h.0, tt)
after_split (e ∷ earlier) f later h =
    let rest = after_split earlier f later h.1 in
    (rest.0, ((All-right (λ g. g.mtime ≤ e.mtime) earlier (f ∷ later) h.0).0, rest.1))

module _ {fl : Floats} (py : Decoders fl) (now max_age : ℤ) where
  -- The sample comes from the newest file that is not passed over.
  pub record IsLatest (files : List File) (s : CollectorSample fl) : Type 0 where
    pub earlier : List File
    pub found_in : File
    pub later : List File
    pub split : sort_files files ≡ earlier ++ found_in ∷ later
    pub found : try_file py now max_age found_in ≡ ok (some s)
    pub recent : is_recent py now max_age s ≡ true
    pub passed_over : All (λ g. try_file py now max_age g ≡ ok none) earlier
    pub newer : All (λ g. found_in.mtime ≤ g.mtime) earlier
    pub older : All (λ g. g.mtime ≤ found_in.mtime) later

  kept_recent :
      (b : Bool) (t s : CollectorSample fl)
      → is_recent py now max_age t ≡ b
      → ok (if b then some t else none) ≡ ok (some s)
      → is_recent py now max_age s ≡ true
  kept_recent true t s e h =
      let same : t ≡ s = cc in subst (λ x. is_recent py now max_age x ≡ true) same e
  kept_recent false t s e h = absurd (cc)

  recent_or_none-recent :
      (x : Result (CollectorSample fl)) (s : CollectorSample fl)
      → recent_or_none py now max_age x ≡ ok (some s)
      → is_recent py now max_age s ≡ true
  unfolding recent_or_none
  recent_or_none-recent (raise e) s h = absurd (cc)
  recent_or_none-recent (ok t) s h = kept_recent (is_recent py now max_age t) t s refl h

  try_load-recent :
      (x : Loaded fl) (s : CollectorSample fl)
      → try_load py now max_age x ≡ ok (some s)
      → is_recent py now max_age s ≡ true
  unfolding try_load
  try_load-recent decode_error s h = absurd (cc)
  try_load-recent (object raw) s h = recent_or_none-recent (collector_sample py raw) s h

  line_recent :
      (b : Bool) (x : Loaded fl) (s : CollectorSample fl)
      → (if b then ok none else try_load py now max_age x) ≡ ok (some s)
      → is_recent py now max_age s ≡ true
  line_recent true x s h = absurd (cc)
  line_recent false x s h = try_load-recent x s h

  try_line-recent :
      (x : Result (Option Chars)) (s : CollectorSample fl)
      → try_line py now max_age x ≡ ok (some s)
      → is_recent py now max_age s ≡ true
  unfolding try_line
  try_line-recent (raise e) s h = absurd (cc)
  try_line-recent (ok none) s h = absurd (cc)
  try_line-recent (ok (some line)) s h = line_recent (is_empty line) (py.loads line) s h

  try_file-recent :
      (f : File) (s : CollectorSample fl)
      → try_file py now max_age f ≡ ok (some s)
      → is_recent py now max_age s ≡ true
  unfolding try_file
  try_file-recent f s h = try_line-recent (read_last_line py f.content) s h

  -- The files up to the one that gives the sample.
  record IsSplit (fs : List File) (s : CollectorSample fl) : Type 0 where
    earlier : List File
    found_in : File
    later : List File
    split : fs ≡ earlier ++ found_in ∷ later
    found : try_file py now max_age found_in ≡ ok (some s)
    passed_over : All (λ g. try_file py now max_age g ≡ ok none) earlier

  after_file-IsSplit :
      (r rest : Result (Option (CollectorSample fl))) (f : File) (fs : List File)
      → (s : CollectorSample fl) → try_file py now max_age f ≡ r
      → after_file py r rest ≡ ok (some s)
      → (rest ≡ ok (some s) → IsSplit fs s)
      → IsSplit (f ∷ fs) s
  unfolding after_file
  after_file-IsSplit (raise e) rest f fs s k h next = absurd (cc)
  after_file-IsSplit (ok none) rest f fs s k h next =
      let n = next h in
      record {
        earlier = f ∷ n.earlier;
        found_in = n.found_in;
        later = n.later;
        split = ap (λ x. f ∷ x) n.split;
        found = n.found;
        passed_over = (k, n.passed_over);
      }
  after_file-IsSplit (ok (some t)) rest f fs s k h next = record {
    earlier = [];
    found_in = f;
    later = fs;
    split = refl;
    found = k ∙ h;
    passed_over = tt;
  }

  search-IsSplit :
      (fs : List File) (s : CollectorSample fl)
      → search py now max_age fs ≡ ok (some s)
      → IsSplit fs s
  unfolding search
  search-IsSplit [] s h = absurd (cc)
  search-IsSplit (f ∷ fs) s h =
      after_file-IsSplit (try_file py now max_age f) (search py now max_age fs) f fs s refl h
        (λ k. search-IsSplit fs s k)

  -- If find_latest_sample returns a sample, it is the one in the last line of the newest file that is
  -- not passed over, and it is not older than the limit: each newer file has no line, no JSON in it, or
  -- a sample that is too old.
  pub find_latest_sample-IsLatest :
      (files : List File) (s : CollectorSample fl)
      → find_latest_sample py now max_age (some files) ≡ ok (some s)
      → IsLatest files s
  unfolding find_latest_sample
  find_latest_sample-IsLatest files s h =
      let n = search-IsSplit (sort_files files) s h in
      let order =
        after_split n.earlier n.found_in n.later
          (subst IsDescending n.split (sort_files-IsDescending files)) in
      record {
        earlier = n.earlier;
        found_in = n.found_in;
        later = n.later;
        split = n.split;
        found = n.found;
        recent = try_file-recent n.found_in s n.found;
        passed_over = n.passed_over;
        newer = order.1;
        older = order.0;
      }
