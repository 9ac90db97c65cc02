-- ===== src/Truth/Reader.antt =====
-- The reading of the collector's samples (truth-service/app/jsonl_reader.py). A file is the list of its
-- bytes; JSON, UTF-8 and dates are parameters.
pub mod LastLine
pub mod Latest
mod Tests
use pg_stress.Prelude.{
  ℕ, zero, suc, ◌+◌, ◌-◌, ◌<◌, String, Bool, true, false, Option, some, none, List, [], ◌∷◌, ◌++◌,
  length, ltb, leb, nat_eq, if◌then◌else◌, ◌&&◌,
}
use pg_stress.Prelude.Chars.{Chars, strip, is_empty}
use pg_stress.Prelude.Dict.{Dict}
use pg_stress.Prelude.Int.{ℤ, ◌-ℤ◌, leb_ℤ, ltb_ℤ}
use pg_stress.Prelude.Result.{Result, Error, ok, raise, value_error}
use pg_stress.Floats.{Floats}

module _ (fl : Floats) where
  -- The object of a line; a key may be missing.
  pub record Raw : Type 0 where
    pub sample_id : Option String
    pub timestamp : Option String
    pub metric_type : Option String
    pub database_id : Option String
    pub labels : Option (Dict String)
    pub counters : Option (Dict fl.Float)
    pub gauges : Option (Dict fl.Float)
    pub deltas : Option (Dict fl.Float)

  pub record CollectorSample : Type 0 where
    pub sample_id : String
    pub timestamp : ℤ
    pub metric_type : String
    pub database_id : String
    pub labels : Dict String
    pub counters : Dict fl.Float
    pub gauges : Dict fl.Float
    pub deltas : Dict fl.Float

  -- What `json.loads` makes of a line.
  pub data Loaded : Type 0 where
    decode_error : Loaded
    object : Raw → Loaded

  -- The libraries: UTF-8, JSON, `replace("Z", "+00:00")` and `datetime.fromisoformat`, in
  -- microseconds. The exception is that of a text that is no date, or the TypeError of a date without an
  -- offset, which the code meets when it takes the difference to now, right after it made the sample.
  pub record Decoders : Type 0 where
    pub utf8 : Chars → Option Chars
    pub loads : Chars → Loaded
    pub with_offset : String → String
    pub fromisoformat : String → Result ℤ

-- A file of the directory; one that cannot be read has no content.
pub record File : Type 0 where
  pub name : String
  pub mtime : ℕ
  pub content : Option Chars

unfoldable pub or_value {ℓ} : {A : Type ℓ} → A → Option A → A
or_value default none = default
or_value default (some a) = a

-- The byte at an index, within the file.
unfoldable pub byte_at : ℕ → Chars → ℕ
byte_at n [] = 0
byte_at zero (c ∷ s) = c
byte_at (suc n) (c ∷ s) = byte_at n s

-- The file from a position on.
unfoldable pub drop : ℕ → Chars → Chars
drop zero s = s
drop (suc n) [] = []
drop (suc n) (c ∷ s) = drop n s

-- `f.readline()`: the line end is part of the line.
unfoldable pub readline : Chars → Chars
readline [] = []
readline (c ∷ s) = let rest = c ∷ readline s in if nat_eq c 10 then c ∷ [] else rest

-- `while pos > 0:`, as the position at which the line begins.
unfoldable pub line_start : ℕ → Chars → ℕ
unfolding byte_at
line_start zero s = 0
line_start (suc p) s =
    let earlier = line_start p s in
    if nat_eq (byte_at (suc p) s) 10 && ltb (suc p) (length s - 1) then suc (suc p) else earlier

-- The bytes that `_read_last_line` decodes; none of an empty file.
unfoldable pub last_bytes : Chars → Option Chars
unfolding line_start readline drop
last_bytes [] = none
last_bytes (c ∷ s) = some (readline (drop (line_start (length (c ∷ s) - 1) (c ∷ s)) (c ∷ s)))

-- Newest first, and files of one time in their order.
unfoldable pub insert_file : File → List File → List File
insert_file f [] = f ∷ []
insert_file f (g ∷ gs) = if leb g.mtime f.mtime then f ∷ g ∷ gs else g ∷ insert_file f gs

unfoldable pub sort_files : List File → List File
unfolding insert_file
sort_files [] = []
sort_files (f ∷ fs) = insert_file f (sort_files fs)

unfoldable pub first_files : ℕ → List File → List File
first_files zero fs = []
first_files (suc n) [] = []
first_files (suc n) (f ∷ fs) = f ∷ first_files n fs

module _ {fl : Floats} (py : Decoders fl) where
  unfoldable pub made : Result ℤ → Raw fl → Result (CollectorSample fl)
  unfolding or_value
  made (raise e) raw = raise e
  made (ok t) raw = ok (record {
    sample_id = or_value "" raw.sample_id;
    timestamp = t;
    metric_type = or_value "" raw.metric_type;
    database_id = or_value "" raw.database_id;
    labels = or_value [] raw.labels;
    counters = or_value [] raw.counters;
    gauges = or_value [] raw.gauges;
    deltas = or_value [] raw.deltas;
  })

  -- `CollectorSample(raw)`: a timestamp that does not parse raises.
  unfoldable pub collector_sample : Raw fl → Result (CollectorSample fl)
  unfolding made or_value
  collector_sample raw = made (py.fromisoformat (py.with_offset (or_value "" raw.timestamp))) raw

  unfoldable pub decoded : Option Chars → Result (Option Chars)
  unfolding strip
  decoded none = raise value_error
  decoded (some s) = ok (some (strip s))

  unfoldable pub read_bytes : Option Chars → Result (Option Chars)
  unfolding decoded
  read_bytes none = ok none
  read_bytes (some s) = decoded (py.utf8 s)

  -- `_read_last_line`: nothing for a file that cannot be read, or is empty.
  unfoldable pub read_last_line : Option Chars → Result (Option Chars)
  unfolding last_bytes read_bytes
  read_last_line none = ok none
  read_last_line (some s) = read_bytes (last_bytes s)

  -- `age <= max_age_seconds`, both in microseconds, the resolution of a datetime
  unfoldable pub is_recent : ℤ → ℤ → CollectorSample fl → Bool
  is_recent now max_age s = leb_ℤ (now -ℤ s.timestamp) max_age

  unfoldable pub recent_or_none :
      ℤ → ℤ → Result (CollectorSample fl) → Result (Option (CollectorSample fl))
  recent_or_none now max_age (raise e) = raise e
  recent_or_none now max_age (ok s) = ok (if is_recent now max_age s then some s else none)

  -- The `try` of the loop; a line that is no JSON is passed over.
  unfoldable pub try_load : ℤ → ℤ → Loaded fl → Result (Option (CollectorSample fl))
  unfolding collector_sample recent_or_none
  try_load now max_age decode_error = ok none
  try_load now max_age (object raw) = recent_or_none now max_age (collector_sample raw)

  unfoldable pub try_line : ℤ → ℤ → Result (Option Chars) → Result (Option (CollectorSample fl))
  unfolding try_load is_empty
  try_line now max_age (raise e) = raise e
  try_line now max_age (ok none) = ok none
  try_line now max_age (ok (some line)) =
      if is_empty line then ok none else try_load now max_age (py.loads line)

  -- What the loop makes of one file.
  unfoldable pub try_file : ℤ → ℤ → File → Result (Option (CollectorSample fl))
  unfolding try_line read_last_line
  try_file now max_age f = try_line now max_age (read_last_line f.content)

  -- `return sample`, `continue`, or the exception.
  unfoldable pub after_file :
      Result (Option (CollectorSample fl))
      → Result (Option (CollectorSample fl))
      → Result (Option (CollectorSample fl))
  after_file (raise e) rest = raise e
  after_file (ok none) rest = rest
  after_file (ok (some s)) rest = ok (some s)

  unfoldable pub search : ℤ → ℤ → List File → Result (Option (CollectorSample fl))
  unfolding try_file after_file
  search now max_age [] = ok none
  search now max_age (f ∷ fs) = after_file (try_file now max_age f) (search now max_age fs)

  -- The files that match in the directory of the metric, or no directory.
  unfoldable pub find_latest_sample :
      ℤ → ℤ → Option (List File) → Result (Option (CollectorSample fl))
  unfolding search sort_files
  find_latest_sample now max_age none = ok none
  find_latest_sample now max_age (some files) = search now max_age (sort_files files)

  -- One line of `for line in f:`; the samples that were taken stay when a later line raises.
  unfoldable pub take_recent :
      ℤ
      → ℤ
      → List (CollectorSample fl)
      → Result (CollectorSample fl)
      → Result (List (CollectorSample fl))
  unfolding is_recent
  take_recent now max_age samples (raise e) = raise e
  take_recent now max_age samples (ok s) =
      ok (if is_recent now max_age s then samples ++ s ∷ [] else samples)

  -- A line that is no JSON ends its file.
  pub data FileEnd : Type 0 where
    file_read file_broken : List (CollectorSample fl) → FileEnd
    file_raised : Error → FileEnd

  unfoldable pub read_lines : ℤ → ℤ → List Chars → List (CollectorSample fl) → FileEnd
  unfolding take_recent collector_sample
  read_lines now max_age [] samples = file_read samples
  read_lines now max_age (raw_line ∷ lines) samples =
      let skipped = read_lines now max_age lines samples in
      let taken : FileEnd = elim (py.loads (strip raw_line)) [
        | decode_error ↦ file_broken samples
        | object raw ↦ elim (take_recent now max_age samples (collector_sample raw)) [
          | raise e ↦ file_raised e
          | ok more ↦ read_lines now max_age lines more
        ]
      ] in
      if is_empty (strip raw_line) then skipped else taken

  -- The samples of the files so far, as `file_lines` splits a text; a file that cannot be read is passed over.
  unfoldable pub read_files :
      (Chars → List Chars)
      → ℤ
      → ℤ
      → List File
      → List (CollectorSample fl)
      → Result (List (CollectorSample fl))
  unfolding read_lines
  read_files file_lines now max_age [] samples = ok samples
  read_files file_lines now max_age (f ∷ fs) samples = elim f.content [
    | none ↦ read_files file_lines now max_age fs samples
    | some bytes ↦ elim (py.utf8 bytes) [
      | none ↦ raise value_error
      | some text ↦ elim (read_lines now max_age (file_lines text) samples) [
        | file_read more ↦ read_files file_lines now max_age fs more
        | file_broken more ↦ read_files file_lines now max_age fs more
        | file_raised e ↦ raise e
      ]
    ]
  ]

  -- `samples.sort(key=lambda s: s.timestamp, reverse=True)`
  unfoldable pub insert_sample :
      CollectorSample fl → List (CollectorSample fl) → List (CollectorSample fl)
  insert_sample s [] = s ∷ []
  insert_sample s (t ∷ ts) =
      if leb_ℤ t.timestamp s.timestamp then s ∷ t ∷ ts else t ∷ insert_sample s ts

  unfoldable pub sort_samples : List (CollectorSample fl) → List (CollectorSample fl)
  unfolding insert_sample
  sort_samples [] = []
  sort_samples (s ∷ ss) = insert_sample s (sort_samples ss)

  unfoldable pub sorted_samples :
      Result (List (CollectorSample fl)) → Result (List (CollectorSample fl))
  unfolding sort_samples
  sorted_samples (raise e) = raise e
  sorted_samples (ok samples) = ok (sort_samples samples)

  unfoldable pub read_all_samples :
      (Chars → List Chars) → ℤ → ℤ → Option (List File) → Result (List (CollectorSample fl))
  unfolding sorted_samples read_files first_files sort_files
  read_all_samples file_lines now max_age none = ok []
  read_all_samples file_lines now max_age (some files) =
      sorted_samples (read_files file_lines now max_age (first_files 5 (sort_files files)) [])
