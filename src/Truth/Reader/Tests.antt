-- ===== src/Truth/Reader/Tests.antt =====
-- Files of one and of three lines (truth-service/app/jsonl_reader.py).
use pg_stress.Prelude.{some, none, List, [], ◌∷◌, ◌++◌, ◌≡◌, refl, inr, arith}
use pg_stress.Prelude.Chars.{codes, strip, is_space, any_char}
use pg_stress.Prelude.Int.{pos, ◌-ℤ◌}
use pg_stress.Prelude.Result.{ok}
use pg_stress.Samples.Fixed.{hundredths}
use pg_stress.Truth.Reader.{
  Decoders, Raw, CollectorSample, File, object, is_recent, read_last_line, find_latest_sample,
}
use pg_stress.Truth.Reader.LastLine.{read_last_line-append}
use pg_stress.Truth.Reader.Latest.{IsLatest, find_latest_sample-IsLatest}

abbrev bare_object : Raw hundredths
bare_object = record {
  sample_id = some "s1";
  timestamp = some "90";
  metric_type = none;
  database_id = none;
  labels = none;
  counters = none;
  gauges = none;
  deltas = none;
}

-- ASCII, where every line is one object of the time 90.
abbrev ascii : Decoders hundredths
ascii = record {
  utf8 = λ s. some s;
  loads = λ s. object bare_object;
  with_offset = λ s. s;
  fromisoformat = λ s. ok (pos 90);
}

read_last_line-append_example :
    read_last_line ascii (some (codes "{1}\n" ++ (codes "{2}" ++ 10 ∷ [])))
    ≡ ok (some (strip (codes "{2}\n")))
unfolding any_char
read_last_line-append_example =
    read_last_line-append ascii (codes "{1}\n") (codes "{2}") (codes "{2}\n")
      (inr (codes "{1}", omega arith, refl)) refl refl

abbrev two_files : List File
two_files =
    record { name = "a"; mtime = 1; content = some (codes "{1}\n") }
    ∷ record { name = "b"; mtime = 2; content = some [] }
    ∷ []

abbrev the_sample : CollectorSample hundredths
the_sample = record {
  sample_id = "s1";
  timestamp = pos 90;
  metric_type = "";
  database_id = "";
  labels = [];
  counters = [];
  gauges = [];
  deltas = [];
}

find_latest_sample-IsLatest_example : IsLatest ascii (pos 100) (pos 120) two_files the_sample
unfolding find_latest_sample is_space is_recent ◌-ℤ◌
find_latest_sample-IsLatest_example =
    find_latest_sample-IsLatest ascii (pos 100) (pos 120) two_files the_sample refl
