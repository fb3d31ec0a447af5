-- ===== src/Command/Witnesses.antt =====
-- The theorems of cmd/wwwscan at one concrete machine: a corpus of three domains, and one old result file.
use native.Mathlib.Nat.{mod-lt}
use www_scanner.Prelude.{
  ℕ, length, ◌<◌, ◌≡◌, ◌≢◌, refl, true, false, List, [], ◌∷◌, none, some, ok, All, replicate, pos,
  Text, text, eq_text, ◌++◌, ◌%◌,
}
use www_scanner.Prelude.Integers.{positive_part, ltb_int}
use www_scanner.Prelude.Strings.{trim_space}
use www_scanner.Record.{Record, zero_record, decode, conclusive}
use www_scanner.Record.Codec.{encode_bytes}
use www_scanner.Sink.{Mmap, create, open_file, get, len}
use www_scanner.Sink.Results.{of_mmap}
use www_scanner.Sink.Laws.{IsOpen}
use www_scanner.Sink.Resume.{no_faults}
use www_scanner.Scan.Recheck.{parse_recheck_filter, recheck_indices, matches}
use www_scanner.Scan.Sample.Bounds.{IsAscending}
use www_scanner.Scan.Pool.{work_of, should_skip, start}
use www_scanner.Corpus.Files.{load, read_domains}
use www_scanner.Corpus.Normalize.{normalize, lines, scan_text, after_comma, normal_host}
use www_scanner.Command.World.{World, Corpus, no_manifest, load_corpus, open_results, set_file}
use www_scanner.Command.Texts.{dir_of}
use www_scanner.Command.Plan.{
  Flags, file_out, null_out, Choice, Planned, open_out, choose_matches, choose_recheck, choose_head,
  choose, options_of, probe_config, recheck_note, plan,
}
use www_scanner.Command.Rerun.{recheck_in_place-skips}
use www_scanner.Command.Started.{plan-starts}

abbrev pub percent : ℕ → ℕ → Text
percent a b = text "50%"

abbrev names : List Text
names = text "a.com" ∷ text "b.com" ∷ text "c.com" ∷ []

abbrev hung : Record
hung = record zero_record { status = 2 }

-- the bytes of three records, the second of which was tried
abbrev old_bytes : List ℕ
old_bytes = encode_bytes zero_record [] ++ encode_bytes hung [] ++ encode_bytes zero_record []

abbrev pub machine : World
machine = record {
  corpus_file = λ p. some (text "a.com\nb.com\nc.com\n", none);
  files = λ p. old_bytes;
  faults = λ p. no_faults;
  mkdir_fails = λ p. false;
  resolver_fails = false;
  now = 7;
  int_n = λ seed j b. seed % b;
}

abbrev rescan : Flags
rescan = record {
  corpus_path = text "c.txt";
  out_path = text "r.bin";
  mode = text "census";
  null_sink = false;
  workers = pos 200;
  limit = pos 0;
  sample = pos 0;
  seed = 0;
  recheck = text "r.bin";
  recheck_filter = text "stalled";
  recheck_stride = pos 1;
  timed = false;
  resume = true;
  no_wildcard_check = false;
  check_delegation = true;
  no_http_fallback = false;
}

-- the sink over the old file
abbrev pub old_sink : Mmap
old_sink = record { file = old_bytes; mapped = true; n = 3 }

abbrev pub three : Corpus
three = record { domains = names; manifest = no_manifest }

pub corpus_step : load_corpus machine (text "c.txt") ≡ ok three
unfolding load_corpus load text read_domains lines normalize scan_text trim_space after_comma
    normal_host
corpus_step = refl

abbrev pub opened : World
opened = set_file machine (text "r.bin") old_bytes

sink_step : open_out machine rescan false 3 ≡ ok (opened, file_out old_sink)
unfolding open_out text create dir_of
sink_step = refl

abbrev selected : Choice
selected = record {
  indices = some (1 ∷ []);
  total = 1;
  sample = record {
    method = text "recheck";
    size = 1;
    seed = 0;
    fraction = text "50%";
    note = recheck_note percent opened rescan;
  };
}

choice_step : choose percent opened rescan 3 ≡ ok selected
unfolding choose choose_recheck choose_matches open_results open_file text parse_recheck_filter
    recheck_indices matches conclusive get of_mmap decode eq_text positive_part ltb_int len
choice_step = refl

abbrev planned : Planned
planned = record {
  world = opened;
  corpus = three;
  out = file_out old_sink;
  probe = probe_config rescan;
  opts = options_of rescan false selected;
  sample = selected.sample;
  total = 1;
}

rescan_succeeds : plan percent machine rescan ≡ ok planned
unfolding plan text
rescan_succeeds = rw (corpus_step, sink_step, choice_step) refl

rescan_rechecks : rescan.recheck ≢ []
unfolding text
rescan_rechecks e = cc

recheck_in_place-skips_example :
    All (λ i. should_skip planned.opts old_sink i ≡ true) (work_of planned.opts 3)
recheck_in_place-skips_example =
    recheck_in_place-skips percent machine rescan planned old_sink rescan_succeeds refl refl
      rescan_rechecks refl

plan-starts_example :
    IsOpen old_sink
    × (start planned.opts 3 old_sink ≢ none)
    × All (λ i. i < 3) (work_of planned.opts 3)
    × IsAscending (work_of planned.opts 3)
    × (length (work_of planned.opts 3) ≡ 1)
plan-starts_example =
    plan-starts percent machine rescan planned old_sink rescan_succeeds refl (λ s j b h. mod-lt s h)

-- the whole corpus, into a new file
abbrev pub first_scan : Flags
first_scan = record rescan { recheck = [] }

abbrev pub new_machine : World
new_machine = record machine { files = λ p. [] }

abbrev pub new_sink : Mmap
new_sink = record { file = replicate 72 0; mapped = true; n = 3 }

abbrev pub after_first : Planned
after_first = record {
  world = set_file new_machine (text "r.bin") (replicate 72 0);
  corpus = three;
  out = file_out new_sink;
  probe = probe_config rescan;
  opts = record { workers = 200; limit = 0; indices = none; timed = false; resume = true };
  sample = record {
    method = text "full";
    size = 3;
    seed = 0;
    fraction = text "100%";
    note = text "every domain in the corpus";
  };
  total = 3;
}

pub new_corpus_step : load_corpus new_machine (text "c.txt") ≡ ok three
unfolding load_corpus
new_corpus_step = corpus_step

pub first_scan_succeeds : plan percent new_machine first_scan ≡ ok after_first
unfolding plan text open_out create dir_of choose choose_head eq_text positive_part
first_scan_succeeds = rw new_corpus_step refl

-- no results, only speed
abbrev speed : Flags
speed = record rescan { out_path = []; recheck = []; mode = text "throughput"; limit = pos 5 }

abbrev after_speed : Planned
after_speed = record {
  world = machine;
  corpus = three;
  out = null_out (record { n = 3 });
  probe = probe_config rescan;
  opts = record { workers = 200; limit = 5; indices = none; timed = false; resume = false };
  sample = (choose_head percent machine speed 3).sample;
  total = 3;
}

speed_succeeds : plan percent machine speed ≡ ok after_speed
unfolding plan text open_out choose choose_head eq_text positive_part
speed_succeeds = rw corpus_step refl
