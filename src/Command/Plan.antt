-- ===== src/Command/Plan.antt =====
-- cmd/wwwscan/main.go: `cmdScan` up to its call of `scan.Run`. The settings of the HTTP client and the lines that it
-- prints are left out; `%.2f` of a share is a parameter.
use www_scanner.Prelude.{
  ℕ, Bool, true, false, not, ◌&&◌, ◌||◌, List, [], ◌∷◌, ◌++◌, Option, none, some, Result, ok, err,
  map_err, ◌>>=◌, ℤ, length, ltb, ◌==◌, if◌then◌else◌, Text, text, eq_text,
}
use www_scanner.Prelude.Integers.{positive_part, format_signed}
use www_scanner.Sink.{Mmap, create, len}
use www_scanner.Sink.Null.{Null}
use www_scanner.Sink.Results.{of_mmap}
use www_scanner.Scan.Recheck.{parse_recheck_filter, recheck_indices}
use www_scanner.Scan.Sample.{sample_indices}
use www_scanner.Scan.Pool.{Options}
use www_scanner.Probe.Ladder.{Config}
use www_scanner.Probe.Dial.{default_config}
use www_scanner.Runmeta.{Sample}
use www_scanner.Command.Texts.{ordinal_suffix, dir_of}
use www_scanner.Command.World.{
  CommandError, needs_flag, needs_out, throughput_writes, unknown_mode, mkdir_failed, bad_results,
  resolver_failed, sample_and_limit, recheck_and_other, sample_exceeds, length_differs, bad_filter,
  no_match, World, Corpus, load_corpus, open_results, set_file,
}

-- the flags that decide what is scanned, how it is probed, and where the results go; `timed` is `-duration` above zero
pub record Flags : Type 0 where
  pub corpus_path : Text
  pub out_path : Text
  pub mode : Text
  pub null_sink : Bool
  pub workers : ℤ
  pub limit : ℤ
  pub sample : ℤ
  pub seed : ℕ
  pub recheck : Text
  pub recheck_filter : Text
  pub recheck_stride : ℤ
  pub timed : Bool
  pub resume : Bool
  pub no_wildcard_check : Bool
  pub check_delegation : Bool
  pub no_http_fallback : Bool

-- `sink.Sink`
pub data Out : Type 0 where
  null_out : Null → Out
  file_out : Mmap → Out

-- the `switch` over the mode: whether results are discarded
unfoldable pub null_sink_of : Flags → Result CommandError Bool
unfolding text eq_text
null_sink_of f =
    if eq_text f.mode (text "census")
    then (if eq_text f.out_path [] && not f.null_sink then err needs_out else ok f.null_sink)
    else if eq_text f.mode (text "throughput")
    then (if not (eq_text f.out_path []) then err throughput_writes else ok true)
    else err (unknown_mode f.mode)

-- the sink, and the machine after its creation
unfoldable pub open_out : World → Flags → Bool → ℕ → Result CommandError (World × Out)
unfolding eq_text dir_of
open_out w f true domains = ok (w, null_out (record { n = domains }))
open_out w f false domains =
    let made = create (w.faults f.out_path) (w.files f.out_path) domains in
    if not (eq_text (dir_of f.out_path) []) && w.mkdir_fails (dir_of f.out_path)
    then err mkdir_failed
    else map_err bad_results made.1 >>= λ s. ok (set_file w f.out_path made.0, file_out s)

-- `opts.Indices`, `total` and the description of the sample
pub record Choice : Type 0 where
  pub indices : Option (List ℕ)
  pub total : ℕ
  pub sample : Sample

module _ (percent_2 : ℕ → ℕ → Text) (w : World) (f : Flags) where
  -- `-sample`
  unfoldable pub choose_sample : ℕ → Result CommandError Choice
  unfolding text
  choose_sample domains =
      let k = positive_part f.sample in
      let s = if f.seed == 0 then w.now else f.seed in
      let indices = sample_indices (w.int_n s) domains k in
      if ltb domains k
      then err (sample_exceeds k domains)
      else ok (record {
        indices = some indices;
        total = length indices;
        sample = record {
          method = text "random";
          size = k;
          seed = s;
          fraction = percent_2 k domains;
          note = text "uniform random sample drawn across the whole corpus";
        };
      })

  -- the note of a recheck; `%q` puts a filter with nothing to escape between quotation marks
  abbrev pub recheck_note : Text
  recheck_note =
      text "re-probe of domains matching \""
      ++ f.recheck_filter
      ++ text "\" in "
      ++ f.recheck
      ++ (if ltb 1 (positive_part f.recheck_stride)
          then text ", every "
            ++ format_signed f.recheck_stride
            ++ ordinal_suffix f.recheck_stride
            ++ text " match"
          else [])

  -- the selection from the previous results, which is an error if it is empty
  unfoldable pub choose_matches : ℕ → List ℕ → Result CommandError Choice
  unfolding text
  choose_matches domains indices =
      if length indices == 0
      then err no_match
      else ok (record {
        indices = some indices;
        total = length indices;
        sample = record {
          method = text "recheck";
          size = length indices;
          seed = 0;
          fraction = percent_2 (length indices) domains;
          note = recheck_note;
        };
      })

  -- `-recheck`
  unfoldable pub choose_recheck : ℕ → Result CommandError Choice
  unfolding choose_matches of_mmap
  choose_recheck domains = open_results w f.recheck >>= λ prev.
      if not (len prev == domains)
      then err (length_differs (len prev) domains)
      else elim (parse_recheck_filter f.recheck_filter) [
        | none ↦ err (bad_filter f.recheck_filter)
        | some filter ↦
            choose_matches domains
              (recheck_indices (of_mmap prev) filter (positive_part f.recheck_stride))
      ]

  -- without `-sample` and `-recheck`
  unfoldable pub choose_head : ℕ → Choice
  unfolding text
  choose_head domains =
      let limit = positive_part f.limit in
      record {
        indices = none;
        total = if ltb 0 limit && ltb limit domains then limit else domains;
        sample =
            if ltb 0 limit
            then record {
              method = text "head";
              size = limit;
              seed = 0;
              fraction = percent_2 limit domains;
              note =
                  text "the FIRST N in corpus order "
                  ++ (226 ∷ 128 ∷ 148 ∷ [])
                  ++ text
                      " for a ranked corpus this is the most popular domains, not a representative sample";
            }
            else record {
              method = text "full";
              size = domains;
              seed = 0;
              fraction = text "100%";
              note = text "every domain in the corpus";
            };
      }

  -- which domains are probed
  unfoldable pub choose : ℕ → Result CommandError Choice
  unfolding eq_text choose_sample choose_recheck choose_head
  choose domains =
      if ltb 0 (positive_part f.sample) && ltb 0 (positive_part f.limit)
      then err sample_and_limit
      else if not (eq_text f.recheck [])
          && (ltb 0 (positive_part f.sample) || ltb 0 (positive_part f.limit))
      then err recheck_and_other
      else if ltb 0 (positive_part f.sample)
      then choose_sample domains
      else if not (eq_text f.recheck [])
      then choose_recheck domains
      else ok (choose_head domains)

-- What `scan.Run` is called with, the description of the sample, the total that is announced, and the machine then.
pub record Planned : Type 0 where
  pub world : World
  pub corpus : Corpus
  pub out : Out
  pub probe : Config
  pub opts : Options
  pub sample : Sample
  pub total : ℕ

abbrev pub options_of : Flags → Bool → Choice → Options
options_of f null_sink c = record {
  workers = positive_part f.workers;
  limit = positive_part f.limit;
  indices = c.indices;
  timed = f.timed;
  resume = f.resume && not null_sink;
}

-- the configuration of the prober
abbrev pub probe_config : Flags → Config
probe_config f = record default_config {
  wildcard_check = not f.no_wildcard_check;
  check_delegation = f.check_delegation;
  http_fallback = not f.no_http_fallback;
}

-- `cmdScan`
unfoldable pub plan : (ℕ → ℕ → Text) → World → Flags → Result CommandError Planned
unfolding null_sink_of eq_text
plan percent_2 w f =
    if eq_text f.corpus_path []
    then err needs_flag
    else null_sink_of f >>= λ null_sink. load_corpus w f.corpus_path >>= λ c.
        open_out w f null_sink (length c.domains) >>= λ opened.
        if w.resolver_fails
        then err resolver_failed
        else choose percent_2 opened.0 f (length c.domains) >>= λ chosen. ok (record {
          world = opened.0;
          corpus = c;
          out = opened.1;
          probe = probe_config f;
          opts = options_of f null_sink chosen;
          sample = chosen.sample;
          total = chosen.total;
        })
