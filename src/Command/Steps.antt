-- ===== src/Command/Steps.antt =====
-- cmd/wwwscan/main.go: what a scan that gets as far as its run has gone through.
use www_scanner.Prelude.{
  ℕ, ◌≡◌, ◌≢◌, refl, ap, ◌∙◌, Bool, true, false, not, ◌&&◌, List, [], Result, ok, Always,
  Always-elim, Always-if, Always-bind, map_err, Always-map_err, eq_text_iff, length, Text, text,
  eq_text, arith,
}
use www_scanner.Sink.{Mmap, create}
use www_scanner.Sink.Null.{Null}
use www_scanner.Sink.Opening.{IsOver, create-IsOver}
use www_scanner.Command.Texts.{dir_of}
use www_scanner.Command.World.{World, load_corpus, set_file, CommandError, bad_results}
use www_scanner.Command.Plan.{
  Flags, Out, null_out, file_out, null_sink_of, open_out, Choice, choose, Planned, options_of, plan,
}

-- The calls of `cmdScan`, each with what it returned.
pub record WentThrough (percent_2 : ℕ → ℕ → Text) (w : World) (f : Flags) (p : Planned)
    : Type 0 where
  pub null_sink : Bool
  pub has_corpus : eq_text f.corpus_path [] ≡ false
  pub chosen : Choice
  pub mode_read : null_sink_of f ≡ ok null_sink
  pub loaded : load_corpus w f.corpus_path ≡ ok p.corpus
  pub opened : open_out w f null_sink (length p.corpus.domains) ≡ ok (p.world, p.out)
  pub selected : choose percent_2 p.world f (length p.corpus.domains) ≡ ok chosen
  pub opts_set : p.opts ≡ options_of f null_sink chosen
  pub sample_set : p.sample ≡ chosen.sample
  pub total_set : p.total ≡ chosen.total

module _ (percent_2 : ℕ → ℕ → Text) (w : World) (f : Flags) where
  pub plan-WentThrough : (p : Planned) → plan percent_2 w f ≡ ok p → WentThrough percent_2 w f p
  unfolding plan
  plan-WentThrough p = Always-elim through _ p (
      Always-if through (eq_text f.corpus_path []) _ _ (λ _. tt)
        (λ given. Always-bind through (null_sink_of f) _ (λ b mode.
          Always-bind through (load_corpus w f.corpus_path) _ (λ c load.
            Always-bind through (open_out w f b (length c.domains)) _ (λ o open_.
              Always-if through w.resolver_fails _ _ (λ _. tt)
                (λ _.
                  Always-bind through (choose percent_2 o.0 f (length c.domains)) _ (λ chosen sel.
                    record {
                      null_sink = b;
                      has_corpus = given;
                      chosen = chosen;
                      mode_read = mode;
                      loaded = load;
                      opened = open_;
                      selected = sel;
                      opts_set = refl;
                      sample_set = refl;
                      total_set = refl;
                    })))))))
    where
      through : Planned → Type 0
      through = WentThrough percent_2 w f

-- A result file that is written is an open sink over the content of the file at the path of `-out`, as `Create` made it.
pub record IsFile (w : World) (f : Flags) (domains : ℕ) (w' : World) (s : Mmap) : Type 0 where
  pub over : IsOver domains (w'.files f.out_path) s
  pub made : w'.files f.out_path ≡ (create (w.faults f.out_path) (w.files f.out_path) domains).0

-- what is known of a sink that was opened
abbrev OpenedOut : World → Flags → ℕ → World × Out → Type 0
OpenedOut w f domains (w', null_out s) = Unit
OpenedOut w f domains (w', file_out s) = IsFile w f domains w' s

set_file-same :
    (w : World) (path : Text) (content : List ℕ) → (set_file w path content).files path ≡ content
set_file-same w path content = ground (arith, eq_text_iff path path)

set_file-IsFile :
    (w : World) (f : Flags) (domains : ℕ) (s : Mmap)
    → IsOver domains (create (w.faults f.out_path) (w.files f.out_path) domains).0 s
    → IsFile w f domains
        (set_file w f.out_path (create (w.faults f.out_path) (w.files f.out_path) domains).0)
        s
set_file-IsFile w f domains s over =
    let same =
      set_file-same w f.out_path (create (w.faults f.out_path) (w.files f.out_path) domains).0 in
    record { over = rw same over; made = same }

pub open_out-IsFile :
    (w : World) (f : Flags) (domains : ℕ) (w' : World) (s : Mmap)
    → open_out w f false domains ≡ ok (w', file_out s)
    → IsFile w f domains w' s
unfolding open_out
open_out-IsFile w f domains w' s =
    let made = create (w.faults f.out_path) (w.files f.out_path) domains in
    let over = create-IsOver (w.faults f.out_path) (w.files f.out_path) domains in
    let no_dir = not (eq_text (dir_of f.out_path) []) && w.mkdir_fails (dir_of f.out_path) in
    Always-elim (OpenedOut w f domains) _ (w', file_out s)
      (Always-if (OpenedOut w f domains) no_dir _ _ (λ _. tt)
        (λ _. Always-bind (OpenedOut w f domains) (map_err bad_results made.1) _ (λ s' e.
          set_file-IsFile w f domains s' (
            Always-elim (IsOver domains made.0) _ s'
              (Always-map_err (IsOver domains made.0) bad_results made.1 over) e))))

null-file :
    (n : Null) (w w' : World) (s : Mmap)
    → ◌≢◌ {A = Result CommandError (World × Out)} (ok (w, null_out n)) (ok (w', file_out s))
null-file n w w' s h = cc

-- A scan with a result file has not taken the null sink.
file_out-IsFile :
    (w : World) (f : Flags) (domains : ℕ) (w' : World) (s : Mmap) (b : Bool)
    → open_out w f b domains ≡ ok (w', file_out s)
    → (b ≡ false) × IsFile w f domains w' s
unfolding open_out
file_out-IsFile w f domains w' s true h = absurd (null-file _ w w' s h)
file_out-IsFile w f domains w' s false h = (refl, open_out-IsFile w f domains w' s h)

-- Results are kept only with a path for them.
census-out : (f : Flags) → Always (λ b. b ≡ false → eq_text f.out_path [] ≡ false) (null_sink_of f)
unfolding null_sink_of
census-out f =
    let kept : Bool → Type 0 = λ b. b ≡ false → eq_text f.out_path [] ≡ false in
    Always-if kept (eq_text f.mode (text "census")) _ _
      (λ _.
        Always-if kept (eq_text f.out_path [] && not f.null_sink) _ _ (λ _. tt)
          (λ e null. ground (arith, e, null)))
      (λ _.
        Always-if kept (eq_text f.mode (text "throughput")) _ _
          (λ _. Always-if kept (not (eq_text f.out_path [])) _ _ (λ _. tt) (λ _ null. absurd (cc)))
          (λ _. tt))

-- A planned scan with a result file: the file, and the choice that its options come from.
pub record WithFile (percent_2 : ℕ → ℕ → Text) (w : World) (f : Flags) (p : Planned) (s : Mmap)
    : Type 0 where
  pub choice : Choice
  pub chosen : choose percent_2 p.world f (length p.corpus.domains) ≡ ok choice
  pub opts_of : p.opts ≡ options_of f false choice
  pub total_of : p.total ≡ choice.total
  pub file : IsFile w f (length p.corpus.domains) p.world s
  pub has_corpus : eq_text f.corpus_path [] ≡ false
  pub has_out : eq_text f.out_path [] ≡ false
  pub loaded : load_corpus w f.corpus_path ≡ ok p.corpus

pub plan-WithFile :
    (percent_2 : ℕ → ℕ → Text) (w : World) (f : Flags) (p : Planned) (s : Mmap)
    → plan percent_2 w f ≡ ok p
    → p.out ≡ file_out s
    → WithFile percent_2 w f p s
plan-WithFile percent_2 w f p s planned out =
    let t = plan-WentThrough percent_2 w f p planned in
    let (kept, file) =
      file_out-IsFile w f (length p.corpus.domains) p.world s t.null_sink
        (t.opened ∙ ap (λ o. ok (p.world, o)) out) in
    record {
      choice = t.chosen;
      chosen = t.selected;
      total_of = t.total_set;
      opts_of = t.opts_set ∙ ap (λ b. options_of f b t.chosen) kept;
      file = file;
      has_corpus = t.has_corpus;
      has_out =
          Always-elim (λ b. b ≡ false → eq_text f.out_path [] ≡ false) _ t.null_sink (census-out f)
            t.mode_read kept;
      loaded = t.loaded;
    }
