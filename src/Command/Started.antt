-- ===== src/Command/Started.antt =====
-- cmd/wwwscan/main.go: a planned scan can run, and its mode keeps its promise about files.
use www_scanner.Prelude.{
  ℕ, ◌<◌, ◌≤◌, ◌≡◌, ◌≢◌, refl, sym, subst, ap, ◌∙◌, Bool, true, false, not, ◌&&◌, [], none, ok, All,
  Always, Always-elim, Always-if, length, Text, text, eq_text, arith,
}
use www_scanner.Sink.{Mmap, len}
use www_scanner.Sink.Laws.{IsOpen}
use www_scanner.Scan.Sample.Bounds.{IsAscending}
use www_scanner.Scan.Pool.{Options, work_of, start}
use www_scanner.Command.World.{World}
use www_scanner.Command.Plan.{Flags, Out, null_out, file_out, null_sink_of, open_out, Planned, plan}
use www_scanner.Command.Selection.{choose-IsSound}
use www_scanner.Command.Steps.{plan-WentThrough, plan-WithFile}

start_lem :
    (opts : Options) (domains : ℕ) (s : Mmap) → domains ≤ len s → start opts domains s ≢ none
unfolding start
start_lem opts domains s h = ground arith

-- A planned scan with a result file can run: the file is open and has room for the corpus, so the run starts; every
-- entry of its work is a position that a write can reach; no entry stands twice; and there are as many as the total that
-- `cmdScan` announces.
-- This asks that the generator draws below its bound.
pub plan-starts :
    (percent_2 : ℕ → ℕ → Text) (w : World) (f : Flags) (p : Planned) (s : Mmap)
    → plan percent_2 w f ≡ ok p
    → p.out ≡ file_out s
    → ((seed j b : ℕ) → 0 < b → p.world.int_n seed j b < b)
    → let work = work_of p.opts (length p.corpus.domains) in
      IsOpen s
      × (start p.opts (length p.corpus.domains) s ≢ none)
      × All (λ i. i < s.n) work
      × IsAscending work
      × (length work ≡ p.total)
unfolding len
plan-starts percent_2 w f p s planned out drawn =
    let t = plan-WithFile percent_2 w f p s planned out in
    let domains = length p.corpus.domains in
    let sound = choose-IsSound percent_2 p.world f false domains t.choice drawn t.chosen in
    let size : s.n ≡ domains = t.file.over.sized in
    (
      t.file.over.live,
      start_lem p.opts domains s (omega (arith, size)),
      subst (λ n. All (λ i. i < n) (work_of p.opts domains)) (sym size)
          (subst (λ o. All (λ i. i < domains) (work_of o domains)) (sym t.opts_of) sound.in_corpus),
      subst (λ o. IsAscending (work_of o domains)) (sym t.opts_of) sound.ascending,
      subst (λ o. length (work_of o domains) ≡ p.total) (sym t.opts_of)
          (sound.announced ∙ sym t.total_of),
    )

throughput-null : (f : Flags) → f.mode ≡ text "throughput" → Always (λ b. b ≡ true) (null_sink_of f)
unfolding null_sink_of text
throughput-null f h =
    rw h (Always-if (λ b. b ≡ true) (not (eq_text f.out_path [])) _ _ (λ _. tt) (λ _. refl))

null-opened :
    (w : World) (f : Flags) (domains : ℕ) (w' : World) (o : Out) (b : Bool)
    → b ≡ true
    → open_out w f b domains ≡ ok (w', o)
    → (w' ≡ w) × (o ≡ null_out (record { n = domains }))
unfolding open_out
null-opened w f domains w' o true b h = (cc, cc)
null-opened w f domains w' o false b h = absurd (cc)

no_resume : (b : Bool) → (b && false) ≡ false
no_resume b = ground arith

-- A throughput run leaves every result file as it is: it gets the null sink, of the length of the corpus, the machine is
-- unchanged, and nothing is skipped.
pub throughput-null_sink :
    (percent_2 : ℕ → ℕ → Text) (w : World) (f : Flags) (p : Planned)
    → plan percent_2 w f ≡ ok p
    → f.mode ≡ text "throughput"
    → (p.world ≡ w)
      × (p.out ≡ null_out (record { n = length p.corpus.domains }))
      × (p.opts.resume ≡ false)
throughput-null_sink percent_2 w f p planned mode =
    let t = plan-WentThrough percent_2 w f p planned in
    let discards : t.null_sink ≡ true =
      Always-elim (λ b. b ≡ true) _ t.null_sink (throughput-null f mode) t.mode_read in
    let (same, discarded) =
      null-opened w f (length p.corpus.domains) p.world p.out t.null_sink discards t.opened in
    (same, discarded, ap (λ o. o.resume) t.opts_set ∙ rw discards (no_resume f.resume))
