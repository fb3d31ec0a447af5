-- ===== src/Command/Main.antt =====
-- cmd/wwwscan/main.go: `main`, `cmdCorpus` and `cmdProbe`, with what it prints of a probe.
use www_scanner.Prelude.{
  ℕ, Bool, not, ◌&&◌, List, [], ◌∷◌, ◌++◌, Result, ok, err, map_err, length, map, ltb, ◌==◌,
  if◌then◌else◌, Text, text, eq_text,
}
use www_scanner.Prelude.Strings.{pad_right}
use www_scanner.Prelude.Decimal.{format_int}
use www_scanner.Record.{Side, Record, www_supported}
use www_scanner.Record.Flags
use www_scanner.Record.Resolve
use www_scanner.Record.RrTypes
use www_scanner.Record.Tcp
use www_scanner.Record.Tls
use www_scanner.Record.Terminal
use www_scanner.Record.Canonical
use www_scanner.Probe.Classify.{www_of}
use www_scanner.Corpus.Files.{Manifest}
use www_scanner.Corpus.Import.{ImportError}
use www_scanner.Command.Texts.{dir_of}
use www_scanner.Command.Explain.{explain}

-- The commands, each of which ends with an error or without one.
pub record Commands : Type 0 where
  pub corpus : List Text → Bool
  pub probe : List Text → Bool
  pub scan : List Text → Bool
  pub bench : List Text → Bool
  pub report : List Text → Bool
  pub diff : List Text → Bool

-- the exit code after a command; the test is whether it failed
abbrev pub exit_code : Bool → ℕ
exit_code failed = if failed then 1 else 0

-- `main`, of `os.Args`: the exit code
unfoldable pub main : Commands → List Text → ℕ
unfolding text eq_text
main cmds [] = 2
main cmds (name ∷ []) = 2
main cmds (name ∷ command ∷ args) =
    if eq_text command (text "corpus")
    then exit_code (cmds.corpus args)
    else if eq_text command (text "probe")
    then exit_code (cmds.probe args)
    else if eq_text command (text "scan")
    then exit_code (cmds.scan args)
    else if eq_text command (text "bench")
    then exit_code (cmds.bench args)
    else if eq_text command (text "report")
    then exit_code (cmds.report args)
    else if eq_text command (text "diff")
    then exit_code (cmds.diff args)
    else if eq_text command (text "-h")
    then 0
    else if eq_text command (text "--help")
    then 0
    else if eq_text command (text "help")
    then 0
    else 2

-- why `cmdCorpus` writes nothing
pub data CorpusError : Type 0 where
  no_directory : CorpusError
  not_imported : ImportError → CorpusError

-- `cmdCorpus`, of the paths of `-out` and `-from`: the corpus file and its manifest
unfoldable pub corpus_command :
    (Text → Bool)
    → Text
    → Text
    → (Text → Result ImportError (Text × Manifest))
    → Result ImportError (Text × Manifest)
    → Result CorpusError (Text × Manifest)
unfolding dir_of eq_text
corpus_command mkdir_fails out src import_file fetch =
    if not (eq_text (dir_of out) []) && mkdir_fails (dir_of out)
    then err no_directory
    else map_err not_imported (if eq_text src [] then fetch else import_file src)

-- one line of the table of `printProbe`, whose columns but the first and the last have fixed widths
abbrev pub table_line : ℕ → Text → Text → Text → Text → Text → Text → Text → Text → Text
table_line w name dns rr tcp tls http terminal hops =
    text "  "
    ++ pad_right w name
    ++ text "  "
    ++ pad_right 8 dns
    ++ text " "
    ++ pad_right 12 rr
    ++ text " "
    ++ pad_right 11 tcp
    ++ text " "
    ++ pad_right 17 tls
    ++ text " "
    ++ pad_right 5 http
    ++ text " "
    ++ pad_right 9 terminal
    ++ text " "
    ++ hops
    ++ text "\n"

-- `printSide`
unfoldable pub print_side : ℕ → Text → Side → Text
unfolding pad_right text
print_side w name s =
    table_line w name (Resolve.string s.resolve) (RrTypes.string s.rr_types) (Tcp.string s.tcp)
      (Tls.string s.tls) (if not (s.http == 0) then format_int s.http else text "-")
      (Terminal.string s.terminal) (format_int s.hops)

-- the dash in what is printed, as bytes
abbrev pub em_dash : Text
em_dash = 226 ∷ 128 ∷ 148 ∷ []

-- `printProbe`, with the elapsed time as its text
unfoldable pub print_probe : Text → Record → Text → Text
unfolding print_side text
print_probe domain r elapsed =
    let w = if ltb (length (www_of domain)) 12 then 12 else length (www_of domain) in
    text "\n"
    ++ domain
    ++ text "  ("
    ++ elapsed
    ++ text ")\n"
    ++ table_line w (text "name") (text "dns") (text "rr") (text "tcp") (text "tls") (text "http")
        (text "terminal") (text "hops")
    ++ print_side w domain r.apex
    ++ print_side w (www_of domain) r.www
    ++ text "  canonical: "
    ++ Canonical.string r.canonical
    ++ text "\n"
    ++ (if Flags.has r.flags Flags.wildcard
        then text "  wildcard:  yes "
          ++ em_dash
          ++ text " a random label resolves too, so www resolving proves nothing\n"
        else if Flags.has r.flags Flags.wildcard_checked
        then text "  wildcard:  no\n"
        else [])
    ++ (if Flags.has r.flags Flags.http_fallback
        then text
            "  note:      https failed, so the http status above came from a plaintext retry\n"
        else [])
    ++ (if www_supported r
        then text "  verdict:   www works\n"
        else text "  verdict:   www does NOT work "
          ++ em_dash
          ++ text " "
          ++ explain r
          ++ text "\n")

-- why `cmdProbe` prints nothing
pub data ProbeError : Type 0 where
  needs_domain : ProbeError
  no_resolver : ProbeError

-- `cmdProbe` behind its flags: what it prints of each domain, with the times that the probes take
unfoldable pub probe_command :
    Bool → (Text → Record) → (Text → Text) → List Text → Result ProbeError (List Text)
unfolding print_probe
probe_command resolver_fails probe elapsed [] = err needs_domain
probe_command resolver_fails probe elapsed (d ∷ ds) =
    if resolver_fails
    then err no_resolver
    else ok (map (λ domain. print_probe domain (probe domain) (elapsed domain)) (d ∷ ds))
