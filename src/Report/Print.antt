-- ===== src/Report/Print.antt =====
-- internal/report/report.go: `Write`, the summary as it is printed, and `writeEnum`. The texts of floating point numbers
-- are parameters: a share as `%5.2f%%`, and the interval of a share in a population as `%.2f`.
use www_scanner.Prelude.{
  ℕ, ◌+◌, [], ◌∷◌, ◌++◌, ltb, ◌==◌, length, map, take, if◌then◌else◌, Text, text,
}
use www_scanner.Prelude.Counts.{Counts, sort_counts}
use www_scanner.Prelude.Decimal.{format_int}
use www_scanner.Prelude.Strings.{join, pad_left, pad_right}
use www_scanner.Record.Resolve
use www_scanner.Record.RrTypes
use www_scanner.Record.Tls
use www_scanner.Record.Canonical
use www_scanner.Report.Summary.{Summary}

-- `%8d`
abbrev pub column : ℕ → Text
column n = pad_left 8 (format_int n)

-- the three bytes of the dash
abbrev pub em_dash : Text
em_dash = 226 ∷ 128 ∷ 148 ∷ []

module _ (percent : ℕ → ℕ → Text) (interval : ℕ → ℕ → ℕ → Text) where
  -- a row of a table: the name, the count and its share
  unfoldable pub table_row : ℕ → Text → ℕ → Text
  unfolding pad_left pad_right text
  table_row total name n =
      text "  "
      ++ pad_right 34 name
      ++ text " "
      ++ column n
      ++ text "  "
      ++ percent n total
      ++ text "\n"

  -- `writeEnum`
  unfoldable pub write_enum {ℓ} : {K : Type ℓ} → Counts K → ℕ → (K → Text) → Text
  unfolding sort_counts join
  write_enum m total name = join [] (map (λ p. table_row total (name (p.0)) (p.1)) (sort_counts m))

  -- what is measured of the domains whose apex serves
  abbrev pub measured_of : Summary → ℕ
  measured_of s = s.www_supported_of_serving + s.www_broken

  -- the share of the measured domains
  abbrev pub of_measured : Summary → ℕ → Text
  of_measured s n = if measured_of s == 0 then text "    -" else percent n (measured_of s)

  -- the answer, with its interval
  abbrev pub headline : Summary → Text
  headline s =
      text "\nHEADLINE\n"
      ++ text "  probed                   "
      ++ column s.attempted
      ++ text "  domains that produced a result\n"
      ++ text "  apex serves a site       "
      ++ column s.apex_serves
      ++ text "  "
      ++ percent s.apex_serves s.attempted
      ++ text " of those\n"
      ++ text
          "                                     (the rest is CDN/API infrastructure with no opinion about www)\n"
      ++ (if ltb 0 s.www_unknown
          then text "  ...www never measured    "
            ++ column s.www_unknown
            ++ text "  probe stalled "
            ++ em_dash
            ++ text " excluded from the ratio below\n"
          else [])
      ++ (if ltb 0 (measured_of s)
          then text "\n  of the "
            ++ format_int (measured_of s)
            ++ text " measured:\n"
            ++ text "    www works              "
            ++ column s.www_supported_of_serving
            ++ text "  "
            ++ of_measured s s.www_supported_of_serving
            ++ text " +/- "
            ++ interval s.www_supported_of_serving (measured_of s) s.population
            ++ text " pts (95% CI)   <- THE ANSWER\n"
            ++ text "    www broken             "
            ++ column s.www_broken
            ++ text "  "
            ++ of_measured s s.www_broken
            ++ text "\n"
          else [])
      ++ text "\n  (www works across the whole corpus: "
      ++ format_int s.www_supported
      ++ text ", "
      ++ percent s.www_supported s.attempted
      ++ text " "
      ++ em_dash
      ++ text " but a popularity list ranked partly by\n"
      ++ text
          "   DNS query volume is full of CDN and API infrastructure that was never a website,\n"
      ++ text "   so that denominator understates it.)\n"

  -- the row of a status
  abbrev pub status_row : Summary → ℕ × ℕ → Text
  status_row s p =
      table_row s.attempted (if p.0 == 0 then text "(none)" else format_int (p.0)) (p.1)

  -- the tables behind the headline
  abbrev pub tables : Summary → Text
  tables s =
      (if ltb 0 s.www_wildcard_only
        then text "\n  wildcard-only            "
          ++ column s.www_wildcard_only
          ++ text "  "
          ++ percent s.www_wildcard_only s.attempted
          ++ text " of corpus (resolves, but the zone answers to any label)\n"
        else [])
      ++ (if length s.broken_reason == 0
          then []
          else text "\nHOW www BREAKS (on domains whose apex serves)\n"
            ++ write_enum s.broken_reason s.www_broken (λ k. k))
      ++ text "\nREGISTRATION STATE "
      ++ em_dash
      ++ text " apex\n"
      ++ write_enum s.registration s.attempted (λ k. k)
      ++ text "\nDNS "
      ++ em_dash
      ++ text " www\n"
      ++ write_enum s.www_resolve s.attempted Resolve.string
      ++ text "\nDNS "
      ++ em_dash
      ++ text " apex\n"
      ++ write_enum s.apex_resolve s.attempted Resolve.string
      ++ text "\nTLS "
      ++ em_dash
      ++ text " www\n"
      ++ write_enum s.www_tls s.attempted Tls.string
      ++ text "\nRECORD TYPE "
      ++ em_dash
      ++ text " www\n"
      ++ write_enum s.rr_types s.attempted RrTypes.string
      ++ text "\nCANONICAL DIRECTION\n"
      ++ write_enum s.canonical s.attempted Canonical.string
      ++ text "\nHTTP STATUS "
      ++ em_dash
      ++ text " www (top 10)\n"
      ++ join [] (map (status_row s) (take 10 (sort_counts s.www_http)))

  -- `Write`
  unfoldable pub write : Summary → Text
  unfolding write_enum table_row sort_counts join text
  write s =
      text "corpus       "
      ++ format_int s.total
      ++ text " domains  ("
      ++ format_int s.attempted
      ++ text " probed, "
      ++ format_int s.unattempted
      ++ text " not yet attempted)\n"
      ++ (if s.attempted == 0 then [] else headline s ++ tables s)
