-- ===== src/Probe/Walk.antt =====
-- internal/probe/probe.go: `hostOf`, `resolveRef` and `walk`, which follows a redirect chain by hand.
-- `net/url` and the requests of the HTTP client are parameters.
use www_scanner.Prelude.{
  ℕ, zero, suc, ◌+◌, ◌%◌, Bool, false, not, ◌&&◌, ◌||◌, [], Option, none, some, ◌==◌, if◌then◌else◌,
  Text, text, eq_text,
}
use www_scanner.Prelude.Strings.{trim_space, to_lower, has_prefix}
use www_scanner.Record.{Side}
use www_scanner.Record.Tcp
use www_scanner.Record.Tls
use www_scanner.Record.Terminal
use www_scanner.Probe.Transport.{Reply, failed, answered, classify_transport_err}
use www_scanner.Probe.Classify.{classify_terminal, is_redirect}

-- what the code reads of a `*url.URL`
pub record Url : Type 0 where
  pub scheme : Text
  pub hostname : Text
  pub spelled : Text  -- `String()`

-- the functions of `net/url`
pub record UrlLib : Type 0 where
  pub parse : Text → Option Url
  pub resolve_reference : Url → Url → Url

-- the host and the side that a walk has got to
pub record Stop : Type 0 where
  pub side : Side
  pub last_host : Text

abbrev pub is_https : Text → Bool
is_https u = has_prefix u (text "https://")

-- What an answer at a hop writes into the side.
abbrev pub note_answer : Side → Text → ℕ → ℕ → Side
note_answer side current hop code = record side {
  tcp = Tcp.ok;
  tls = if is_https current then Tls.ok else side.tls;
  http = code % 65536;
  hops = hop % 256;
}

module _ (urls : UrlLib) where
  -- `hostOf`
  unfoldable pub host_of : Text → Text
  unfolding to_lower
  host_of raw = elim (urls.parse raw) [ none ↦ [] | some u ↦ to_lower u.hostname ]

  -- `resolveRef`; `none` is the error
  unfoldable pub resolve_ref : Text → Text → Option Text
  unfolding trim_space eq_text text
  resolve_ref base ref = elim (urls.parse base) [
    | none ↦ none
    | some b ↦ elim (urls.parse (trim_space ref)) [
      | none ↦ none
      | some r ↦
          let next = urls.resolve_reference b r in
          if not (eq_text next.scheme (text "http")) && not (eq_text next.scheme (text "https"))
          then none
          else some next.spelled
    ]
  ]

  -- the URL of the next request, if the chain goes on
  unfoldable pub next_url : Text → ℕ → Text → Option Text
  unfolding is_redirect resolve_ref
  next_url current code loc =
      if not (is_redirect code) || eq_text loc [] then none else elim (resolve_ref current loc) [
        | none ↦ none
        | some next ↦ if eq_text next current then none else some next
      ]

  -- `fetch hop url` is what the request of that hop comes back with.
  module _ (fetch : ℕ → Text → Reply) where
    -- the loop of `walk`, with the rounds left. `http.NewRequest` fails if the URL does not parse.
    unfoldable pub follow : ℕ → ℕ → Text → Text → Side → Stop
    follow zero hop current last side = record { side = side; last_host = last }
    follow (suc rounds) hop current last side = elim (urls.parse current) [
      | none ↦ record { side = record side { tcp = Tcp.error }; last_host = last }
      | some _ ↦ elim (fetch hop current) [
        | failed err ↦ record {
          side = if hop == 0 then classify_transport_err side err (is_https current) else side;
          last_host = last;
        }
        | answered code loc ↦ elim (next_url current code loc) [
          | none ↦ record { side = note_answer side current hop code; last_host = host_of current }
          | some next ↦
              follow rounds (hop + 1) next (host_of current) (note_answer side current hop code)
        ]
      ]
    ]

    -- `walk` with the cap on hops: the side afterwards and the host it came to rest on. Its second
    -- result is `false` on both returns.
    unfoldable pub walk : ℕ → Side → Text → Text → Text → Side × Text × Bool
    unfolding follow
    walk max_hops side start_url origin apex =
        let stop = follow (max_hops + 1) 0 start_url [] side in
        if stop.side.http == 0
        then (record stop.side { terminal = Terminal.nowhere }, [], false)
        else (
          record stop.side { terminal = classify_terminal stop.last_host origin apex },
          stop.last_host,
          false,
        )
