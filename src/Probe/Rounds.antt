-- ===== src/Probe/Rounds.antt =====
-- internal/probe/probe.go: one round of the loop of `walk`.
use www_scanner.Prelude.{
  ℕ, suc, ◌+◌, ◌≡◌, refl, ◌⊎◌, inl, inr, ◌==◌, none, some, Option-cases, if◌then◌else◌, Text,
}
use www_scanner.Record.{Side}
use www_scanner.Record.Tcp
use www_scanner.Probe.Transport.{NetError, Reply, failed, answered, classify_transport_err}
use www_scanner.Probe.Walk.{Url, UrlLib, Stop, is_https, host_of, next_url, note_answer, follow}

Reply-cases :
    (r : Reply)
    → ((e : NetError) × (r ≡ failed e)) ⊎ ((code : ℕ) × (loc : Text) × (r ≡ answered code loc))
Reply-cases (failed e) = inl (e, refl)
Reply-cases (answered code loc) = inr (code, loc, refl)

module _ (urls : UrlLib) (fetch : ℕ → Text → Reply) where
  module _ (rounds hop : ℕ) (current last : Text) (s : Side) {u : Url}
      (parses : urls.parse current ≡ some u) where
    follow_failed :
        (e : NetError)
        → fetch hop current ≡ failed e
        → follow urls fetch (suc rounds) hop current last s ≡ record {
          side = if hop == 0 then classify_transport_err s e (is_https current) else s;
          last_host = last;
        }
    unfolding follow
    follow_failed e h = rw (parses, h, follow)

    follow_last :
        (code : ℕ) (loc : Text)
        → fetch hop current ≡ answered code loc
        → next_url urls current code loc ≡ none
        → follow urls fetch (suc rounds) hop current last s
          ≡ record { side = note_answer s current hop code; last_host = host_of urls current }
    unfolding follow
    follow_last code loc h n = rw (parses, h, n, follow)

    follow_next :
        (code : ℕ) (loc next : Text)
        → fetch hop current ≡ answered code loc
        → next_url urls current code loc ≡ some next
        → follow urls fetch (suc rounds) hop current last s
          ≡ follow urls fetch rounds
              (hop + 1)
              next
              (host_of urls current)
              (note_answer s current hop code)
    unfolding follow
    follow_next code loc next h n = rw (parses, h, n, follow)

  -- One round, for a property of the stop that every way out of it has.
  pub round_cases {ℓ} :
      (P : Stop → Type ℓ) (rounds hop : ℕ) (current last : Text) (s : Side)
      → (urls.parse current ≡ none
          → P (record { side = record s { tcp = Tcp.error }; last_host = last }))
      → ((e : NetError)
          → P (record {
            side = if hop == 0 then classify_transport_err s e (is_https current) else s;
            last_host = last;
          }))
      → ((code : ℕ)
          → P (record { side = note_answer s current hop code; last_host = host_of urls current }))
      → ((code : ℕ) (loc next : Text)
          → next_url urls current code loc ≡ some next
          → P (
              follow urls fetch rounds
                (hop + 1)
                next
                (host_of urls current)
                (note_answer s current hop code)))
      → P (follow urls fetch (suc rounds) hop current last s)
  unfolding follow
  round_cases P rounds hop current last s unparsed failing ending going =
      elim (Option-cases (urls.parse current)) [
        | inl bad ↦ rw (bad, follow) (unparsed bad)
        | inr (u, good) ↦ elim (Reply-cases (fetch hop current)) [
          | inl (e, h) ↦ rw (follow_failed rounds hop current last s good e h) (failing e)
          | inr (code, loc, h) ↦ elim (Option-cases (next_url urls current code loc)) [
            | inl n ↦ rw (follow_last rounds hop current last s good code loc h n) (ending code)
            | inr (next, n) ↦
                rw (follow_next rounds hop current last s good code loc next h n)
                  (going code loc next n)
          ]
        ]
      ]
