-- ===== src/Command/Examples.antt =====
-- Tests of cmd/wwwscan, and its theorems at concrete flags.
use www_scanner.Prelude.{
  ◌≤◌, List, [], ◌∷◌, ◌≡◌, inl, false, refl, ok, err, ℤ, pos, negsuc, replicate, length, take, text,
  Text, arith,
}
use www_scanner.Prelude.Integers.{times, ltb_int}
use www_scanner.Record.{Record, zero_record, zero_side, www_supported}
use www_scanner.Probe.Invariant.{IsLadder}
use www_scanner.Command.Bench.{want_of, sweep, exhausted}
use www_scanner.Command.Slices.{probed_by, total_count, sweep-slices}
use www_scanner.Command.Texts.{ordinal_suffix, dir_of, human_bytes}
use www_scanner.Command.Servers.{server_list, int_list, not_a_number, no_values}

servers_are_trimmed :
    server_list (text " 1.1.1.1, ,8.8.8.8,") ≡ text "1.1.1.1" ∷ text "8.8.8.8" ∷ []
unfolding server_list text
servers_are_trimmed = refl

ints :
    (int_list (text "200, -7,+3") ≡ ok (pos 200 ∷ negsuc 6 ∷ pos 3 ∷ []))
    × (int_list (text "2x") ≡ err (not_a_number (text "2x")))
    × (int_list (text " , ") ≡ err no_values)
unfolding int_list text
ints = (refl, refl, refl)

small_texts :
    (ordinal_suffix (pos 112) ≡ text "th")
    × (ordinal_suffix (pos 22) ≡ text "nd")
    × (dir_of (text "out/x/a.bin") ≡ text "out/x")
    × (dir_of (text "/a.bin") ≡ text "")
    × (human_bytes (λ a b. text "22.9") 24000000 ≡ text "22.9 MB")
unfolding ordinal_suffix dir_of human_bytes text
small_texts = (refl, refl, refl, refl, refl)

abbrev unreachable : Record
unreachable = record zero_record {
  status = 1;
  www = record zero_side { resolve = 1; rr_types = 1; tcp = 4 };
}

unreachable-IsLadder : IsLadder 5 unreachable.www false
unreachable-IsLadder = record {
  within_cap = omega arith;
  dns_first = inl refl;
  tcp_before_http = inl (refl, refl);
  tls_before_http = inl (refl, refl);
}

unreachable_broken : www_supported unreachable ≡ false
unfolding www_supported
unreachable_broken = refl

abbrev hundred : List Text
hundred = replicate 100 (text "a.com")

abbrev sweeping : List (ℤ × ℤ)
sweeping = (pos 8, pos 2) ∷ (pos 8, pos 30) ∷ []

swept :
    sweep (λ u. false) (λ u. false) 100 0 sweeping
    ≡ (record { workers = pos 2; sockets = pos 8; first = 0; count = 80 } ∷ [], exhausted 80)
unfolding sweep want_of times ltb_int
swept = refl

sweep-slices_example :
    let rows = (sweep (λ u. false) (λ u. false) (length hundred) 0 sweeping).0 in
    (probed_by hundred rows ≡ take (total_count rows) hundred) × (total_count rows ≤ length hundred)
sweep-slices_example = sweep-slices (λ u. false) (λ u. false) hundred sweeping
