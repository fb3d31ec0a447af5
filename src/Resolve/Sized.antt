-- ===== src/Resolve/Sized.antt =====
-- internal/resolve: the resolver that `New` returns can ask somebody, and has the sockets that were asked for.
use native.Mathlib.Nat.{suc-mul, mul-pos}
use www_scanner.Prelude.{
  ℕ, suc, ◌*◌, ◌<◌, ◌≡◌, refl, ap, Bool, List, [], ◌∷◌, ◌++◌, Option, none, some, Result, ok, err,
  Always, Always-elim, Always-if, Always-bind, length, length-append, length-replicate, map,
  replicate, ltb, ◌==◌, Text, ℤ, pos, negsuc, if_cases, ltb→lt, arith, if◌then◌else◌,
}
use www_scanner.Prelude.Integers.{positive_part}
use www_scanner.Resolve.Setup.{
  SetupError, Config, servers_of, system_servers, all_dialed, dial_all, new_pool, Built,
  servers_to_ask, new, sockets, with_default_port,
}

abbrev IsSome : List Text → Type 0
IsSome servers = 0 < length servers

system_servers-IsSome : (conf : Option (List Text)) → Always IsSome (system_servers conf)
unfolding system_servers
system_servers-IsSome none = tt
system_servers-IsSome (some lines) =
    elim (servers_of lines)
      as (λ l.
        Always IsSome (elim l [ [] ↦ err SetupError.no_nameserver | s ∷ ss ↦ ok (s ∷ ss) ])) [
          | [] ↦ tt
          | s ∷ ss ↦ omega arith
        ]

size :
    (k : ℕ) (conns servers : List Text) (s : Text)
    → length conns ≡ length servers * k
    → length (replicate k s ++ conns) ≡ suc (length servers) * k
size k conns servers s rest = omega (
  arith,
  length-append (replicate k s) conns,
  length-replicate k s,
  suc-mul (length servers) k,
  rest,
)

length-dial_all :
    (dials : Text → ℕ → Bool) (k : ℕ) (servers : List Text)
    → Always (λ conns. length conns ≡ length servers * k) (dial_all dials k servers)
unfolding dial_all
length-dial_all dials k [] = omega arith
length-dial_all dials k (s ∷ servers) =
    let sized : List Text → Type 0 = λ conns. length conns ≡ suc (length servers) * k in
    Always-if sized (all_dialed (dials s) k) _ _
      (λ _. Always-bind sized (dial_all dials k servers) _ (λ conns e.
        let rest : length conns ≡ length servers * k =
          Always-elim (λ conns. length conns ≡ length servers * k) _ conns
            (length-dial_all dials k servers) e in
        size k conns servers s rest))
      (λ _. tt)

-- What a resolver needs to answer: a server or a socket to take in turn, an attempt to make, and, in a pool, so many sockets
-- for each server as the configuration says.
pub record IsReady (cfg : Config) (r : Built) : Type 0 where
  pub some_server : IsSome r.cfg.servers
  pub some_attempt : 0 < positive_part r.cfg.attempts
  pub some_rotation : 0 < length (elim r.pool [ none ↦ r.cfg.servers | some conns ↦ conns ])
  pub all_sockets : sockets r ≡ length r.cfg.servers * positive_part cfg.sockets_per_server

some_attempts : (a : ℤ) → 0 < positive_part (if ltb 0 (positive_part a) then a else pos 2)
unfolding positive_part
some_attempts (pos n) =
    if_cases (λ t. 0 < positive_part t) (ltb 0 n) (pos n) (pos 2) (λ e. ltb→lt 0 n e)
      (λ _. omega arith)
some_attempts (negsuc n) = omega arith

no_sockets_lem : (n k : ℕ) → k ≡ 0 → 0 ≡ n * k
no_sockets_lem n k e = rw e (omega arith)

length-map {ℓ κ} :
    {A : Type ℓ} {B : Type κ} (f : A → B) (xs : List A) → length (map f xs) ≡ length xs
length-map f [] = refl
length-map f (x ∷ xs) = ap suc (length-map f xs)

module _ (has_port : Text → Bool) (join_host_port : Text → Text → Text)
    (resolv_conf : Option (List Text)) (dials : Text → ℕ → Bool) where
  servers_to_ask-IsSome :
      (cfg : Config) → Always IsSome (servers_to_ask has_port join_host_port resolv_conf dials cfg)
  unfolding servers_to_ask
  servers_to_ask-IsSome cfg =
      let given : Result SetupError (List Text) =
        if length cfg.servers == 0 then system_servers resolv_conf else ok cfg.servers in
      let some_given : Always IsSome given =
        Always-if IsSome (length cfg.servers == 0) _ _ (λ _. system_servers-IsSome resolv_conf)
          (λ e. ground (arith, e)) in
      Always-bind IsSome given _ (λ servers e.
        let some_left : 0 < length servers = Always-elim IsSome given servers some_given e in
        omega (arith, some_left, length-map (with_default_port has_port join_host_port) servers))

  new_pool-sized :
      (servers : List Text) (k : ℤ)
      → (0 < positive_part k)
      → Always (λ conns. length conns ≡ length servers * positive_part k) (new_pool dials servers k)
  unfolding new_pool
  new_pool-sized servers k h =
      let sized : List Text → Type 0 = λ conns. length conns ≡ length servers * positive_part k in
      let asked : (if ltb 0 (positive_part k) then positive_part k else 1) ≡ positive_part k =
        ground arith in
      rw asked (
        Always-bind sized (dial_all dials (positive_part k) servers) _ (λ conns e.
          Always-if sized (length conns == 0) _ _ (λ _. tt)
            (λ _. Always-elim sized _ conns (length-dial_all dials (positive_part k) servers) e)))

  -- A resolver that `New` returns has a server to ask and an attempt to make, whatever the configuration says, and holds as
  -- many sockets as that many for each server, which is none for the legacy path.
  pub new-IsReady :
      (cfg : Config) (r : Built)
      → new has_port join_host_port resolv_conf dials cfg ≡ ok r
      → IsReady cfg r
  unfolding new sockets
  new-IsReady cfg r =
      let ready : Built → Type 0 = IsReady cfg in
      let k = positive_part cfg.sockets_per_server in
      let tries : ℤ = if ltb 0 (positive_part cfg.attempts) then cfg.attempts else pos 2 in
      let some_tries : 0 < positive_part tries = some_attempts cfg.attempts in
      Always-elim ready _ r (
        Always-bind ready (servers_to_ask has_port join_host_port resolv_conf dials cfg) _
          (λ servers asked.
            let some_server = Always-elim IsSome _ servers (servers_to_ask-IsSome cfg) asked in
            Always-if ready (ltb 0 k) _ _
              (λ pooled.
                Always-bind ready (new_pool dials servers cfg.sockets_per_server) _ (λ conns e.
                  let sized : length conns ≡ length servers * k =
                    Always-elim (λ conns. length conns ≡ length servers * k) _ conns
                      (new_pool-sized servers cfg.sockets_per_server (ground (arith, pooled))) e in
                  record {
                    some_server = some_server;
                    some_attempt = some_tries;
                    some_rotation = omega (arith, sized, mul-pos some_server (ltb→lt 0 k pooled));
                    all_sockets = sized;
                  }))
              (λ legacy. record {
                some_server = some_server;
                some_attempt = some_tries;
                some_rotation = some_server;
                all_sockets = no_sockets_lem (length servers) k (ground (arith, legacy));
              })))
