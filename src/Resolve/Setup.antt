-- ===== src/Resolve/Setup.antt =====
-- internal/resolve: `New`, the servers of /etc/resolv.conf, and the pool of sockets. Timeouts and the size of a UDP
-- answer are left to the DNS library; `net.SplitHostPort` and `net.JoinHostPort` are parameters, and so is which
-- sockets to a server can be dialed, by their number.
use www_scanner.Prelude.{
  ℕ, zero, suc, true, ◌&&◌, Bool, ◌||◌, List, [], ◌∷◌, ◌++◌, Option, none, some, Result, ok, err,
  ◌>>=◌, ℤ, pos, length, map, replicate, ltb, ◌==◌, if◌then◌else◌, Text, text, eq_text,
}
use www_scanner.Prelude.Integers.{positive_part}
use www_scanner.Prelude.Strings.{trim_space, has_prefix, fields}

pub data SetupError : Type 0 where
  no_resolv_conf : SetupError
  no_nameserver : SetupError
  dial_failed : Text → SetupError
  no_sockets : SetupError

-- `Config`
pub record Config : Type 0 where
  pub servers : List Text
  pub attempts : ℤ
  pub sockets_per_server : ℤ

-- `DefaultConfig`
abbrev pub default_config : Config
default_config = record { servers = []; attempts = pos 2; sockets_per_server = pos 8 }

-- `withDefaultPort`; the first parameter is whether `SplitHostPort` finds a port
unfoldable pub with_default_port : (Text → Bool) → (Text → Text → Text) → Text → Text
unfolding text
with_default_port has_port join_host_port s = if has_port s then s else join_host_port s (text "53")

-- the server that a line of resolv.conf names
unfoldable pub server_of : Text → Option Text
unfolding trim_space has_prefix fields eq_text text
server_of raw =
    let line = trim_space raw in
    if eq_text line [] || has_prefix line (text "#") || has_prefix line (text ";")
    then none
    else elim (fields line) [
      | [] ↦ none
      | keyword ∷ [] ↦ none
      | keyword ∷ server ∷ more ↦ if eq_text keyword (text "nameserver") then some server else none
    ]

-- the loop of `systemServers` over the lines
unfoldable pub servers_of : List Text → List Text
unfolding server_of
servers_of [] = []
servers_of (line ∷ lines) =
    let rest = servers_of lines in
    elim (server_of line) [ none ↦ rest | some server ↦ server ∷ rest ]

-- `systemServers`, of the lines of the file, if it can be read
unfoldable pub system_servers : Option (List Text) → Result SetupError (List Text)
unfolding servers_of
system_servers none = err no_resolv_conf
system_servers (some lines) = elim (servers_of lines) [
  | [] ↦ err no_nameserver
  | server ∷ servers ↦ ok (server ∷ servers)
]

-- whether the first so many dials of a server all succeed
abbrev pub all_dialed : (ℕ → Bool) → ℕ → Bool
all_dialed dials zero = true
all_dialed dials (suc k) = dials k && all_dialed dials k

-- The sockets of `newPool`, each by its server, in the order in which they are dialed.
unfoldable pub dial_all : (Text → ℕ → Bool) → ℕ → List Text → Result SetupError (List Text)
dial_all dials per_server [] = ok []
dial_all dials per_server (s ∷ servers) =
    let rest = dial_all dials per_server servers in
    if all_dialed (dials s) per_server
    then (rest >>= λ conns. ok (replicate per_server s ++ conns))
    else err (dial_failed s)

-- `newPool`
unfoldable pub new_pool : (Text → ℕ → Bool) → List Text → ℤ → Result SetupError (List Text)
unfolding dial_all positive_part
new_pool dials servers per_server =
    let k = if ltb 0 (positive_part per_server) then positive_part per_server else 1 in
    dial_all dials k servers >>= λ conns. if length conns == 0 then err no_sockets else ok conns

-- What `New` builds: the configuration, and the sockets, if there is a pool.
pub record Built : Type 0 where
  pub cfg : Config
  pub pool : Option (List Text)

module _ (has_port : Text → Bool) (join_host_port : Text → Text → Text)
    (resolv_conf : Option (List Text)) (dials : Text → ℕ → Bool) where
  -- the servers that `New` asks
  unfoldable pub servers_to_ask : Config → Result SetupError (List Text)
  unfolding system_servers with_default_port
  servers_to_ask cfg =
      (if length cfg.servers == 0 then system_servers resolv_conf else ok cfg.servers)
      >>= λ servers. ok (map (with_default_port has_port join_host_port) servers)

  -- `New`
  unfoldable pub new : Config → Result SetupError Built
  unfolding new_pool positive_part
  new cfg = servers_to_ask cfg >>= λ servers.
      let cfg' = record cfg {
        servers = servers;
        attempts = if ltb 0 (positive_part cfg.attempts) then cfg.attempts else pos 2;
      } in
      if ltb 0 (positive_part cfg.sockets_per_server)
      then (new_pool dials servers cfg.sockets_per_server >>= λ conns.
          ok (record { cfg = cfg'; pool = some conns }))
      else ok (record { cfg = cfg'; pool = none })

-- `Sockets`
unfoldable pub sockets : Built → ℕ
sockets r = elim r.pool [ none ↦ 0 | some conns ↦ length conns ]
