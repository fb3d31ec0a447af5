-- ===== src/Probe/Client.antt =====
-- internal/probe/probe.go: the settings of `newClient`, and the two clients of `New`. Durations are in seconds.
use www_scanner.Prelude.{ℕ, Bool, true, false, ltb, if◌then◌else◌, Text, text}
use www_scanner.Prelude.Integers.{ℤ, negsuc}

-- the durations of `Config`, which only the client reads
pub record Timeouts : Type 0 where
  pub timeout : ℕ
  pub connect_timeout : ℕ

-- the defaults of `New`
unfoldable pub with_default_timeouts : Timeouts → Timeouts
with_default_timeouts t = record {
  timeout = if ltb 0 t.timeout then t.timeout else 10;
  connect_timeout = if ltb 0 t.connect_timeout then t.connect_timeout else 5;
}

-- `DefaultConfig`
abbrev pub default_timeouts : Timeouts
default_timeouts = record { timeout = 10; connect_timeout = 5 }

abbrev pub user_agent : Text
user_agent = text "www-scanner/0.1 (+https://thomasrones.com/does-www-still-work)"

-- what `newClient` sets of the dialer, the transport, its TLS and the client
pub record Client : Type 0 where
  pub dial_timeout : ℕ
  pub keep_alive : ℤ
  pub tls_handshake_timeout : ℕ
  pub max_idle_conns : ℤ
  pub max_idle_conns_per_host : ℕ
  pub max_conns_per_host : ℕ
  pub idle_conn_timeout : ℕ
  pub disable_compression : Bool
  pub force_attempt_http2 : Bool
  pub insecure_skip_verify : Bool
  pub min_tls_version : ℕ
  pub timeout : ℕ
  pub follows_redirects : Bool

-- `tls.VersionTLS10`
abbrev version_tls10 : ℕ
version_tls10 = 769

-- `newClient`
unfoldable pub new_client : Timeouts → ℤ → Bool → Client
new_client t max_conns insecure = record {
  dial_timeout = t.connect_timeout;
  keep_alive = negsuc 0;
  tls_handshake_timeout = t.connect_timeout;
  max_idle_conns = max_conns;
  max_idle_conns_per_host = 2;
  max_conns_per_host = 4;
  idle_conn_timeout = 10;
  disable_compression = true;
  force_attempt_http2 = true;
  insecure_skip_verify = insecure;
  min_tls_version = version_tls10;
  timeout = t.timeout;
  follows_redirects = false;
}

-- the two clients of a `Prober`
pub record Clients : Type 0 where
  pub client : Client
  pub insecure : Client

-- `New`
unfoldable pub new_clients : Timeouts → ℤ → Clients
unfolding with_default_timeouts new_client
new_clients t max_conns =
    let t' = with_default_timeouts t in
    record { client = new_client t' max_conns false; insecure = new_client t' max_conns true }
