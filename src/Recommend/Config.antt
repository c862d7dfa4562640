-- ===== src/Recommend/Config.antt =====
-- crates/vectorseam-recommendation-server/src/lib.rs: options and configuration. A duration is a number
-- of nanoseconds; `listen_addr`, of the standard library, is its text.
use vectorseam.Base.{
  ==0_false→lt, arith, fail_if-eq-ok, fail_if_then-eq-ok, leb_false→lt, lt→==0_false, lt→leb_false,
  refl, Bytes, Result, codes, fail_if, leb, ok, ◌*◌, ◌<◌, ◌==◌, ◌>>◌, ◌↔◌, ◌≡◌, ℕ,
}

abbrev pub default_listen_addr : Bytes
default_listen_addr = codes "127.0.0.1:7738"

pub record RecommendationServerOptions : Type 0 where
  pub listen_addr : Bytes
  pub max_connections : ℕ
  pub max_concurrent_requests : ℕ
  pub lookup_timeout_seconds : ℕ
  pub request_head_timeout_seconds : ℕ
  pub shutdown_drain_timeout_seconds : ℕ
  pub cache_ttl_seconds : ℕ
  pub max_cached_cohorts : ℕ
  pub max_cached_negative_cohorts : ℕ

pub record Config : Type 0 where
  pub listen_addr : Bytes
  pub max_connections : ℕ
  pub max_concurrent_requests : ℕ
  pub lookup_timeout : ℕ
  pub request_head_timeout : ℕ
  pub shutdown_drain_timeout : ℕ
  pub cache_ttl : ℕ
  pub max_cached_cohorts : ℕ
  pub max_cached_negative_cohorts : ℕ

-- `Duration::from_secs`
abbrev pub from_secs : ℕ → ℕ
from_secs seconds = seconds * 1000000000

-- `RecommendationServerOptions::default`
abbrev pub default_options : RecommendationServerOptions
default_options = record {
  listen_addr = default_listen_addr;
  max_connections = 100;
  max_concurrent_requests = 100;
  lookup_timeout_seconds = 3;
  request_head_timeout_seconds = 4;
  shutdown_drain_timeout_seconds = 5;
  cache_ttl_seconds = 60;
  max_cached_cohorts = 10000;
  max_cached_negative_cohorts = 256;
}

-- `Config::default`
abbrev pub default_config : Config
default_config = record {
  listen_addr = default_listen_addr;
  max_connections = 100;
  max_concurrent_requests = 100;
  lookup_timeout = from_secs 3;
  request_head_timeout = from_secs 4;
  shutdown_drain_timeout = from_secs 5;
  cache_ttl = from_secs 60;
  max_cached_cohorts = 10000;
  max_cached_negative_cohorts = 256;
}

unfoldable pub server_config : RecommendationServerOptions → Config
server_config options = record {
  listen_addr = options.listen_addr;
  max_connections = options.max_connections;
  max_concurrent_requests = options.max_concurrent_requests;
  lookup_timeout = from_secs options.lookup_timeout_seconds;
  request_head_timeout = from_secs options.request_head_timeout_seconds;
  shutdown_drain_timeout = from_secs options.shutdown_drain_timeout_seconds;
  cache_ttl = from_secs options.cache_ttl_seconds;
  max_cached_cohorts = options.max_cached_cohorts;
  max_cached_negative_cohorts = options.max_cached_negative_cohorts;
}

-- `ServerError::InvalidConfig`, one constructor for each message.
pub data InvalidConfig : Type 0 where
  zero_max_connections zero_max_concurrent_requests zero_lookup_timeout : InvalidConfig
  zero_request_head_timeout zero_shutdown_drain_timeout : InvalidConfig
  long_lookup_timeout long_request_head_timeout : InvalidConfig
  zero_cache_ttl zero_max_cached_cohorts zero_max_cached_negative_cohorts : InvalidConfig

unfoldable pub validate_config : Config → Result InvalidConfig (Unit {0})
validate_config config = do
  fail_if (config.max_connections == 0) zero_max_connections
  fail_if (config.max_concurrent_requests == 0) zero_max_concurrent_requests
  fail_if (config.lookup_timeout == 0) zero_lookup_timeout
  fail_if (config.request_head_timeout == 0) zero_request_head_timeout
  fail_if (config.shutdown_drain_timeout == 0) zero_shutdown_drain_timeout
  fail_if (leb config.shutdown_drain_timeout config.lookup_timeout) long_lookup_timeout
  fail_if (leb config.shutdown_drain_timeout config.request_head_timeout) long_request_head_timeout
  fail_if (config.cache_ttl == 0) zero_cache_ttl
  fail_if (config.max_cached_cohorts == 0) zero_max_cached_cohorts
  fail_if (config.max_cached_negative_cohorts == 0) zero_max_cached_negative_cohorts

-- What the server relies on.
pub record IsUsable (config : Config) : Type 0 where
  pub connections : 0 < config.max_connections
  pub requests : 0 < config.max_concurrent_requests
  pub lookup_positive : 0 < config.lookup_timeout
  pub head_positive : 0 < config.request_head_timeout
  pub lookup_drains : config.lookup_timeout < config.shutdown_drain_timeout
  pub head_drains : config.request_head_timeout < config.shutdown_drain_timeout
  pub cache : 0 < config.cache_ttl
  pub positives : 0 < config.max_cached_cohorts
  pub negatives : 0 < config.max_cached_negative_cohorts

validate_config-IsUsable : (config : Config) → validate_config config ≡ ok tt → IsUsable config
unfolding validate_config
validate_config-IsUsable config h0 =
    let (a, h1) = fail_if_then-eq-ok (config.max_connections == 0) _ _ h0 in
    let (b, h2) = fail_if_then-eq-ok (config.max_concurrent_requests == 0) _ _ h1 in
    let (c, h3) = fail_if_then-eq-ok (config.lookup_timeout == 0) _ _ h2 in
    let (d, h4) = fail_if_then-eq-ok (config.request_head_timeout == 0) _ _ h3 in
    let (e, h5) = fail_if_then-eq-ok (config.shutdown_drain_timeout == 0) _ _ h4 in
    let (f, h6) =
      fail_if_then-eq-ok (leb config.shutdown_drain_timeout config.lookup_timeout) _ _ h5 in
    let (g, h7) =
      fail_if_then-eq-ok (leb config.shutdown_drain_timeout config.request_head_timeout) _ _ h6 in
    let (i, h8) = fail_if_then-eq-ok (config.cache_ttl == 0) _ _ h7 in
    let (j, h9) = fail_if_then-eq-ok (config.max_cached_cohorts == 0) _ _ h8 in
    let l = fail_if-eq-ok (config.max_cached_negative_cohorts == 0) _ h9 in
    record {
      connections = ==0_false→lt config.max_connections a;
      requests = ==0_false→lt config.max_concurrent_requests b;
      lookup_positive = ==0_false→lt config.lookup_timeout c;
      head_positive = ==0_false→lt config.request_head_timeout d;
      lookup_drains = leb_false→lt config.shutdown_drain_timeout config.lookup_timeout f;
      head_drains = leb_false→lt config.shutdown_drain_timeout config.request_head_timeout g;
      cache = ==0_false→lt config.cache_ttl i;
      positives = ==0_false→lt config.max_cached_cohorts j;
      negatives = ==0_false→lt config.max_cached_negative_cohorts l;
    }

IsUsable-validate_config : (config : Config) → IsUsable config → validate_config config ≡ ok tt
unfolding validate_config
IsUsable-validate_config config u =
    let drains : 0 < config.shutdown_drain_timeout = omega (arith, u.lookup_drains) in
    rw
      (
        lt→==0_false config.max_connections u.connections,
        lt→==0_false config.max_concurrent_requests u.requests,
        lt→==0_false config.lookup_timeout u.lookup_positive,
        lt→==0_false config.request_head_timeout u.head_positive,
        lt→==0_false config.shutdown_drain_timeout drains,
        lt→leb_false config.shutdown_drain_timeout config.lookup_timeout u.lookup_drains,
        lt→leb_false config.shutdown_drain_timeout config.request_head_timeout u.head_drains,
        lt→==0_false config.cache_ttl u.cache,
        lt→==0_false config.max_cached_cohorts u.positives,
        lt→==0_false config.max_cached_negative_cohorts u.negatives,
      )
      refl

-- A configuration is accepted exactly if it is usable.
pub validate_config_iff : (config : Config) → (validate_config config ≡ ok tt) ↔ IsUsable config
validate_config_iff config = (validate_config-IsUsable config, IsUsable-validate_config config)
