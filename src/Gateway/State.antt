-- ===== src/Gateway/State.antt =====
-- crates/senix-core/src/state.rs: the configuration of the routes and the state of an instance. An
-- address stands for itself: the texts of two addresses are equal when the addresses are.
use senix.Prelude.{ℕ, Bool, true, false, String, str_eq, List, Option, none, some, Text, ◌==◌, ◌&&◌}

pub data UpstreamAlpn : Type 0 where
  http1 : UpstreamAlpn
  http2 : UpstreamAlpn
  http2_or_http1 : UpstreamAlpn

pub record UpstreamTlsConfig : Type 0 where
  pub server_name : String
  pub verify_certificate : Bool
  pub alpn : UpstreamAlpn

pub data HealthCheckProtocol : Type 0 where
  tcp : HealthCheckProtocol
  http : HealthCheckProtocol

pub record HealthCheckConfig : Type 0 where
  pub protocol : HealthCheckProtocol
  pub path : String
  pub interval_ms : ℕ
  pub timeout_ms : ℕ
  pub healthy_threshold : ℕ
  pub unhealthy_threshold : ℕ

pub record BackendConfig : Type 0 where
  pub id : String
  pub address : String
  pub generation : ℕ
  pub weight : ℕ
  pub tls : Option UpstreamTlsConfig
  pub health_check : Option HealthCheckConfig

-- The host and the prefix of the path are given by their bytes.
pub record RouteConfig : Type 0 where
  pub id : String
  pub host : Text
  pub path_prefix : Text
  pub backends : List BackendConfig

pub record GatewayConfig : Type 0 where
  pub routes : List RouteConfig

pub data TrafficState : Type 0 where
  serving : TrafficState
  draining : TrafficState
  drained : TrafficState
  disabled : TrafficState

pub data HealthState : Type 0 where
  unknown : HealthState
  healthy : HealthState
  unhealthy : HealthState

pub record InstanceState : Type 0 where
  pub id : String
  pub generation : ℕ
  pub weight : ℕ
  pub traffic : TrafficState
  pub health : HealthState
  pub health_override : Bool
  pub in_flight : ℕ
  pub long_lived_in_flight : ℕ

pub record PersistedInstanceState : Type 0 where
  pub id : String
  pub generation : ℕ
  pub weight : ℕ
  pub traffic : TrafficState
  pub health : HealthState
  pub health_override : Bool

-- The derived tests of equality.
abbrev pub alpn_eq : UpstreamAlpn → UpstreamAlpn → Bool
alpn_eq http1 http1 = true
alpn_eq http2 http2 = true
alpn_eq http2_or_http1 http2_or_http1 = true
alpn_eq _ _ = false

abbrev bool_eq : Bool → Bool → Bool
bool_eq true true = true
bool_eq false false = true
bool_eq _ _ = false

abbrev pub tls_eq : Option UpstreamTlsConfig → Option UpstreamTlsConfig → Bool
tls_eq none none = true
tls_eq (some a) (some b) =
    str_eq a.server_name b.server_name
    && bool_eq a.verify_certificate b.verify_certificate
    && alpn_eq a.alpn b.alpn
tls_eq _ _ = false

abbrev protocol_eq : HealthCheckProtocol → HealthCheckProtocol → Bool
protocol_eq tcp tcp = true
protocol_eq http http = true
protocol_eq _ _ = false

abbrev pub health_check_eq : Option HealthCheckConfig → Option HealthCheckConfig → Bool
health_check_eq none none = true
health_check_eq (some a) (some b) =
    protocol_eq a.protocol b.protocol
    && str_eq a.path b.path
    && a.interval_ms == b.interval_ms
    && a.timeout_ms == b.timeout_ms
    && a.healthy_threshold == b.healthy_threshold
    && a.unhealthy_threshold == b.unhealthy_threshold
health_check_eq _ _ = false

abbrev pub is_serving : TrafficState → Bool
is_serving serving = true
is_serving _ = false

abbrev pub is_draining : TrafficState → Bool
is_draining draining = true
is_draining _ = false

abbrev pub is_healthy : HealthState → Bool
is_healthy healthy = true
is_healthy _ = false
