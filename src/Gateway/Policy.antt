-- ===== src/Gateway/Policy.antt =====
-- crates/cuartel-core/src/firewall.rs: which ports a sandbox may not reach, and which gateway
-- configurations keep the security model.
use Prim.Native.String.{◌++◌}
use cuartel.Common.{
  ℕ, ◌≡◌, refl, ◌⊎◌, inl, inr, Bool, true, false, not, Option, none, some, List, [], ◌∷◌, String,
  ◌++◌ as append, ◌==◌, if◌then◌else◌, Bool-cases, any, ◌&&◌,
}
use cuartel.Gateway.Ip.{IpAddr, SocketAddr, is_loopback}
use cuartel.Gateway.Rules.{
  AuthGatewayConfig, MissPolicy, reject, passthrough, with_default_rules, default_config,
}

-- crates/cuartel-rivet/src/network.rs
pub data PortForwardDirection : Type 0 where
  sandbox_to_host : PortForwardDirection
  host_to_sandbox : PortForwardDirection

pub record PortForwardConfig : Type 0 where
  pub direction : PortForwardDirection
  pub sandbox_port : ℕ
  pub host_port : ℕ

pub data ProtectedKind : Type 0 where
  loopback_port : ℕ → ProtectedKind
  file_path : String → ProtectedKind

pub record ProtectedEndpoint : Type 0 where
  pub label : String
  pub kind : ProtectedKind
  pub reason : String

pub data FirewallVerdict : Type 0 where
  allow : FirewallVerdict
  deny : String → String → FirewallVerdict

abbrev pub is_allowed : FirewallVerdict → Bool
is_allowed allow = true
is_allowed (deny endpoint reason) = false

abbrev pub is_denied : FirewallVerdict → Bool
is_denied v = not (is_allowed v)

pub record NetworkPolicy : Type 0 where
  pub protected : List ProtectedEndpoint

abbrev pub gateway_endpoint : Option SocketAddr → List ProtectedEndpoint
gateway_endpoint none = []
gateway_endpoint (some addr) =
    record {
      label = "Auth Gateway";
      kind = loopback_port addr.port;
      reason = "raw port forward to the gateway would bypass credential injection";
    }
    ∷ []

abbrev pub database_endpoint : Option String → List ProtectedEndpoint
database_endpoint none = []
database_endpoint (some path) =
    record {
      label = "Credential Database";
      kind = file_path path;
      reason = "encrypted credentials at rest must not be readable by VMs";
    }
    ∷ []

unfoldable pub new_policy : Option SocketAddr → ℕ → Option String → NetworkPolicy
new_policy gateway_addr rivet_port db_path = record {
  protected = append (gateway_endpoint gateway_addr) (
      record {
        label = "Rivet API";
        kind = loopback_port rivet_port;
        reason = "VM management API must not be accessible from within VMs";
      }
      ∷ database_endpoint db_path);
}

-- The loop over the protected endpoints.
unfoldable pub check_ports : List ProtectedEndpoint → ℕ → FirewallVerdict
check_ports [] host_port = allow
check_ports (ep ∷ eps) host_port = elim ep.kind [
  | loopback_port port ↦
      if host_port == port then deny ep.label ep.reason else check_ports eps host_port
  | file_path path ↦ check_ports eps host_port
]

unfoldable pub check_port_forward : NetworkPolicy → PortForwardConfig → FirewallVerdict
unfolding check_ports
check_port_forward policy config = elim config.direction [
  | host_to_sandbox ↦ allow
  | sandbox_to_host ↦ check_ports policy.protected config.host_port
]

unfoldable pub ports_of : List ProtectedEndpoint → List ℕ
ports_of [] = []
ports_of (ep ∷ eps) = elim ep.kind [
  | loopback_port port ↦ port ∷ ports_of eps
  | file_path path ↦ ports_of eps
]

unfoldable pub protected_ports : NetworkPolicy → List ℕ
unfolding ports_of
protected_ports policy = ports_of policy.protected

-- `show` is the `Display` of an address.
unfoldable pub validate_gateway_config : (IpAddr → String) → AuthGatewayConfig → FirewallVerdict
validate_gateway_config show config = elim config.on_miss [
  | passthrough ↦
      deny "Auth Gateway"
        "MissPolicy must be Reject; Passthrough allows VMs to reach arbitrary hosts"
  | reject ↦
      if is_loopback config.bind.ip
      then allow
      else deny "Auth Gateway" (
          "gateway must bind to loopback, not "
          ++ show config.bind.ip
          ++ "; a routable address exposes credential injection to the network")
]

kind_cases :
    (k : ProtectedKind)
    → ((port : ℕ) × (k ≡ loopback_port port)) ⊎ ((path : String) × (k ≡ file_path path))
kind_cases (loopback_port port) = inl (port, refl)
kind_cases (file_path path) = inr (path, refl)

check_ports-denied :
    (eps : List ProtectedEndpoint) (port : ℕ)
    → is_denied (check_ports eps port) ≡ any (λ p. port == p) (ports_of eps)
unfolding check_ports ports_of
check_ports-denied [] port = refl
check_ports-denied (ep ∷ eps) port = elim (kind_cases ep.kind) [
  | inr (path, e) ↦ rw (e, check_ports, ports_of) (check_ports-denied eps port)
  | inl (p, e) ↦ elim (Bool-cases (port == p)) [
    | inl same ↦ rw (e, check_ports, ports_of) (rw same refl)
    | inr other ↦ rw (e, check_ports, ports_of) (rw other (check_ports-denied eps port))
  ]
]

abbrev pub from_sandbox : PortForwardDirection → Bool
from_sandbox sandbox_to_host = true
from_sandbox host_to_sandbox = false

-- A forward is denied exactly when it leads from the sandbox to a protected port.
pub check_port_forward-denied :
    (policy : NetworkPolicy) (config : PortForwardConfig)
    → is_denied (check_port_forward policy config)
      ≡ (from_sandbox config.direction && any (λ p. config.host_port == p) (protected_ports policy))
unfolding check_port_forward protected_ports
check_port_forward-denied policy config = go config.direction refl
  where
    go :
        (d : PortForwardDirection)
        → config.direction ≡ d
        → is_denied (check_port_forward policy config) ≡ (
            from_sandbox config.direction
            && any (λ p. config.host_port == p) (protected_ports policy))
    go host_to_sandbox e = rw (e, check_port_forward) refl
    go sandbox_to_host e =
        rw (e, check_port_forward) (check_ports-denied policy.protected config.host_port)

-- With a running gateway, a sandbox is kept from exactly the port of the gateway and that of the
-- Rivet API; without one, from the latter only.
pub new_policy-ports :
    (addr : SocketAddr) (rivet_port : ℕ) (db_path : Option String)
    → (protected_ports (new_policy (some addr) rivet_port db_path) ≡ addr.port ∷ rivet_port ∷ [])
      × (protected_ports (new_policy none rivet_port db_path) ≡ rivet_port ∷ [])
unfolding new_policy protected_ports ports_of
new_policy-ports addr rivet_port none = (refl, refl)
new_policy-ports addr rivet_port (some path) = (refl, refl)

abbrev pub rejects : MissPolicy → Bool
rejects reject = true
rejects passthrough = false

-- A configuration is allowed exactly when unknown hosts are rejected and the gateway listens on a
-- loopback address.
pub validate_gateway_config-allowed :
    (show : IpAddr → String) (config : AuthGatewayConfig)
    → is_allowed (validate_gateway_config show config)
      ≡ (rejects config.on_miss && is_loopback config.bind.ip)
unfolding validate_gateway_config
validate_gateway_config-allowed show config = go config.on_miss refl
  where
    go :
        (m : MissPolicy)
        → config.on_miss ≡ m
        → is_allowed (validate_gateway_config show config)
          ≡ (rejects config.on_miss && is_loopback config.bind.ip)
    go passthrough e = rw (e, validate_gateway_config) refl
    go reject e = elim (Bool-cases (is_loopback config.bind.ip)) [
      | inl local ↦ rw (e, validate_gateway_config) (rw local refl)
      | inr routable ↦ rw (e, validate_gateway_config) (rw routable refl)
    ]

-- The built-in configurations pass the check.
pub validate-with_default_rules :
    (show : IpAddr → String)
    → (validate_gateway_config show with_default_rules ≡ allow)
      × (validate_gateway_config show default_config ≡ allow)
unfolding validate_gateway_config with_default_rules default_config
validate-with_default_rules show = (refl, refl)
