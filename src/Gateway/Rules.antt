-- ===== src/Gateway/Rules.antt =====
-- rules.rs: which request gets which credential.
use cuartel.Common.{
  ◌≡◌, refl, ap, ◌∙◌, ◌⊎◌, inl, inr, true, false, Option, none, some, List, [], ◌∷◌, String,
  if◌then◌else◌, Bool-cases, All, ◌++◌ as append,
}
use cuartel.Common.Text.{
  eq_ignore_ascii_case, eq_ignore_ascii_case_right, replace, Lacks, replace-once,
}
use cuartel.Gateway.Ip.{Ipv4Addr, v4, SocketAddr}
use cuartel.Gateway.Firewall.{FirewallPolicy, default_firewall}
use Prim.Native.String.{◌++◌}

pub data MissPolicy : Type 0 where
  reject : MissPolicy
  passthrough : MissPolicy

pub record AuthRule : Type 0 where
  pub hostname : String
  pub provider_id : String
  pub env_key : String
  pub header_name : String
  pub header_format : String
  pub strip_headers : List String
  pub upstream_scheme : String
  pub upstream_authority : Option String

abbrev pub default_strip_headers : List String
default_strip_headers = "authorization" ∷ "x-api-key" ∷ []

abbrev pub default_scheme : String
default_scheme = "https"

unfoldable pub render_header_value : AuthRule → String → String
render_header_value rule credential = replace rule.header_format "{key}" credential

pub record AuthGatewayConfig : Type 0 where
  pub rules : List AuthRule
  pub bind : SocketAddr
  pub on_miss : MissPolicy
  pub firewall : FirewallPolicy

abbrev pub localhost : Ipv4Addr
localhost = record { a = 127; b = 0; c = 0; d = 1 }

abbrev pub default_bind : SocketAddr
default_bind = record { ip = v4 localhost; port = 0 }

abbrev rule_for : String → String → String → String → String → AuthRule
rule_for hostname provider_id env_key header_name header_format = record {
  hostname = hostname;
  provider_id = provider_id;
  env_key = env_key;
  header_name = header_name;
  header_format = header_format;
  strip_headers = default_strip_headers;
  upstream_scheme = default_scheme;
  upstream_authority = none;
}

unfoldable pub default_rules : List AuthRule
default_rules =
    rule_for "api.anthropic.com" "anthropic" "ANTHROPIC_API_KEY" "x-api-key" "{key}"
    ∷ rule_for "api.openai.com" "openai" "OPENAI_API_KEY" "Authorization" "Bearer {key}"
    ∷ rule_for "generativelanguage.googleapis.com" "google" "GEMINI_API_KEY" "x-goog-api-key"
        "{key}"
    ∷ []

unfoldable pub with_default_rules : AuthGatewayConfig
with_default_rules = record {
  rules = default_rules;
  bind = default_bind;
  on_miss = reject;
  firewall = default_firewall;
}

unfoldable pub default_config : AuthGatewayConfig
default_config = record {
  rules = [];
  bind = default_bind;
  on_miss = reject;
  firewall = default_firewall;
}

unfoldable pub find_rule : List AuthRule → String → Option AuthRule
find_rule [] hostname = none
find_rule (r ∷ rules) hostname =
    if eq_ignore_ascii_case r.hostname hostname then some r else find_rule rules hostname

unfoldable pub match_host : AuthGatewayConfig → String → Option AuthRule
unfolding find_rule
match_host config hostname = find_rule config.rules hostname

-- The rule that stands first among those of the host, in `before ++ rule ∷ after`.
pub record FirstRule (rules : List AuthRule) (hostname : String) (rule : AuthRule) : Type 0 where
  pub before : List AuthRule
  pub after : List AuthRule
  pub split : rules ≡ append before (rule ∷ after)
  pub earlier : All (λ r. eq_ignore_ascii_case r.hostname hostname ≡ false) before
  pub matching : eq_ignore_ascii_case rule.hostname hostname ≡ true

find_rule-First :
    (rules : List AuthRule) (hostname : String)
    → ((find_rule rules hostname ≡ none)
        × All (λ r. eq_ignore_ascii_case r.hostname hostname ≡ false) rules)
      ⊎ ((rule : AuthRule) × (find_rule rules hostname ≡ some rule) × FirstRule rules hostname rule)
unfolding find_rule
find_rule-First [] hostname = inl (refl, tt)
find_rule-First (r ∷ rules) hostname =
    elim (Bool-cases (eq_ignore_ascii_case r.hostname hostname)) [
      | inl hit ↦ inr (
        r,
        rw (hit, find_rule) refl,
        record { before = []; after = rules; split = refl; earlier = tt; matching = hit },
      )
      | inr miss ↦ elim (find_rule-First rules hostname) [
        | inl (e, none_of) ↦ inl (rw (miss, find_rule) e, (miss, none_of))
        | inr (rule, e, first) ↦ inr (
          rule,
          rw (miss, find_rule) e,
          record {
            before = r ∷ first.before;
            after = first.after;
            split = ap (λ rs. r ∷ rs) first.split;
            earlier = (miss, first.earlier);
            matching = first.matching;
          },
        )
      ]
    ]

-- `match_host` gives the first rule whose host name is the given one but for case, and nothing
-- exactly when there is none.
pub match_host-First :
    (config : AuthGatewayConfig) (hostname : String)
    → ((match_host config hostname ≡ none)
        × All (λ r. eq_ignore_ascii_case r.hostname hostname ≡ false) config.rules)
      ⊎ ((rule : AuthRule) × (match_host config hostname ≡ some rule)
          × FirstRule config.rules hostname rule)
unfolding match_host
match_host-First config hostname = find_rule-First config.rules hostname

find_rule_ignores_case :
    (rules : List AuthRule) (s t : String)
    → eq_ignore_ascii_case s t ≡ true
    → find_rule rules s ≡ find_rule rules t
unfolding find_rule
find_rule_ignores_case [] s t h = refl
find_rule_ignores_case (r ∷ rules) s t h =
    ap (λ b. if b then some r else find_rule rules s) (eq_ignore_ascii_case_right r.hostname s t h)
    ∙ ap (λ o. if eq_ignore_ascii_case r.hostname t then some r else o)
        (find_rule_ignores_case rules s t h)

-- Host names that differ in case only get the same rule.
pub match_host_ignores_case :
    (config : AuthGatewayConfig) (s t : String)
    → eq_ignore_ascii_case s t ≡ true
    → match_host config s ≡ match_host config t
unfolding match_host
match_host_ignores_case config s t h = find_rule_ignores_case config.rules s t h

-- A format with one `{key}` and no other opening brace is rendered with the credential in its place.
pub render_header_value-once :
    (rule : AuthRule) (credential a b : String)
    → rule.header_format ≡ a ++ ("{key}" ++ b)
    → Lacks 123 a
    → Lacks 123 b
    → render_header_value rule credential ≡ a ++ (credential ++ b)
unfolding render_header_value
render_header_value-once rule credential a b e h k =
    ap (λ f. replace f "{key}" credential) e ∙ replace-once credential a b h k
