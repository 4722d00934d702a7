-- ===== src/Identity.antt =====
-- internal/identity/provider.go and tls.go: the identity of an agent from its client certificate.
-- A certificate is the part of it that the provider reads; TLS itself is not modelled.
pub mod Certified
use agent_transponder.Prelude.{ℕ, Option, none, some, List, [], ◌∷◌, String, ◌==◌, if◌then◌else◌}
use agent_transponder.Prelude.Maps.{Map, lookup}
use agent_transponder.Types.Tenant.{TenantError, validate_tenant_id}

pub record AgentIdentity : Type 0 where
  pub agent_id : String
  pub tenant_id : String
  pub raw : String
  pub hmac_key : List ℕ

-- leaf.DNSNames, leaf.Subject.CommonName, leaf.Subject.Organization, leaf.Subject.String()
pub record Certificate : Type 0 where
  pub dns_names : List String
  pub common_name : String
  pub organization : List String
  pub subject : String

pub record TlsProvider : Type 0 where
  pub hmac_keys : Map (List ℕ)

pub data IdentityError : Type 0 where
  no_client_certificate no_san_or_cn : IdentityError
  unsafe_tenant : TenantError → IdentityError
  no_hmac_key : String → IdentityError
  unknown_agent : String → IdentityError

pub data Result {ℓ} (A : Type ℓ) : Type ℓ where
  ok : A → Result A
  err : IdentityError → Result A

unfoldable pub agent_id_of : Certificate → String
agent_id_of leaf = elim leaf.dns_names [ [] ↦ leaf.common_name | name ∷ names ↦ name ]

unfoldable pub tenant_id_of : Certificate → String
tenant_id_of leaf = elim leaf.organization [ [] ↦ "_default" | org ∷ orgs ↦ org ]

with_key : String → String → String → Option (List ℕ) → Result AgentIdentity
with_key agent_id tenant_id subject none = err (no_hmac_key agent_id)
with_key agent_id tenant_id subject (some key) =
    ok (record { agent_id = agent_id; tenant_id = tenant_id; raw = subject; hmac_key = key })

identify_leaf : TlsProvider → Certificate → Result AgentIdentity
unfolding agent_id_of tenant_id_of with_key
identify_leaf p leaf =
    let agent_id = agent_id_of leaf in
    let tenant_id = tenant_id_of leaf in
    if agent_id == "" then err no_san_or_cn else elim (validate_tenant_id tenant_id) [
      | some e ↦ err (unsafe_tenant e)
      | none ↦ with_key agent_id tenant_id leaf.subject (lookup agent_id p.hmac_keys)
    ]

unfoldable pub identify : TlsProvider → List Certificate → Result AgentIdentity
unfolding identify_leaf
identify p [] = err no_client_certificate
identify p (leaf ∷ certs) = identify_leaf p leaf

key_or_unknown : String → Option (List ℕ) → Result (List ℕ)
key_or_unknown agent_id none = err (unknown_agent agent_id)
key_or_unknown agent_id (some key) = ok key

pub lookup_hmac_key : TlsProvider → String → Result (List ℕ)
unfolding key_or_unknown
lookup_hmac_key p agent_id = key_or_unknown agent_id (lookup agent_id p.hmac_keys)
