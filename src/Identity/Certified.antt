-- ===== src/Identity/Certified.antt =====
-- internal/identity/tls.go: the certificates that Identify takes.
use agent_transponder.Prelude.{
  ◌≡◌, ◌≢◌, ◌↔◌, eq_iff, none, some, Option-cases, inl, inr, List, ◌∷◌, arith,
}
use agent_transponder.Prelude.Maps.{lookup}
use agent_transponder.Types.Tenant.{validate_tenant_id}
use agent_transponder.Identity.{
  AgentIdentity, Certificate, TlsProvider, ok, agent_id_of, tenant_id_of, identify,
}

-- Identify takes a chain exactly if its leaf names an agent with a configured key and a tenant that
-- passes the tenant check; the identity is then that of the leaf, with that key.
pub identify-ok_iff :
    (p : TlsProvider) (leaf : Certificate) (certs : List Certificate) (agent : AgentIdentity)
    → (identify p (leaf ∷ certs) ≡ ok agent) ↔ (
        (agent.agent_id ≡ agent_id_of leaf)
        × (agent_id_of leaf ≢ "")
        × (agent.tenant_id ≡ tenant_id_of leaf)
        × (validate_tenant_id (tenant_id_of leaf) ≡ none)
        × (agent.raw ≡ leaf.subject)
        × (lookup (agent_id_of leaf) p.hmac_keys ≡ some agent.hmac_key))
unfolding identify
identify-ok_iff p leaf certs agent = elim (Option-cases (validate_tenant_id (tenant_id_of leaf))) [
  | inl safe ↦ elim (Option-cases (lookup (agent_id_of leaf) p.hmac_keys)) [
    | inl missing ↦ ground (arith, safe, missing, eq_iff (agent_id_of leaf) "")
    | inr (key, there) ↦ ground (arith, safe, there, eq_iff (agent_id_of leaf) "")
  ]
  | inr (e, unsafe) ↦ ground (arith, unsafe, eq_iff (agent_id_of leaf) "")
]
