-- ===== src/Examples/TypesExamples.antt =====
-- The theorems on internal/types at concrete inputs.
use agent_transponder.Prelude.{◌≡◌, ◌↔◌, none}
use agent_transponder.Types.Tenant.{validate_tenant_id}
use agent_transponder.Types.Tenant.Safe.{IsComponent, validate_tenant_id-none_iff}

validate_tenant_id-none_iff_example : (validate_tenant_id "my-team" ≡ none) ↔ IsComponent "my-team"
validate_tenant_id-none_iff_example = validate_tenant_id-none_iff "my-team"
