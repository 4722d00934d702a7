-- ===== src/Types/Tenant.antt =====
-- internal/types/tenant.go: which tenant IDs may name a directory. A text is its code points, so that
-- it is always valid UTF-8, and that check is left out.
pub mod Safe
use agent_transponder.Prelude.{
  ℕ, zero, suc, ◌+◌, ◌≡◌, refl, sym, ◌↔◌, ◌⊎◌, inl, inr, Bool, true, false, ◌||◌, ◌&&◌, not, Option,
  none, some, List, [], ◌∷◌, ◌++◌, arith, leb, eqb, any, All, if◌then◌else◌, String, ◌==◌, eq_iff,
}
use agent_transponder.Prelude.Text.{codes}

-- The error of the check, `unsafe tenant ID %q`.
pub data TenantError : Type 0 where
  unsafe_tenant_id : String → TenantError

-- '/', '\\' and ':'
is_path_separator : ℕ → Bool
is_path_separator c = eqb c 0x2f || eqb c 0x5c || eqb c 0x3a

-- unicode.IsControl: the category Cc.
is_control : ℕ → Bool
is_control c = leb c 0x1f || leb 0x7f c && leb c 0x9f

-- unicode.IsSpace: the property White_Space.
pub is_space : ℕ → Bool
is_space c =
    leb 0x09 c && leb c 0x0d
    || eqb c 0x20
    || eqb c 0x85
    || eqb c 0xa0
    || eqb c 0x1680
    || leb 0x2000 c && leb c 0x200a
    || eqb c 0x2028
    || eqb c 0x2029
    || eqb c 0x202f
    || eqb c 0x205f
    || eqb c 0x3000

-- strings.TrimSpace(id) != id: there is a space at an end.
starts_with_space : List ℕ → Bool
starts_with_space [] = false
starts_with_space (c ∷ cs) = is_space c

ends_with_space : List ℕ → Bool
ends_with_space [] = false
ends_with_space (c ∷ []) = is_space c
ends_with_space (c ∷ d ∷ cs) = ends_with_space (d ∷ cs)

-- The model's texts are sequences of code points, so `utf8.ValidString` holds of each.
unfoldable pub validate_tenant_id : String → Option TenantError
unfolding is_path_separator is_control is_space starts_with_space ends_with_space
validate_tenant_id id =
    if id == ""
      || id == "."
      || id == ".."
      || any is_path_separator (codes id)
      || starts_with_space (codes id)
      || ends_with_space (codes id)
    then some (unsafe_tenant_id id)
    else if any is_control (codes id)
    then some (unsafe_tenant_id id)
    else none
