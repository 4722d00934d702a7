-- ===== src/Types/Tenant/Safe.antt =====
-- What the tenant check of internal/types/tenant.go accepts.
use agent_transponder.Prelude.{
  ℕ, ◌<◌, ◌≡◌, refl, ◌↔◌, ◌≢◌, ◌⊎◌, false, none, List, [], ◌∷◌, ◌++◌, arith, any, All, String, ◌==◌,
  eq_iff,
}
use agent_transponder.Prelude.Text.{codes}
use agent_transponder.Types.Tenant.{
  is_path_separator, is_control, is_space, starts_with_space, ends_with_space, validate_tenant_id,
}

-- A character that neither separates paths nor is a control character.
abbrev pub IsPlain : ℕ → Type 0
IsPlain c = (c ≢ 0x2f) × (c ≢ 0x5c) × (c ≢ 0x3a) × (0x1f < c) × ((c < 0x7f) ⊎ (0x9f < c))

-- One literal component of a path, with no space at either end.
pub record IsComponent (id : String) : Type 0 where
  pub nonempty : id ≢ ""
  pub not_here : id ≢ "."
  pub not_parent : id ≢ ".."
  pub plain : All IsPlain (codes id)
  pub first : (c : ℕ) (cs : List ℕ) → codes id ≡ c ∷ cs → is_space c ≡ false
  pub last : (cs : List ℕ) (c : ℕ) → codes id ≡ cs ++ c ∷ [] → is_space c ≡ false

any→All :
    (cs : List ℕ) → any is_path_separator cs ≡ false → any is_control cs ≡ false → All IsPlain cs
unfolding is_path_separator is_control
any→All [] h k = tt
any→All (c ∷ cs) h k = (ground arith, any→All cs (ground arith) (ground arith))

All→separator : (cs : List ℕ) → All IsPlain cs → any is_path_separator cs ≡ false
unfolding is_path_separator
All→separator [] h = refl
All→separator (c ∷ cs) h = ground (arith, All→separator cs h.1)

All→control : (cs : List ℕ) → All IsPlain cs → any is_control cs ≡ false
unfolding is_control
All→control [] h = refl
All→control (c ∷ cs) h = ground (arith, All→control cs h.1)

starts→first :
    (ds : List ℕ)
    → starts_with_space ds ≡ false
    → (c : ℕ) (cs : List ℕ) → ds ≡ c ∷ cs
    → is_space c ≡ false
unfolding starts_with_space
starts→first [] h c cs e = cc
starts→first (d ∷ ds) h c cs e = ground arith

first→starts :
    (ds : List ℕ)
    → ((c : ℕ) (cs : List ℕ) → ds ≡ c ∷ cs → is_space c ≡ false)
    → starts_with_space ds ≡ false
unfolding starts_with_space
first→starts [] h = refl
first→starts (d ∷ ds) h = h d ds refl

ends→last :
    (ds : List ℕ)
    → ends_with_space ds ≡ false
    → (cs : List ℕ) (c : ℕ) → ds ≡ cs ++ c ∷ []
    → is_space c ≡ false
unfolding ends_with_space
ends→last [] h [] c e = cc
ends→last [] h (a ∷ cs) c e = cc
ends→last (d ∷ []) h [] c e = ground arith
ends→last (d ∷ []) h (a ∷ []) c e = cc
ends→last (d ∷ []) h (a ∷ (b ∷ cs)) c e = cc
ends→last (d ∷ (d' ∷ ds)) h [] c e = cc
ends→last (d ∷ (d' ∷ ds)) h (a ∷ cs) c e = ends→last (d' ∷ ds) h cs c (cc)

last→ends :
    (ds : List ℕ)
    → ((cs : List ℕ) (c : ℕ) → ds ≡ cs ++ c ∷ [] → is_space c ≡ false)
    → ends_with_space ds ≡ false
unfolding ends_with_space
last→ends [] h = refl
last→ends (d ∷ []) h = h [] d refl
last→ends (d ∷ (d' ∷ ds)) h = last→ends (d' ∷ ds) (λ cs c e. h (d ∷ cs) c (cc))

-- The tests of the check, with the characters' scans shut.
record PassesTests (id : String) : Type 0 where
  not_empty : (id == "") ≡ false
  not_dot : (id == ".") ≡ false
  not_dots : (id == "..") ≡ false
  no_separator : any is_path_separator (codes id) ≡ false
  no_first : starts_with_space (codes id) ≡ false
  no_last : ends_with_space (codes id) ≡ false
  no_control : any is_control (codes id) ≡ false

validate→tests : (id : String) → validate_tenant_id id ≡ none → PassesTests id
unfolding validate_tenant_id
validate→tests id h = ground arith

tests→validate : (id : String) → PassesTests id → validate_tenant_id id ≡ none
unfolding validate_tenant_id
tests→validate id h = ground arith

ne_of_test : (s t : String) → (s == t) ≡ false → s ≢ t
ne_of_test s t h e = ground (arith, eq_iff s t)

test_of_ne : (s t : String) → s ≢ t → (s == t) ≡ false
test_of_ne s t h = ground (arith, eq_iff s t)

-- The check accepts a text exactly when it is one literal component of a path: not empty, not
-- `.` or `..`, with no slash, backslash, colon or control character, and no space at an end.
pub validate_tenant_id-none_iff : (id : String) → (validate_tenant_id id ≡ none) ↔ IsComponent id
validate_tenant_id-none_iff id = (
  λ h.
      let t = validate→tests id h in
      record {
        nonempty = ne_of_test id "" t.not_empty;
        not_here = ne_of_test id "." t.not_dot;
        not_parent = ne_of_test id ".." t.not_dots;
        plain = any→All (codes id) t.no_separator t.no_control;
        first = starts→first (codes id) t.no_first;
        last = ends→last (codes id) t.no_last;
      },
  λ s. tests→validate id (record {
    not_empty = test_of_ne id "" s.nonempty;
    not_dot = test_of_ne id "." s.not_here;
    not_dots = test_of_ne id ".." s.not_parent;
    no_separator = All→separator (codes id) s.plain;
    no_first = first→starts (codes id) s.first;
    no_last = last→ends (codes id) s.last;
    no_control = All→control (codes id) s.plain;
  }),
)
