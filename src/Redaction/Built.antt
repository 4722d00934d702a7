-- ===== src/Redaction/Built.antt =====
-- internal/redaction/redactor.go: DefaultPatterns and NewRegexRedactor; and buildRedactionPatterns of
-- cmd/ingestion/main.go, which adds the patterns of the configuration. A pattern that is not compiled
-- yet is its name and its expression.
use agent_transponder.Prelude.{
  ◌≡◌, refl, sym, ap, ◌∙◌, String, ◌==◌, Bool, true, not, ◌&&◌, ◌||◌, Option, none, some, List, [],
  ◌∷◌, ◌++◌, map, append_nil, is_some, get_or, if◌then◌else◌, if_ind, All, All-append, select,
  append_assoc, arith,
}
use agent_transponder.Prelude.Loops.{◌>>=◌, bind_some}
use agent_transponder.Redaction.{Regexp, Pattern, RegexRedactor, pattern_names}

pub record RawPattern : Type 0 where
  pub name : String
  pub raw_expr : String

abbrev pub raw_pattern : String → String → RawPattern
raw_pattern name expr = record { name = name; raw_expr = expr }

-- `\` is written twice in a text.
abbrev pub default_patterns : List RawPattern
default_patterns =
    raw_pattern "aws_access_key" "(?i)AKIA[0-9A-Z]{16}"
    ∷ raw_pattern "aws_secret_key"
        "(?i)(?:aws_secret_access_key|secret_key)\\s*[=:]\\s*[A-Za-z0-9/+=]{40}"
    ∷ raw_pattern "generic_api_key"
        "(?i)(?:api[_-]?key|apikey|access[_-]?token)\\s*[=:]\\s*[A-Za-z0-9\\-_.]{20,}"
    ∷ raw_pattern "bearer_token" "(?i)Bearer\\s+[A-Za-z0-9\\-_.~+/]+=*"
    ∷ raw_pattern "jwt" "eyJ[A-Za-z0-9_-]+\\.eyJ[A-Za-z0-9_-]+\\.[A-Za-z0-9_-]+"
    ∷ raw_pattern "private_key" "-----BEGIN\\s+(RSA|EC|DSA|OPENSSH)?\\s*PRIVATE KEY-----"
    ∷ raw_pattern "connection_string" "(?i)(?:postgres|mysql|mongodb|redis|amqp)://[^\\s]+"
    ∷ raw_pattern "password_field" "(?i)(?:password|passwd|pwd)\\s*[=:]\\s*\\S+"
    ∷ raw_pattern "ssn" "\\b\\d{3}-\\d{2}-\\d{4}\\b"
    ∷ raw_pattern "credit_card" "\\b(?:4[0-9]{12}(?:[0-9]{3})?|5[1-5][0-9]{14}|3[47][0-9]{13})\\b"
    ∷ raw_pattern "email" "\\b[A-Za-z0-9._%+-]+@[A-Za-z0-9.-]+\\.[A-Z|a-z]{2,}\\b"
    ∷ raw_pattern "ip_address" "\\b(?:\\d{1,3}\\.){3}\\d{1,3}\\b"
    ∷ raw_pattern "github_token" "(?i)(?:ghp|gho|ghu|ghs|ghr)_[A-Za-z0-9_]{36,}"
    ∷ raw_pattern "slack_token" "xox[bporas]-[0-9]+-[0-9]+-[A-Za-z0-9]+"
    ∷ []

module _ (lib : Regexp) where
  unfoldable pub compile_all : List RawPattern → Option (List (Pattern lib))
  compile_all [] = some []
  compile_all (p ∷ patterns) = lib.compile p.raw_expr >>= λ r. compile_all patterns >>= λ compiled.
      some (record { name = p.name; regex = r; raw_expr = p.raw_expr } ∷ compiled)

  -- `none`: nil patterns, for which the default ones are used.
  unfoldable pub new_regex_redactor : Option (List RawPattern) → Option (RegexRedactor lib)
  new_regex_redactor patterns = compile_all (get_or default_patterns patterns) >>= λ compiled.
      some (record { patterns = compiled; marker = "[REDACTED]" })

  -- The custom patterns that have a name and an expression that compiles.
  unfoldable pub add_custom : List RawPattern → List RawPattern → List RawPattern
  add_custom patterns [] = patterns
  add_custom patterns (cp ∷ custom) =
      if cp.name == "" || cp.raw_expr == "" || not (is_some (new_regex_redactor (some (cp ∷ []))))
      then add_custom patterns custom
      else add_custom (patterns ++ cp ∷ []) custom

  unfoldable pub build_redaction_patterns : List RawPattern → List RawPattern
  build_redaction_patterns custom = add_custom default_patterns custom

  -- Patterns that all compile, with their names.
  record IsCompiled (patterns : List RawPattern) (r : Option (List (Pattern lib))) : Type 0 where
    pub compiled : List (Pattern lib)
    pub returns : r ≡ some compiled
    pub names :
        map (λ (p : Pattern lib). p.name) compiled ≡ map (λ (p : RawPattern). p.name) patterns

  cons-IsCompiled :
      (p : RawPattern) (patterns : List RawPattern) (r : lib.Regex)
      → lib.compile p.raw_expr ≡ some r
      → IsCompiled patterns (compile_all patterns)
      → IsCompiled (p ∷ patterns) (compile_all (p ∷ patterns))
  unfolding compile_all
  cons-IsCompiled p patterns r e h = record {
    compiled = record { name = p.name; regex = r; raw_expr = p.raw_expr } ∷ h.compiled;
    returns =
        bind_some (lib.compile p.raw_expr) r _ e
        ∙ bind_some (compile_all patterns) h.compiled _ h.returns;
    names = ap (λ l. p.name ∷ l) h.names;
  }

  abbrev pub Compiles : RawPattern → Type 0
  Compiles p = (r : lib.Regex) × (lib.compile p.raw_expr ≡ some r)

  compile_all-IsCompiled :
      (patterns : List RawPattern)
      → All Compiles patterns
      → IsCompiled patterns (compile_all patterns)
  unfolding compile_all
  compile_all-IsCompiled [] h = record { compiled = []; returns = refl; names = refl }
  compile_all-IsCompiled (p ∷ patterns) h =
      cons-IsCompiled p patterns h.0.0 h.0.1 (compile_all-IsCompiled patterns h.1)

  -- Whether a custom pattern is used.
  abbrev pub usable : RawPattern → Bool
  usable cp = not (cp.name == "") && not (cp.raw_expr == "") && is_some (lib.compile cp.raw_expr)

  usable-Compiles : (custom : List RawPattern) → All Compiles (select usable custom)
  usable-Compiles [] = tt
  usable-Compiles (cp ∷ custom) =
      let rest = usable-Compiles custom in
      if_ind (λ (l : List RawPattern). All Compiles l) (usable cp)
        (λ t. (compiled_of (lib.compile cp.raw_expr) (ground (arith, t)), rest)) (λ t. rest)
    where
      compiled_of : (o : Option lib.Regex) → is_some o ≡ true → (r : lib.Regex) × (o ≡ some r)
      compiled_of none h = absurd (ground (arith, h))
      compiled_of (some r) h = (r, refl)

  -- The test with a redactor of one pattern is the test of its expression.
  redactor_of_one :
      (cp : RawPattern)
      → is_some (new_regex_redactor (some (cp ∷ []))) ≡ is_some (lib.compile cp.raw_expr)
  unfolding new_regex_redactor compile_all
  redactor_of_one cp = through (lib.compile cp.raw_expr)
    where
      one : lib.Regex → List (Pattern lib)
      one r = record { name = cp.name; regex = r; raw_expr = cp.raw_expr } ∷ []

      made : List (Pattern lib) → RegexRedactor lib
      made compiled = record { patterns = compiled; marker = "[REDACTED]" }

      through :
          (o : Option lib.Regex)
          → is_some ((o >>= λ r. some (one r)) >>= λ compiled. some (made compiled)) ≡ is_some o
      through none = refl
      through (some r) = refl

  add_custom-select :
      (patterns custom : List RawPattern)
      → add_custom patterns custom ≡ patterns ++ select usable custom
  unfolding add_custom
  add_custom-select patterns [] = sym (append_nil patterns)
  add_custom-select patterns (cp ∷ custom) = ground (
    arith,
    redactor_of_one cp,
    add_custom-select patterns custom,
    add_custom-select (patterns ++ cp ∷ []) custom,
    append_assoc patterns (cp ∷ []) (select usable custom),
  )

  -- If the built-in patterns compile, the redactor is made whatever the configuration holds: with the
  -- built-in patterns and those of the configuration that are usable, in this order.
  pub new_regex_redactor-built :
      (custom : List RawPattern)
      → All Compiles default_patterns
      → (r : RegexRedactor lib) × (new_regex_redactor (some (build_redaction_patterns custom))
          ≡ some r)
        × (pattern_names lib r
            ≡ map (λ (p : RawPattern). p.name) (default_patterns ++ select usable custom))
  unfolding new_regex_redactor build_redaction_patterns pattern_names
  new_regex_redactor-built custom h =
      let all = default_patterns ++ select usable custom in
      let same : add_custom default_patterns custom ≡ all =
        add_custom-select default_patterns custom in
      let built =
        compile_all-IsCompiled all (
          All-append Compiles default_patterns (select usable custom) h (usable-Compiles custom)) in
      (
        record { patterns = built.compiled; marker = "[REDACTED]" },
        ap
              (λ (l : List RawPattern). compile_all l >>= λ compiled.
                some (record { patterns = compiled; marker = "[REDACTED]" }))
              same
            ∙ bind_some (compile_all all) built.compiled _ built.returns,
        built.names,
      )
