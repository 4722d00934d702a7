-- ===== src/Examples/ServiceExamples.antt =====
-- The theorems on cmd/hmaccheck and on the redactor that the service builds, at concrete inputs.
use agent_transponder.Prelude.{
  ◌≡◌, refl, String, ◌==◌, Bool, true, false, none, some, List, [], ◌∷◌, ◌++◌, map, select, All,
  if◌then◌else◌,
}
use agent_transponder.Prelude.Text.{codes}
use agent_transponder.Prelude.Result.{err}
use agent_transponder.Types.Hmac.{Signing, verify_hmac}
use agent_transponder.HmacCheck.{test_event, compute_with_canonical, verify_hmac-digest}
use agent_transponder.Redaction.{Regexp, RegexRedactor, pattern_names}
use agent_transponder.Redaction.Built.{
  RawPattern, raw_pattern, default_patterns, Compiles, new_regex_redactor, build_redaction_patterns,
  usable, new_regex_redactor-built,
}
use agent_transponder.Ingestion.Subsystems.{
  init_subsystems, InitStep, init_keys, audit_sink, store, id_provider, close,
}

abbrev signing : Signing
signing = record {
  JsonObject = String;
  marshal_event = λ e. some e.id;
  unmarshal_object = λ text. some text;
  delete_key = λ key m. m;
  marshal_object = λ m. some m;
  hmac_sha256_hex = λ key text. text;
}

verify_hmac-digest_example :
    verify_hmac signing (1 ∷ []) (record test_event { hmac = "forged" })
    ≡ some ("forged" == "test-123")
unfolding compute_with_canonical
verify_hmac-digest_example =
    verify_hmac-digest signing (1 ∷ []) test_event "test-123" "test-123" "forged" refl

-- Expressions that begin with an asterisk do not compile.
abbrev regexp : Regexp
regexp = record {
  Regex = String;
  compile = λ expr. if expr == "*" then none else some expr;
  replace_all_string = λ regex text marker. text;
  match_string = λ regex text. false;
}

abbrev custom : List RawPattern
custom = raw_pattern "ticket" "T-[0-9]+" ∷ raw_pattern "broken" "*" ∷ raw_pattern "" "x" ∷ []

default_patterns-Compiles : All (Compiles regexp) default_patterns
default_patterns-Compiles = (
  (_, refl),
  (
    (_, refl),
    (
      (_, refl),
      (
        (_, refl),
        (
          (_, refl),
          (
            (_, refl),
            (
              (_, refl),
              (
                (_, refl),
                ((_, refl), ((_, refl), ((_, refl), ((_, refl), ((_, refl), ((_, refl), tt)))))),
              ),
            ),
          ),
        ),
      ),
    ),
  ),
)

new_regex_redactor-built_example :
    (r : RegexRedactor regexp) × (new_regex_redactor regexp
        (some (build_redaction_patterns regexp custom))
      ≡ some r)
    × (pattern_names regexp r
        ≡ map (λ (p : RawPattern). p.name) (default_patterns ++ select (usable regexp) custom))
new_regex_redactor-built_example = new_regex_redactor-built regexp custom default_patterns-Compiles

usable_ones : map (λ (p : RawPattern). p.name) (select (usable regexp) custom) ≡ "ticket" ∷ []
usable_ones = refl

backslash : codes "\\s" ≡ 92 ∷ 115 ∷ []
backslash = refl

-- Three subsystems are closed when the key manager cannot be made.
abbrev is_keys : InitStep → Bool
is_keys init_keys = true
is_keys step = false

closed_on_failure : init_subsystems is_keys ≡ err (init_keys, audit_sink ∷ store ∷ id_provider ∷ [])
unfolding init_subsystems close
closed_on_failure = refl
