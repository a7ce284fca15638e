-- ===== src/Detection.antt =====
-- internal/contexts/detection/domain: definitions of detectors, their compilation, and matching.
pub mod Luhn
pub mod Checksum
pub mod Matching
pub mod Tests
use kiwi_guard.Common.{
  ℕ, ◌-◌, String, Bool, true, false, List, [], ◌∷◌, ◌++◌, map, Option, none, some, Result, ok, err,
  ◌>>=◌, map_err, ◌==◌, eq_string, if◌then◌else◌, is_empty, filter, not, take, drop, flat_map,
}
use kiwi_guard.Common.Utf8.{Bytes}
use Luhn.{valid_luhn}

abbrev pub Kind : Type 0
Kind = String

abbrev pub Direction : Type 0
Direction = String

abbrev pub kind_regex : Kind
kind_regex = "regex"

abbrev pub kind_email : Kind
kind_email = "email"

abbrev pub kind_phone : Kind
kind_phone = "phone"

abbrev pub kind_payment_card : Kind
kind_payment_card = "payment_card"

abbrev pub kind_secret : Kind
kind_secret = "secret"

abbrev pub direction_input : Direction
direction_input = "input"

abbrev pub direction_output : Direction
direction_output = "output"

pub record Definition : Type 0 where
  pub key : String
  pub kind : Kind
  pub pattern : String
  pub categories : List String

pub record Input : Type 0 where
  pub direction : Direction
  pub text : Bytes

pub record Finding : Type 0 where
  pub detector_key : String
  pub category : String
  pub start : ℕ
  pub end : ℕ
  pub value_hash : String

-- The interface `Detector`: its two methods.
pub record Detector : Type 0 where
  pub key : String
  pub match : Input → List Finding

-- What the package takes from `regexp`, `crypto/sha256` and `unicode`. `find_all` gives the byte
-- offsets of the matches; `hash_value` is the lowercase hexadecimal digest.
pub record Engine : Type 1 where
  pub Regexp : Type 0
  pub compile_pattern : String → Result String Regexp
  pub find_all : Regexp → Bytes → List (ℕ × ℕ)
  pub hash_value : Bytes → String
  pub is_digit : ℕ → Bool

pub data DefinitionError : Type 0 where
  pattern_required : DefinitionError
  unknown_kind : Kind → DefinitionError

pub data CompileError : Type 0 where
  key_required : CompileError
  bad_definition : String → DefinitionError → CompileError
  bad_pattern : String → String → CompileError

abbrev pub default_regex_category : String
default_regex_category = "custom.regex"

abbrev pub email_pattern : String
email_pattern = "(?i)\\b[a-z0-9._%+\\-]+@[a-z0-9.\\-]+\\.[a-z]{2,}\\b"

abbrev pub phone_pattern : String
phone_pattern = "(?i)\\b(?:\\+?\\d{1,3}[\\s.-]?)?(?:\\(?\\d{3}\\)?[\\s.-]?)\\d{3}[\\s.-]?\\d{4}\\b"

abbrev pub payment_card_pattern : String
payment_card_pattern = "\\b(?:\\d[ -]?){13,19}\\b"

abbrev pub secret_pattern : String
secret_pattern = "(?i)\\b(?:sk|pk|api|token|secret)[-_][a-z0-9][a-z0-9_-]{16,}\\b"

unfoldable pub normalize_categories : List String → String → List String
normalize_categories categories fallback =
    let normalized = filter (λ category. not (category == "")) categories in
    if is_empty categories
    then fallback ∷ []
    else if is_empty normalized
    then fallback ∷ []
    else normalized

-- A pattern, its categories and its validator; `none` is the nil validator.
pub record Normalized : Type 0 where
  pub pattern : String
  pub categories : List String
  pub validator : Option (Bytes → Bool)

unfoldable pub custom_pattern : String → List String → String → Result DefinitionError Normalized
custom_pattern pattern categories fallback_category =
    if pattern == ""
    then err pattern_required
    else ok (record {
      pattern = pattern;
      categories = normalize_categories categories fallback_category;
      validator = none;
    })

unfoldable pub built_in_pattern :
    String
    → List String
    → String
    → String
    → Option (Bytes → Bool)
    → Result DefinitionError Normalized
built_in_pattern pattern categories fallback_pattern fallback_category validator = ok (record {
  pattern = if pattern == "" then fallback_pattern else pattern;
  categories = normalize_categories categories fallback_category;
  validator = validator;
})

abbrev pub slice : Bytes → ℕ → ℕ → Bytes
slice text start end = take (end - start) (drop start text)

-- `d.validator == nil || d.validator(value)`.
abbrev pub accepts : Option (Bytes → Bool) → Bytes → Bool
accepts none value = true
accepts (some validator) value = validator value

-- `Registry`: the compiled detectors.
abbrev pub Registry : Type 0
Registry = List Detector

module _ (g : Engine) where
  open g use {Regexp, compile_pattern, find_all, hash_value, is_digit}

  pub record RegexDetector : Type 0 where
    pub key : String
    pub re : Regexp
    pub categories : List String
    pub validator : Option (Bytes → Bool)

  unfoldable pub normalize_definition : Definition → Result DefinitionError Normalized
  normalize_definition def =
      if def.kind == kind_regex
      then custom_pattern def.pattern def.categories default_regex_category
      else if def.kind == kind_email
      then built_in_pattern def.pattern def.categories email_pattern "pii.email" none
      else if def.kind == kind_phone
      then built_in_pattern def.pattern def.categories phone_pattern "pii.phone" none
      else if def.kind == kind_payment_card
      then built_in_pattern def.pattern def.categories payment_card_pattern "pii.payment_card"
          (some (valid_luhn is_digit))
      else if def.kind == kind_secret
      then built_in_pattern def.pattern def.categories secret_pattern "secret.token" none
      else err (unknown_kind def.kind)

  abbrev pub finding : RegexDetector → Bytes → ℕ → ℕ → String → Finding
  finding d text start end category = record {
    detector_key = d.key;
    category = category;
    start = start;
    end = end;
    value_hash = hash_value (slice text start end);
  }

  -- The findings of one match, one for each category.
  unfoldable pub findings_at : RegexDetector → Bytes → ℕ → ℕ → List Finding
  findings_at d text start end = map (finding d text start end) d.categories

  -- The loop over the matches; a match that the validator refuses is skipped.
  unfoldable pub collect_findings : RegexDetector → Bytes → List (ℕ × ℕ) → List Finding
  collect_findings d text [] = []
  collect_findings d text ((start, end) ∷ indexes) =
      let rest = collect_findings d text indexes in
      if accepts d.validator (slice text start end)
      then findings_at d text start end ++ rest
      else rest

  unfoldable pub match : RegexDetector → Input → List Finding
  match d input =
      if is_empty input.text then [] else collect_findings d input.text (find_all d.re input.text)

  unfoldable pub build : Definition → Normalized → Regexp → RegexDetector
  build def n re = record {
    key = def.key;
    re = re;
    categories = n.categories;
    validator = n.validator;
  }

  unfoldable pub compile : Definition → Result CompileError Detector
  compile def = if def.key == "" then err key_required else do
    n ← map_err (bad_definition def.key) (normalize_definition def)
    re ← map_err (bad_pattern def.key) (compile_pattern n.pattern)
    ok (record { key = def.key; match = match (build def n re) })

  unfoldable pub compile_all : List Definition → Result CompileError Registry
  compile_all [] = ok []
  compile_all (def ∷ defs) = do
    detector ← compile def
    registry ← compile_all defs
    ok (detector ∷ registry)

-- `Registry.Match`.
unfoldable pub match_all : Registry → Input → List Finding
match_all r input = flat_map (λ detector. detector.match input) r
