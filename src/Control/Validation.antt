-- ===== src/Control/Validation.antt =====
-- internal/contexts/control/application/types.go: the validation of what the control plane is given,
-- and the policy bundle that it stands for.
use Prim.Native.Char.{code}
use kiwi_guard.Common.{
  ℕ, ℤ, pos, ltb_ℤ, leb, String, Bool, not, ◌&&◌, ◌||◌, List, [], ◌∷◌, map, Option, none, some,
  ◌==◌, eq_nat, eq_string, if◌then◌else◌,
}
use kiwi_guard.Detection.{
  Definition, kind_regex, kind_email, kind_phone, kind_payment_card, kind_secret, direction_input,
  direction_output,
}
use kiwi_guard.Policy.Types.{Bundle, action_allow, action_block, action_redact, action_shadow_log}
use kiwi_guard.Policy.Types
use kiwi_guard.Clients.{status_enabled, status_disabled, status_revoked}
use kiwi_guard.Control.Types.{
  Detector, Rule, PolicyBundle, GatewayClient, CreateGatewayClientRequest, RouteLimit,
  ClientRouteLimit, InputError, bad_source, bad_default_action, bad_detector_kind, bad_severity,
  bad_rule_action, bad_scope_direction, bad_client_status, bad_limit_values, client_name_required,
  client_id_required, route_key_required,
}

-- `unicode.IsSpace`.
abbrev is_space : ℕ → Bool
is_space c =
    (leb 9 c && leb c 13)
    || c == 32
    || c == 0x85
    || c == 0xa0
    || c == 0x1680
    || (leb 0x2000 c && leb c 0x200a)
    || c == 0x2028
    || c == 0x2029
    || c == 0x202f
    || c == 0x205f
    || c == 0x3000

trim_left : String → String
trim_left String.[] = String.[]
trim_left (String.◌∷◌ c s) = if is_space (code c) then trim_left s else String.◌∷◌ c s

trim_right : String → String
trim_right String.[] = String.[]
trim_right (String.◌∷◌ c s) =
    let rest = trim_right s in
    if is_space (code c) && rest == "" then String.[] else String.◌∷◌ c rest

-- `strings.TrimSpace`.
unfoldable pub trim_space : String → String
unfolding trim_left trim_right
trim_space s = trim_right (trim_left s)

unfoldable pub valid_gateway_client_status : String → Bool
valid_gateway_client_status status =
    status == status_enabled || status == status_disabled || status == status_revoked

unfoldable pub valid_limit_values : ℤ → ℤ → ℤ → ℤ → Bool
valid_limit_values requests window concurrent body =
    ltb_ℤ (pos 0) requests && ltb_ℤ (pos 0) window && ltb_ℤ (pos 0) concurrent && ltb_ℤ (pos 0) body

unfoldable pub valid_source : String → Bool
valid_source source = source == "built_in" || source == "user" || source == "imported"

unfoldable pub valid_action : String → Bool
valid_action action =
    action == action_allow
    || action == action_block
    || action == action_redact
    || action == action_shadow_log

unfoldable pub valid_severity : String → Bool
valid_severity severity =
    severity == "low" || severity == "medium" || severity == "high" || severity == "critical"

unfoldable pub valid_detector_kind : String → Bool
valid_detector_kind kind =
    kind == kind_regex
    || kind == kind_email
    || kind == kind_phone
    || kind == kind_payment_card
    || kind == kind_secret

unfoldable pub valid_direction : String → Bool
valid_direction direction = direction == direction_input || direction == direction_output

-- A nil error is `none`.
abbrev pub Check : Type 0
Check = Option InputError

abbrev pub then_check : Check → Check → Check
then_check none next = next
then_check (some e) next = some e

-- The loops of `PolicyBundle.Validate`.
unfoldable pub validate_detectors : List Detector → Check
validate_detectors [] = none
validate_detectors (d ∷ ds) =
    if not (valid_detector_kind d.kind)
    then some (bad_detector_kind d.key d.kind)
    else validate_detectors ds

unfoldable pub validate_rule : Rule → Check
validate_rule rule =
    if not (valid_severity rule.severity)
    then some (bad_severity rule.key rule.severity)
    else if not (valid_action rule.action)
    then some (bad_rule_action rule.key rule.action)
    else if not (rule.scope.direction == "") && not (valid_direction rule.scope.direction)
    then some (bad_scope_direction rule.key rule.scope.direction)
    else none

unfoldable pub validate_rules : List Rule → Check
unfolding validate_rule
validate_rules [] = none
validate_rules (rule ∷ rules) = then_check (validate_rule rule) (validate_rules rules)

unfoldable pub validate_bundle : PolicyBundle → Check
unfolding validate_detectors validate_rules
validate_bundle b =
    if not (valid_source b.source)
    then some (bad_source b.source)
    else if not (valid_action b.default_action)
    then some (bad_default_action b.default_action)
    else then_check (validate_detectors b.detectors) (validate_rules b.rules)

unfoldable pub to_definition : Detector → Definition
to_definition d = record {
  key = d.key;
  kind = d.kind;
  pattern = d.pattern;
  categories = d.categories;
}

unfoldable pub to_rule : Rule → Types.Rule
to_rule r = record {
  key = r.key;
  enabled = r.enabled;
  severity = r.severity;
  action = r.action;
  detector_keys = r.detector_keys;
  scope = record {
    route_key = r.scope.route_key;
    provider = r.scope.provider;
    model = r.scope.model;
    direction = r.scope.direction;
  };
}

unfoldable pub to_policy_bundle : PolicyBundle → Bundle
unfolding to_definition to_rule
to_policy_bundle b = record {
  key = b.key;
  version = b.version;
  source = b.source;
  default_action = b.default_action;
  detectors = map to_definition b.detectors;
  rules = map to_rule b.rules;
}

unfoldable pub check_client : String → String → Check
check_client name status =
    if name == ""
    then some client_name_required
    else if not (valid_gateway_client_status status)
    then some bad_client_status
    else none

-- `NormalizeAndValidate`: its error, and the request that it leaves.
unfoldable pub normalize_request : CreateGatewayClientRequest → CreateGatewayClientRequest
unfolding trim_space
normalize_request r = record r {
  id = trim_space r.id;
  name = trim_space r.name;
  status = trim_space (if r.status == "" then status_enabled else r.status);
}

unfoldable pub validate_request : CreateGatewayClientRequest → Check × CreateGatewayClientRequest
unfolding normalize_request check_client
validate_request r =
    let normal = normalize_request r in (check_client normal.name normal.status, normal)

unfoldable pub validate_client : GatewayClient → Check
unfolding trim_space check_client
validate_client c = check_client (trim_space c.name) c.status

unfoldable pub validate_route_limit : RouteLimit → Check
unfolding trim_space
validate_route_limit l =
    if trim_space l.route_key == ""
    then some route_key_required
    else if not (
        valid_limit_values l.requests_per_window l.window_seconds l.max_concurrent_requests
          l.max_body_bytes)
    then some bad_limit_values
    else none

unfoldable pub validate_client_route_limit : ClientRouteLimit → Check
unfolding trim_space
validate_client_route_limit l =
    if trim_space l.client_id == ""
    then some client_id_required
    else if trim_space l.route_key == ""
    then some route_key_required
    else if not (
        valid_limit_values l.requests_per_window l.window_seconds l.max_concurrent_requests
          l.max_body_bytes)
    then some bad_limit_values
    else none
