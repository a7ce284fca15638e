-- ===== src/Control/Validity/Checks.antt =====
-- What the checks of internal/contexts/control/application/types.go that succeed have found.
use kiwi_guard.Common.{ℤ, String, true, none, ◌≡◌, ◌≢◌, ap, arith, eq_iff, eq_string}
use kiwi_guard.Control.Types.{GatewayClient, RouteLimit, ClientRouteLimit}
use kiwi_guard.Control.Validation.{
  trim_space, check_client, validate_client, validate_route_limit, validate_client_route_limit,
  valid_gateway_client_status, valid_limit_values,
}
use kiwi_guard.Control.Validity.{Positive, IsLimit, IsClientLimit}

pub check_client-none :
    (name status : String)
    → check_client name status ≡ none
    → (name ≢ "") × (valid_gateway_client_status status ≡ true)
unfolding check_client
check_client-none name status h = ground (arith, eq_iff name "")

pub not_blank : (s : String) → trim_space s ≢ "" → s ≢ ""
unfolding trim_space
not_blank s h e = h (ap trim_space e)

pub validate_client-none :
    (c : GatewayClient)
    → validate_client c ≡ none
    → (c.name ≢ "") × (valid_gateway_client_status c.status ≡ true)
unfolding validate_client
validate_client-none c h =
    let (given, known) = check_client-none (trim_space c.name) c.status h in
    (not_blank c.name given, known)

pub valid_limit_values-Positive :
    (a b c d : ℤ)
    → valid_limit_values a b c d ≡ true
    → Positive a × Positive b × Positive c × Positive d
unfolding valid_limit_values
valid_limit_values-Positive a b c d h = ground arith

pub validate_route_limit-none :
    (l : RouteLimit) → validate_route_limit l ≡ none → IsLimit l.route_key l
unfolding validate_route_limit
validate_route_limit-none l h =
    let given = not_blank l.route_key in
    ground (
      arith,
      eq_iff (trim_space l.route_key) "",
      valid_limit_values-Positive l.requests_per_window l.window_seconds l.max_concurrent_requests
          l.max_body_bytes,
    )

pub validate_client_route_limit-none :
    (l : ClientRouteLimit)
    → validate_client_route_limit l ≡ none
    → IsClientLimit l.client_id l.route_key l
unfolding validate_client_route_limit
validate_client_route_limit-none l h =
    let given = not_blank l.route_key in
    ground (
      arith,
      eq_iff (trim_space l.route_key) "",
      valid_limit_values-Positive l.requests_per_window l.window_seconds l.max_concurrent_requests
          l.max_body_bytes,
    )
