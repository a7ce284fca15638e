-- ===== src/Gateway/Exchange/Tests.antt =====
-- A request on a protected route that goes through an exchange
-- (internal/contexts/gateway/adapters/http/openai/openai_exchange.go).
use kiwi_guard.Common.{
  leb, if◌then◌else◌, pos, String, Bool, true, false, [], ◌∷◌, none, some, ◌≡◌, refl, lookup,
  insert,
}
use kiwi_guard.Gateway.Types.{RejectReason}
use kiwi_guard.Gateway.Limits.{
  RouteLimitPolicy, new_limit_state, limit_key, acquire_concurrency, allow_rate,
}
use kiwi_guard.Gateway.Limits.Concurrency.{held_at}
use kiwi_guard.Gateway.Limits.Resolver.{
  LimitResolver, new_limit_resolver, add_routes, add_policies, add_overrides,
  valid_route_limit_policy, route_protected, effective_policy,
}
use kiwi_guard.Gateway.Admission.{ClientIdentity, admit_protected_route, effective_limit_policy}
use kiwi_guard.Gateway.Exchange.{
  Gate, Request, run, run_prepared, prepare, prepare_admitted, prepare_infrastructure,
  prepare_decoded, refused_body, driver,
}
use kiwi_guard.Gateway.Plans.ExchangePreparation.{
  plan_route_availability, plan_infrastructure, plan_decoded_request,
}
use kiwi_guard.Gateway.Lifecycle.{classify_request_body}
use kiwi_guard.Gateway.Exchange.Returning.{Same, run-Same}

abbrev chat_policy : RouteLimitPolicy
chat_policy = record {
  route_key = "chat";
  requests_per_window = pos 2;
  window = pos 10;
  max_concurrent_requests = pos 1;
  max_body_bytes = pos 100;
  enabled = true;
}

abbrev anyone : String → ClientIdentity × RejectReason
anyone key = (record { id = "c" }, "")

abbrev limited : LimitResolver
limited = new_limit_resolver [] (chat_policy ∷ []) []

abbrev chat : Request
chat = record {
  route_key = some "chat";
  client_key = "key";
  now = 5;
  read_body = λ limit. record { read_failed = false; too_large = false };
  provider_found = true;
  audit_later = none;
  decoded = record {
    decode_failed = false;
    model_mapping = record {
      requested_model = "gpt";
      mapped_model = "gpt";
      upstream_model = "gpt";
      found = true;
    };
  };
}

abbrev idle : Gate
idle = record { limits = new_limit_state; emitted = [] }

abbrev go_on : Gate → Bool × Gate
go_on g = (true, g)

-- What is seen while the exchange is forwarded.
abbrev seen : Gate → Gate
seen g = record g {
  emitted =
      (if leb 1 (held_at (limit_key "c" "chat") g.limits) then "held" else "free") ∷ g.emitted;
}

run-Same_example :
    Same new_limit_state
      (run (some (driver anyone limited none (pos 50) chat go_on go_on seen)) idle).1.limits
run-Same_example =
    run-Same anyone limited none (pos 50) chat go_on go_on seen (λ g key. refl) (λ g key. refl)
      (λ g key. refl) idle

forwarded :
    let result = run (some (driver anyone limited none (pos 50) chat go_on go_on seen)) idle in
    (result.0 ≡ true) × (result.1.emitted ≡ "held" ∷ [])
unfolding run run_prepared prepare prepare_admitted prepare_infrastructure prepare_decoded
    refused_body plan_route_availability plan_infrastructure plan_decoded_request
    classify_request_body new_limit_resolver add_routes add_policies add_overrides
    valid_route_limit_policy route_protected effective_policy admit_protected_route
    effective_limit_policy acquire_concurrency allow_rate lookup insert limit_key
forwarded = (refl, refl)
