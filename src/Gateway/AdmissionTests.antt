-- ===== src/Gateway/AdmissionTests.antt =====
-- Admission and limits of the gateway on concrete requests.
use kiwi_guard.Common.{pos, String, true, [], ◌∷◌, none, ◌⊎◌}
use kiwi_guard.Gateway.Types.{RejectReason}
use kiwi_guard.Gateway.Limits.{RouteLimitPolicy, new_limit_state}
use kiwi_guard.Gateway.Limits.Resolver.{LimitResolver, new_limit_resolver}
use kiwi_guard.Gateway.Admission.{ClientIdentity, AdmissionInput, admit_protected_route}
use kiwi_guard.Gateway.Admission.Reservation.{
  with_limits, IsRefused, IsAdmitted, admit_protected_route-cases,
}

abbrev chat_policy : RouteLimitPolicy
chat_policy = record {
  route_key = "chat";
  requests_per_window = pos 2;
  window = pos 10;
  max_concurrent_requests = pos 1;
  max_body_bytes = pos 100;
  enabled = true;
}

abbrev anyone : String → ClientIdentity × RejectReason
anyone key = (record { id = "c" }, "")

abbrev chat_input : AdmissionInput
chat_input = record {
  client_key = "key";
  route_key = "chat";
  default_max_body_bytes = pos 50;
  now = 5;
}

abbrev chat_resolver : LimitResolver
chat_resolver = new_limit_resolver [] (chat_policy ∷ []) []

admit_protected_route-cases_example :
    IsRefused new_limit_state
      (admit_protected_route (with_limits anyone chat_resolver none) chat_input new_limit_state)
    ⊎ IsAdmitted anyone chat_resolver none chat_input new_limit_state
        (admit_protected_route (with_limits anyone chat_resolver none) chat_input new_limit_state)
admit_protected_route-cases_example =
    admit_protected_route-cases anyone chat_resolver none chat_input new_limit_state
