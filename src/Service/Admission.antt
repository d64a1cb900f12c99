-- ===== src/Service/Admission.antt =====
-- Which requests for remote support of a payload reach the session manager.
use appcenter_agent.Common.{
  ◌≡◌, subst, inl, inr, true, Option, none, some, [], ◌∷◌, Bool-cases, is_positive, nat_eq, int_eq,
  string_eq,
}
use appcenter_agent.Api.{RemoteSupportRequest}
use appcenter_agent.Json.{Json, JsonObject}
use mathlib.Core.Option.{some-injective}
use appcenter_agent.Service.{Service, handle_rs_request}
use appcenter_agent.Service.Requests.{
  present, or_then, decoded_or_self, with_session, parse_rs_request_from_payload,
}

session_positive :
    (o : Option RemoteSupportRequest) {r : RemoteSupportRequest}
    → with_session (λ q. q.session_id) o ≡ some r
    → (o ≡ some r) × (is_positive r.session_id ≡ true)
session_positive none e = cc
session_positive (some q) {r} e = elim (Bool-cases (is_positive q.session_id)) [
  | inl p ↦
      let same : some q ≡ some r = rw p at e in
      (same, subst (λ t. is_positive t.session_id ≡ true) (some-injective _ _ same) p)
  | inr p ↦ let clash : none ≡ some r = rw p at e in cc
]

parsed_session :
    (decode : Json → Option RemoteSupportRequest)
    (decode_self : JsonObject → Option RemoteSupportRequest) (payload : JsonObject)
    {r : RemoteSupportRequest}
    → parse_rs_request_from_payload decode decode_self payload ≡ some r
    → is_positive r.session_id ≡ true
unfolding parse_rs_request_from_payload
parsed_session decode decode_self [] e = cc
parsed_session decode decode_self (entry ∷ payload) e =
    (session_positive
      (decoded_or_self decode decode_self (entry ∷ payload) (
        or_then (present (entry ∷ payload) "remote_support_request")
          (present (entry ∷ payload) "pending_rs_request")))
      e).1

handled :
    (o : Option RemoteSupportRequest) (s : Service) {r : RemoteSupportRequest}
    → handle_rs_request o s ≡ some r
    → (o ≡ some r) × (s.remote_support_enabled ≡ true)
unfolding handle_rs_request
handled none s e = cc
handled (some q) s {r} e = elim (Bool-cases s.remote_support_enabled) [
  | inl on ↦ let same : some q ≡ some r = rw on at e in (same, on)
  | inr off ↦ let clash : none ≡ some r = rw off at e in cc
]

pub request_admitted :
    (decode : Json → Option RemoteSupportRequest)
    (decode_self : JsonObject → Option RemoteSupportRequest) (payload : JsonObject) (s : Service)
    {r : RemoteSupportRequest}
    → handle_rs_request (parse_rs_request_from_payload decode decode_self payload) s ≡ some r
    → (s.remote_support_enabled ≡ true) × (is_positive r.session_id ≡ true)
request_admitted decode decode_self payload s e =
    let h = handled (parse_rs_request_from_payload decode decode_self payload) s e in
    (h.1, parsed_session decode decode_self payload h.0)
