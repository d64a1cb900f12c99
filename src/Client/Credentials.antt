-- ===== src/Client/Credentials.antt =====
-- Every call but the registration is authenticated, and goes to the agent's part of the API.
use appcenter_agent.Common.{
  String, ◌≡◌, refl, sym, ap, ◌∙◌, subst, inl, inr, Bool, true, false, Option, none, some, leb,
  Bool-cases, nat_eq, int_eq, string_eq, is_blank,
}
use appcenter_agent.Common.Dict.{lookup}
use appcenter_agent.Common.Text.{append}
use appcenter_agent.Files.{Bytes}
use appcenter_agent.Execute.Names.{show_int}
use appcenter_agent.Client.{
  Endpoint, register, send_heartbeat, report_task_status, get_store, submit_inventory,
  request_store_install, approve_remote_session, report_remote_ready, report_remote_ended,
  wait_for_signal, HttpRequest, request_of, HttpError, error_text, Result, ok, http_error, failed,
  Codec, Reply, no_reply, reply, receive, http_error_from_response, decoded,
}

abbrev pub registers : Endpoint → Bool
registers (register id version info) = true
registers _ = false

-- the headers that name the agent, and a secret
abbrev pub Carries : String → String → HttpRequest → Type 0
Carries uuid secret req =
    (lookup "X-Agent-UUID" req.headers ≡ some uuid)
    × (lookup "X-Agent-Secret" req.headers ≡ some secret)

abbrev pub UnderApi : String → HttpRequest → Type 0
UnderApi base req = (rest : String) × (req.url ≡ append base (append "/api/v1/agent/" rest))

pub request_of-Carries :
    (goarch base uuid secret : String) (e : Endpoint)
    → UnderApi base (request_of goarch base uuid secret e)
      × ((registers e ≡ false) → Carries uuid secret (request_of goarch base uuid secret e))
      × ((registers e ≡ true)
          → lookup "X-Agent-Secret" (request_of goarch base uuid secret e).headers ≡ none)
unfolding request_of lookup
request_of-Carries goarch base uuid secret (register id version info) =
    (("register", refl), λ h. cc, λ h. refl)
request_of-Carries goarch base uuid secret (send_heartbeat body) =
    (("heartbeat", refl), λ h. (refl, refl), λ h. cc)
request_of-Carries goarch base uuid secret (report_task_status id body) =
    ((append "task/" (append (show_int id) "/status"), refl), λ h. (refl, refl), λ h. cc)
request_of-Carries goarch base uuid secret (get_store) =
    (("store", refl), λ h. (refl, refl), λ h. cc)
request_of-Carries goarch base uuid secret (submit_inventory body) =
    (("inventory", refl), λ h. (refl, refl), λ h. cc)
request_of-Carries goarch base uuid secret (request_store_install id) =
    ((append "store/" (append (show_int id) "/install"), refl), λ h. (refl, refl), λ h. cc)
request_of-Carries goarch base uuid secret (approve_remote_session id approved monitors) =
    ((append "remote-support/" (append (show_int id) "/approve"), refl), λ h. (refl, refl), λ h. cc)
request_of-Carries goarch base uuid secret (report_remote_ready id) =
    ((append "remote-support/" (append (show_int id) "/ready"), refl), λ h. (refl, refl), λ h. cc)
request_of-Carries goarch base uuid secret (report_remote_ended id by) =
    ((append "remote-support/" (append (show_int id) "/ended"), refl), λ h. (refl, refl), λ h. cc)
request_of-Carries goarch base uuid secret (wait_for_signal timeout) =
    ((append "signal?timeout=" (show_int timeout), refl), λ h. (refl, refl), λ h. cc)

append_not_blank : (s t : String) → is_blank s ≡ false → is_blank (append s t) ≡ false
append_not_blank String.[] t h = cc
append_not_blank (String.◌∷◌ c s) t h = refl

pub error_text_not_blank :
    (e : HttpError) → is_blank e.method ≡ false → is_blank (error_text e) ≡ false
unfolding error_text
error_text_not_blank e h = elim (Bool-cases (is_blank e.detail)) [
  | inr detailed ↦ rw detailed (append_not_blank e.method _ h)
  | inl plain ↦ elim (Bool-cases (is_blank e.body)) [
    | inr bodied ↦ rw (plain, bodied) (append_not_blank e.method _ h)
    | inl empty ↦ rw (plain, empty) (append_not_blank e.method _ h)
  ]
]

method_of {ℓ} : {A : Type ℓ} → String → Result A → String
method_of none_given (http_error e) = e.method
method_of none_given failed = none_given
method_of none_given (ok a) = none_given

received_method {ℓ} :
    {A : Type ℓ} (codec : Codec) (decode : Bytes → Option A) (req : HttpRequest) (r : Reply)
    → method_of req.method (receive codec decode req r) ≡ req.method
unfolding method_of receive http_error_from_response
received_method codec decode req no_reply = refl
received_method {A = A} codec decode req (reply code status bytes) =
    elim (Bool-cases (leb 300 code)) [
      | inl high ↦ rw high refl
      | inr low ↦ rw low (by_value (decode bytes))
    ]
  where
    by_value : (o : Option A) → method_of req.method (decoded o) ≡ req.method
    by_value none = refl
    by_value (some a) = refl

request_method :
    (goarch base uuid secret : String) (e : Endpoint)
    → is_blank (request_of goarch base uuid secret e).method ≡ false
unfolding request_of
request_method goarch base uuid secret (register id version info) = refl
request_method goarch base uuid secret (send_heartbeat body) = refl
request_method goarch base uuid secret (report_task_status id body) = refl
request_method goarch base uuid secret get_store = refl
request_method goarch base uuid secret (submit_inventory body) = refl
request_method goarch base uuid secret (request_store_install id) = refl
request_method goarch base uuid secret (approve_remote_session id approved monitors) = refl
request_method goarch base uuid secret (report_remote_ready id) = refl
request_method goarch base uuid secret (report_remote_ended id by) = refl
request_method goarch base uuid secret (wait_for_signal timeout) = refl

-- an error of the server has a text
pub received_error_readable {ℓ} :
    {A : Type ℓ} (codec : Codec) (decode : Bytes → Option A) (goarch base uuid secret : String)
    (e : Endpoint) (r : Reply) {err : HttpError}
    → receive codec decode (request_of goarch base uuid secret e) r ≡ http_error err
    → is_blank (error_text err) ≡ false
unfolding method_of
received_error_readable codec decode goarch base uuid secret e r {err} q =
    let req = request_of goarch base uuid secret e in
    error_text_not_blank err (
      subst (λ m. is_blank m ≡ false)
        (sym (received_method codec decode req r) ∙ ap (method_of req.method) q)
        (request_method goarch base uuid secret e))
