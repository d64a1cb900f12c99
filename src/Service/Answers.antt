-- ===== src/Service/Answers.antt =====
-- The answers of the named pipe.
use appcenter_agent.Common.{
  String, ◌≡◌, refl, ◌⊎◌, inl, inr, Bool, true, false, Option, none, some, List, [], ◌∷◌,
  if◌then◌else◌, is_some, ℤ, is_positive, nat_eq, int_eq, string_eq, is_blank,
}
use appcenter_agent.Common.Text.{codes, lowered, same_codes}
use appcenter_agent.Files.{Bytes}
use appcenter_agent.Client.{
  Endpoint, get_store as get_store_endpoint, request_store_install as request_install, Codec, Reply,
  receive, request_of, error_text, MessageResponse, Result, ok, http_error, failed,
}
use appcenter_agent.Client.Credentials.{received_error_readable}
use appcenter_agent.Service.Pipe.{
  Request, Response, Support, Station, Call, get_store, request_store_install, end_session,
  store_response, install_response, status_response, handle_ipc,
}

-- the answer is ok, or an error with a message
abbrev pub IsAnswer : {S : Type 0} → Response S → Type 0
IsAnswer r = (r.status ≡ "ok") ⊎ ((r.status ≡ "error") × (is_blank r.message ≡ false))

-- an installation is asked for under a positive identifier only
abbrev pub Asks : List Call → Type 0
Asks [] = Unit
Asks (get_store ∷ calls) = Asks calls
Asks (end_session by ∷ calls) = Asks calls
Asks (request_store_install id ∷ calls) = (is_positive id ≡ true) × Asks calls

-- a good answer, and good calls
abbrev pub Answered : {S : Type 0} → Response S × List Call → Type 0
Answered x = IsAnswer x.0 × Asks x.1

Readable {ℓ} : {A : Type ℓ} → Result A → Type 0
Readable (ok a) = Unit
Readable (http_error e) = is_blank (error_text e) ≡ false
Readable failed = Unit

if-Answered :
    {S : Type 0} (b : Bool) (x y : Response S × List Call)
    → (b ≡ true → Answered x)
    → Answered y
    → Answered (if b then x else y)
if-Answered true x y p q = p refl
if-Answered false x y p q = q

module _ (S : Type 0) (other_error : String) (spoken : is_blank other_error ≡ false) where
  store-IsAnswer : (r : Result S) → Readable r → IsAnswer (store_response other_error r)
  unfolding Readable store_response
  store-IsAnswer (ok s) h = inl refl
  store-IsAnswer (http_error e) h = inr (refl, h)
  store-IsAnswer failed h = inr (refl, spoken)

  install-IsAnswer :
      (r : Result MessageResponse) → Readable r → IsAnswer (install_response {S = S} other_error r)
  unfolding Readable install_response
  install-IsAnswer (ok s) h = inl refl
  install-IsAnswer (http_error e) h = inr (refl, h)
  install-IsAnswer failed h = inr (refl, spoken)

  status-IsAnswer :
      (enabled : Bool) (s : Option Support)
      → IsAnswer (status_response {S = S} other_error enabled s)
  status-IsAnswer enabled none = inl refl
  status-IsAnswer true (some s) = inl refl
  status-IsAnswer false (some s) = inl refl

  handle-Answered :
      (st : Station) (stored : Result S) (install : ℤ → Result MessageResponse) (req : Request)
      → Readable stored
      → ((id : ℤ) → Readable (install id))
      → Answered (handle_ipc other_error st stored install req)
  unfolding handle_ipc
  handle-Answered st stored install req h k =
      let action = lowered req.action in
      if-Answered (same_codes action (codes "get_status")) _ _ (λ e. (inl refl, tt))
        (if-Answered (same_codes action (codes "get_store")) _ _
          (λ e. (store-IsAnswer stored h, tt))
          (if-Answered (same_codes action (codes "install_from_store")) _ _
            (λ e.
              if-Answered (is_positive req.app_id) _ _
                (λ valid. (install-IsAnswer (install req.app_id) (k req.app_id), (valid, tt)))
                (inr (refl, refl), tt))
            (if-Answered (same_codes action (codes "remote_support_status")) _ _
              (λ e. (status-IsAnswer st.remote_support_enabled st.support, tt))
              (if-Answered (same_codes action (codes "remote_support_end")) _ _
                (λ e.
                  if-Answered (is_some st.support) _ _ (λ e'. (inl refl, tt))
                    (inr (refl, refl), tt))
                (inr (refl, refl), tt)))))

  received-Readable {ℓ} :
      {A : Type ℓ} (codec : Codec) (decode : Bytes → Option A) (goarch base uuid secret : String)
      (e : Endpoint) (r : Reply) (result : Result A)
      → receive codec decode (request_of goarch base uuid secret e) r ≡ result
      → Readable result
  unfolding Readable
  received-Readable codec decode goarch base uuid secret e r (ok a) q = tt
  received-Readable codec decode goarch base uuid secret e r failed q = tt
  received-Readable codec decode goarch base uuid secret e r (http_error err) q =
      received_error_readable codec decode goarch base uuid secret e r q

  -- Whatever the server replies, the handler of the pipe answers every request with ok, or with
  -- error and a message that is not blank, and asks the server for an installation under a
  -- positive identifier only; the texts of errors other than those of HTTP are not blank.
  pub answers :
      (codec : Codec) (decode_store : Bytes → Option S)
      (decode_message : Bytes → Option MessageResponse) (goarch base uuid secret : String)
      (st : Station) (req : Request) (store_reply : Reply) (install_reply : ℤ → Reply)
      → Answered (
          handle_ipc other_error st
            (receive codec decode_store
              (request_of goarch base uuid secret get_store_endpoint)
              store_reply)
            (λ id.
              receive codec decode_message
                (request_of goarch base uuid secret (request_install id))
                (install_reply id))
            req)
  answers codec decode_store decode_message goarch base uuid secret st req store_reply
        install_reply =
      handle-Answered st _ _ req
        (received-Readable codec decode_store goarch base uuid secret get_store_endpoint store_reply
          _ refl)
        (λ id.
          received-Readable codec decode_message goarch base uuid secret (request_install id)
            (install_reply id) _ refl)
