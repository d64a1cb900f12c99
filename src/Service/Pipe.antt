-- ===== src/Service/Pipe.antt =====
-- The handler of the named pipe, buildIPCHandler of cmd/service/core.go, with the records of
-- internal/ipc/namedpipe.go. The server's answers are inputs, and the store that it lists is a type `S`.
use appcenter_agent.Common.{
  ℕ, String, Bool, Option, none, some, List, [], ◌∷◌, if◌then◌else◌, is_some, ℤ, is_positive,
  nat_eq, int_eq, string_eq, first_non_blank,
}
use appcenter_agent.Common.Text.{codes, lowered, same_codes}
use appcenter_agent.Client.{error_text, MessageResponse, Result, ok, http_error, failed}

-- ipc.Request, without the fields that the handler does not read
pub record Request : Type 0 where
  pub action : String
  pub app_id : ℤ

-- the data of a response
pub data IpcData (S : Type 0) : Type 0 where
  no_data : IpcData S
  service_status : String → ℕ → String → String → IpcData S
  store : S → IpcData S
  queue_status : String → IpcData S
  support_disabled : IpcData S
  support_status : String → ℤ → Bool → ℤ → IpcData S

-- ipc.Response; `content` is its Data
pub record Response (S : Type 0) : Type 0 where
  pub status : String
  pub message : String
  pub content : IpcData S

-- what the handler asks of the session manager
pub record Support : Type 0 where
  pub state : String
  pub session_id : ℤ
  pub helper_running : Bool
  pub helper_pid : ℤ

-- what the handler reads; there may be no session manager
pub record Station : Type 0 where
  pub started_at : String
  pub pending_tasks : ℕ
  pub agent_version : String
  pub agent_uuid : String
  pub support : Option Support
  pub remote_support_enabled : Bool

-- the calls that leave the handler
pub data Call : Type 0 where
  get_store : Call
  request_store_install : ℤ → Call
  end_session : String → Call

-- `other_error` is the text of an error that is no HTTPError
module _ {S : Type 0} (other_error : String) where
  abbrev pub refuse : String → Response S
  refuse message = record { status = "error"; message = message; content = no_data }

  abbrev pub accept : String → IpcData S → Response S
  accept message content = record { status = "ok"; message = message; content = content }

  -- case "get_store"
  unfoldable pub store_response : Result S → Response S
  unfolding error_text
  store_response (ok s) = accept "" (store s)
  store_response (http_error e) = refuse (error_text e)
  store_response failed = refuse other_error

  -- the answer to a request for an installation
  unfoldable pub install_response : Result MessageResponse → Response S
  unfolding error_text
  install_response (ok r) =
      accept (first_non_blank r.message "install request queued")
        (queue_status (first_non_blank r.status "queued"))
  install_response (http_error e) = refuse (error_text e)
  install_response failed = refuse other_error

  abbrev pub status_response : Bool → Option Support → Response S
  status_response enabled none = accept "" support_disabled
  status_response enabled (some s) =
      if enabled
      then accept "" (support_status s.state s.session_id s.helper_running s.helper_pid)
      else accept "" support_disabled

  -- buildIPCHandler: the response and the calls that are made; strings.ToLower of the action is
  -- compared with ASCII texts
  unfoldable pub handle_ipc :
      Station → Result S → (ℤ → Result MessageResponse) → Request → Response S × List Call
  unfolding lowered store_response install_response
  handle_ipc st store_reply install_reply req =
      let action = lowered req.action in
      if same_codes action (codes "get_status")
      then (
        accept "" (service_status st.started_at st.pending_tasks st.agent_version st.agent_uuid),
        [],
      )
      else if same_codes action (codes "get_store")
      then (store_response store_reply, get_store ∷ [])
      else if same_codes action (codes "install_from_store")
      then (if is_positive req.app_id
          then (install_response (install_reply req.app_id), request_store_install req.app_id ∷ [])
          else (refuse "app_id is required", []))
      else if same_codes action (codes "remote_support_status")
      then (status_response st.remote_support_enabled st.support, [])
      else if same_codes action (codes "remote_support_end")
      then (if is_some st.support
          then (accept "session end requested" no_data, end_session "user" ∷ [])
          else (refuse "remote support disabled", []))
      else (refuse "unknown action", [])
