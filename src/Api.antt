-- ===== src/Api.antt =====
-- The messages of internal/api/client.go that the modelled components exchange.
use appcenter_agent.Common.{ℤ, String, Bool, Option}

-- api.Command
pub record Command : Type 0 where
  pub task_id : ℤ
  pub action : String
  pub app_id : ℤ
  pub app_name : String
  pub app_version : String
  pub download_url : String
  pub file_hash : String
  pub file_size_bytes : ℤ
  pub install_args : String
  pub force_update : Bool
  pub priority : ℤ

-- api.TaskStatusRequest; `exit_code` is a pointer in the source
pub record TaskStatusRequest : Type 0 where
  pub status : String
  pub progress : ℤ
  pub message : String
  pub exit_code : Option ℤ
  pub installed_version : String
  pub download_duration_sec : ℤ
  pub install_duration_sec : ℤ
  pub error : String

-- api.InstalledApp
pub record InstalledApp : Type 0 where
  pub app_id : ℤ
  pub version : String

-- api.RemoteSupportRequest
pub record RemoteSupportRequest : Type 0 where
  pub session_id : ℤ
  pub admin_name : String
  pub reason : String
  pub requested_at : String
  pub timeout_at : String
  pub requires_approval : Bool

-- api.RemoteSupportEnd
pub record RemoteSupportEnd : Type 0 where
  pub session_id : ℤ
