-- ===== src/Service/Policy.antt =====
-- The server's configuration as a policy.
use appcenter_agent.Common.{
  String, ◌≡◌, refl, ap, ◌∙◌, inl, inr, Bool, true, false, Option, none, some, if◌then◌else◌,
  Bool-cases, ℤ, is_positive, nat_eq, int_eq, string_eq,
}
use appcenter_agent.Common.Dict.{lookup}
use appcenter_agent.Api.{RemoteSupportRequest}
use appcenter_agent.Json.{Json, JsonObject, null, flag, number, text, other}
use appcenter_agent.Files.{Bytes}
use appcenter_agent.Config.{Config}
use appcenter_agent.Service.{
  Service, flag_of, flag_or, set_scan_interval, set_websocket, runtime_of, apply_server_config,
  handle_rs_request,
}

-- After a configuration of the server that sets remote_support_enabled, a request for remote
-- support reaches the session manager exactly if the flag is set, whatever it was before.
pub policy_governs :
    (encode : Config → Bytes) (writable : Bool) (path : String) (m : JsonObject) (s : Service)
    (b : Bool) (req : RemoteSupportRequest)
    → lookup "remote_support_enabled" m ≡ some (flag b)
    → handle_rs_request (some req) (apply_server_config encode writable path (some m) s)
      ≡ (if b then some req else none)
unfolding apply_server_config handle_rs_request
policy_governs encode writable path m s b req e = rw e refl

settled_flag : (b : Bool) (o : Option Bool) → flag_or (flag_or b o) o ≡ flag_or b o
settled_flag b none = refl
settled_flag b (some c) = refl

settled_interval :
    (o : Option Json) (n : ℤ) → set_scan_interval o (set_scan_interval o n) ≡ set_scan_interval o n
settled_interval none n = refl
settled_interval (some null) n = refl
settled_interval (some (flag b)) n = refl
settled_interval (some (text t)) n = refl
settled_interval (some other) n = refl
settled_interval (some (number k)) n = elim (Bool-cases (is_positive k)) [
  | inl e ↦ simp e
  | inr e ↦ simp e
]

-- The configuration has the flag that a patch asks for, if it asks.
abbrev Agrees : Option Bool → Config → Type 0
Agrees none c = Unit
Agrees (some b) c = c.websocket.enabled ≡ b

-- the fields beside those of the WebSocket
abbrev others : JsonObject → Service → Service → Service
others m s s' = record s' {
  scan_interval_min =
      set_scan_interval (lookup "inventory_scan_interval_min" m) s.scan_interval_min;
  store_tray_enabled = flag_or s.store_tray_enabled (flag_of (lookup "store_tray_enabled" m));
  remote_support_enabled =
      flag_or s.remote_support_enabled (flag_of (lookup "remote_support_enabled" m));
  runtime = runtime_of s'.config m;
}

module _ (encode : Config → Bytes) (writable : Bool) (path : String) where
  set-Agrees :
      (o : Option Bool) (s : Service) → Agrees o (set_websocket encode writable path o s).config
  unfolding set_websocket
  set-Agrees none s = tt
  set-Agrees (some true) s = elim (Bool-cases s.config.websocket.enabled) [
    | inl e ↦ simp e
    | inr e ↦ simp e
  ]
  set-Agrees (some false) s = elim (Bool-cases s.config.websocket.enabled) [
    | inl e ↦ simp e
    | inr e ↦ simp e
  ]

  agreed :
      (o : Option Bool) (s : Service)
      → Agrees o s.config
      → set_websocket encode writable path o s ≡ s
  unfolding set_websocket
  agreed none s h = refl
  agreed (some true) s h = simp h
  agreed (some false) s h = simp h

  -- Applying a configuration of the server a second time changes nothing.
  pub settles :
      (m : JsonObject) (s : Service)
      → apply_server_config encode writable path
          (some m)
          (apply_server_config encode writable path (some m) s)
        ≡ apply_server_config encode writable path (some m) s
  unfolding apply_server_config
  settles m s =
      let o = flag_of (lookup "websocket_enabled" m) in
      let once = apply_server_config encode writable path (some m) s in
      ap (others m once) (agreed o once (set-Agrees o s))
      ∙ rw
          (
            settled_interval (lookup "inventory_scan_interval_min" m) s.scan_interval_min,
            settled_flag s.store_tray_enabled (flag_of (lookup "store_tray_enabled" m)),
            settled_flag s.remote_support_enabled (flag_of (lookup "remote_support_enabled" m)),
          )
          refl
