-- ===== src/Service/Credentials.antt =====
-- The credentials of the agent: which bootstrap keeps, obtains and writes.
use appcenter_agent.Common.{
  String, ◌≡◌, refl, ◌⊎◌, inl, inr, Bool, true, false, Option, none, some, if◌then◌else◌, nat_eq,
  int_eq, string_eq, is_blank,
}
use appcenter_agent.Common.Dict.{lookup, lookup-insert_self}
use appcenter_agent.Files.{Bytes, Files}
use appcenter_agent.Config.{Config, save}
use appcenter_agent.Client.{RegisterResponse, Result, ok, http_error, failed}
use appcenter_agent.Service.Bootstrap.{
  Environment, resolve_config_path, resolve_writable_config_path, with_uuid, Booted, take_reply,
  register_agent, identified, bootstrap_agent,
}

-- the path that is loaded is the one that is written
abbrev pub SamePath : Environment → Type 0
SamePath env = (env.windows ≡ true) ⊎ (is_blank env.config_variable ≡ false)

same_path :
    (env : Environment) → SamePath env → resolve_config_path env ≡ resolve_writable_config_path env
unfolding resolve_config_path resolve_writable_config_path
same_path env (inl w) = simp w
same_path env (inr v) = simp v

-- how a bootstrap from the configuration `c` and the files ends
pub data Startup (encode : Config → Bytes) (path : String) (c : Config) (files : Files) (b : Booted)
    : Type 0 where
  -- without an error, with the secret that was there
  reused :
      (is_blank c.agent.secret_key ≡ false)
      → b.registered ≡ true
      → b.config.agent.secret_key ≡ c.agent.secret_key
      → b.files ≡ files
      → Startup encode path c files b
  -- with an error, without a secret
  unregistered :
      (is_blank c.agent.secret_key ≡ true) ⊎ (is_blank c.agent.uuid ≡ true)
      → b.registered ≡ false
      → b.config.agent.secret_key ≡ c.agent.secret_key
      → b.files ≡ files
      → Startup encode path c files b
  -- with a new secret, which is in the file under the path
  obtained :
      (is_blank c.agent.secret_key ≡ true)
      → b.registered ≡ true
      → is_blank b.config.agent.secret_key ≡ false
      → lookup path b.files ≡ some (encode b.config)
      → Startup encode path c files b

either {ℓ} :
    (P : Booted → Type ℓ) (b : Bool) (x y : Booted)
    → (b ≡ true → P x)
    → (b ≡ false → P y)
    → P (if b then x else y)
either P true x y f g = f refl
either P false x y f g = g refl

module _ (encode : Config → Bytes) (env : Environment) (same : SamePath env)
    (server : String → String → Result RegisterResponse) where
  abbrev End : Config → Files → Booted → Type 0
  End = Startup encode (resolve_config_path env)

  reply-End :
      (c : Config) (files : Files) (r : Result RegisterResponse)
      → is_blank c.agent.secret_key ≡ true
      → End c files (take_reply encode true env c files r)
  unfolding take_reply save
  reply-End c files (http_error e) h = unregistered (inl h) refl refl refl
  reply-End c files failed h = unregistered (inl h) refl refl refl
  reply-End c files (ok r) h =
      either (End c files) (is_blank r.secret_key) _ _ (λ e. unregistered (inl h) refl refl refl)
        (λ e.
          obtained h refl e (
            rw (same_path env same)
              (lookup-insert_self (resolve_writable_config_path env) _ files)))

  register-End :
      (c : Config) (files : Files) → End c files (register_agent encode true env server c files)
  register-End c files =
      either (End c files) (is_blank c.agent.secret_key) _ _
        (λ e. reply-End c files (server c.agent.uuid c.agent.version) e)
        (λ e. reused e refl refl refl)

  -- an identifier does not matter to the end
  without_uuid :
      (u : String) (c : Config) (files : Files) (b : Booted)
      → is_blank c.agent.uuid ≡ true
      → End (with_uuid u c) files b
      → End c files b
  without_uuid u c files b h (reused s r k f) = reused s r k f
  without_uuid u c files b h (unregistered s r k f) = unregistered (inr h) r k f
  without_uuid u c files b h (obtained s r k f) = obtained s r k f

  identified-End :
      (c : Config) (files : Files) (u : Option String)
      → is_blank c.agent.uuid ≡ true
      → End c files (identified encode true env server c files u)
  identified-End c files none h = unregistered (inr h) refl refl refl
  identified-End c files (some u) h =
      without_uuid u c files _ h (register-End (with_uuid u c) files)

  -- Where the configuration that is loaded and the one that is written are one file, which can
  -- be written, bootstrapAgent ends in one of three ways: without an error, with the secret that
  -- was there and the files as they were; with an error, the same secret, the files as they
  -- were, and no secret or no identifier at the start; or with a new secret that is not blank
  -- and that the file under the path holds.
  pub bootstrap-Startup :
      (uuid : Option String) (c : Config) (files : Files)
      → Startup encode
          (resolve_config_path env)
          c
          files
          (bootstrap_agent encode true env server uuid c files)
  unfolding bootstrap_agent
  bootstrap-Startup uuid c files =
      either (End c files) (is_blank c.agent.uuid) _ _ (λ e. identified-End c files uuid e)
        (λ e. register-End c files)
