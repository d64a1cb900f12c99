-- ===== src/Config/Loading.antt =====
-- What Load guarantees, and that the service can start without a configuration file.
use appcenter_agent.Common.{
  String, ◌≡◌, refl, ap, ◌∙◌, subst, inl, inr, Bool, true, false, Option, none, some, arith, eq_iff,
  if◌then◌else◌, Bool-cases, is_some, ℤ, pos, int_beq, ◌==◌, nat_eq, int_eq, string_eq, is_blank,
  first_non_blank,
}
use appcenter_agent.Common.Dict.{lookup, contains, insert, lookup-insert, lookup-insert_self}
use appcenter_agent.Files.{Bytes, Files}
use mathlib.Core.Option.{some-injective}
use appcenter_agent.Config.{
  Config, default_config, validate, apply_defaults, Overrides, override, apply_runtime_overrides,
  finish, settled, loaded, load, ensure_exists, or_default,
}

or_default_twice :
    (n default : ℤ)
    → default == pos 0 ≡ false
    → or_default (or_default n default) default ≡ or_default n default
or_default_twice n default h = elim (Bool-cases (int_beq n (pos 0))) [
  | inl e ↦ simp (e, h)
  | inr e ↦ simp e
]

named_twice :
    (s default : String)
    → is_blank default ≡ false
    → first_non_blank (first_non_blank s default) default ≡ first_non_blank s default
named_twice s default h = elim (Bool-cases (is_blank s)) [ inl e ↦ simp (e, h) | inr e ↦ simp e ]

defaults_settle : (c : Config) → apply_defaults (apply_defaults c) ≡ apply_defaults c
unfolding apply_defaults
defaults_settle c =
    rw
      (
        or_default_twice c.websocket.reconnect_min_sec (pos 2) refl,
        or_default_twice c.websocket.reconnect_max_sec (pos 60) refl,
        or_default_twice c.system_profile.report_interval_min (pos 720) refl,
        or_default_twice c.remote_support.approval_timeout_sec (pos 30) refl,
        named_twice c.update.service_name "AppCenterAgent" refl,
      )
      refl

overridden_settles :
    (o : Overrides) (c : Config)
    → apply_defaults (apply_runtime_overrides o (apply_defaults c))
      ≡ apply_runtime_overrides o (apply_defaults c)
unfolding apply_runtime_overrides apply_defaults
overridden_settles o c =
    ap
      (λ d.
        override o.registry_server_url o.registry_secret_key
          (override o.env_server_url o.env_secret_key d))
      (defaults_settle c)

kept_if {ℓ} :
    {A : Type ℓ} (b : Bool) (x y : A) → (if b then some x else none) ≡ some y → (b ≡ true) × (x ≡ y)
kept_if true x y e = (refl, some-injective _ _ e)
kept_if false x y e = ground arith

-- What Load promises of its result: it is valid, ApplyDefaults has nothing left to do, and the
-- server and the secret are the registry's, else the environment's, else the file's.
abbrev pub Loaded : Overrides → Config → Config → Type 0
Loaded o c c' =
    (validate c' ≡ true)
    × (apply_defaults c' ≡ c')
    × (c'.server.url
        ≡ first_non_blank o.registry_server_url (first_non_blank o.env_server_url c.server.url))
    × (c'.agent.secret_key
        ≡ first_non_blank o.registry_secret_key
            (first_non_blank o.env_secret_key c.agent.secret_key))

finish_lem : (o : Overrides) (c c' : Config) → finish o c ≡ some c' → Loaded o c c'
unfolding finish apply_runtime_overrides apply_defaults
finish_lem o c c' e =
    let h = kept_if (validate (apply_runtime_overrides o (apply_defaults c))) _ c' e in
    subst (Loaded o c) h.1 (h.0, overridden_settles o c, refl, refl)

-- A configuration that Load returns decodes from the file, is valid, is left as it is by
-- ApplyDefaults, and takes the address of the server and the secret from the registry if they
-- are there, else from the environment, else from the file.
pub load_lem :
    (decode : Bytes → Option Config) (o : Overrides) (path : String) (files : Files) (c : Config)
    → load decode o path files ≡ some c
    → (b : Bytes) × (c' : Config) × (lookup path files ≡ some b)
      × (decode b ≡ some c')
      × Loaded o c' c
unfolding load loaded settled
load_lem decode o path files c e = from_file (lookup path files) refl e
  where
    from_bytes :
        (b : Bytes) (r : Option Config)
        → decode b ≡ r
        → settled o r ≡ some c
        → (c' : Config) × (decode b ≡ some c') × Loaded o c' c
    from_bytes b none eq found = ground arith
    from_bytes b (some d) eq found = (d, eq, finish_lem o d c found)

    from_file :
        (f : Option Bytes)
        → lookup path files ≡ f
        → loaded decode o f ≡ some c
        → (b : Bytes) × (c' : Config) × (lookup path files ≡ some b)
          × (decode b ≡ some c')
          × Loaded o c' c
    from_file none eq found = ground arith
    from_file (some b) eq found =
        let h = from_bytes b (decode b) refl found in (b, h.0, eq, h.1, h.2)

named_not_blank :
    (s default : String) → is_blank default ≡ false → is_blank (first_non_blank s default) ≡ false
named_not_blank s default h = elim (Bool-cases (is_blank s)) [
  | inl e ↦ simp (e, h)
  | inr e ↦ simp e
]

default_starts :
    (o : Overrides) → finish o default_config ≡ some (apply_runtime_overrides o default_config)
unfolding finish apply_runtime_overrides validate apply_defaults
default_starts o =
    rw
      (named_not_blank o.registry_server_url
        (first_non_blank o.env_server_url default_config.server.url)
        (named_not_blank o.env_server_url default_config.server.url refl))
      refl

ensure_adds :
    (encode : Config → Bytes) (path : String) (files : Files)
    → contains path files ≡ false
    → ensure_exists encode true path files ≡ (true, insert path (encode default_config) files)
unfolding ensure_exists
ensure_adds encode path files missing = rw missing refl

others_kept :
    (path p : String) (v b : Bytes) (files : Files)
    → contains path files ≡ false
    → lookup p files ≡ some b
    → lookup p (insert path v files) ≡ some b
others_kept path p v b files missing found = elim (Bool-cases (path == p)) [
  | inl e ↦
      let same : path ≡ p = (eq_iff path p).0 e in
      let lost : contains path files ≡ true = ap is_some (ap (λ q. lookup q files) same ∙ found) in
      cc
  | inr e ↦ rw (lookup-insert path p v files, e) found
]

decoded :
    (decode : Bytes → Option Config) (o : Overrides) (b : Bytes) (c : Config)
    → decode b ≡ some c
    → loaded decode o (some b) ≡ finish o c
unfolding loaded settled
decoded decode o b c e = ap (settled o) e

-- Where there is no file under the path and the encoding of the default configuration decodes to
-- it again, EnsureExists, if it can write, keeps every other file, and Load returns a
-- configuration afterwards, whatever the overrides are.
pub first_start :
    (encode : Config → Bytes) (decode : Bytes → Option Config) (o : Overrides) (path : String)
    (files : Files)
    → decode (encode default_config) ≡ some default_config
    → contains path files ≡ false
    → ((p : String) (b : Bytes)
        → lookup p files ≡ some b
        → lookup p (ensure_exists encode true path files).1 ≡ some b)
      × ((c : Config) × (load decode o path (ensure_exists encode true path files).1 ≡ some c))
unfolding load
first_start encode decode o path files back missing = rw (ensure_adds encode path files missing) (
  λ p b found. others_kept path p (encode default_config) b files missing found,
  (
    apply_runtime_overrides o default_config,
    ap (loaded decode o) (lookup-insert_self path (encode default_config) files)
        ∙ decoded decode o (encode default_config) default_config back
        ∙ default_starts o,
  ),
)
