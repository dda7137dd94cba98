-- ===== src/Config.antt =====
-- The configuration: internal/config/config.go, and `hasEnabledListener` of cmd/nanoldap/main.go. A
-- Go int is its 64-bit pattern, a duration counts nanoseconds. What flag.Parse makes of the command
-- line is a function of the values that the environment leaves.
use nano_ldap.Prelude.{
  ℕ, ◌*◌, ◌^◌, ◌++◌, Bool, false, not, ◌&&◌, [], ◌∷◌, any, ltb, ◌==◌, if◌then◌else◌, none, some,
}
use nano_ldap.Text.{Bytes, codes, is_empty}
use nano_ldap.Text.Decimal.{atoi, format_int}

pub record Config : Type 0 where
  pub bind_addr : Bytes
  pub base_dn : Bytes
  pub db_path : Bytes
  pub audit_log : Bytes
  pub cert_file : Bytes
  pub key_file : Bytes
  pub ldap_debug : Bool
  pub http_port : ℕ
  pub https_port : ℕ
  pub ldap_port : ℕ
  pub ldaps_port : ℕ
  pub session_idle_timeout : ℕ
  pub session_max : ℕ
  pub ldap_idle_timeout : ℕ
  pub ldap_bind_window : ℕ
  pub ldap_bind_limit : ℕ
  pub ldap_search_rate : ℕ
  pub ldap_max_connections : ℕ

-- `time.Second`.
abbrev pub seconds : ℕ → ℕ
seconds n = n * 10 ^ 9

-- `os.Getenv` gives no bytes for a variable that is not set.
module _ (getenv : Bytes → Bytes) where
  unfoldable pub env_string : Bytes → Bytes → Bytes
  env_string key fallback = if is_empty (getenv key) then fallback else getenv key

  unfoldable pub env_int : Bytes → ℕ → ℕ
  unfolding atoi
  env_int key fallback =
      if is_empty (getenv key)
      then fallback
      else elim (atoi (getenv key)) [ none ↦ fallback | some parsed ↦ parsed ]

  -- `Load`.
  unfoldable pub load : (Config → Config) → Config
  unfolding env_string env_int
  load parse_flags = parse_flags (record {
    bind_addr = env_string (codes "NANOLDAP_BIND_ADDR") (codes "0.0.0.0");
    base_dn = env_string (codes "NANOLDAP_BASE_DN") (codes "dc=example,dc=com");
    db_path = env_string (codes "NANOLDAP_DB_PATH") (codes "nanoldap.db");
    audit_log = env_string (codes "NANOLDAP_AUDIT_LOG") (codes "stdout");
    cert_file = env_string (codes "NANOLDAP_CERT_FILE") (codes "cert.pem");
    key_file = env_string (codes "NANOLDAP_KEY_FILE") (codes "key.pem");
    ldap_debug = false;
    http_port = env_int (codes "NANOLDAP_HTTP_PORT") 0;
    https_port = env_int (codes "NANOLDAP_HTTPS_PORT") 0;
    ldap_port = env_int (codes "NANOLDAP_LDAP_PORT") 0;
    ldaps_port = env_int (codes "NANOLDAP_LDAPS_PORT") 0;
    session_idle_timeout = seconds (15 * 60);
    session_max = 3;
    ldap_idle_timeout = seconds 5;
    ldap_bind_window = seconds 10;
    ldap_bind_limit = 3;
    ldap_search_rate = 50;
    ldap_max_connections = 16;
  })

-- `Addr`.
unfoldable pub addr : Config → ℕ → Bytes
unfolding format_int
addr cfg port = cfg.bind_addr ++ (b':' ∷ format_int port)

-- A port above zero, as a signed number.
abbrev pub is_enabled : ℕ → Bool
is_enabled port = not (port == 0) && ltb port (2 ^ 63)

unfoldable pub has_enabled_listener : Config → Bool
has_enabled_listener cfg =
    any is_enabled (cfg.http_port ∷ cfg.https_port ∷ cfg.ldap_port ∷ cfg.ldaps_port ∷ [])
