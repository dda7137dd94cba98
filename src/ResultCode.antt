-- ===== src/ResultCode.antt =====
-- The LDAP result codes of internal/ldapserver/server.go.
use nano_ldap.Prelude.{ℕ}

abbrev pub success : ℕ
success = 0

abbrev pub protocol_error : ℕ
protocol_error = 2

abbrev pub auth_method_not_supported : ℕ
auth_method_not_supported = 7

abbrev pub admin_limit_exceeded : ℕ
admin_limit_exceeded = 11

abbrev pub invalid_dn_syntax : ℕ
invalid_dn_syntax = 34

abbrev pub invalid_credentials : ℕ
invalid_credentials = 49

abbrev pub insufficient_access_rights : ℕ
insufficient_access_rights = 50

abbrev pub busy : ℕ
busy = 51

abbrev pub unwilling_to_perform : ℕ
unwilling_to_perform = 53
