-- ===== src/Tests/Traces.antt =====
-- Connections and their trace, with a bind of an anonymous client that sends a password.
use nano_ldap.Prelude.{ℕ, ◌≤◌, ◌≡◌, ◌≢◌, refl, true, false, [], ◌∷◌, arith, length, none, some, ok}
use nano_ldap.Text.{Bytes, codes}
use nano_ldap.Ber.Reader.{
  Packet, packet, nil, cons, read, read_packet, read_byte, read_length, length_from, read_full,
  decode_packet, int,
}
use nano_ldap.Message.{Message, read_message, message_of}
use nano_ldap.Connection.{result_message}
use nano_ldap.Limiter.Window.{new_limiter}
use nano_ldap.Server.Reach.Sound.{IsSound}
use nano_ldap.Debug.Trace.{log_request, log_response}
use nano_ldap.Debug.Redaction.{without_password, log_request-without_password}
use nano_ldap.Debug.Response.{result_line, result_text, log_response-result_message}
use nano_ldap.Serving.{Turn, Setup, accepted, finished, serve_all, handle_conn, out_of_fuel}
use nano_ldap.Serving.Slots.{length-serve_all}
use nano_ldap.Serving.Loop.{HandledIn, handle_conn_ends}
use nano_ldap.Tests.Data.{backend, base_dn, user, users_group}

abbrev quote : Bytes → Bytes
quote s = s

-- A bind with the password `ab`, and a byte behind it.
abbrev sent : Bytes
sent =
    0x30 ∷ 0x0e ∷ 0x02 ∷ 0x01 ∷ 0x01 ∷ 0x60 ∷ 0x09 ∷ 0x02 ∷ 0x01 ∷ 0x03 ∷ 0x04 ∷ 0x00 ∷ 0x80 ∷ 0x02
    ∷ b'a' ∷ b'b' ∷ 0x30 ∷ []

abbrev bind_op : Packet
bind_op = packet 1 0 true (0x02 ∷ 0x01 ∷ 0x03 ∷ 0x04 ∷ 0x00 ∷ 0x80 ∷ 0x02 ∷ b'a' ∷ b'b' ∷ []) (
    cons (packet 0 2 false (3 ∷ []) nil)
      (cons (packet 0 4 false [] nil) (cons (packet 2 0 false (codes "ab") nil) nil)))

abbrev message : Message
message = record {
  id = 1;
  op = bind_op;
  raw =
      packet 0 16 true
        (0x02 ∷ 0x01 ∷ 0x01 ∷ 0x60 ∷ 0x09 ∷ 0x02 ∷ 0x01 ∷ 0x03 ∷ 0x04 ∷ 0x00 ∷ 0x80 ∷ 0x02 ∷ b'a'
          ∷ b'b' ∷ [])
        (cons (packet 0 2 false (1 ∷ []) nil) (cons bind_op nil));
}

read_bind : read_message sent ≡ ok (message, 0x30 ∷ [])
unfolding read_message message_of read read_packet read_byte read_length length_from read_full
    decode_packet int
read_bind = refl

log_request-without_password_example :
    log_request quote (codes "10.0.0.1") (without_password message)
    ≡ log_request quote (codes "10.0.0.1") message
log_request-without_password_example =
    log_request-without_password quote (codes "10.0.0.1") sent (0x30 ∷ []) message read_bind

log_response-result_message_example :
    log_response quote (λ e. []) (codes "10.0.0.1") message (result_message 1 1 49 (codes "no"))
    ≡ some (
        result_line quote
          (codes "10.0.0.1")
          message
          1
          (result_text quote (codes "BindResponse") 49 (codes "no")))
log_response-result_message_example =
    log_response-result_message quote (λ e. []) (codes "10.0.0.1") message false 1 49 (codes "no")
      (omega arith) (omega arith) (omega arith)

abbrev turn : ℕ → Turn
turn i = record {
  base = base_dn;
  env = backend (user ∷ []) (users_group ∷ []);
  limiter = new_limiter 10 5;
  now = i;
  deadline_set = true;
  written = true;
}

abbrev setup : Setup
setup = record { rate = 5; tracer = none }

handle_conn_ends_example :
    ((handle_conn setup turn (codes "10.0.0.1") sent).ending ≢ out_of_fuel)
    × IsSound
        (HandledIn turn sent (handle_conn setup turn (codes "10.0.0.1") sent))
        (codes "10.0.0.1")
        (handle_conn setup turn (codes "10.0.0.1") sent).conn
handle_conn_ends_example = handle_conn_ends setup turn (codes "10.0.0.1") sent

length-serve_all_run :
    length (serve_all 1 [] (accepted 1 ∷ accepted 2 ∷ finished 1 ∷ accepted 3 ∷ [])) ≤ 1
length-serve_all_run =
    length-serve_all 1 [] (accepted 1 ∷ accepted 2 ∷ finished 1 ∷ accepted 3 ∷ []) (omega arith)
