-- ===== src/Serving.antt =====
-- Connections: `Serve` and `handleConn` of internal/ldapserver/server.go. A client's stream is the
-- list of the bytes that arrive before the read that fails, by its end, a timeout or an error.
pub mod Loop
pub mod Slots
use nano_ldap.Prelude.{
  ℕ, zero, suc, ◌+◌, Bool, true, false, not, ◌&&◌, List, [], ◌∷◌, ◌++◌, keep, length, ltb, ◌==◌,
  if◌then◌else◌, Option, none, some, Result, ok, err,
}
use nano_ldap.Text.{Bytes, is_empty}
use nano_ldap.Ber.Reader.{BerError}
use nano_ldap.Limiter.Window.{WindowLimiter}
use nano_ldap.Message.{Message, read_message}
use nano_ldap.Connection.{Backend, ConnState, BindEvent, Reply, new_conn}
use nano_ldap.Server.{handle_message}
use nano_ldap.Debug.Trace.{log_request, log_response}

-- What a round of the loop meets: the base DN, the store, the limiter that the connections share and
-- the time, and whether the calls of `SetDeadline` and `Write` succeed.
pub record Turn : Type 0 where
  pub base : Bytes
  pub env : Backend
  pub limiter : WindowLimiter
  pub now : ℕ
  pub deadline_set : Bool
  pub written : Bool

-- The configuration: the search rate, and the debug trace where it is on.
pub record Tracer : Type 0 where
  pub quote : Bytes → Bytes
  pub describe : BerError → Bytes

pub record Setup : Type 0 where
  pub rate : ℕ
  pub tracer : Option Tracer

-- Why the loop returned. `out_of_fuel` is no return of the code: the model gave up.
pub data Ending : Type 0 where
  deadline_failed read_failed write_failed closed out_of_fuel : Ending

-- What a connection leaves: its state, the audit events, the lines of the trace, the responses that
-- were written, and the limiter after each message.
pub record Served : Type 0 where
  pub conn : ConnState
  pub audit : List BindEvent
  pub trace : List Bytes
  pub sent : List Bytes
  pub limiters : List WindowLimiter
  pub ending : Ending

abbrev pub ended : ConnState → Ending → Served
ended st e = record { conn = st; audit = []; trace = []; sent = []; limiters = []; ending = e }

abbrev pub line : Option Bytes → List Bytes
line none = []
line (some text) = text ∷ []

-- `logRequest` and `logResponse`.
unfoldable pub traced : Option Tracer → Bytes → Message → Bytes → List Bytes
traced none ip msg response = []
traced (some tracer) ip msg response =
    log_request tracer.quote ip msg
    ∷ line (log_response tracer.quote tracer.describe ip msg response)

-- The round of the loop behind the handler. `later` is what the loop does from there.
unfoldable pub after_reply : Bool → Reply → Served → Served
after_reply written reply later =
    if not (is_empty reply.response) && not written
    then ended reply.conn write_failed
    else (let rest = if reply.close then ended reply.conn closed else later in
        record rest {
          sent = if is_empty reply.response then rest.sent else reply.response ∷ rest.sent;
        })

abbrev pub noted : List BindEvent → List Bytes → WindowLimiter → Served → Served
noted audit trace limiter served = record served {
  audit = audit ++ served.audit;
  trace = trace ++ served.trace;
  limiters = limiter ∷ served.limiters;
}

-- The loop of `handleConn`, from round `i` on.
unfoldable pub serve : Setup → (ℕ → Turn) → ℕ → ℕ → ConnState → Bytes → Served
unfolding traced after_reply
serve cfg turns zero i st s = ended st out_of_fuel
serve cfg turns (suc f) i st s =
    if not (turns i).deadline_set then ended st deadline_failed else elim (read_message s) [
      | err e ↦ ended st read_failed
      | ok (msg, rest) ↦
          let turn = turns i in
          let (limiter, reply) =
            handle_message turn.base turn.env cfg.rate turn.limiter st turn.now msg in
          noted reply.audit (traced cfg.tracer st.source_ip msg reply.response) limiter
            (after_reply turn.written reply (serve cfg turns f (i + 1) reply.conn rest))
    ]

-- `handleConn`: a message takes at least a byte, and the last read fails.
unfoldable pub handle_conn : Setup → (ℕ → Turn) → Bytes → Bytes → Served
unfolding serve
handle_conn cfg turns ip s = serve cfg turns (length s + 1) 0 (new_conn ip) s

-- `Serve`: the connections that hold a token of `connTokens`, of `max`.
pub data Event : Type 0 where
  accepted finished : ℕ → Event

-- The `select`: a token and a goroutine, or a close at once.
unfoldable pub accept : ℕ → List ℕ → ℕ → List ℕ × Bool
accept max active conn = if ltb (length active) max then (conn ∷ active, true) else (active, false)

-- The deferred receive gives the token back.
unfoldable pub finish : List ℕ → ℕ → List ℕ
finish active conn = keep (λ c. not (c == conn)) active

unfoldable pub serve_step : ℕ → List ℕ → Event → List ℕ
unfolding accept finish
serve_step max active (accepted conn) = (accept max active conn).0
serve_step max active (finished conn) = finish active conn

unfoldable pub serve_all : ℕ → List ℕ → List Event → List ℕ
unfolding serve_step
serve_all max active [] = active
serve_all max active (e ∷ es) = serve_all max (serve_step max active e) es
