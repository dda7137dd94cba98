-- ===== src/Serving/Loop.antt =====
-- The end of the loop over the messages of a connection, and who the connection acts for then.
use nano_ldap.Prelude.{
  ℕ, zero, suc, ◌+◌, ◌≤◌, ◌<◌, ◌≡◌, ◌≢◌, Bool, not, ◌&&◌, ◌∷◌, arith, length, Bool-cases, inl, inr,
  Result-cases, IfOk, ◌==◌, ok, err, if◌then◌else◌, Option, none, some, refl, ap, ◌∙◌,
}
use mathlib.Core.Path.{subst}
use nano_ldap.Text.{Bytes, is_empty}
use nano_ldap.Ber.Reader.{
  Packet, Packets, nil, cons, class, tag, children, int, read, class_universal,
}
use nano_ldap.Ber.Fuel.{read_packet_takes}
use nano_ldap.Message.{Message, message_of, read_message}
use nano_ldap.Connection.{ConnState, Reply, new_conn}
use nano_ldap.Server.{handle_message}
use nano_ldap.Server.Reach.Sound.{Round, IsSound, after-IsSound, new_conn-IsSound}
use nano_ldap.Serving.{
  Turn, Setup, Ending, write_failed, closed, out_of_fuel, Served, ended, after_reply, serve,
  handle_conn,
}

-- What holds of the reply and of what comes later, holds of the round.
after_reply-cases :
    (P : Served → Type 0) (written : Bool) (reply : Reply) (later : Served)
    → ((e : Ending) → e ≢ out_of_fuel → P (ended reply.conn e))
    → ((rest : Served) (more : Bool)
        → P rest
        → P (record rest { sent = if more then rest.sent else reply.response ∷ rest.sent }))
    → P later
    → P (after_reply written reply later)
unfolding after_reply
after_reply-cases P written reply later stop add h =
    elim (Bool-cases (not (is_empty reply.response) && not written)) [
      | inl w ↦ rw w (stop write_failed (ground arith))
      | inr w ↦ elim (Bool-cases reply.close) [
        | inl c ↦
            rw (w, c)
              (add (ended reply.conn closed) (is_empty reply.response) (stop closed (ground arith)))
        | inr c ↦ rw (w, c) (add later (is_empty reply.response) h)
      ]
    ]

abbrev Takes : Bytes → Message × Bytes → Type 0
Takes s (m, rest) = length rest + 2 ≤ length s

message_of-Takes :
    (s : Bytes) (root : Packet) (ps : Packets) (rest : Bytes)
    → length rest + 2 ≤ length s
    → IfOk (Takes s) (message_of root ps rest)
unfolding message_of
message_of-Takes s root nil rest h = tt
message_of-Takes s root (cons a nil) rest h = tt
message_of-Takes s root (cons a (cons b ps)) rest h = elim (Result-cases (int a)) [
  | inl (id, e) ↦ rw e h
  | inr (x, e) ↦ rw e tt
]

-- A message takes at least two bytes.
read_message-Takes : (s : Bytes) → IfOk (Takes s) (read_message s)
unfolding read_message read
read_message-Takes s = elim (Result-cases (read s)) [
  | inr (x, e) ↦ rw e tt
  | inl ((root, rest), e) ↦ elim (Bool-cases (class root == class_universal && tag root == 16)) [
    | inr h ↦ rw (e, h) tt
    | inl h ↦
        rw (e, h)
          (message_of-Takes s root (children root) rest
            (read_packet_takes (length s + 1) s root rest e))
  ]
]

read_message_takes :
    (s rest : Bytes) (m : Message) → read_message s ≡ ok (m, rest) → length rest + 2 ≤ length s
read_message_takes s rest m e = subst (IfOk (Takes s)) e (read_message-Takes s)

-- The reply of a round.
abbrev reply_of : Setup → Turn → ConnState → Message → Reply
reply_of cfg turn st msg =
    (handle_message turn.base turn.env cfg.rate turn.limiter st turn.now msg).1

-- Enough fuel for the bytes that are left.
serve_ends :
    (cfg : Setup) (turns : ℕ → Turn) (f i : ℕ) (st : ConnState) (s : Bytes)
    → length s < f
    → (serve cfg turns f i st s).ending ≢ out_of_fuel
unfolding serve
serve_ends cfg turns zero i st s h = absurd (omega arith)
serve_ends cfg turns (suc f) i st s h = elim (Bool-cases (turns i).deadline_set) [
  | inr d ↦ rw d (ground arith)
  | inl d ↦ elim (Result-cases (read_message s)) [
    | inr (x, e) ↦ rw (d, e) (ground arith)
    | inl ((msg, rest), e) ↦
        rw (d, e)
          (after_reply-cases (λ v. v.ending ≢ out_of_fuel) (turns i).written
            (reply_of cfg (turns i) st msg)
            (serve cfg turns f (i + 1) (reply_of cfg (turns i) st msg).conn rest) (λ x h. h)
            (λ r more h. h)
            (serve_ends cfg turns f (i + 1) (reply_of cfg (turns i) st msg).conn rest
              (omega (arith, read_message_takes s rest msg e))))
  ]
]

-- The round of the loop that handles a message.
abbrev pub round_of : Turn → Message → Round
round_of turn msg = record {
  base = turn.base;
  env = turn.env;
  limiter = turn.limiter;
  now = turn.now;
  msg = msg;
}

-- Message `n` of those that are read off a stream one after the other.
unfoldable pub nth_message : ℕ → Bytes → Option Message
nth_message zero s = elim (read_message s) [ err e ↦ none | ok (msg, rest) ↦ some msg ]
nth_message (suc n) s = elim (read_message s) [ err e ↦ none | ok (msg, rest) ↦ nth_message n rest ]

-- The round `r` took place: it is round `n` of the loop, its message is message `n` of the stream,
-- and the loop has handled more than `n` messages, each of which leaves a limiter.
abbrev pub HandledIn : (ℕ → Turn) → Bytes → Served → Round → Type 0
HandledIn turns s served r =
    (n : ℕ) × (msg : Message) × (nth_message n s ≡ some msg)
    × (n < length served.limiters)
    × (r ≡ round_of (turns n) msg)

-- What the loop handles from round `i` on takes place.
abbrev Handles : (Round → Type 0) → (ℕ → Turn) → ℕ → Bytes → Served → Type 0
Handles Took turns i s served =
    (n k : ℕ) (msg : Message)
    → k ≡ i + n
    → nth_message n s ≡ some msg
    → n < length served.limiters
    → Took (round_of (turns k) msg)

-- A message more in front.
nth_message-suc :
    (n : ℕ) (s rest : Bytes) (m : Message)
    → read_message s ≡ ok (m, rest)
    → nth_message (suc n) s ≡ nth_message n rest
unfolding nth_message
nth_message-suc n s rest m e = rw (nth_message, e) refl

nth_message-zero :
    (s rest : Bytes) (m : Message) → read_message s ≡ ok (m, rest) → nth_message 0 s ≡ some m
unfolding nth_message
nth_message-zero s rest m e = rw (nth_message, e) refl

-- The loop keeps a connection sound by the messages that it handles.
serve-IsSound :
    (cfg : Setup) (turns : ℕ → Turn) (Took : Round → Type 0) (ip : Bytes) (f i : ℕ) (st : ConnState)
    (s : Bytes)
    → IsSound Took ip st
    → Handles Took turns i s (serve cfg turns f i st s)
    → IsSound Took ip (serve cfg turns f i st s).conn
unfolding serve
serve-IsSound cfg turns Took ip zero i st s r = λ took. r
serve-IsSound cfg turns Took ip (suc f) i st s r = elim (Bool-cases (turns i).deadline_set) [
  | inr d ↦ rw d (λ took. r)
  | inl d ↦ elim (Result-cases (read_message s)) [
    | inr (x, e) ↦ rw (d, e) (λ took. r)
    | inl ((msg, rest), e) ↦
        let turn = turns i in
        let next : Took (round_of turn msg) → IsSound Took ip (reply_of cfg turn st msg).conn =
          (λ took. after-IsSound Took ip cfg.rate st (round_of turn msg) took r) in
        rw (d, e)
          (λ took.
            let now = took 0 i msg (omega arith) (nth_message-zero s rest msg e) (omega arith) in
            after_reply-cases (λ v. Handles Took turns (i + 1) rest v → IsSound Took ip v.conn)
              turn.written (reply_of cfg turn st msg)
              (serve cfg turns f (i + 1) (reply_of cfg turn st msg).conn rest) (λ x h _. next now)
              (λ v more h. h)
              (serve-IsSound cfg turns Took ip f (i + 1) (reply_of cfg turn st msg).conn rest
                (next now))
              (λ n k m at named small.
                took (suc n) k m (omega arith) (nth_message-suc n s rest msg e ∙ named)
                  (omega arith)))
  ]
]

-- Whatever bytes a client sends, and whatever the store, the limiter, the clock and the calls of
-- `SetDeadline` and `Write` do in each round, the loop of `handleConn` returns. The connection is
-- then unbound, not anonymous and without a successful bind; or it is bound and has had a
-- successful bind, and message `n` of the stream, for some `n` below the number of messages that
-- the loop has handled, is a bind request that the limiter of round `n` lets the address try:
-- either one with an empty DN and password, where the connection is anonymous, or one that the
-- store of round `n` confirms as the connection's enabled user's, where it is not.
pub handle_conn_ends :
    (cfg : Setup) (turns : ℕ → Turn) (ip s : Bytes)
    → ((handle_conn cfg turns ip s).ending ≢ out_of_fuel)
      × IsSound
          (HandledIn turns s (handle_conn cfg turns ip s))
          ip
          (handle_conn cfg turns ip s).conn
unfolding handle_conn
handle_conn_ends cfg turns ip s = (
  serve_ends cfg turns (length s + 1) 0 (new_conn ip) s (omega arith),
  serve-IsSound cfg turns _ ip (length s + 1) 0 (new_conn ip) s (new_conn-IsSound _ ip)
      (λ n k msg at named small.
        (n, msg, named, small, ap (λ j. round_of (turns j) msg) (omega (arith, at)))),
)
