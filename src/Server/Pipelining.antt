-- ===== src/Server/Pipelining.antt =====
-- What a client of a TCP connection gets for the queries that it sends.
use rcvd.Prelude.{
  ◌≤◌, ◌<◌, ◌≡◌, Bool, inl, inr, some, List, arith, length, All, Option-cases, ltb, Bool-cases,
}
use rcvd.Text.{Text}
use rcvd.Dns.{Msg, DnsLib}
use rcvd.Dns.Rcode
use rcvd.Framing.{read_frames}
use rcvd.Framing.RoundTrip.{Fits}
use rcvd.Framing.Loop.Answers.{answers, AllParse, serve_all-answers}
use rcvd.Server.{Server, World, count_query, own_reply, ensure_response_edns}
use rcvd.Server.Handlers.{Wire, handle_tcp, decide_tcp, send_tcp, pack_stream}
use rcvd.Server.Connection.{Session, tcp_handler, handle_tcp_connection}
use rcvd.Framing.Timed.{Timed, Arrives, all_of, in_time-frames}

-- No message packs to nothing.
abbrev pub PacksToBytes : Wire → Type 0
PacksToBytes wire = (m : Msg) (buf : Text) → wire.pack m ≡ some buf → 0 < length buf

-- The SERVFAIL that stands in for an oversized reply to the query packs within the limit.
abbrev pub SmallFailure : DnsLib → Wire → Msg → Type 0
SmallFailure lib wire query =
    (buf : Text)
    → wire.pack (ensure_response_edns lib (own_reply query Rcode.server_failure) query) ≡ some buf
    → length buf ≤ 65535

pub pack_stream-Fits :
    (lib : DnsLib) (wire : Wire) (response query : Msg) (buf : Text) (replaced : Bool)
    → PacksToBytes wire
    → SmallFailure lib wire query
    → pack_stream lib wire response query ≡ some (buf, replaced)
    → Fits buf
unfolding pack_stream
pack_stream-Fits lib wire response query buf replaced bytes small h =
    elim (Option-cases (wire.pack response)) [
      | inl lost ↦ absurd (ground arith)
      | inr (first, packed) ↦ elim (Bool-cases (ltb 65535 (length first))) [
        | inl over ↦
            let failure = ensure_response_edns lib (own_reply query Rcode.server_failure) query in
            elim (Option-cases (wire.pack failure)) [
              | inl lost ↦ absurd (ground arith)
              | inr (second, again) ↦
                  let same : second ≡ buf = ground arith in
                  rw (← same) (bytes failure second again, small second again)
            ]
        | inr within ↦
            let same : first ≡ buf = ground arith in
            rw (← same) (bytes response first packed, ground arith)
      ]
    ]

handle_tcp-Fits :
    (lib : DnsLib) (wire : Wire) (srv : Server) (w : World) (query : Msg) (buf : Text)
    → PacksToBytes wire
    → SmallFailure lib wire query
    → (handle_tcp lib wire srv w query).1 ≡ some buf
    → Fits buf
unfolding handle_tcp send_tcp
handle_tcp-Fits lib wire srv w query buf bytes small h =
    let r = decide_tcp lib (count_query srv) w query in
    let out = ensure_response_edns lib r.1 query in
    elim (Option-cases (pack_stream lib wire out query)) [
      | inl lost ↦ absurd (ground arith)
      | inr ((first, replaced), packed) ↦
          let same : first ≡ buf = ground arith in
          rw (← same) (pack_stream-Fits lib wire out query first replaced bytes small packed)
    ]

-- A client that sends messages of 1 to 65,535 bytes on one connection, in any number, and lets the
-- server wait no longer than 5 seconds for any of them, and reads what comes back, gets exactly the
-- replies to them in their order, each whole: no reply runs into another, also where one is
-- replaced by SERVFAIL for its size. The condition is that no message packs to nothing and that
-- such a SERVFAIL itself packs within the limit.
pub handle_tcp_connection-answers :
    (ses : Session) (srv : Server) (msgs : List Text) (sent : List Timed)
    → PacksToBytes ses.wire
    → All Fits msgs
    → Arrives 5000 msgs sent
    → AllParse (tcp_handler ses) (SmallFailure ses.lib ses.wire) msgs
    → ((handle_tcp_connection ses srv (all_of sent)).0 ≡ (answers (tcp_handler ses) 0 srv msgs).0)
      × (read_frames
            (length (handle_tcp_connection ses srv (all_of sent)).1)
            (handle_tcp_connection ses srv (all_of sent)).1
          ≡ (answers (tcp_handler ses) 0 srv msgs).1)
unfolding handle_tcp_connection
handle_tcp_connection-answers ses srv msgs sent bytes fit arrive small =
    rw (in_time-frames 5000 msgs sent fit arrive) (
      serve_all-answers (tcp_handler ses) (SmallFailure ses.lib ses.wire) srv msgs fit
        (λ n s query buf ok h.
          handle_tcp-Fits ses.lib ses.wire s (ses.world n) query buf bytes ok h)
        small)
