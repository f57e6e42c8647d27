-- ===== src/UpstreamService/Connection.antt =====
-- handleConnection of internal/upstream/dot.go as a whole, and what its client gets. The counters of
-- queries by protocol stand beside the server.
use rcvd.Prelude.{
  ℕ, ◌+◌, if◌then◌else◌, is_some, ◌≡◌, inl, inr, some, List, arith, length, All, Option,
  Option-cases,
}
use rcvd.Text.{Text}
use rcvd.Dns.{Msg, DnsLib}
use rcvd.Framing.{read_frames}
use rcvd.Framing.RoundTrip.{Fits}
use rcvd.Framing.Timed.{Timed, at_first, in_time, Arrives, all_of, in_time-frames}
use rcvd.Framing.Loop.{Handler, serve_all}
use rcvd.Framing.Loop.Answers.{answers, AllParse, serve_all-answers}
use rcvd.Server.{Server, World, count_query, ensure_response_edns}
use rcvd.Server.Handlers.{Wire, pack_stream}
use rcvd.Server.Connection.{Session}
use rcvd.Server.Pipelining.{PacksToBytes, SmallFailure, pack_stream-Fits}
use rcvd.UpstreamService.{Zone, decide_stream, send_stream}

-- The counters DoTServed, DoHServed and DoQServed of the statistics.
pub record Served : Type 0 where
  pub dot : ℕ
  pub doh : ℕ
  pub doq : ℕ

-- `if stats != nil { ... }`
abbrev pub count_served : Server → (Served → Served) → Served → Served
count_served srv f v = if is_some srv.stats then f v else v

abbrev pub one_dot : Served → Served
one_dot v = record v { dot = v.dot + 1 }

abbrev pub one_doh : Served → Served
one_doh v = record v { doh = v.doh + 1 }

abbrev pub one_doq : Served → Served
one_doq v = record v { doq = v.doq + 1 }

-- One turn of the loop behind a message that parsed.
unfoldable pub handle_stream :
    DnsLib → Zone → Wire → ℕ → Server → World → Msg → Server × Option Text
handle_stream lib z wire served_us srv w query =
    send_stream lib wire served_us query (decide_stream lib z (count_query srv) w query)

-- `served_us` is the time that the n-th query takes.
abbrev pub stream_handler : Session → Zone → (ℕ → ℕ) → Handler (Served × Server)
stream_handler ses z served_us = record {
  unpack = ses.unpack;
  turn = λ n (v, srv) query.
      let (srv', out) = handle_stream ses.lib z ses.wire (served_us n) srv (ses.world n) query in
      ((count_served srv one_dot v, srv'), out);
}

-- The milliseconds of SetReadDeadline.
abbrev pub read_deadline : ℕ
read_deadline = 30000

-- handleConnection
unfoldable pub handle_connection :
    Session → Zone → (ℕ → ℕ) → Served × Server → Timed → (Served × Server) × Text
handle_connection ses z served_us s sent =
    serve_all (stream_handler ses z served_us) s (in_time read_deadline read_deadline at_first sent)

handle_stream-Fits :
    (lib : DnsLib) (z : Zone) (wire : Wire) (served_us : ℕ) (srv : Server) (w : World) (query : Msg)
    (buf : Text)
    → PacksToBytes wire
    → SmallFailure lib wire query
    → (handle_stream lib z wire served_us srv w query).1 ≡ some buf
    → Fits buf
unfolding handle_stream send_stream
handle_stream-Fits lib z wire served_us srv w query buf bytes small h =
    let r = decide_stream lib z (count_query srv) w query in
    let out = ensure_response_edns lib r.1 query in
    elim (Option-cases (pack_stream lib wire out query)) [
      | inl lost ↦ absurd (ground arith)
      | inr ((first, replaced), packed) ↦
          let same : first ≡ buf = ground arith in
          rw (← same) (pack_stream-Fits lib wire out query first replaced bytes small packed)
    ]

-- A client of the encrypted listener that sends messages of 1 to 65,535 bytes on one connection,
-- and lets it wait no longer than 30 seconds for any of them, gets exactly the replies to them in
-- their order, each whole. The condition is that no message packs to nothing and that the SERVFAIL
-- that replaces an oversized reply packs within the limit.
pub handle_connection-answers :
    (ses : Session) (z : Zone) (served_us : ℕ → ℕ) (srv : Served × Server) (msgs : List Text)
    (sent : List Timed)
    → PacksToBytes ses.wire
    → All Fits msgs
    → Arrives read_deadline msgs sent
    → AllParse (stream_handler ses z served_us) (SmallFailure ses.lib ses.wire) msgs
    → ((handle_connection ses z served_us srv (all_of sent)).0
        ≡ (answers (stream_handler ses z served_us) 0 srv msgs).0)
      × (read_frames
            (length (handle_connection ses z served_us srv (all_of sent)).1)
            (handle_connection ses z served_us srv (all_of sent)).1
          ≡ (answers (stream_handler ses z served_us) 0 srv msgs).1)
unfolding handle_connection
handle_connection-answers ses z served_us srv msgs sent bytes fit arrive small =
    let h = stream_handler ses z served_us in
    rw (in_time-frames read_deadline msgs sent fit arrive) (
      serve_all-answers h (SmallFailure ses.lib ses.wire) srv msgs fit
        (λ n s query buf ok e.
          handle_stream-Fits ses.lib z ses.wire (served_us n) s.1 (ses.world n) query buf bytes ok
            e)
        small)
