-- ===== src/UpstreamService/Ingress/Errors.antt =====
-- What handleDNSQuery of internal/upstream/doh.go answers to a request that it cannot serve.
use rcvd.Prelude.{
  ℕ, ◌<◌, ◌≤◌, ◌≡◌, refl, ap, ◌∙◌, ◌↔◌, false, ◌⊎◌, inl, inr, ◌||◌, none, some, arith, ltb, ◌==◌,
  length, is_empty, Bool-cases, Option-cases,
}
use rcvd.Prelude.Result.{ok, err, Result-cases}
use rcvd.Text.{Text}
use rcvd.Dns.{Msg}
use rcvd.Statistics.{record_response, record_mode2_latency}
use rcvd.Transport.Doh.{limit}
use rcvd.Server.{Server, World, count, count_query}
use rcvd.UpstreamService.Connection.{Served, count_served, one_doh}
use rcvd.UpstreamService.{decide_doh, write_response}
use rcvd.UpstreamService.Ingress.{
  Request, post, get, other_method, Reply, http_error, dns_message, Listener, message_of,
  answer_request, handle_dns_query,
}

-- What a request carries: at most 65536 bytes of the body of a POST, or the decoded parameter of a GET.
abbrev pub Carries : Listener → Request → Text → Type 0
Carries l (post none) body = ⊥
Carries l (post (some sent)) body = body ≡ limit 65536 sent
Carries l (get param) body = (is_empty param ≡ false) × (l.decode param ≡ some body)
Carries l other_method body = ⊥

-- The request carries a DNS message of 1 to 65535 bytes.
abbrev pub Asks : Listener → Request → Msg → Type 0
Asks l req query =
    (body : Text) × Carries l req body
    × (0 < length body)
    × (length body ≤ 65535)
    × (l.unpack body ≡ some query)

-- The status of a refusal.
abbrev pub refusal : Request → ℕ
refusal (post body) = 400
refusal (get param) = 400
refusal other_method = 405

-- The query is counted as one over HTTPS, and the reply is the one that the handler decided on, packed,
-- after which its code and the time are counted; or status 500 where it does not pack, after which
-- they are not.
abbrev pub IsServed :
    Listener → ℕ → Served × Server → World → Msg → (Served × Server) × Reply → Type 0
IsServed l served_us (v, srv) w query ((v', srv'), reply) =
    let r = decide_doh l.lib l.zone (count_query srv) w query in
    (v' ≡ count_served srv one_doh v)
    × (((buf : Text) × (l.wire.pack r.1 ≡ some buf)
          × (reply ≡ dns_message buf)
          × (srv' ≡ count (λ s. record_mode2_latency served_us (record_response r.1.rcode s)) r.0))
        ⊎ ((l.wire.pack r.1 ≡ none) × (reply ≡ http_error 500) × (srv' ≡ r.0)))

-- What the handler makes of a message.
abbrev counted : Listener → ℕ → Served → Server → World → Msg → (Served × Server) × Reply
counted l served_us v srv w query =
    let (srv', reply) = answer_request l served_us srv w query in
    ((count_served srv one_doh v, srv'), reply)

answer_request-IsServed :
    (l : Listener) (served_us : ℕ) (v : Served) (srv : Server) (w : World) (query : Msg)
    → IsServed l served_us (v, srv) w query (counted l served_us v srv w query)
unfolding answer_request write_response
answer_request-IsServed l served_us v srv w query =
    let r = decide_doh l.lib l.zone (count_query srv) w query in
    elim (Option-cases (l.wire.pack r.1)) [
      | inl lost ↦ (refl, inr (lost, ground (arith, lost), ground (arith, lost)))
      | inr (buf, packed) ↦
          (refl, inl (buf, packed, ground (arith, packed), ground (arith, packed)))
    ]

message_of-Carries :
    (l : Listener) (req : Request) (body : Text) → (message_of l req ≡ ok body) ↔ Carries l req body
unfolding message_of
message_of-Carries l (post none) body = (λ h. absurd (cc h), λ c. absurd c)
message_of-Carries l (post (some sent)) body = (λ h. ground (arith, h), λ c. rw c refl)
message_of-Carries l (get param) body = (
  λ h. elim (Bool-cases (is_empty param)) [
    | inl e ↦ absurd (ground (arith, e, h))
    | inr given ↦ elim (Option-cases (l.decode param)) [
      | inl bad ↦ absurd (ground (arith, given, bad, h))
      | inr (b, good) ↦
          let same : b ≡ body = ground (arith, given, good, h) in
          (given, good ∙ ap (λ (z : Text). some z) same)
    ]
  ],
  λ (given, good). ground (arith, given, good),
)
message_of-Carries l other_method body = (λ h. absurd (cc h), λ c. absurd c)

message_of-refusal :
    (l : Listener) (req : Request) (n : ℕ) → message_of l req ≡ err n → n ≡ refusal req
unfolding message_of
message_of-refusal l (post none) n h = ground (arith, h)
message_of-refusal l (post (some sent)) n h = absurd (cc h)
message_of-refusal l (get param) n h = ground (arith, h)
message_of-refusal l other_method n h = ground (arith, h)

-- A body was read, so the method was POST or GET.
refusal-Carries :
    (l : Listener) (req : Request) (body : Text) → Carries l req body → refusal req ≡ 400
refusal-Carries l (post sent) body c = refl
refusal-Carries l (get param) body c = refl
refusal-Carries l other_method body c = absurd c

served :
    (l : Listener) (served_us : ℕ) (v : Served) (srv : Server) (w : World) (req : Request)
    (query : Msg)
    → Asks l req query
    → handle_dns_query l served_us (v, srv) w req ≡ counted l served_us v srv w query
unfolding handle_dns_query
served l served_us v srv w req query (body, carried, some_byte, fits, parsed) =
    let read = (message_of-Carries l req body).1 carried in
    let size : (length body == 0 || ltb 65535 (length body)) ≡ false =
      ground (arith, some_byte, fits) in
    rw (handle_dns_query, read, size, parsed) refl

refused :
    (l : Listener) (served_us : ℕ) (v : Served) (srv : Server) (w : World) (req : Request)
    → ((query : Msg) → Asks l req query → ⊥)
    → handle_dns_query l served_us (v, srv) w req ≡ ((v, srv), http_error (refusal req))
unfolding handle_dns_query
refused l served_us v srv w req silent = elim (Result-cases (message_of l req)) [
  | inr (n, e) ↦ rw (handle_dns_query, e, message_of-refusal l req n e) refl
  | inl (body, e) ↦
      let carried = (message_of-Carries l req body).0 e in
      let status = refusal-Carries l req body carried in
      elim (Bool-cases (length body == 0 || ltb 65535 (length body))) [
        | inl bad ↦ rw (handle_dns_query, e, bad, status) refl
        | inr fits ↦ elim (Option-cases (l.unpack body)) [
          | inl broken ↦ rw (handle_dns_query, e, fits, broken, status) refl
          | inr (query, parsed) ↦
              absurd
                (silent query (body, carried, ground (arith, fits), ground (arith, fits), parsed))
        ]
      ]
]

-- A request that carries a DNS message of 1 to 65535 bytes, as a POST or as a GET, gets the reply that
-- the handler decides on for that message, or status 500 where the reply does not pack. Every other
-- request is refused, with status 405 for another method and else 400, and changes nothing, not even
-- a counter.
pub handle_dns_query_total :
    (l : Listener) (served_us : ℕ) (s : Served × Server) (w : World) (req : Request)
    → ((query : Msg)
        → Asks l req query
        → IsServed l served_us s w query (handle_dns_query l served_us s w req))
      × (((query : Msg) → Asks l req query → ⊥)
          → handle_dns_query l served_us s w req ≡ (s, http_error (refusal req)))
handle_dns_query_total l served_us (v, srv) w req = (
  λ query asks.
      rw (served l served_us v srv w req query asks)
        (answer_request-IsServed l served_us v srv w query),
  refused l served_us v srv w req,
)
