-- ===== src/Transport/Doq/Answers.antt =====
-- What Resolve of internal/resolver/doq.go returns.
use rcvd.Prelude.{
  ℕ, ◌+◌, ◌≡◌, refl, ◌⊎◌, inl, inr, Bool, true, false, none, arith, length, ltb, is_empty,
  Bool-cases, Option-cases,
}
use mathlib.Core.Path.{subst}
use rcvd.Text.{Text}
use rcvd.Dns.{Msg, DnsLib}
use rcvd.Dns.Rcode
use rcvd.Framing.{read_frame}
use rcvd.Transport.{Codec}
use rcvd.Transport.Doq.{
  DoqResolver, DoqError, Exchange, get_connection, doq_response_matches_query, has_soa,
  doq_response_usable, Outcome, answered, failed, receive, exchange_on, reconnect, exchange_once,
  resolve,
}

-- An answer that may be passed on to the client.
pub record IsUsable (lib : DnsLib) (query resp : Msg) : Type 0 where
  pub matches : doq_response_matches_query lib query resp ≡ true
  pub whole : resp.truncated ≡ false
  pub negative : resp.rcode ≡ Rcode.success → is_empty resp.answer ≡ true → has_soa resp.ns ≡ true

abbrev pub AnswersUsable : DnsLib → Msg → Outcome → Type 0
AnswersUsable lib query (answered resp) = IsUsable lib query resp
AnswersUsable lib query (failed retryable e) = Unit

Outcome-cases :
    (o : Outcome)
    → ((resp : Msg) × (o ≡ answered resp))
      ⊎ ((retryable : Bool) × (e : DoqError) × (o ≡ failed retryable e))
Outcome-cases (answered resp) = inl (resp, refl)
Outcome-cases (failed retryable e) = inr (retryable, e, refl)

IsUsable-sound :
    (lib : DnsLib) (query resp : Msg)
    → doq_response_matches_query lib query resp ≡ true
    → doq_response_usable resp ≡ none
    → IsUsable lib query resp
unfolding doq_response_usable
IsUsable-sound lib query resp same u = record {
  matches = same;
  whole = ground arith;
  negative = λ success empty. ground arith;
}

receive-AnswersUsable :
    (lib : DnsLib) (codec : Codec) (q : DoqResolver) (c done : ℕ) (msg : Msg) (incoming : Text)
    → AnswersUsable lib msg (receive lib codec q c done msg incoming).1
unfolding receive
receive-AnswersUsable lib codec q c done msg incoming = elim (Option-cases (read_frame incoming)) [
  | inl e ↦ rw (receive, e) tt
  | inr ((buf, rest), e) ↦ elim (Option-cases (codec.unpack buf)) [
    | inl bad ↦ rw (receive, e, bad) tt
    | inr (resp, parsed) ↦ elim (Bool-cases (doq_response_matches_query lib msg resp)) [
      | inr other ↦ rw (receive, e, parsed, other) tt
      | inl same ↦ elim (Option-cases (doq_response_usable resp)) [
        | inr (bad, u) ↦ rw (receive, e, parsed, same, u) tt
        | inl u ↦ rw (receive, e, parsed, same, u) (IsUsable-sound lib msg resp same u)
      ]
    ]
  ]
]

exchange_on-AnswersUsable :
    (lib : DnsLib) (codec : Codec) (q : DoqResolver) (c : ℕ) (x : Exchange) (msg : Msg)
    → AnswersUsable lib msg (exchange_on lib codec q c x msg).1
unfolding exchange_on
exchange_on-AnswersUsable lib codec q c x msg = elim (Option-cases (codec.pack msg)) [
  | inl bad ↦ rw (exchange_on, bad) tt
  | inr (buf, packed) ↦ elim (Bool-cases (ltb 65535 (length buf))) [
    | inl long ↦ rw (exchange_on, packed, long) tt
    | inr short ↦ elim (Bool-cases x.writes) [
      | inl sent ↦
          rw (exchange_on, packed, short, sent) (receive-AnswersUsable lib codec q c x.done msg _)
      | inr unsent ↦ rw (exchange_on, packed, short, unsent) tt
    ]
  ]
]

reconnect-AnswersUsable :
    (lib : DnsLib) (codec : Codec) (q : DoqResolver) (x : Exchange) (msg : Msg)
    → AnswersUsable lib msg (reconnect lib codec q x msg).1
unfolding reconnect
reconnect-AnswersUsable lib codec q x msg =
    elim (Option-cases (get_connection q x.now x.redial).1) [
      | inl e ↦ rw (reconnect, e) tt
      | inr (c, e) ↦ elim (Bool-cases (x.opens c)) [
        | inl open' ↦ rw (reconnect, e, open') (exchange_on-AnswersUsable lib codec _ c x msg)
        | inr shut ↦ rw (reconnect, e, shut) tt
      ]
    ]

exchange_once-AnswersUsable :
    (lib : DnsLib) (codec : Codec) (q : DoqResolver) (x : Exchange) (msg : Msg)
    → AnswersUsable lib msg (exchange_once lib codec q x msg).1
unfolding exchange_once
exchange_once-AnswersUsable lib codec q x msg =
    elim (Option-cases (get_connection q x.now x.dial).1) [
      | inl e ↦ rw (exchange_once, e) tt
      | inr (c, e) ↦ elim (Bool-cases (x.opens c)) [
        | inl open' ↦ rw (exchange_once, e, open') (exchange_on-AnswersUsable lib codec _ c x msg)
        | inr shut ↦ rw (exchange_once, e, shut) (reconnect-AnswersUsable lib codec _ x msg)
      ]
    ]

-- Whatever arrives, on the first exchange or the second, an answer that Resolve returns has the one
-- question of the query, is not truncated, and is not an empty success without an SOA record.
pub resolve-AnswersUsable :
    (lib : DnsLib) (codec : Codec) (q : DoqResolver) (x y : Exchange) (msg : Msg)
    → AnswersUsable lib msg (resolve lib codec q x y msg).1
unfolding resolve
resolve-AnswersUsable lib codec q x y msg =
    let first = exchange_once lib codec (record q { doq_queries = q.doq_queries + 1 }) x msg in
    elim (Outcome-cases first.1) [
      | inl (resp, e) ↦
          rw (resolve, e)
            (subst (AnswersUsable lib msg) e (
              exchange_once-AnswersUsable lib codec (record q { doq_queries = q.doq_queries + 1 }) x
                msg))
      | inr (retryable, e', e) ↦ elim (Bool-cases retryable) [
        | inl y' ↦ rw (resolve, e, y') (exchange_once-AnswersUsable lib codec _ y msg)
        | inr n ↦ rw (resolve, e, n) tt
      ]
    ]
