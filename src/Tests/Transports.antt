-- ===== src/Tests/Transports.antt =====
-- The encrypted transports and the length prefix on concrete exchanges.
use rcvd.Prelude.{
  ℕ, ◌≡◌, refl, ◌↔◌, true, false, none, some, List, [], ◌∷◌, mem, ◌==◌, length, ◌++◌, arith,
  if◌then◌else◌,
}
use rcvd.Text.{Text, codes}
use rcvd.Dns.{Msg}
use rcvd.Framing.{frame, frames, read_frames}
use rcvd.Framing.RoundTrip.{read_frames-frames}
use rcvd.Transport.{Codec}
use rcvd.Transport.Dot as Dot
use rcvd.Transport.Dot.Answers.{IsSettled, resolve-IsSettled}
use rcvd.Transport.Doq as Doq
use rcvd.Transport.Doq.Answers.{AnswersUsable, resolve-AnswersUsable}
use rcvd.Transport.Doq.Pool.{
  Shared, get, recycle, later, here, start, after_get, after_recycle, Reach-pool,
}
use rcvd.Transport.Pin as Pin
use rcvd.Tests.Library.{lib}
use rcvd.Tests.Policies.{query, leak}

-- The answer with the ID of the query.
abbrev reply : Msg
reply = record leak { id = 7 }

-- Every message packs to two bytes, and one text is a message.
abbrev codec : Codec
codec = record {
  pack = λ m. some (codes "ab");
  unpack = λ s. if length s == 3 then some reply else none;
}

abbrev stale_dot : Dot.TlsResolver
stale_dot = record { conn = some (record { unread = [] }); dot_queries = 4 }

-- A server that has closed the connection.
abbrev closed_dot : Dot.Exchange
closed_dot = record { dial = none; writes = true; arrives = λ s. [] }

abbrev fresh_dot : Dot.Exchange
fresh_dot = record {
  dial = some (record { unread = [] });
  writes = true;
  arrives = λ s. frame (codes "xyz") ++ codes "!";
}

resolve-IsSettled_example : IsSettled query (Dot.resolve codec stale_dot closed_dot fresh_dot query)
resolve-IsSettled_example = resolve-IsSettled codec stale_dot closed_dot fresh_dot query

abbrev doq : Doq.DoqResolver
doq = record {
  pool = some (record { conn = 3; last_used = 10 });
  doq_queries = 0;
  doq_idle_retries = 0;
}

abbrev closed_doq : Doq.Exchange
closed_doq = record {
  now = 20;
  dial = none;
  redial = none;
  opens = λ c. true;
  writes = true;
  arrives = λ s. [];
  done = 21;
}

abbrev fresh_doq : Doq.Exchange
fresh_doq = record closed_doq { dial = some 4; arrives = λ s. frame (codes "xyz") }

resolve-AnswersUsable_example :
    AnswersUsable lib query (Doq.resolve lib codec doq closed_doq fresh_doq query).1
resolve-AnswersUsable_example = resolve-AnswersUsable lib codec doq closed_doq fresh_doq query

-- A call dials, gives the connection up, and another call dials again.
abbrev dialed : Shared
dialed = after_get start 0 true

abbrev given_up : Shared
given_up = after_recycle dialed 0

abbrev dialed_again : Shared
dialed_again = after_get given_up 5 true

Reach-pool_example :
    (mem 1 dialed_again.closed ≡ false)
    × (mem 1 dialed_again.closing ≡ false)
    × ((bad : ℕ)
        → (1 == bad) ≡ false
        → (Doq.recycle_conn dialed_again.resolver bad).pool
          ≡ some (record { conn = 1; last_used = 5 }))
unfolding Doq.get_connection Doq.recycle_conn
Reach-pool_example =
    Reach-pool {s = dialed_again} (record { conn = 1; last_used = 5 })
      (later (later (later here (get 0 true)) (recycle 0 refl)) (get 5 true)) refl

-- A digest of 32 equal bytes, and an encoding that changes nothing.
abbrev pub digest : Text → Text
digest s = codes "dddddddddddddddddddddddddddddddd"

abbrev pub cert : Pin.Cert
cert = record { raw_subject_public_key_info = codes "key"; covers = λ host. true }

pinned_tls_config-spki_pin_example :
    (Pin.accepts
        (Pin.pinned_tls_config digest
          (λ s. some s)
          Pin.plain_config
          (codes "h")
          (Pin.spki_pin digest (λ s. s) cert))
        false
        (cert ∷ [])
      ≡ true)
    ↔ ((leaf : Pin.Cert) × (rest : List Pin.Cert) × ((cert ∷ []) ≡ leaf ∷ rest)
        × (leaf.covers (codes "h") ≡ true)
        × (digest leaf.raw_subject_public_key_info ≡ digest cert.raw_subject_public_key_info))
pinned_tls_config-spki_pin_example =
    Pin.pinned_tls_config-spki_pin digest (λ s. s) (λ s. some s) cert (codes "h") false (cert ∷ [])
      (λ s. refl) (λ s. refl)

read_frames-frames_example :
    read_frames 20 (frames (codes "ab" ∷ codes "c" ∷ [])) ≡ codes "ab" ∷ codes "c" ∷ []
unfolding frames frame
read_frames-frames_example =
    read_frames-frames (codes "ab" ∷ codes "c" ∷ []) 20
      ((omega arith, omega arith), ((omega arith, omega arith), tt)) (omega arith)
