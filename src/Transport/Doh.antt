-- ===== src/Transport/Doh.antt =====
-- internal/resolver/doh.go: DNS over HTTPS.
use rcvd.Prelude.{ℕ, zero, suc, ◌+◌, Option, none, some, [], ◌∷◌, ◌==◌, if◌then◌else◌}
use rcvd.Prelude.Result.{Result, ok, err}
use rcvd.Text.{Text}
use rcvd.Dns.{Msg}
use rcvd.Transport.{Codec}

pub data DohError : Type 0 where
  no_pack : DohError
  no_request : DohError
  bad_status : ℕ → DohError
  no_body : DohError
  no_unpack : DohError

-- What the client gets: the status, and the body unless reading it fails.
pub record Reply : Type 0 where
  pub status : ℕ
  pub body : Option Text

-- io.LimitReader
unfoldable pub limit : ℕ → Text → Text
limit zero s = []
limit (suc n) [] = []
limit (suc n) (c ∷ s) = c ∷ limit n s

-- Resolve, with the new value of stats.DoHQueries; `post` is the request and client.Do.
unfoldable pub resolve : Codec → ℕ → (Text → Option Reply) → Msg → ℕ × Result DohError Msg
resolve codec doh_queries post msg = (
  doh_queries + 1,
  elim (codec.pack msg) [
    | none ↦ err no_pack
    | some buf ↦ elim (post buf) [
      | none ↦ err no_request
      | some reply ↦
          if reply.status == 200
          then elim reply.body [
            | none ↦ err no_body
            | some body ↦ elim (codec.unpack (limit 65535 body)) [
              | none ↦ err no_unpack
              | some resp ↦ ok resp
            ]
          ]
          else err (bad_status reply.status)
    ]
  ],
)
