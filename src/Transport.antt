-- ===== src/Transport.antt =====
-- internal/resolver, the encrypted transports to an upstream: dot.go, doq.go, doh.go and pin.go. The
-- network is an argument of each exchange: whether a dial or a write succeeds, and the bytes that
-- arrive before the read fails. Error texts are constructors.
pub mod Dot
pub mod Doq
pub mod Doh
pub mod Pin
use rcvd.Prelude.{Option}
use rcvd.Text.{Text}
use rcvd.Dns.{Msg}

-- msg.Pack and resp.Unpack of package dns.
pub record Codec : Type 0 where
  pub pack : Msg → Option Text
  pub unpack : Text → Option Msg
