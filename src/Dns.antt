-- ===== src/Dns.antt =====
-- The part of a DNS message that the program reads and writes, and what it takes from the library
-- github.com/miekg/dns. The library is not part of the repository: its functions are the fields of
-- a record that the definitions take as an argument, and what the program relies on is stated
-- beside them as laws. Messages are values, so `Copy` is the message itself, and a nil message,
-- which no caller passes, does not occur.
pub mod Rcode
pub mod RrType
use rcvd.Prelude.{
  ℕ, ◌≡◌, Bool, true, false, Option, none, some, List, [], ◌∷◌, ◌++◌, any, ◌==◌, map,
}
use rcvd.Text.{Text}

-- Header and Question of an RR or a query.
pub record Question : Type 0 where
  pub name : Text
  pub qtype : ℕ
  pub qclass : ℕ

-- OPT: the fields that the program reads or sets, and the EDE options attached to it.
pub record Opt : Type 0 where
  pub udp_size : ℕ
  pub dnssec_ok : Bool
  -- EDNS0_EDE options: info code and text
  pub ede : List (ℕ × Text)

pub record Rrsig : Type 0 where
  pub type_covered : ℕ
  pub algorithm : ℕ
  pub key_tag : ℕ
  pub signer_name : Text
  pub inception : ℕ
  pub expiration : ℕ
  pub signature : Text

pub record Dnskey : Type 0 where
  pub owner : Text
  pub flags : ℕ
  pub protocol : ℕ
  pub algorithm : ℕ
  pub public_key : Text

pub record Ds : Type 0 where
  pub key_tag : ℕ
  pub algorithm : ℕ
  pub digest_type : ℕ
  pub digest : Text

pub record Nsec3 : Type 0 where
  pub flags : ℕ
  pub next_hash : Text
  pub types : List ℕ

-- The Go type behind the interface dns.RR, as the type switches see it.
pub data Body : Type 0 where
  cname : Text → Body
  dname : Text → Body
  soa : Body
  opt : Opt → Body
  rrsig : Rrsig → Body
  dnskey : Dnskey → Body
  ds : Ds → Body
  nsec : List ℕ → Body
  nsec3 : Nsec3 → Body
  other : Text → Body

-- A resource record: its header and its body.
pub record Rr : Type 0 where
  pub name : Text
  pub rrtype : ℕ
  pub ttl : ℕ
  pub body : Body

pub record Msg : Type 0 where
  pub id : ℕ
  pub response : Bool
  pub rcode : ℕ
  pub truncated : Bool
  pub recursion_available : Bool
  pub authenticated_data : Bool
  pub question : List Question
  pub answer : List Rr
  pub ns : List Rr
  pub extra : List Rr

-- new(dns.Msg)
abbrev pub empty_msg : Msg
empty_msg = record {
  id = 0;
  response = false;
  rcode = 0;
  truncated = false;
  recursion_available = false;
  authenticated_data = false;
  question = [];
  answer = [];
  ns = [];
  extra = [];
}

-- What the program calls of the library.
pub record DnsLib : Type 0 where
  -- dns.CanonicalName
  pub canonical_name : Text → Text
  -- dns.TypeToString and dns.ClassToString; the empty text for a missing key.
  pub type_to_string : ℕ → Text
  pub class_to_string : ℕ → Text
  -- msg.IsEdns0()
  pub is_edns0 : Msg → Option Opt
  -- msg.SetEdns0(size, do)
  pub set_edns0 : Msg → ℕ → Bool → Msg
  -- A write through the pointer that msg.IsEdns0() returns.
  pub update_edns0 : Msg → Opt → Msg

-- An OPT record by its header.
abbrev pub is_opt : Rr → Bool
is_opt rr = rr.rrtype == RrType.opt

-- What the documentation says of the OPT functions: IsEdns0 finds an OPT in the additional section
-- if there is one, SetEdns0 appends one there, and a write through the pointer changes an OPT in
-- its place. Neither touches the rest of the message.
pub record EdnsLaws (lib : DnsLib) : Type 0 where
  pub missing : (m : Msg) → any is_opt m.extra ≡ false → lib.is_edns0 m ≡ none
  pub present : (m : Msg) → any is_opt m.extra ≡ true → (o : Opt) × (lib.is_edns0 m ≡ some o)
  pub appends :
      (m : Msg) (size : ℕ) (dnssec_ok : Bool)
      → (rr : Rr) × (rr.rrtype ≡ RrType.opt)
        × (lib.set_edns0 m size dnssec_ok ≡ record m { extra = m.extra ++ rr ∷ [] })
  pub appended :
      (m : Msg) (size : ℕ) (dnssec_ok : Bool)
      → any is_opt m.extra ≡ false
      → lib.is_edns0 (lib.set_edns0 m size dnssec_ok)
        ≡ some (record { udp_size = size; dnssec_ok = dnssec_ok; ede = [] })
  pub in_place :
      (m : Msg) (o : Opt)
      → (e : List Rr) × (map (λ rr. rr.rrtype) e ≡ map (λ rr. rr.rrtype) m.extra)
        × (lib.update_edns0 m o ≡ record m { extra = e })
  pub updated :
      (m : Msg) (o o' : Opt)
      → lib.is_edns0 m ≡ some o
      → lib.is_edns0 (lib.update_edns0 m o') ≡ some o'
