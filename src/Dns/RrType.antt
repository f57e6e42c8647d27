-- ===== src/Dns/RrType.antt =====
-- The record types of package dns that the program names.
use rcvd.Prelude.{ℕ}

abbrev pub a : ℕ
a = 1

abbrev pub ns : ℕ
ns = 2

abbrev pub cname : ℕ
cname = 5

abbrev pub soa : ℕ
soa = 6

abbrev pub opt : ℕ
opt = 41

abbrev pub ds : ℕ
ds = 43

abbrev pub rrsig : ℕ
rrsig = 46

abbrev pub nsec : ℕ
nsec = 47

abbrev pub dnskey : ℕ
dnskey = 48

abbrev pub nsec3 : ℕ
nsec3 = 50
