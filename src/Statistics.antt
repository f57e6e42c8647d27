-- ===== src/Statistics.antt =====
-- internal/statistics/statistics.go: the counters of one instance. An int64 counter is a natural
-- number, since 2 ^ 63 increments are out of reach; latencies are microseconds, never negative.
-- The text that Render prints, the per-protocol counters that the transports bump, and the start
-- time are left out.
pub mod Buckets
use rcvd.Prelude.{
  ℕ, ◌+◌, ◌/◌, Bool, true, false, not, ◌&&◌, Option, none, some, leb, ltb, ◌==◌, if◌then◌else◌,
}

-- The quadruple that recordLatencyInto updates.
pub record Latency : Type 0 where
  pub min_us : ℕ
  pub max_us : ℕ
  pub total_us : ℕ
  pub count : ℕ

pub record Stats : Type 0 where
  pub total_queries : ℕ
  pub cache_hits : ℕ
  pub cache_misses : ℕ
  pub stale_served : ℕ
  pub blocked_queries : ℕ
  pub blocklist_files_loaded : ℕ
  pub denied_queries : ℕ
  pub servfail_responses : ℕ
  pub nxdomain_responses : ℕ
  pub success_responses : ℕ
  pub other_responses : ℕ
  pub upstream_queries : ℕ
  pub upstream_errors : ℕ
  pub dnssec_validated : ℕ
  pub dnssec_failed : ℕ
  pub dnssec_unsigned : ℕ
  pub latency : Latency
  pub mode2_latency : Latency

-- recordLatencyInto: without another writer between the load and the swap, each loop runs once.
unfoldable pub record_latency_into : Latency → ℕ → Latency
record_latency_into l us = record {
  min_us = if not (l.min_us == 0) && leb l.min_us us then l.min_us else us;
  max_us = if leb us l.max_us then l.max_us else us;
  total_us = l.total_us + us;
  count = l.count + 1;
}

-- RecordResponse
unfoldable pub record_response : ℕ → Stats → Stats
record_response rcode s =
    if rcode == 0
    then record s { success_responses = s.success_responses + 1 }
    else if rcode == 2
    then record s { servfail_responses = s.servfail_responses + 1 }
    else if rcode == 3
    then record s { nxdomain_responses = s.nxdomain_responses + 1 }
    else record s { other_responses = s.other_responses + 1 }

-- RecordLatency
unfoldable pub record_latency : ℕ → Stats → Stats
record_latency us s = record s { latency = record_latency_into s.latency us }

-- RecordMode2Latency
unfoldable pub record_mode2_latency : ℕ → Stats → Stats
record_mode2_latency us s = record s { mode2_latency = record_latency_into s.mode2_latency us }

-- AddBlocklistFile
unfoldable pub add_blocklist_file : Stats → Stats
add_blocklist_file s = record s { blocklist_files_loaded = s.blocklist_files_loaded + 1 }

-- SetBlocklistFiles
unfoldable pub set_blocklist_files : ℕ → Stats → Stats
set_blocklist_files n s = record s { blocklist_files_loaded = n }

-- The average of TakeSnapshot.
unfoldable pub average_us : Latency → ℕ
average_us l = if ltb 0 l.count then l.total_us / l.count else 0

-- `if s.stats != nil { ... }`
abbrev pub on_stats : (Stats → Stats) → Option Stats → Option Stats
on_stats f none = none
on_stats f (some s) = some (f s)
