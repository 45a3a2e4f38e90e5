-- ===== src/Dns/Connecting.antt =====
-- What a reply does for the peer that waits for it.
use poplar.Prelude.{ℕ, ◌≡◌, some}
use poplar.Run.{ok}
use poplar.Hash.{Hash}
use poplar.Peer.{Peer}
use poplar.DnsCache.{DnsQueryResult, DnsCache, name_at, dns_cache_lookup_by_hostname}

-- A cache in which a lookup of the name of the result finds one.
abbrev pub HasName : (ℕ → DnsQueryResult) → DnsCache → ℕ → Type 0
HasName results c p =
    (q : ℕ) × (dns_cache_lookup_by_hostname results c (name_at results p) ≡ ok (some q))
