-- ===== src/Dns/Tests.antt =====
-- The name "ww.a".
use poplar.Prelude.{ℕ, ◌≡◌, refl, List, [], ◌∷◌, none, some, arith}
use poplar.Run.{ok}
use poplar.Dns.{trans_dns_name_into_pkt_format, name_of, check_dns_name_pkt_format}
use poplar.Dns.Checking.{never_ends}
use poplar.Dns.Parsing.{dns_round_trip}

dns_round_trip_example :
    (query : List ℕ) × (trans_dns_name_into_pkt_format (some (119 ∷ 119 ∷ 46 ∷ 97 ∷ []))
      ≡ ok (some query))
    × (name_of 2 query ≡ some (ok (some (119 ∷ 119 ∷ 46 ∷ 97 ∷ 0 ∷ []))))
dns_round_trip_example =
    dns_round_trip (119 ∷ 119 ∷ []) ((97 ∷ []) ∷ []) 2
      ((refl, (refl, tt)), omega arith, ((refl, tt), omega arith, tt))
      (omega arith, (omega arith, tt)) (omega arith)

never_ends_example : check_dns_name_pkt_format 1000 (255 ∷ 3 ∷ 0 ∷ []) 2 ≡ none
never_ends_example = never_ends 1000 2 (3 ∷ 0 ∷ []) (omega arith)
