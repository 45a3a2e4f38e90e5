-- ===== src/Dns/QueryTests.antt =====
-- Queries for names.
use poplar.Prelude.{◌≡◌, refl, [], ◌∷◌, none, some, true, false, arith, replicate}
use poplar.Prelude.Int.{pos, negsuc}
use poplar.Run.{ok, fault, aborted}
use poplar.Dns.Query.{get_host_by_name_unblock, if_ipv4address}
use poplar.Dns.Sending.{query_sent}

-- The query for "ww.a" with the number 65535.
query_sent_example :
    get_host_by_name_unblock
      (λ n. some (replicate n 7))
      (λ p. true)
      65535
      (some (119 ∷ 119 ∷ 46 ∷ 97 ∷ []))
    ≡ ok (record {
      result = pos 0;
      next_id = 0;
      sent = some (
          255 ∷ 255 ∷ 1 ∷ 0 ∷ 0 ∷ 1 ∷ 0 ∷ 0 ∷ 0 ∷ 0 ∷ 0 ∷ 0 ∷ 2 ∷ 119 ∷ 119 ∷ 1 ∷ 97 ∷ 0 ∷ 0 ∷ 1 ∷ 0
          ∷ 1 ∷ []);
    })
query_sent_example =
    query_sent (λ n. some (replicate n 7)) (replicate 22 7) (λ p. true) 65535 (119 ∷ 119 ∷ [])
      ((97 ∷ []) ∷ []) ((refl, (refl, tt)), omega arith, ((refl, tt), omega arith, tt)) refl refl
      (omega arith)

-- Without a name nothing is sent, and without memory the program ends.
no_name :
    get_host_by_name_unblock (λ n. none) (λ p. true) 3 none
    ≡ ok (record { result = negsuc 0; next_id = 3; sent = none })
unfolding get_host_by_name_unblock
no_name = refl

no_memory : get_host_by_name_unblock (λ n. none) (λ p. false) 3 (some (97 ∷ [])) ≡ fault aborted
unfolding get_host_by_name_unblock
no_memory = refl

-- "1.1.1" is too short to be asked about.
too_short : if_ipv4address (λ s. pos 1) (49 ∷ 46 ∷ 49 ∷ 46 ∷ 49 ∷ 0 ∷ []) ≡ ok (negsuc 0)
unfolding if_ipv4address
too_short = refl
