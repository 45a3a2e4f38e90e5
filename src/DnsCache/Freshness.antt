-- ===== src/DnsCache/Freshness.antt =====
-- A result that was asked for becomes the freshest.
use poplar.Prelude.{
  ℕ, ◌+◌, ◌^◌, ◌<◌, ◌≤◌, ◌≡◌, inl, inr, refl, ap, sym, ◌∙◌, subst, Bool, true, false, List, [], ◌∷◌,
  ◌++◌, map, Option, none, some, arith, length, get_or, drop, ◌==◌, ==_iff, if◌then◌else◌,
  Bool-cases,
}
use poplar.Prelude.Lists.{length-append}
use poplar.Prelude.Distinct.{Absent, Absent-split, Absent-join, last, last-append, last_exists}
use mathlib.Core.List.{append-nil}
use poplar.Run.{ok, Completes-some, Returns-ok}
use poplar.Links.{Linked, Holds, last_or}
use poplar.Links.Walk.{find_from-Linked, before, since, before-since}
use poplar.LinkedList.{State, links, ends, same, listnode_add, listnode_delete}
use poplar.LinkedList.Added.{Stores, add-Stores}
use poplar.LinkedList.Removed.{remove_first, delete_there, rest_of, map-removed}
use poplar.DnsCache.{
  DnsQueryResult, DnsCache, is_same_name, name_at, data_of, move_to_end, dns_cache_freshness_update,
}
use poplar.DnsCache.Names.{same_name_refl, same_name-eq}
use poplar.DnsCache.Agreement.{
  first_named, Agrees, Among, among, first_named-last, Unlike-last, first_named-there,
  first_named-without, remove_first-there, none_parts,
}
use poplar.DnsCache.Added.{map_some}

tail_of :
    (next prev : ℕ → Option ℕ) (b s : Option ℕ) (xs : List ℕ) (l e : Option ℕ)
    → Linked next prev b s xs l e
    → l ≡ last_or b xs
tail_of next prev b s [] l e k = k.1
tail_of next prev b s (x ∷ xs) l e k = tail_of next prev (some x) (next x) xs l e k.2

-- What the deletion leaves, on nodes that were there.
delete_among :
    (s : State) (xs : List ℕ) (fuel : ℕ) (val : Option ℕ) (vs : List (Option ℕ)) (node : ℕ)
    → Stores xs vs s
    → length xs < 2 ^ 32
    → length xs ≤ fuel
    → Absent node xs
    → (t : State) × (ys : List ℕ) × (listnode_delete fuel s val ≡ some t)
      × Stores ys (remove_first val vs) t
      × Absent node ys
      × (length ys ≤ length xs)
delete_among s xs fuel val vs node st small enough absent =
    let test = λ (n : ℕ). same (s.value n) val in
    let whole = before-since test xs in
    let kept = before test xs ++ rest_of (since test xs) in
    let (t, runs, done) =
      Completes-some {P = Stores kept (map s.value kept)} (listnode_delete fuel s val) (
        delete_there s (before test xs) (since test xs) fuel val
          (find_from-Linked s.next s.prev test fuel none s.head xs s.tail st.held.linked enough)
          (subst (λ zs. Holds (links s) (ends s) zs) (sym whole) st.held) (rw whole small)) in
    let (left, right) =
      Absent-split node (before test xs) (since test xs) (subst (Absent node) (sym whole) absent) in
    (
      t,
      kept,
      runs,
      subst (λ ws. Stores kept ws t) (map-removed s val xs ∙ ap (remove_first val) st.values) done,
      Absent-join node (before test xs) (rest_of (since test xs)) left
          (Absent-rest node (since test xs) right),
      shorter (before test xs) (since test xs) xs whole,
    )
  where
    Absent-rest : (a : ℕ) (ys : List ℕ) → Absent a ys → Absent a (rest_of ys)
    Absent-rest a [] h = tt
    Absent-rest a (y ∷ ys) h = h.1

    shorter : (as' bs cs : List ℕ) → as' ++ bs ≡ cs → length (as' ++ rest_of bs) ≤ length cs
    shorter [] [] cs e = omega arith
    shorter [] (b ∷ bs) cs e = omega (arith, ap length e)
    shorter (a ∷ as') bs cs e = omega (arith, ap length e, shorter as' bs (as' ++ bs) refl)

-- The last node has the last of the values.
last_node :
    (s : State) (n : ℕ) (ns : List ℕ) (r : ℕ) (rs : List ℕ) (v : ℕ)
    → map s.value (n ∷ ns) ≡ map some (r ∷ rs)
    → last (r ∷ rs) ≡ some v
    → (t : ℕ) × (last_or (some n) ns ≡ some t) × (s.value t ≡ some v)
last_node s n [] r [] v e l = (n, refl, ap (λ m. get_or m 0 none) e ∙ l)
last_node s n [] r (q ∷ rs) v e l = let no = ap (drop 1) e in cc
last_node s n (m ∷ ns) r [] v e l = let no = ap (drop 1) e in cc
last_node s n (m ∷ ns) r (q ∷ rs) v e l = last_node s m ns q rs v (ap (drop 1) e) l

module _ (results : ℕ → DnsQueryResult) where
  tail_data :
      (s : State) (nodes rs : List ℕ) (v : ℕ)
      → Stores nodes (map some rs) s
      → last rs ≡ some v
      → data_of results s s.tail ≡ ok v
  tail_data s [] [] v st l = cc
  tail_data s [] (r ∷ rs) v st l = let no = st.values in cc
  tail_data s (n ∷ ns) [] v st l = cc
  tail_data s (n ∷ ns) (r ∷ rs) v st l =
      let (t, e, at) = last_node s n ns r rs v st.values l in
      let ends-at : s.tail ≡ some t =
        tail_of s.next s.prev none s.head (n ∷ ns) s.tail none st.held.linked ∙ e in
      rw (ends-at, at) refl

  fresh_already :
      (fuel : ℕ) (cache : DnsCache) (node p : ℕ)
      → data_of results cache.queue cache.queue.tail ≡ ok p
      → dns_cache_freshness_update results fuel cache node p ≡ some (ok cache)
  unfolding dns_cache_freshness_update
  fresh_already fuel cache node p e =
      let itself : (p == p) ≡ true = ground arith in rw (dns_cache_freshness_update, e, itself) refl

  fresh_moved :
      (fuel : ℕ) (cache : DnsCache) (node p v : ℕ) (q t : State)
      → data_of results cache.queue cache.queue.tail ≡ ok v
      → (v == p) ≡ false
      → listnode_delete fuel cache.queue (some p) ≡ some q
      → listnode_add q node (some p) ≡ ok t
      → dns_cache_freshness_update results fuel cache node p
        ≡ some (ok (record cache { queue = t }))
  unfolding dns_cache_freshness_update move_to_end
  fresh_moved fuel cache node p v q t e other c1 c2 =
      rw (dns_cache_freshness_update, e, other, move_to_end, c1, listnode_add, c2) refl

  last_behind : (as' : List ℕ) (p q : ℕ) (bs : List ℕ) → last (as' ++ p ∷ (q ∷ bs)) ≡ last (q ∷ bs)
  last_behind [] p q bs = refl
  last_behind (a ∷ []) p q bs = refl
  last_behind (a ∷ b ∷ as') p q bs = last_behind (b ∷ as') p q bs

  last_other :
      (p v : ℕ) (bs : List ℕ)
      → first_named results (name_at results p) bs ≡ none
      → last bs ≡ some v
      → (v == p) ≡ false
  last_other p v [] h l = cc
  last_other p v (b ∷ []) h l =
      let (other, rest) =
        none_parts results (is_same_name (name_at results b) (name_at results p)) b none h in
      elim (Bool-cases (v == p)) [
        | inl y ↦
            let same : b ≡ p = value_of l ∙ (==_iff v p).0 y in
            cc (
              subst (λ (k : ℕ). is_same_name (name_at results b) (name_at results k) ≡ true) same
                (same_name_refl (name_at results b)))
        | inr n ↦ n
      ]
    where
      value_of : {x y : ℕ} → some x ≡ some y → x ≡ y
      value_of {x} e = ap (λ o. elim o [ none ↦ x | some z ↦ z ]) e
  last_other p v (b ∷ c ∷ bs) h l =
      let (other, rest) =
        none_parts results (is_same_name (name_at results b) (name_at results p)) b
          (first_named results (name_at results p) (c ∷ bs)) h in
      last_other p v (c ∷ bs) rest l

  lacks_both :
      (name : List ℕ) (as' bs : List ℕ)
      → first_named results name as' ≡ none
      → first_named results name bs ≡ none
      → first_named results name (as' ++ bs) ≡ none
  lacks_both name [] bs h k = k
  lacks_both name (a ∷ as') bs h k =
      let (other, rest) =
        none_parts results (is_same_name (name_at results a) name) a (first_named results name as')
          h in
      rw other (lacks_both name as' bs rest k)

  moved_length :
      (as' : List ℕ) (p : ℕ) (bs : List ℕ) → length (as' ++ p ∷ bs) ≡ length ((as' ++ bs) ++ p ∷ [])
  moved_length as' p bs =
      omega (
        arith,
        length-append as' (p ∷ bs),
        length-append (as' ++ bs) (p ∷ []),
        length-append as' bs,
      )

  -- The table after the move.
  still_found :
      (name : List ℕ) (as' : List ℕ) (p : ℕ) (bs : List ℕ)
      → Among results as' p bs
      → first_named results (name_at results p) (as' ++ bs) ≡ none
      → first_named results name (as' ++ p ∷ bs) ≡ first_named results name ((as' ++ bs) ++ p ∷ [])
  still_found name as' p bs k gone =
      let moved = first_named-last results name (as' ++ bs) p gone in
      let out = first_named-without results name as' p bs k.before k.behind in
      elim (Bool-cases (is_same_name (name_at results p) name)) [
        | inl y ↦
            let there =
              subst (λ (n : List ℕ). first_named results n (as' ++ p ∷ bs) ≡ some p)
                (same_name-eq (name_at results p) name y)
                (first_named-there results as' p bs k.before) in
            there
            ∙ sym (
                moved
                ∙ ap (λ (b : Bool). if b then some p else first_named results name (as' ++ bs)) y)
        | inr n ↦ sym (
            moved
            ∙ ap (λ (b : Bool). if b then some p else first_named results name (as' ++ bs)) n
            ∙ sym out
            ∙ ap (λ (b : Bool). if b then none else first_named results name (as' ++ p ∷ bs)) n)
      ]

  -- A result that the cache holds, and a new node: with fuel for every node DnsCacheFreshnessUpdate ends
  -- and returns, and table and queue agree on the same results, this one the freshest and the others in
  -- their order.
  pub freshness-Agrees :
      (fuel : ℕ) (cache : DnsCache) (nodes as' : List ℕ) (node p : ℕ) (bs : List ℕ)
      → Agrees results nodes (as' ++ p ∷ bs) cache
      → Absent node nodes
      → length nodes + 1 < 2 ^ 32
      → length nodes ≤ fuel
      → (c : DnsCache) × (nodes' : List ℕ) × (dns_cache_freshness_update results fuel cache node p
          ≡ some (ok c))
        × Agrees results nodes' ((as' ++ bs) ++ p ∷ []) c
        × (c.released ≡ cache.released)
  freshness-Agrees fuel cache nodes as' node p [] v absent small enough =
      let l = last-append as' p in
      (
        cache,
        nodes,
        fresh_already fuel cache node p (tail_data cache.queue nodes (as' ++ p ∷ []) p v.queued l),
        subst (λ rs. Agrees results nodes (rs ++ p ∷ []) cache) (sym (append-nil as')) v,
        refl,
      )
  freshness-Agrees fuel cache nodes as' node p (b ∷ bs) v absent small enough =
      let k = among results as' p (b ∷ bs) v.unlike in
      let rs = as' ++ b ∷ bs in
      let (u, l) = last_exists b bs in
      let at =
        tail_data cache.queue nodes (as' ++ p ∷ b ∷ bs) u v.queued (last_behind as' p b bs ∙ l) in
      let (q, ys, deletes, st, absent', shorter) =
        delete_among cache.queue nodes fuel (some p) (map some (as' ++ p ∷ b ∷ bs)) node v.queued
          (omega arith) enough absent in
      let st' =
        subst (λ vs. Stores ys vs q) (remove_first-there results as' p (b ∷ bs) k.before) st in
      let (t, adds, done) =
        Returns-ok _ (add-Stores q ys node p st'.held absent' (omega (arith, small, shorter))).0 in
      let gone : first_named results (name_at results p) rs ≡ none =
        lacks_both (name_at results p) as' (b ∷ bs) k.before k.behind in
      (
        record cache { queue = t },
        ys ++ node ∷ [],
        fresh_moved fuel cache node p u q t at (last_other p u (b ∷ bs) k.behind l) deletes adds,
        record {
          valid = v.valid;
          keys = v.keys;
          tests = v.tests;
          queued =
              subst (λ vs. Stores (ys ++ node ∷ []) vs t)
                (ap (λ vs. vs ++ some p ∷ []) st'.values ∙ map_some results rs p) done;
          found = λ r. v.found r ∙ still_found (name_at results r) as' p (b ∷ bs) k gone;
          unlike = Unlike-last results rs p k.others gone;
          keyed = v.keyed;
          counts = v.counts ∙ moved_length as' p (b ∷ bs);
        },
        refl,
      )
