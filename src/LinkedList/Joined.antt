-- ===== src/LinkedList/Joined.antt =====
-- list_add_list adds the values of one list behind those of another.
use poplar.Prelude.{
  ℕ, ◌+◌, ◌^◌, ◌<◌, ◌≡◌, refl, sym, ap, subst, ◌∙◌, List, [], ◌∷◌, ◌++◌, map, Option, none, some,
  arith, length,
}
use mathlib.Core.List.{append_assoc, append-nil}
use poplar.Run.{Run, ok, fault, Returns, Completes}
use poplar.Prelude.Lists.{length-append}
use poplar.Prelude.Distinct.{Absent, Absent-append}
use poplar.Links.{Ends, Holds, first_or, last_or, link}
use poplar.Links.Segment.{Same-everywhere}
use poplar.Links.Relink.{Holds-ends}
use poplar.Links.Unlink.{Holds-frame, Holds-neighbours}
use poplar.Links.Apart.{Apart, link-apart}
use poplar.LinkedList.{State, links, ends, listnode_add, list_add_list}
use poplar.LinkedList.Added.{Stores, Inserted, Inserted-Stores, add-Inserted, map-same}

-- Nodes that calloc may return one after the other: on neither list and all different.
abbrev pub Fresh : List ℕ → List ℕ → List ℕ → Type 0
Fresh [] xs zs = Unit
Fresh (f ∷ fs) xs zs = Absent f xs × Absent f zs × Absent f fs × Fresh fs xs zs

Fresh-append :
    (fs xs zs : List ℕ) (f : ℕ) → Fresh fs xs zs → Absent f fs → Fresh fs (xs ++ f ∷ []) zs
Fresh-append [] xs zs f h a = tt
Fresh-append (g ∷ fs) xs zs f (p, q, r, h) (ne, a) =
    (Absent-append g f xs (λ e. ne (sym e)) p, q, r, Fresh-append fs xs zs f h a)

Apart-append : (xs zs : List ℕ) (f : ℕ) → Apart xs zs → Absent f zs → Apart (xs ++ f ∷ []) zs
Apart-append [] zs f h a = (a, tt)
Apart-append (x ∷ xs) zs f h a = (h.0, Apart-append xs zs f h.1 a)

-- After a node was added to one list, the other is as it was, with its values.
record Step (f : ℕ) (v : ℕ) (xs zs : List ℕ) (m : Ends) (s t : State) : Type 0 where
  held : Holds (links t) (ends t) (xs ++ f ∷ [])
  values : map t.value (xs ++ f ∷ []) ≡ map s.value xs ++ some v ∷ []
  other : Holds (links t) m zs
  still : map t.value zs ≡ map s.value zs

step :
    (s t : State) (f v : ℕ) (xs zs : List ℕ) (m : Ends)
    → Holds (links s) (ends s) xs
    → Holds (links s) m zs
    → Absent f xs
    → Absent f zs
    → Apart xs zs
    → length xs + 1 < 2 ^ 32
    → Inserted s (last_or none xs) none f (some v) t
    → Step f v xs zs m s t
step s t f v xs zs m k o ax az ap' small i =
    let k' = subst (Holds (links s) (ends s)) (sym (append-nil xs)) k in
    let a' = subst (Absent f) (sym (append-nil xs)) ax in
    let st = Inserted-Stores s t xs [] f (some v) k' a' (rw (append-nil xs) small) i in
    let g = link (links s) (last_or none xs) none f in
    record {
      held = st.held;
      values = st.values;
      other =
          Holds-frame g (links t) m zs (link-apart (links s) m f xs [] zs o az ap' tt)
            (Same-everywhere t.next g.next zs i.next) (Same-everywhere t.prev g.prev zs i.prev);
      still = map-same t.value s.value f (some v) zs i.value az;
    }

abbrev first_of : List (Option ℕ) → Option ℕ
first_of [] = none
first_of (v ∷ vs) = v

abbrev others_of : List (Option ℕ) → List (Option ℕ)
others_of [] = []
others_of (v ∷ vs) = vs

map-right :
    (f g : ℕ → Option ℕ) (done rest : List ℕ)
    → map f (done ++ rest) ≡ map g (done ++ rest)
    → map f rest ≡ map g rest
map-right f g [] rest h = h
map-right f g (x ∷ done) rest h = map-right f g done rest (ap others_of h)

after :
    (c : Run State) (z : ℕ) (fs : List ℕ) (P : State → Type 0) (Q : Run State → Type 0)
    → Returns c P
    → ((t : State) → P t → Completes (list_add_list t (t.next z) fs) Q)
    → Completes (elim c [ fault e ↦ some (fault e) | ok t ↦ list_add_list t (t.next z) fs ]) Q
after (ok t) z fs P Q p g = g t p
after (fault e) z fs P Q p g = elim p [ ]

add_from :
    (rest : List ℕ) (s : State) (xs all done fresh vs : List ℕ) (m : Ends)
    → Holds (links s) (ends s) xs
    → Holds (links s) m all
    → all ≡ done ++ rest
    → map s.value rest ≡ map some vs
    → Fresh fresh xs all
    → Apart xs all
    → length fresh ≡ length rest
    → length xs + length rest < 2 ^ 32
    → Completes
        (list_add_list s (first_or none rest) fresh)
        (λ c. Returns c (Stores (xs ++ fresh) (map s.value xs ++ map some vs)))
unfolding list_add_list
add_from [] s xs all done [] [] m k o e vals new apart same small = record {
  held = subst (Holds (links s) (ends s)) (sym (append-nil xs)) k;
  values = ap (map s.value) (append-nil xs) ∙ sym (append-nil (map s.value xs));
}
add_from [] s xs all done (f ∷ fs) vs m k o e vals new apart same small = ground arith
add_from [] s xs all done [] (v ∷ vs) m k o e vals new apart same small =
    ground (arith, ap (length {A = Option ℕ}) vals)
add_from (z ∷ rest) s xs all done [] vs m k o e vals new apart same small = ground arith
add_from (z ∷ rest) s xs all done (f ∷ fs) [] m k o e vals new apart same small =
    ground (arith, ap (length {A = Option ℕ}) vals)
add_from (z ∷ rest) s xs all done (f ∷ fs) (v ∷ vs) m k o e vals (ax, az, af, new) apart same
      small =
    let q : Run State → Type 0 =
      λ c. Returns c (Stores (xs ++ f ∷ fs) (map s.value xs ++ some v ∷ map some vs)) in
    let added =
      subst (λ w. Returns (listnode_add s f w) (Inserted s (last_or none xs) none f (some v)))
        (sym (ap first_of vals)) (add-Inserted s xs f v k ax) in
    after (listnode_add s f (s.value z)) z fs (Inserted s (last_or none xs) none f (some v)) q added
      (λ t i.
        let st = step s t f v xs all m k o ax az apart (omega arith) i in
        let next =
          (Holds-neighbours (links t) m z done rest (subst (Holds (links t) m) e st.other)).1 in
        let same_rest =
          map-right t.value s.value done (z ∷ rest)
            (subst (λ as'. map t.value as' ≡ map s.value as') e st.still) in
        let longer = length-append xs (f ∷ []) in
        subst (λ p. Completes (list_add_list t p fs) q) (sym next)
          (subst
            (λ ns.
              Completes (list_add_list t (first_or none rest) fs)
                (λ c. Returns c (Stores ns (map s.value xs ++ some v ∷ map some vs))))
            (append_assoc xs (f ∷ []) fs)
            (subst
              (λ ws.
                Completes (list_add_list t (first_or none rest) fs)
                  (λ c. Returns c (Stores ((xs ++ f ∷ []) ++ fs) ws)))
              (ap (λ ws. ws ++ map some vs) st.values
                ∙ append_assoc (map s.value xs) (some v ∷ []) (map some vs))
              (add_from rest t (xs ++ f ∷ []) all (done ++ z ∷ []) fs vs m st.held st.other
                (e ∙ sym (append_assoc done (z ∷ []) rest)) (ap others_of (same_rest ∙ vals))
                (Fresh-append fs xs all f new af) (Apart-append xs all f apart az) (omega arith)
                (omega (arith, longer))))))

-- Two well-formed lists with no node in common, on `xs` and on `zs`, fewer than 2 ^ 32 nodes in all,
-- every value of the second set, and as many new nodes as that has, different and on neither list:
-- list_add_list ends and returns, and the first list holds its own values and then those of the
-- second, in order, on its own nodes and then the new ones.
add_list-Stores :
    (s : State) (m : Ends) (xs zs fresh vs : List ℕ)
    → Holds (links s) (ends s) xs
    → Holds (links s) m zs
    → Apart xs zs
    → map s.value zs ≡ map some vs
    → Fresh fresh xs zs
    → length fresh ≡ length zs
    → length xs + length zs < 2 ^ 32
    → Completes
        (list_add_list s m.head fresh)
        (λ c. Returns c (Stores (xs ++ fresh) (map s.value xs ++ map some vs)))
add_list-Stores s m xs zs fresh vs k o apart vals new same small =
    subst
      (λ p.
        Completes (list_add_list s p fresh)
          (λ c. Returns c (Stores (xs ++ fresh) (map s.value xs ++ map some vs))))
      (sym (Holds-ends (links s) m zs o).0)
      (add_from zs s xs zs [] fresh vs m k o refl vals new apart same small)
