-- ===== src/Event/Relinked.antt =====
-- What the operations on event lists do to the list they work on and to the others.
use poplar.Prelude.{
  ℕ, ◌+◌, ◌-◌, ◌%◌, ◌^◌, ◌<◌, ◌≡◌, ◌≢◌, refl, sym, ap, subst, ◌∙◌, List, [], ◌∷◌, ◌++◌, Option,
  none, some, arith, length,
}
use mathlib.Core.List.{append-nil}
use poplar.Prelude.Distinct.{Absent, Absent-split, Distinct-remove}
use poplar.Links.{Links, Ends, Holds, put, put_if, last_or, first_or, or_else, link, take_out}
use poplar.Links.Segment.{Same-everywhere, Same-trans, put-Same}
use poplar.Links.Relink.{first_or-ne, Holds-ends, link-Holds, linked_ends, length-insert}
use poplar.Links.Unlink.{Holds-frame, Holds-neighbours, take_out-Holds, unlinked_ends}
use poplar.Links.Apart.{link-apart, take_out-apart, Apart}
use poplar.Event.Lists.{event_list_add, event_list_add_before, event_list_delete}
use poplar.LinkedList.Added.{put-apart, has_last}

-- `v` was linked between `b` and `e`.
pub record Added (h : Links) (l : Ends) (b e : Option ℕ) (v : ℕ) (r : Links × Ends) : Type 0 where
  pub next : (a : ℕ) → r.0.next a ≡ (link h b e v).next a
  pub prev : (a : ℕ) → r.0.prev a ≡ (link h b e v).prev a
  pub head : r.1.head ≡ or_else b (some v) l.head
  pub tail : r.1.tail ≡ or_else e (some v) l.tail
  pub count : r.1.count ≡ (l.count + 1) % 2 ^ 32

-- `v`, between `b` and `e`, was unlinked and points to nothing.
pub record Removed (h : Links) (l : Ends) (b e : Option ℕ) (v : ℕ) (r : Links × Ends) : Type 0 where
  pub next : (a : ℕ) → r.0.next a ≡ put (put_if h.next b e) v none a
  pub prev : (a : ℕ) → r.0.prev a ≡ put (put_if h.prev e b) v none a
  pub head : r.1.head ≡ or_else b e l.head
  pub tail : r.1.tail ≡ or_else e b l.tail
  pub count : r.1.count ≡ (l.count + 2 ^ 32 - 1) % 2 ^ 32

pub add-Added :
    (h : Links) (l : Ends) (xs : List ℕ) (v : ℕ)
    → Holds h l xs
    → Absent v xs
    → Added h l (last_or none xs) none v (event_list_add h l v)
unfolding event_list_add link
add-Added h l [] v k a =
    let (first, final) = Holds-ends h l [] k in
    rw final (record {
      next = λ q. ground arith;
      prev = λ q. ground (arith, final);
      head = refl;
      tail = refl;
      count = refl;
    })
add-Added h l (x ∷ xs) v k a =
    let (first, final) = Holds-ends h l (x ∷ xs) k in
    let (t, e, ne) = has_last v x xs a in
    rw (final, e)
      (record {
        next = λ q. ground (arith, ne);
        prev = λ q. ground (arith, final, e);
        head = refl;
        tail = refl;
        count = refl;
      })

pub before-Added :
    (h : Links) (l : Ends) (point v : ℕ) (b : Option ℕ)
    → h.prev point ≡ b
    → point ≢ v
    → b ≢ some v
    → Added h l b (some point) v (event_list_add_before h l point v)
unfolding event_list_add_before link
before-Added h l point v none e ne far =
    let again = put-apart (λ q. none) v point none ne in
    rw (e, again)
      (record {
        next = λ q. ground (arith, ne, e);
        prev = λ q. ground (arith, ne, e);
        head = refl;
        tail = refl;
        count = refl;
      })
before-Added h l point v (some y) e ne far =
    let again = put-apart (λ q. some y) v point (some y) ne in
    rw (e, again)
      (record {
        next = λ q. ground (arith, far, e);
        prev = λ q. ground (arith, ne, e);
        head = refl;
        tail = refl;
        count = refl;
      })

pub Added-Holds :
    (h : Links) (l : Ends) (xs ys : List ℕ) (v : ℕ) (r : Links × Ends)
    → Holds h l (xs ++ ys)
    → Absent v (xs ++ ys)
    → length (xs ++ ys) + 1 < 2 ^ 32
    → Added h l (last_or none xs) (first_or none ys) v r
    → Holds r.0 r.1 (xs ++ v ∷ ys)
Added-Holds h l xs ys v r k a small i =
    let g = link h (last_or none xs) (first_or none ys) v in
    let there =
      Holds-frame g r.0 (linked_ends l (last_or none xs) (first_or none ys) v) (xs ++ v ∷ ys)
        (link-Holds h l v xs ys k a) (Same-everywhere r.0.next g.next (xs ++ v ∷ ys) i.next)
        (Same-everywhere r.0.prev g.prev (xs ++ v ∷ ys) i.prev) in
    record {
      linked = rw (i.head, i.tail) there.linked;
      distinct = there.distinct;
      count = i.count ∙ omega (arith, k.count) ∙ there.count;
    }

pub Added-end :
    (h : Links) (l : Ends) (xs : List ℕ) (v : ℕ) (r : Links × Ends)
    → Holds h l xs
    → Absent v xs
    → length xs + 1 < 2 ^ 32
    → Added h l (last_or none xs) none v r
    → Holds r.0 r.1 (xs ++ v ∷ [])
Added-end h l xs v r k a small i =
    Added-Holds h l xs [] v r (subst (Holds h l) (sym (append-nil xs)) k)
      (subst (Absent v) (sym (append-nil xs)) a) (rw (append-nil xs) small) i

pub Added-apart :
    (h : Links) (l m : Ends) (xs ys zs : List ℕ) (v : ℕ) (r : Links × Ends)
    → Holds h m zs
    → Absent v zs
    → Apart xs zs
    → Apart ys zs
    → Added h l (last_or none xs) (first_or none ys) v r
    → Holds r.0 m zs
Added-apart h l m xs ys zs v r k a ax ay i =
    let g = link h (last_or none xs) (first_or none ys) v in
    Holds-frame g r.0 m zs (link-apart h m v xs ys zs k a ax ay)
      (Same-everywhere r.0.next g.next zs i.next) (Same-everywhere r.0.prev g.prev zs i.prev)

pub delete-Removed :
    (h : Links) (l : Ends) (v : ℕ) (b e : Option ℕ)
    → h.prev v ≡ b
    → h.next v ≡ e
    → e ≢ some v
    → Removed h l b e v (event_list_delete h l v)
unfolding event_list_delete
delete-Removed h l v none none hb he far =
    rw (he, hb)
      (record {
        next = λ a. ground (arith, hb, he, far);
        prev = λ a. ground (arith, hb, he, far);
        head = ground (arith, hb, he, far);
        tail = ground (arith, hb, he, far);
        count = refl;
      })
delete-Removed h l v none (some r) hb he far =
    let ne = λ (e : v ≡ r). far (ap some (sym e)) in
    let still = put-apart (λ a. none) r v (none) ne in
    rw (he, hb, still)
      (record {
        next = λ a. ground (arith, hb, he, far);
        prev = λ a. ground (arith, hb, he, far);
        head = ground (arith, hb, he, far);
        tail = ground (arith, hb, he, far);
        count = refl;
      })
delete-Removed h l v (some q) none hb he far =
    rw (he, hb)
      (record {
        next = λ a. ground (arith, hb, he, far);
        prev = λ a. ground (arith, hb, he, far);
        head = ground (arith, hb, he, far);
        tail = ground (arith, hb, he, far);
        count = refl;
      })
delete-Removed h l v (some q) (some r) hb he far =
    let ne = λ (e : v ≡ r). far (ap some (sym e)) in
    let still = put-apart (λ a. some q) r v (some q) ne in
    rw (he, hb, still)
      (record {
        next = λ a. ground (arith, hb, he, far);
        prev = λ a. ground (arith, hb, he, far);
        head = ground (arith, hb, he, far);
        tail = ground (arith, hb, he, far);
        count = refl;
      })

Removed-Holds :
    (h : Links) (l : Ends) (xs ys : List ℕ) (v : ℕ) (r : Links × Ends)
    → Holds h l (xs ++ v ∷ ys)
    → length (xs ++ v ∷ ys) < 2 ^ 32
    → Absent v (xs ++ ys)
    → Removed h l (h.prev v) (h.next v) v r
    → Holds r.0 r.1 (xs ++ ys)
unfolding take_out
Removed-Holds h l xs ys v r k small out i =
    let g = take_out h v in
    let there =
      Holds-frame g r.0 (unlinked_ends l (h.prev v) (h.next v)) (xs ++ ys)
        (take_out-Holds h l v xs ys k)
        (Same-trans r.0.next (put g.next v none) g.next (xs ++ ys)
          (Same-everywhere r.0.next (put g.next v none) (xs ++ ys) i.next)
          (put-Same g.next v none (xs ++ ys) out))
        (Same-trans r.0.prev (put g.prev v none) g.prev (xs ++ ys)
          (Same-everywhere r.0.prev (put g.prev v none) (xs ++ ys) i.prev)
          (put-Same g.prev v none (xs ++ ys) out)) in
    record {
      linked = rw (i.head, i.tail) there.linked;
      distinct = there.distinct;
      count = i.count ∙ omega (arith, k.count, small, length-insert v xs ys) ∙ there.count;
    }

-- A node of the list, deleted.
pub delete-Holds :
    (h : Links) (l : Ends) (xs ys : List ℕ) (v : ℕ)
    → Holds h l (xs ++ v ∷ ys)
    → length (xs ++ v ∷ ys) < 2 ^ 32
    → Holds (event_list_delete h l v).0 (event_list_delete h l v).1 (xs ++ ys)
delete-Holds h l xs ys v k small =
    let (gone, out) = Distinct-remove v xs ys k.distinct in
    let (before, after) = Holds-neighbours h l v xs ys k in
    let far = first_or-ne v ys (Absent-split v xs ys out).1 in
    let r = event_list_delete h l v in
    let i = delete-Removed h l v (h.prev v) (h.next v) refl refl (λ e. far (sym after ∙ e)) in
    Removed-Holds h l xs ys v r k small out i

-- It does not show in a list apart from that one, and the node points to nothing.
pub delete-apart :
    (h : Links) (l m : Ends) (xs ys zs : List ℕ) (v : ℕ)
    → Holds h l (xs ++ v ∷ ys)
    → Holds h m zs
    → Absent v zs
    → Apart xs zs
    → Apart ys zs
    → Holds (event_list_delete h l v).0 m zs
unfolding take_out
delete-apart h l m xs ys zs v k z a ax ay =
    let (gone, out) = Distinct-remove v xs ys k.distinct in
    let (before, after) = Holds-neighbours h l v xs ys k in
    let far = first_or-ne v ys (Absent-split v xs ys out).1 in
    let i = delete-Removed h l v (h.prev v) (h.next v) refl refl (λ e. far (sym after ∙ e)) in
    let g = take_out h v in
    let r = (event_list_delete h l v).0 in
    Holds-frame g r m zs (take_out-apart h m l v xs ys zs k z ax ay)
      (Same-trans r.next (put g.next v none) g.next zs
        (Same-everywhere r.next (put g.next v none) zs i.next) (put-Same g.next v none zs a))
      (Same-trans r.prev (put g.prev v none) g.prev zs
        (Same-everywhere r.prev (put g.prev v none) zs i.prev) (put-Same g.prev v none zs a))

pub delete_cleared :
    (h : Links) (l : Ends) (v : ℕ)
    → ((event_list_delete h l v).0.next v ≡ none) × ((event_list_delete h l v).0.prev v ≡ none)
unfolding event_list_delete
delete_cleared h l v = (ground arith, ground arith)
