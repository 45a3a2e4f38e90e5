-- ===== src/Event/WellFormed.antt =====
-- The invariant of the event loop's lists: the type of a node says which list it is on. What it gives
-- of a node that leaves a list, and of one that joins the list of unused nodes.
use poplar.Prelude.{
  ℕ, ◌+◌, ◌^◌, ◌<◌, ◌≡◌, ◌≢◌, sym, ap, ap₂, subst, ◌∙◌, Bool, true, false, List, [], ◌∷◌, ◌++◌,
  Option, none, some, arith, length, ◌==◌, if◌then◌else◌,
}
use poplar.Run.{ok, Returns, assert, ◌>>=◌}
use poplar.Prelude.Distinct.{Absent}
use poplar.Links.{Ends, Holds}
use poplar.Links.Apart.{Apart}
use poplar.Event.Lists.{event_list_add}
use poplar.Event.Relinked.{add-Added, Added-end, Added-apart}
use poplar.Event.Master.{
  Master, assign, event_timer_get, event_timer_set, event_timer_cancel, event_timer_reset,
  event_list_add_unuse, is_null, event_type_unused, event_type_timer, event_type_rear,
  event_type_ready,
}

-- All of `xs` have the type `a`.
abbrev pub Kind : (ℕ → ℕ) → ℕ → List ℕ → Type 0
Kind kind a [] = Unit
Kind kind a (x ∷ xs) = (kind x ≡ a) × Kind kind a xs

-- The timers, the rear timers, the unused and the ready nodes, in the order of their lists.
pub record WellFormed (ts rs us ys : List ℕ) (m : Master) : Type 0 where
  pub timer : Holds m.links m.timer ts
  pub rear : Holds m.links m.rear rs
  pub unuse : Holds m.links m.unuse us
  pub ready : Holds m.links m.ready ys
  pub timers : Kind m.kind event_type_timer ts
  pub rears : Kind m.kind event_type_rear rs
  pub unused : Kind m.kind event_type_unused us
  pub readies : Kind m.kind event_type_ready ys

-- The same with a node that is on no list and points to nothing.
pub record Detached (ts rs us ys : List ℕ) (v : ℕ) (m : Master) : Type 0 where
  pub rest : WellFormed ts rs us ys m
  pub next : m.links.next v ≡ none
  pub prev : m.links.prev v ≡ none
  pub off_timer : Absent v ts
  pub off_rear : Absent v rs
  pub off_unuse : Absent v us
  pub off_ready : Absent v ys

pub Kind-Absent :
    (kind : ℕ → ℕ) (a b v : ℕ) (xs : List ℕ) → Kind kind a xs → kind v ≡ b → a ≢ b → Absent v xs
Kind-Absent kind a b v [] k e ne = tt
Kind-Absent kind a b v (x ∷ xs) k e ne =
    ((λ same. ne (sym k.0 ∙ ap kind (sym same) ∙ e)), Kind-Absent kind a b v xs k.1 e ne)

pub Kind-Apart :
    (kind : ℕ → ℕ) (a b : ℕ) (xs ys : List ℕ)
    → Kind kind a xs
    → Kind kind b ys
    → b ≢ a
    → Apart xs ys
Kind-Apart kind a b [] ys k l ne = tt
Kind-Apart kind a b (x ∷ xs) ys k l ne =
    (Kind-Absent kind b a x ys l k.0 ne, Kind-Apart kind a b xs ys k.1 l ne)

pub Kind-assign :
    (kind : ℕ → ℕ) (a v b : ℕ) (xs : List ℕ)
    → Kind kind a xs
    → Absent v xs
    → Kind (assign kind v b) a xs
Kind-assign kind a v b [] k h = tt
Kind-assign kind a v b (x ∷ xs) k h = (ground (arith, h.0, k.0), Kind-assign kind a v b xs k.1 h.1)

pub Kind-split :
    (kind : ℕ → ℕ) (a : ℕ) (xs ys : List ℕ)
    → Kind kind a (xs ++ ys)
    → Kind kind a xs × Kind kind a ys
Kind-split kind a [] ys k = (tt, k)
Kind-split kind a (x ∷ xs) ys k =
    let (left, right) = Kind-split kind a xs ys k.1 in ((k.0, left), right)

pub Kind-join :
    (kind : ℕ → ℕ) (a : ℕ) (xs ys : List ℕ)
    → Kind kind a xs
    → Kind kind a ys
    → Kind kind a (xs ++ ys)
Kind-join kind a [] ys k l = l
Kind-join kind a (x ∷ xs) ys k l = (k.0, Kind-join kind a xs ys k.1 l)

-- Which timer is set shows in nothing else.
module _ (P : Master → Type 0) (m : Master) (p : P m)
    (q : (a : Option ℕ) → P (record m { armed = a })) where
  pub set_keeps : (set : Bool) (x : ℕ) → P (event_timer_set set m x)
  unfolding event_timer_set
  set_keeps true x = q (some x)
  set_keeps false x = p

  cancel_keeps : (set : Bool) → P (event_timer_cancel set m)
  unfolding event_timer_cancel
  cancel_keeps set =
      elim m.armed
        as (λ o. P (elim o [ none ↦ m | some a ↦ if set then record m { armed = none } else m ])) [
          | none ↦ p
          | some a ↦ elim set as (λ b. P (if b then record m { armed = none } else m)) [
            | true ↦ q none
            | false ↦ p
          ]
        ]

  pub reset_keeps : (set : Bool) → P (event_timer_reset set m)
  unfolding event_timer_reset
  reset_keeps set =
      elim (event_timer_get m)
        as (λ o.
          P (elim o [ some node ↦ event_timer_set set m node | none ↦ event_timer_cancel set m ])) [
            | some x ↦ set_keeps set x
            | none ↦ cancel_keeps set
          ]

pub armed-WellFormed :
    (ts rs us ys : List ℕ) (m : Master) (a : Option ℕ)
    → WellFormed ts rs us ys m
    → WellFormed ts rs us ys (record m { armed = a })
armed-WellFormed ts rs us ys m a w = record {
  timer = w.timer;
  rear = w.rear;
  unuse = w.unuse;
  ready = w.ready;
  timers = w.timers;
  rears = w.rears;
  unused = w.unused;
  readies = w.readies;
}

pub armed-Detached :
    (ts rs us ys : List ℕ) (v : ℕ) (m : Master) (a : Option ℕ)
    → Detached ts rs us ys v m
    → Detached ts rs us ys v (record m { armed = a })
armed-Detached ts rs us ys v m a d = record {
  rest = armed-WellFormed ts rs us ys m a d.rest;
  next = d.next;
  prev = d.prev;
  off_timer = d.off_timer;
  off_rear = d.off_rear;
  off_unuse = d.off_unuse;
  off_ready = d.off_ready;
}

-- A node on no list can be given any type.
pub assign-Detached :
    (ts rs us ys : List ℕ) (v k : ℕ) (m : Master)
    → Detached ts rs us ys v m
    → Detached ts rs us ys v (record m { kind = assign m.kind v k })
assign-Detached ts rs us ys v k m d = record {
  rest = record {
    timer = d.rest.timer;
    rear = d.rest.rear;
    unuse = d.rest.unuse;
    ready = d.rest.ready;
    timers = Kind-assign m.kind event_type_timer v k ts d.rest.timers d.off_timer;
    rears = Kind-assign m.kind event_type_rear v k rs d.rest.rears d.off_rear;
    unused = Kind-assign m.kind event_type_unused v k us d.rest.unused d.off_unuse;
    readies = Kind-assign m.kind event_type_ready v k ys d.rest.readies d.off_ready;
  };
  next = d.next;
  prev = d.prev;
  off_timer = d.off_timer;
  off_rear = d.off_rear;
  off_unuse = d.off_unuse;
  off_ready = d.off_ready;
}

-- Added to the ready nodes, or to the unused ones, once it has their type.
pub ready-WellFormed :
    (ts rs us ys : List ℕ) (v : ℕ) (m : Master)
    → Detached ts rs us ys v m
    → m.kind v ≡ event_type_ready
    → length ys + 1 < 2 ^ 32
    → WellFormed ts rs us (ys ++ v ∷ []) (record m {
      links = (event_list_add m.links m.ready v).0;
      ready = (event_list_add m.links m.ready v).1;
    })
ready-WellFormed ts rs us ys v m d e small =
    let w = d.rest in
    let added = add-Added m.links m.ready ys v w.ready d.off_ready in
    let r = event_list_add m.links m.ready v in
    let other : (l : Ends) (zs : List ℕ)
        → Holds m.links l zs
        → Absent v zs
        → Apart ys zs
        → Holds r.0 l zs =
      λ l zs k a ap'. Added-apart m.links m.ready l ys [] zs v r k a ap' tt added in
    record {
      timer = other m.timer ts w.timer d.off_timer (
          Kind-Apart m.kind event_type_ready event_type_timer ys ts w.readies w.timers
            (omega arith));
      rear = other m.rear rs w.rear d.off_rear (
          Kind-Apart m.kind event_type_ready event_type_rear ys rs w.readies w.rears (omega arith));
      unuse = other m.unuse us w.unuse d.off_unuse (
          Kind-Apart m.kind event_type_ready event_type_unused ys us w.readies w.unused
            (omega arith));
      ready = Added-end m.links m.ready ys v r w.ready d.off_ready small added;
      timers = w.timers;
      rears = w.rears;
      unused = w.unused;
      readies = Kind-join m.kind event_type_ready ys (v ∷ []) w.readies (e, tt);
    }

unuse_ok :
    (m : Master) (v : ℕ)
    → m.links.prev v ≡ none
    → m.links.next v ≡ none
    → m.kind v ≡ event_type_unused
    → event_list_add_unuse m v
      ≡ ok (record m {
        links = (event_list_add m.links m.unuse v).0;
        unuse = (event_list_add m.links m.unuse v).1;
      })
unfolding event_list_add_unuse
unuse_ok m v p n k =
    ap₂
      (λ a b. assert a >>= λ u. assert b >>= λ u'. assert (m.kind v == event_type_unused) >>= λ u''.
        ok (record m {
          links = (event_list_add m.links m.unuse v).0;
          unuse = (event_list_add m.links m.unuse v).1;
        }))
      (ap is_null p) (ap is_null n)
    ∙ ap
        (λ c. assert (c == event_type_unused) >>= λ u. ok (record m {
          links = (event_list_add m.links m.unuse v).0;
          unuse = (event_list_add m.links m.unuse v).1;
        }))
        k

pub unuse-WellFormed :
    (ts rs us ys : List ℕ) (v : ℕ) (m : Master)
    → Detached ts rs us ys v m
    → m.kind v ≡ event_type_unused
    → length us + 1 < 2 ^ 32
    → Returns (event_list_add_unuse m v) (WellFormed ts rs (us ++ v ∷ []) ys)
unuse-WellFormed ts rs us ys v m d e small =
    let w = d.rest in
    let added = add-Added m.links m.unuse us v w.unuse d.off_unuse in
    let r = event_list_add m.links m.unuse v in
    let other : (l : Ends) (zs : List ℕ)
        → Holds m.links l zs
        → Absent v zs
        → Apart us zs
        → Holds r.0 l zs =
      λ l zs k a ap'. Added-apart m.links m.unuse l us [] zs v r k a ap' tt added in
    let done : WellFormed ts rs (us ++ v ∷ []) ys (record m { links = r.0; unuse = r.1 }) = record {
      timer = other m.timer ts w.timer d.off_timer (
          Kind-Apart m.kind event_type_unused event_type_timer us ts w.unused w.timers
            (omega arith));
      rear = other m.rear rs w.rear d.off_rear (
          Kind-Apart m.kind event_type_unused event_type_rear us rs w.unused w.rears (omega arith));
      ready = other m.ready ys w.ready d.off_ready (
          Kind-Apart m.kind event_type_unused event_type_ready us ys w.unused w.readies
            (omega arith));
      unuse = Added-end m.links m.unuse us v r w.unuse d.off_unuse small added;
      timers = w.timers;
      rears = w.rears;
      unused = Kind-join m.kind event_type_unused us (v ∷ []) w.unused (e, tt);
      readies = w.readies;
    } in
    subst (λ r. Returns r (WellFormed ts rs (us ++ v ∷ []) ys)) (sym (unuse_ok m v d.prev d.next e))
      done
