-- ===== src/Event/Detached.antt =====
-- A node taken off the list it is on, whichever of the four it is.
use poplar.Prelude.{ℕ, ◌^◌, ◌<◌, ◌≡◌, ◌≢◌, List, [], ◌∷◌, ◌++◌, arith, length}
use poplar.Prelude.Distinct.{Absent, Distinct-remove}
use poplar.Links.{Ends, Holds}
use poplar.Event.Lists.{event_list_delete}
use poplar.Event.Relinked.{delete-Holds, delete-apart, delete_cleared}
use poplar.Event.Master.{
  Master, event_type_unused, event_type_timer, event_type_rear, event_type_ready,
}
use poplar.Event.WellFormed.{
  WellFormed, Detached, Kind, Kind-Absent, Kind-Apart, Kind-split, Kind-join,
}

pub Kind_at : (kind : ℕ → ℕ) (a v : ℕ) (xs zs : List ℕ) → Kind kind a (xs ++ v ∷ zs) → kind v ≡ a
Kind_at kind a v [] zs k = k.0
Kind_at kind a v (x ∷ xs) zs k = Kind_at kind a v xs zs k.1

pub timer-Detached :
    (xs zs rs us ys : List ℕ) (v : ℕ) (m : Master)
    → WellFormed (xs ++ v ∷ zs) rs us ys m
    → length (xs ++ v ∷ zs) < 2 ^ 32
    → Detached (xs ++ zs) rs us ys v (record m {
      links = (event_list_delete m.links m.timer v).0;
      timer = (event_list_delete m.links m.timer v).1;
    })
timer-Detached xs zs rs us ys v m w small =
    let off : (a : ℕ) (os : List ℕ) → Kind m.kind a os → a ≢ event_type_timer → Absent v os =
      λ a os k ne.
        Kind-Absent m.kind a event_type_timer v os k
          (Kind_at m.kind event_type_timer v xs zs w.timers) ne in
    let other : (e : Ends) (a : ℕ) (os : List ℕ)
        → Holds m.links e os
        → Kind m.kind a os
        → a ≢ event_type_timer
        → Holds (event_list_delete m.links m.timer v).0 e os =
      λ e a os h k ne.
        let (left, right) = Kind-split m.kind event_type_timer xs (v ∷ zs) w.timers in
        delete-apart m.links m.timer e xs zs os v w.timer h (off a os k ne)
          (Kind-Apart m.kind event_type_timer a xs os left k ne)
          (Kind-Apart m.kind event_type_timer a zs os right.1 k ne) in
    let (left, right) = Kind-split m.kind event_type_timer xs (v ∷ zs) w.timers in
    let cleared = delete_cleared m.links m.timer v in
    record {
      rest = record {
        timer = delete-Holds m.links m.timer xs zs v w.timer small;
        rear = other m.rear event_type_rear rs w.rear w.rears (omega arith);
        unuse = other m.unuse event_type_unused us w.unuse w.unused (omega arith);
        ready = other m.ready event_type_ready ys w.ready w.readies (omega arith);
        timers = Kind-join m.kind event_type_timer xs zs left right.1;
        rears = w.rears;
        unused = w.unused;
        readies = w.readies;
      };
      next = cleared.0;
      prev = cleared.1;
      off_timer = (Distinct-remove v xs zs w.timer.distinct).1;
      off_rear = off event_type_rear rs w.rears (omega arith);
      off_unuse = off event_type_unused us w.unused (omega arith);
      off_ready = off event_type_ready ys w.readies (omega arith);
    }

pub rear-Detached :
    (xs zs ts us ys : List ℕ) (v : ℕ) (m : Master)
    → WellFormed ts (xs ++ v ∷ zs) us ys m
    → length (xs ++ v ∷ zs) < 2 ^ 32
    → Detached ts (xs ++ zs) us ys v (record m {
      links = (event_list_delete m.links m.rear v).0;
      rear = (event_list_delete m.links m.rear v).1;
    })
rear-Detached xs zs ts us ys v m w small =
    let off : (a : ℕ) (os : List ℕ) → Kind m.kind a os → a ≢ event_type_rear → Absent v os =
      λ a os k ne.
        Kind-Absent m.kind a event_type_rear v os k (Kind_at m.kind event_type_rear v xs zs w.rears)
          ne in
    let other : (e : Ends) (a : ℕ) (os : List ℕ)
        → Holds m.links e os
        → Kind m.kind a os
        → a ≢ event_type_rear
        → Holds (event_list_delete m.links m.rear v).0 e os =
      λ e a os h k ne.
        let (left, right) = Kind-split m.kind event_type_rear xs (v ∷ zs) w.rears in
        delete-apart m.links m.rear e xs zs os v w.rear h (off a os k ne)
          (Kind-Apart m.kind event_type_rear a xs os left k ne)
          (Kind-Apart m.kind event_type_rear a zs os right.1 k ne) in
    let (left, right) = Kind-split m.kind event_type_rear xs (v ∷ zs) w.rears in
    let cleared = delete_cleared m.links m.rear v in
    record {
      rest = record {
        timer = other m.timer event_type_timer ts w.timer w.timers (omega arith);
        rear = delete-Holds m.links m.rear xs zs v w.rear small;
        unuse = other m.unuse event_type_unused us w.unuse w.unused (omega arith);
        ready = other m.ready event_type_ready ys w.ready w.readies (omega arith);
        timers = w.timers;
        rears = Kind-join m.kind event_type_rear xs zs left right.1;
        unused = w.unused;
        readies = w.readies;
      };
      next = cleared.0;
      prev = cleared.1;
      off_timer = off event_type_timer ts w.timers (omega arith);
      off_rear = (Distinct-remove v xs zs w.rear.distinct).1;
      off_unuse = off event_type_unused us w.unused (omega arith);
      off_ready = off event_type_ready ys w.readies (omega arith);
    }

pub unuse-Detached :
    (xs zs ts rs ys : List ℕ) (v : ℕ) (m : Master)
    → WellFormed ts rs (xs ++ v ∷ zs) ys m
    → length (xs ++ v ∷ zs) < 2 ^ 32
    → Detached ts rs (xs ++ zs) ys v (record m {
      links = (event_list_delete m.links m.unuse v).0;
      unuse = (event_list_delete m.links m.unuse v).1;
    })
unuse-Detached xs zs ts rs ys v m w small =
    let off : (a : ℕ) (os : List ℕ) → Kind m.kind a os → a ≢ event_type_unused → Absent v os =
      λ a os k ne.
        Kind-Absent m.kind a event_type_unused v os k
          (Kind_at m.kind event_type_unused v xs zs w.unused) ne in
    let other : (e : Ends) (a : ℕ) (os : List ℕ)
        → Holds m.links e os
        → Kind m.kind a os
        → a ≢ event_type_unused
        → Holds (event_list_delete m.links m.unuse v).0 e os =
      λ e a os h k ne.
        let (left, right) = Kind-split m.kind event_type_unused xs (v ∷ zs) w.unused in
        delete-apart m.links m.unuse e xs zs os v w.unuse h (off a os k ne)
          (Kind-Apart m.kind event_type_unused a xs os left k ne)
          (Kind-Apart m.kind event_type_unused a zs os right.1 k ne) in
    let (left, right) = Kind-split m.kind event_type_unused xs (v ∷ zs) w.unused in
    let cleared = delete_cleared m.links m.unuse v in
    record {
      rest = record {
        timer = other m.timer event_type_timer ts w.timer w.timers (omega arith);
        rear = other m.rear event_type_rear rs w.rear w.rears (omega arith);
        unuse = delete-Holds m.links m.unuse xs zs v w.unuse small;
        ready = other m.ready event_type_ready ys w.ready w.readies (omega arith);
        timers = w.timers;
        rears = w.rears;
        unused = Kind-join m.kind event_type_unused xs zs left right.1;
        readies = w.readies;
      };
      next = cleared.0;
      prev = cleared.1;
      off_timer = off event_type_timer ts w.timers (omega arith);
      off_rear = off event_type_rear rs w.rears (omega arith);
      off_unuse = (Distinct-remove v xs zs w.unuse.distinct).1;
      off_ready = off event_type_ready ys w.readies (omega arith);
    }

pub ready-Detached :
    (xs zs ts rs us : List ℕ) (v : ℕ) (m : Master)
    → WellFormed ts rs us (xs ++ v ∷ zs) m
    → length (xs ++ v ∷ zs) < 2 ^ 32
    → Detached ts rs us (xs ++ zs) v (record m {
      links = (event_list_delete m.links m.ready v).0;
      ready = (event_list_delete m.links m.ready v).1;
    })
ready-Detached xs zs ts rs us v m w small =
    let off : (a : ℕ) (os : List ℕ) → Kind m.kind a os → a ≢ event_type_ready → Absent v os =
      λ a os k ne.
        Kind-Absent m.kind a event_type_ready v os k
          (Kind_at m.kind event_type_ready v xs zs w.readies) ne in
    let other : (e : Ends) (a : ℕ) (os : List ℕ)
        → Holds m.links e os
        → Kind m.kind a os
        → a ≢ event_type_ready
        → Holds (event_list_delete m.links m.ready v).0 e os =
      λ e a os h k ne.
        let (left, right) = Kind-split m.kind event_type_ready xs (v ∷ zs) w.readies in
        delete-apart m.links m.ready e xs zs os v w.ready h (off a os k ne)
          (Kind-Apart m.kind event_type_ready a xs os left k ne)
          (Kind-Apart m.kind event_type_ready a zs os right.1 k ne) in
    let (left, right) = Kind-split m.kind event_type_ready xs (v ∷ zs) w.readies in
    let cleared = delete_cleared m.links m.ready v in
    record {
      rest = record {
        timer = other m.timer event_type_timer ts w.timer w.timers (omega arith);
        rear = other m.rear event_type_rear rs w.rear w.rears (omega arith);
        unuse = other m.unuse event_type_unused us w.unuse w.unused (omega arith);
        ready = delete-Holds m.links m.ready xs zs v w.ready small;
        timers = w.timers;
        rears = w.rears;
        unused = w.unused;
        readies = Kind-join m.kind event_type_ready xs zs left right.1;
      };
      next = cleared.0;
      prev = cleared.1;
      off_timer = off event_type_timer ts w.timers (omega arith);
      off_rear = off event_type_rear rs w.rears (omega arith);
      off_unuse = off event_type_unused us w.unused (omega arith);
      off_ready = (Distinct-remove v xs zs w.ready.distinct).1;
    }
