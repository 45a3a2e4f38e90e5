-- ===== src/Stream/Messages.antt =====
-- Messages of several words, written to a stream and read back.
use poplar.Prelude.{ℕ, ◌+◌, ◌≤◌, ◌≡◌, refl, ap, sym, ◌∙◌, List, [], ◌∷◌, ◌++◌, map, arith, length}
use mathlib.Core.List.{append_assoc, append-nil}
use poplar.Prelude.Lists.{length-append}
use poplar.Run.{Run, ok, ◌>>=◌}
use poplar.Stream.Buffer.{Stream}
use poplar.Stream.Valid.{IsValid, contents}
use poplar.Stream.Append.{Appends}
use poplar.Stream.Take.{Drops}
use poplar.Stream.Items.{
  Item, Kind, kind, Fits, encoding, put_item, get_item, put_item-Appends, get_item-Drops,
}

-- A message: its items put in order, and items of given kinds got in order.
unfoldable pub put_items : Stream → List Item → Run Stream
put_items s [] = ok s
put_items s (x ∷ xs) = put_item s x >>= λ (n, t). put_items t xs

unfoldable pub get_items : Stream → List Kind → Run (List Item × Stream)
get_items s [] = ok ([], s)
get_items s (k ∷ ks) = get_item s k >>= λ (x, t). (get_items t ks >>= λ (xs, u). ok (x ∷ xs, u))

abbrev pub encodings : List Item → List ℕ
encodings [] = []
encodings (x ∷ xs) = encoding x ++ encodings xs

abbrev pub AllFit : List Item → Type 0
AllFit [] = Unit
AllFit (x ∷ xs) = Fits x × AllFit xs

put_items-Appends :
    (xs : List Item) {s : Stream}
    → IsValid s
    → s.endp + length (encodings xs) ≤ s.size
    → (t : Stream) × (put_items s xs ≡ ok t) × Appends s (encodings xs) t
unfolding put_items
put_items-Appends [] {s} v h = (
  s,
  refl,
  record {
    valid = v;
    reads = sym (append-nil (contents s));
    endp = omega arith;
    getp = refl;
    size = refl;
  },
)
put_items-Appends (x ∷ xs) {s} v h =
    let sum = length-append (encoding x) (encodings xs) in
    let (t, run, a) = put_item-Appends x v (omega (arith, sum)) in
    let (u, runs, b) = put_items-Appends xs a.valid (omega (arith, sum, a.endp, a.size)) in
    (
      u,
      rw run runs,
      record {
        valid = b.valid;
        reads =
            b.reads
            ∙ ap (λ e. e ++ encodings xs) a.reads
            ∙ append_assoc (contents s) (encoding x) (encodings xs);
        endp = omega (arith, sum, a.endp, b.endp);
        getp = b.getp ∙ a.getp;
        size = b.size ∙ a.size;
      },
    )

get_items-Drops :
    (xs : List Item) (rest : List ℕ) {s : Stream}
    → IsValid s
    → AllFit xs
    → contents s ≡ encodings xs ++ rest
    → (t : Stream) × (get_items s (map kind xs) ≡ ok (xs, t))
      × Drops s (length (encodings xs)) rest t
unfolding get_items
get_items-Drops [] rest {s} v f h =
    (s, refl, record { valid = v; reads = h; same = refl; getp = omega arith; endp = refl })
get_items-Drops (x ∷ xs) rest {s} v f h =
    let (t, run, d) =
      get_item-Drops x (encodings xs ++ rest) v f.0
        (h ∙ append_assoc (encoding x) (encodings xs) rest) in
    let (u, runs, e) = get_items-Drops xs rest d.valid f.1 d.reads in
    (
      u,
      rw (run, runs),
      record {
        valid = e.valid;
        reads = e.reads;
        same = e.same ∙ d.same;
        getp = omega (arith, d.getp, e.getp, length-append (encoding x) (encodings xs));
        endp = e.endp ∙ d.endp;
      },
    )

-- A message of words of any widths, put on a valid stream whose contents have all been read and
-- that has room for it, is got back unchanged by the get functions of the same widths, after which
-- the stream is valid and again has nothing to read.
pub get_items-put_items :
    {s : Stream} (xs : List Item)
    → IsValid s
    → contents s ≡ []
    → AllFit xs
    → s.endp + length (encodings xs) ≤ s.size
    → (t : Stream) × ((put_items s xs >>= λ u. get_items u (map kind xs)) ≡ ok (xs, t))
      × IsValid t
      × (contents t ≡ [])
get_items-put_items {s} xs v empty f h =
    let (t, run, a) = put_items-Appends xs v h in
    let full = a.reads ∙ ap (λ e. e ++ encodings xs) empty ∙ sym (append-nil (encodings xs)) in
    let (u, runs, d) = get_items-Drops xs [] a.valid f full in (u, rw (run, runs), d.valid, d.reads)
