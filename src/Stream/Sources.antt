-- ===== src/Stream/Sources.antt =====
-- The calls that copy from memory or from a file descriptor into a stream.
use poplar.Prelude.{
  ℕ, zero, suc, ◌+◌, ◌≤◌, ◌≡◌, refl, ap, List, [], ◌∷◌, Option, none, some, arith, length, take,
  replicate, splice,
}
use poplar.Prelude.Lists.{length-splice, length-take, length-replicate, take-length}
use poplar.Run.{ok, ◌>>=◌, memcpy}
use poplar.Stream.Buffer.{Stream, check_size, add_size}
use poplar.Stream.Put.{stream_put, stream_write, stream_put_ipv4, stream_put_in_addr}
use poplar.Stream.Io.{
  Answer, got, failed, stream_read_unblock, stream_read_try, receive, receive_first,
  stream_recvfrom, stream_recvmsg,
}
use poplar.Stream.Valid.{IsValid, writeable_lem}
use poplar.Stream.Ops.{after, IsSafe, Delivers, Covers}

take_all : (n : ℕ) (xs : List ℕ) → length xs ≤ n → take n xs ≡ xs
take_all zero [] h = refl
take_all zero (x ∷ xs) h = absurd (omega arith)
take_all (suc n) [] h = refl
take_all (suc n) (x ∷ xs) h = ap (λ ys. x ∷ ys) (take_all n xs (omega arith))

module _ {s : Stream} (v : IsValid s) where
  pub put-IsSafe : (src : Option (List ℕ)) (n : ℕ) → Covers n src → IsSafe (stream_put s src n)
  unfolding stream_put memcpy
  put-IsSafe none n h =
      let m : ℕ = check_size s n in
      ground (
        arith,
        writeable_lem v,
        length-replicate {A = ℕ} m 0,
        length-take {A = ℕ} m (replicate m 0),
        length-splice s.bytes s.endp (take m (replicate m 0)),
      )
  put-IsSafe (some src) n h =
      let m = check_size s n in
      ground (arith, writeable_lem v, length-take m src, length-splice s.bytes s.endp (take m src))

  pub write-IsSafe : (src : List ℕ) (n : ℕ) → n ≤ length src → IsSafe (after (stream_write s src n))
  unfolding stream_write memcpy
  write-IsSafe src n h =
      let m = check_size s n in
      ground (arith, writeable_lem v, length-take m src, length-splice s.bytes s.endp (take m src))

  pub put_ipv4-IsSafe : (l : List ℕ) → length l ≡ 4 → IsSafe (after (stream_put_ipv4 s l))
  unfolding stream_put_ipv4 memcpy
  put_ipv4-IsSafe l h =
      ground (arith, writeable_lem v, length-take 4 l, length-splice s.bytes s.endp (take 4 l))

  pub put_in_addr-IsSafe : (l : List ℕ) → length l ≡ 4 → IsSafe (after (stream_put_in_addr s l))
  unfolding stream_put_in_addr memcpy
  put_in_addr-IsSafe l h =
      ground (arith, writeable_lem v, length-take 4 l, length-splice s.bytes s.endp (take 4 l))

  -- What `read` and its kin leave: the bytes delivered behind the mark.
  pub receive-IsValid :
      (n : ℕ) (bs : List ℕ)
      → length bs ≤ n
      → s.endp + n ≤ s.size
      → receive s bs ≡ ok (record s { bytes = splice s.bytes s.endp bs; endp = s.endp + length bs })
        × IsValid (record s { bytes = splice s.bytes s.endp bs; endp = s.endp + length bs })
  unfolding receive memcpy
  receive-IsValid n bs h room = ground (arith, take-length bs, length-splice s.bytes s.endp bs)

  receive_first_all : (n : ℕ) (bs : List ℕ) → length bs ≤ n → receive_first s n bs ≡ receive s bs
  unfolding receive_first receive
  receive_first_all n bs h =
      ap
        (λ (xs : List ℕ). memcpy s.bytes s.endp xs (length xs) >>= λ mem.
          ok (record s { bytes = mem; endp = add_size s.endp (length bs) }))
        (take_all n bs h)

  pub read_unblock-IsSafe :
      (n : ℕ) (a : Answer) → Delivers n a → IsSafe (after (stream_read_unblock s n a))
  unfolding stream_read_unblock
  read_unblock-IsSafe n (failed e) h = ground arith
  read_unblock-IsSafe n (got bs) h = ground (arith, writeable_lem v, receive-IsValid n bs)

  pub read_try-IsSafe : (n : ℕ) (a : Answer) → Delivers n a → IsSafe (after (stream_read_try s n a))
  unfolding stream_read_try
  read_try-IsSafe n (failed e) h = ground arith
  read_try-IsSafe n (got bs) h = ground (arith, writeable_lem v, receive-IsValid n bs)

  pub recvfrom-IsSafe : (n : ℕ) (a : Answer) → Delivers n a → IsSafe (after (stream_recvfrom s n a))
  unfolding stream_recvfrom
  recvfrom-IsSafe n (failed e) h = ground arith
  recvfrom-IsSafe n (got bs) h = ground (arith, writeable_lem v, receive-IsValid n bs)

  pub recvmsg-IsSafe :
      (k n : ℕ) (a : Answer) → Delivers n a → IsSafe (after (stream_recvmsg s k n a))
  unfolding stream_recvmsg
  recvmsg-IsSafe k n (failed e) h = ground arith
  recvmsg-IsSafe k n (got bs) h =
      ground (arith, writeable_lem v, receive-IsValid n bs, receive_first_all n bs)
