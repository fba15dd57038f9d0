-- ===== src/Mugshot/Sha1/Stream.antt =====
-- SHA1_Update of mugshot/mugshot.c takes its bytes as a stream: where the data is cut between its
-- calls does not matter.
use plmuggin.Base.{
  ℕ, zero, suc, ◌+◌, ◌-◌, ◌*◌, ◌/◌, ◌%◌, ◌^◌, ◌≤◌, ◌<◌, ◌≡◌, refl, sym, ap, subst, ◌∙◌, false, [],
  ◌++◌, append-nil, arith, leb, Bytes, length, take, drop, length-append, length-take, length-drop,
  take-append-drop, Bool-cases, inl, inr,
}
use plmuggin.Mugshot.Sha1.{
  HashState, Context, sha1_transform, put_at, full_blocks, store_rest, update_at, sha1_update,
  sha1_init,
}
use plmuggin.Mugshot.Sha1.Feed.{
  Absorbed, feed_all, feed_all-append, feed_all_short, feed_all_block, Holds, full_blocks-feed_all,
  drop_all, length-put_at, take-put_at,
}

put_at-Holds :
    (s : HashState) (count j : ℕ) (p buffer rest : Bytes)
    → length buffer ≡ 64
    → length p ≡ j
    → take j buffer ≡ p
    → j + length rest < 64
    → count % 512 ≡ 8 * (j + length rest)
    → Holds
        (record { state = s; count = count; buffer = put_at j rest buffer })
        (record { state = s; pending = p ++ rest })
put_at-Holds s count j p buffer rest size n e lt c =
    let m : length (p ++ rest) ≡ j + length rest = omega (arith, length-append p rest) in
    record {
      state = refl;
      pending = ap (λ k. take k (put_at j rest buffer)) m ∙ take-put_at j p rest buffer n e;
      room = omega (arith, m);
      count = omega (arith, m, c);
      size = omega (arith, length-put_at j rest buffer (omega arith), size);
    }

full_blocks_short :
    (fuel : ℕ) (s : HashState) (bytes : Bytes)
    → length bytes < 64
    → full_blocks fuel s bytes ≡ (s, bytes)
unfolding full_blocks
full_blocks_short zero s bytes lt = refl
full_blocks_short (suc fuel) s bytes lt =
    let short : leb 64 (length bytes) ≡ false = ground arith in rw short refl

store_rest-pending :
    (s : HashState) (count : ℕ) (p buffer bytes : Bytes)
    → length buffer ≡ 64
    → take (length p) buffer ≡ p
    → length p + length bytes < 64
    → count % 512 ≡ 8 * (length p + length bytes)
    → Holds
        (store_rest s count (length p) buffer bytes)
        (feed_all (record { state = s; pending = p }) bytes)
unfolding store_rest
store_rest-pending s count p buffer bytes size e lt c =
    rw (full_blocks_short (length bytes) s bytes (omega arith), feed_all_short s p bytes lt)
      (put_at-Holds s count (length p) p buffer bytes size refl e lt c)

store_rest-fresh :
    (s : HashState) (count : ℕ) (buffer bytes : Bytes)
    → length buffer ≡ 64
    → count % 512 ≡ 8 * (length bytes % 64)
    → Holds
        (store_rest s count 0 buffer bytes)
        (feed_all (record { state = s; pending = [] }) bytes)
unfolding store_rest
store_rest-fresh s count buffer bytes size c =
    let (run, lt, eq) = full_blocks-feed_all (length bytes) s bytes (omega arith) in
    rw run (
      put_at-Holds (full_blocks (length bytes) s bytes).0 count 0 [] buffer
        (full_blocks (length bytes) s bytes).1 size refl refl (omega (arith, lt))
        (omega (arith, c, eq)))

put_at_full :
    (p bytes buffer : Bytes)
    → length buffer ≡ 64
    → take (length p) buffer ≡ p
    → length p + length bytes ≡ 64
    → put_at (length p) bytes buffer ≡ p ++ bytes
unfolding put_at
put_at_full p bytes buffer size e n =
    let nothing : drop (length p + length bytes) buffer ≡ [] =
      drop_all (length p + length bytes) buffer (omega (arith, size)) in
    rw (e, nothing, append-nil) refl

update_at-feed_all :
    (s : HashState) (count : ℕ) (p buffer bytes : Bytes)
    → length buffer ≡ 64
    → take (length p) buffer ≡ p
    → length p < 64
    → count % 512 ≡ 8 * ((length p + length bytes) % 64)
    → Holds
        (update_at s count (length p) buffer bytes)
        (feed_all (record { state = s; pending = p }) bytes)
unfolding update_at
update_at-feed_all s count p buffer bytes size e room c =
    elim (Bool-cases (leb 64 (length p + length bytes))) [
      | inl full ↦
          let n = 64 - length p in
          let le : 64 ≤ length p + length bytes = ground arith in
          let m : length p + length (take n bytes) ≡ 64 = omega (arith, length-take n bytes) in
          let block : put_at (length p) (take n bytes) buffer ≡ p ++ take n bytes =
            put_at_full p (take n bytes) buffer size e m in
          let fed : feed_all (record { state = s; pending = p }) bytes
              ≡ feed_all
                  (record {
                    state = sha1_transform s (put_at (length p) (take n bytes) buffer);
                    pending = [];
                  })
                  (drop n bytes) =
            ap (feed_all (record { state = s; pending = p })) (sym (take-append-drop n bytes))
            ∙ feed_all-append (record { state = s; pending = p }) (take n bytes) (drop n bytes)
            ∙ ap (λ x. feed_all x (drop n bytes)) (feed_all_block s p (take n bytes) room m)
            ∙ ap
                (λ w. feed_all (record { state = sha1_transform s w; pending = [] }) (drop n bytes))
                (sym block) in
          rw full (
            subst (Holds _) (sym fed) (
              store_rest-fresh (sha1_transform s (put_at (length p) (take n bytes) buffer)) count
                (put_at (length p) (take n bytes) buffer) (drop n bytes)
                (omega (
                  arith,
                  length-put_at (length p) (take n bytes) buffer (omega (arith, m, size)),
                  size,
                ))
                (omega (arith, c, length-drop n bytes))))
      | inr short ↦
          let lt : length p + length bytes < 64 = ground arith in
          rw short (store_rest-pending s count p buffer bytes size e lt (omega (arith, c)))
    ]

-- What SHA1_Update leaves is what feeding the bytes one after the other leaves: whatever fills a
-- block is in the state, and the rest at the front of the buffer.
pub sha1_update-feed_all :
    (ctx : Context) (x : Absorbed) (bytes : Bytes)
    → Holds ctx x
    → Holds (sha1_update ctx bytes) (feed_all x bytes)
unfolding sha1_update
sha1_update-feed_all ctx x bytes h =
    let j : length x.pending ≡ ctx.count / 8 % 64 = omega (arith, h.count) in
    subst
      (λ k.
        Holds (update_at ctx.state ((ctx.count + length bytes * 8) % 2 ^ 64) k ctx.buffer bytes)
          (feed_all x bytes))
      j
      (subst
        (λ s.
          Holds
            (update_at s ((ctx.count + length bytes * 8) % 2 ^ 64) (length x.pending) ctx.buffer
              bytes)
            (feed_all x bytes))
        (sym h.state)
        (update_at-feed_all x.state ((ctx.count + length bytes * 8) % 2 ^ 64) x.pending ctx.buffer
          bytes h.size h.pending h.room (omega (arith, h.count))))

-- A context as SHA1_Init and SHA1_Update leave it.
pub sha1_init-Holds : Holds sha1_init (record { state = sha1_init.state; pending = [] })
unfolding sha1_init
sha1_init-Holds = record {
  state = refl;
  pending = refl;
  room = omega arith;
  count = omega arith;
  size = refl;
}

store_rest-count :
    (s : HashState) (count j : ℕ) (buffer bytes : Bytes)
    → (store_rest s count j buffer bytes).count ≡ count
unfolding store_rest
store_rest-count s count j buffer bytes = refl

-- The count of bits, which wraps, whichever way the bytes go into the buffer.
sha1_update-count :
    (ctx : Context) (bytes : Bytes)
    → (sha1_update ctx bytes).count ≡ (ctx.count + length bytes * 8) % 2 ^ 64
unfolding sha1_update update_at
sha1_update-count ctx bytes = elim (Bool-cases (leb 64 (ctx.count / 8 % 64 + length bytes))) [
  | inl full ↦ rw (sha1_update, update_at, full) (store_rest-count _ _ _ _ _)
  | inr short ↦ rw (sha1_update, update_at, short) (store_rest-count _ _ _ _ _)
]

-- Two contexts that no later call can tell apart: SHA1_Update reads the state, the count, and the
-- bytes of the block that waits, and SHA1_Final stores the whole count.
pub record Same (x y : Context) : Type 0 where
  pub state : x.state ≡ y.state
  pub count : x.count ≡ y.count
  pub pending : take (x.count / 8 % 64) x.buffer ≡ take (y.count / 8 % 64) y.buffer

Holds-Same : {x y : Context} {a : Absorbed} → x.count ≡ y.count → Holds x a → Holds y a → Same x y
Holds-Same {x} {y} {a} counts h k =
    let i : x.count / 8 % 64 ≡ length a.pending = omega (arith, h.count) in
    let j : y.count / 8 % 64 ≡ length a.pending = omega (arith, k.count) in
    record {
      state = h.state ∙ sym k.state;
      count = counts;
      pending =
          ap (λ n. take n x.buffer) i
          ∙ h.pending
          ∙ sym k.pending
          ∙ ap (λ n. take n y.buffer) (sym j);
    }

-- Where a text is cut between two calls of SHA1_Update makes no difference to the state, to the
-- count of bits, or to the bytes that wait in the block, in any context that an Absorbed stands for.
pub sha1_update-append :
    (ctx : Context) (x : Absorbed) (s t : Bytes)
    → Holds ctx x
    → Same (sha1_update (sha1_update ctx s) t) (sha1_update ctx (s ++ t))
sha1_update-append ctx x s t h =
    Holds-Same
      (sha1_update-count (sha1_update ctx s) t
        ∙ ap (λ n. (n + length t * 8) % 2 ^ 64) (sha1_update-count ctx s)
        ∙ omega (arith, length-append s t)
        ∙ sym (sha1_update-count ctx (s ++ t)))
      (sha1_update-feed_all _ (feed_all x s) t (sha1_update-feed_all ctx x s h))
      (subst (Holds _) (feed_all-append x s t) (sha1_update-feed_all ctx x (s ++ t) h))
