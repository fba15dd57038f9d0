-- ===== src/Mugshot/Sha1/Reference.antt =====
-- SHA1 of mugshot/mugshot.c against the definition of the standard: pad the whole text, and take
-- the blocks in turn.
use plmuggin.Base.{
  ℕ, zero, suc, ◌+◌, ◌-◌, ◌*◌, ◌/◌, ◌%◌, ◌^◌, ◌≤◌, ◌<◌, ◌≡◌, refl, sym, ap, subst, ◌∙◌, true, false,
  [], ◌∷◌, ◌++◌, arith, leb, ◌==◌, ==_iff, Bytes, length, take, drop, replicate, length-append,
  length-take, length-drop, length-replicate, take-append-drop, Bool-cases, inl, inr,
}
use plmuggin.Mugshot.Sha1.Feed.{Absorbed, feed, feed_all, feed_all-append, feed_all_block, Holds}
use plmuggin.Mugshot.Sha1.Stream.{sha1_update-feed_all, sha1_init-Holds}
use plmuggin.Mugshot.Sha1.{
  HashState, Context, sha1_init, sha1_transform, store_rest, update_at, sha1_update, final_count,
  pad_zeros, digest, sha1_final, sha1,
}

-- `n` blocks of a text.
unfoldable pub chunks : ℕ → HashState → Bytes → HashState
chunks zero s text = s
chunks (suc n) s text = chunks n (sha1_transform s (take 64 text)) (drop 64 text)

-- A text with a one bit, zeros up to eight bytes before the end of a block, and the count of its bits.
abbrev pub padded : Bytes → Bytes
padded text =
    text
    ++ (0x80
        ∷ (replicate ((119 - length text % 64) % 64) 0 ++ final_count (length text * 8 % 2 ^ 64)))

unfoldable pub padded_digest : Bytes → Bytes
unfolding chunks
padded_digest text = digest (chunks (length (padded text) / 64) sha1_init.state (padded text))

feed_all-chunks :
    (n : ℕ) (s : HashState) (text : Bytes)
    → length text ≡ n * 64
    → feed_all (record { state = s; pending = [] }) text
      ≡ record { state = chunks n s text; pending = [] }
unfolding feed_all chunks
feed_all-chunks zero s [] h = refl
feed_all-chunks zero s (b ∷ text) h = absurd (omega arith)
feed_all-chunks (suc n) s text h =
    ap (feed_all (record { state = s; pending = [] })) (sym (take-append-drop 64 text))
    ∙ feed_all-append (record { state = s; pending = [] }) (take 64 text) (drop 64 text)
    ∙ ap (λ x. feed_all x (drop 64 text))
        (feed_all_block s [] (take 64 text) (omega arith) (omega (arith, h, length-take 64 text)))
    ∙ feed_all-chunks n (sha1_transform s (take 64 text)) (drop 64 text)
        (omega (arith, h, length-drop 64 text))

length-feed :
    (x : Absorbed) (b : ℕ)
    → length x.pending < 64
    → length (feed x b).pending ≡ (length x.pending + 1) % 64
unfolding feed
length-feed x b lt = elim (Bool-cases (length x.pending == 63)) [
  | inl full ↦ rw full (ground arith)
  | inr open_block ↦
      let ne : length x.pending < 63 = ground arith in
      rw open_block (omega (arith, length-append x.pending (b ∷ [])))
]

length-feed_all :
    (x : Absorbed) (text : Bytes)
    → length x.pending < 64
    → length (feed_all x text).pending ≡ (length x.pending + length text) % 64
unfolding feed_all
length-feed_all x [] lt = omega arith
length-feed_all x (b ∷ text) lt =
    let n = length-feed x b lt in
    omega (arith, n, length-feed_all (feed x b) text (omega (arith, n)))

pad_zeros-feed_all :
    (fuel z : ℕ) (ctx : Context) (x : Absorbed)
    → Holds ctx x
    → (120 - length x.pending) % 64 ≡ z
    → z ≤ fuel
    → Holds (pad_zeros fuel ctx) (feed_all x (replicate z 0))
unfolding pad_zeros feed_all
pad_zeros-feed_all zero zero ctx x h e le = h
pad_zeros-feed_all zero (suc z) ctx x h e le = absurd (omega arith)
pad_zeros-feed_all (suc fuel) zero ctx x h e le =
    let done : (ctx.count % 512 == 448) ≡ true =
      (==_iff (ctx.count % 512) 448).1 (omega (arith, h.count, h.room)) in
    rw done h
pad_zeros-feed_all (suc fuel) (suc z) ctx x h e le =
    let ne : (ctx.count % 512 == 448) ≡ false = ground (arith, h.count, h.room) in
    rw ne (
      pad_zeros-feed_all fuel z (sha1_update ctx (0 ∷ [])) (feed x 0)
        (sha1_update-feed_all ctx x (0 ∷ []) h) (omega (arith, length-feed x 0 h.room, h.room))
        (omega arith))

-- The context behind the zeros, and the one behind the count, stand for the padded text.
sha1_final-feed_all :
    (ctx : Context) (x : Absorbed) (z : ℕ)
    → Holds ctx x
    → (119 - length x.pending) % 64 ≡ z
    → Holds
        (sha1_update (pad_zeros 64 (sha1_update ctx (0x80 ∷ []))) (final_count ctx.count))
        (feed_all x (0x80 ∷ (replicate z 0 ++ final_count ctx.count)))
sha1_final-feed_all ctx x z h e =
    let first = sha1_update-feed_all ctx x (0x80 ∷ []) h in
    let zeros =
      pad_zeros-feed_all 64 z (sha1_update ctx (0x80 ∷ [])) (feed_all x (0x80 ∷ [])) first
        (omega (arith, length-feed_all x (0x80 ∷ []) h.room, h.room)) (omega arith) in
    subst (Holds _)
      (sym (
        feed_all-append x (0x80 ∷ []) (replicate z 0 ++ final_count ctx.count)
        ∙ feed_all-append (feed_all x (0x80 ∷ [])) (replicate z 0) (final_count ctx.count)))
      (sha1_update-feed_all _ _ (final_count ctx.count) zeros)

length-final_count : (n : ℕ) → length (final_count n) ≡ 8
unfolding final_count
length-final_count n = refl

length-padded : (text : Bytes) → length (padded text) ≡ (length (padded text) / 64) * 64
length-padded text =
    let z = (119 - length text % 64) % 64 in
    let n : length (padded text) ≡ length text + (1 + (z + 8)) =
      length-append text (0x80 ∷ (replicate z 0 ++ final_count (length text * 8 % 2 ^ 64)))
      ∙ omega (
        arith,
        length-append (replicate z 0) (final_count (length text * 8 % 2 ^ 64)),
        length-replicate {A = ℕ} z 0,
        length-final_count (length text * 8 % 2 ^ 64),
      ) in
    omega (arith, n)

sha1_update-count :
    (ctx : Context) (bytes : Bytes)
    → (sha1_update ctx bytes).count ≡ (ctx.count + length bytes * 8) % 2 ^ 64
unfolding sha1_update update_at store_rest
sha1_update-count ctx bytes = elim (Bool-cases (leb 64 (ctx.count / 8 % 64 + length bytes))) [
  | inl e ↦ rw e refl
  | inr e ↦ rw e refl
]

sha1_update_init-count :
    (text : Bytes) → (sha1_update sha1_init text).count ≡ length text * 8 % 2 ^ 64
unfolding sha1_init
sha1_update_init-count text = omega (arith, sha1_update-count sha1_init text)

-- What SHA1_Final leaves behind the text is what feeding the padded text leaves.
final-feed_all :
    (text : Bytes)
    → Holds
        (sha1_update
          (pad_zeros 64 (sha1_update (sha1_update sha1_init text) (0x80 ∷ [])))
          (final_count (sha1_update sha1_init text).count))
        (feed_all (record { state = sha1_init.state; pending = [] }) (padded text))
final-feed_all text =
    let start : Absorbed = record { state = sha1_init.state; pending = [] } in
    let z = (119 - length text % 64) % 64 in
    let ctx = sha1_update sha1_init text in
    let n : length (feed_all start text).pending ≡ length text % 64 =
      omega (arith, length-feed_all start text (omega arith)) in
    let count : ctx.count ≡ length text * 8 % 2 ^ 64 = sha1_update_init-count text in
    let tail : Bytes = 0x80 ∷ (replicate z 0 ++ final_count ctx.count) in
    subst (Holds _)
      (sym (feed_all-append start text tail)
        ∙ ap (λ c. feed_all start (text ++ (0x80 ∷ (replicate z 0 ++ final_count c)))) count)
      (sha1_final-feed_all ctx (feed_all start text) z
        (sha1_update-feed_all sha1_init start text sha1_init-Holds) (omega (arith, n)))

-- On every text SHA1 computes the digest of the padded text, taken block by block.
pub sha1-reference : (text : Bytes) → sha1 text ≡ padded_digest text
unfolding sha1 sha1_final padded_digest
sha1-reference text =
    let chunked =
      feed_all-chunks (length (padded text) / 64) sha1_init.state (padded text)
        (length-padded text) in
    ap digest ((final-feed_all text).state ∙ ap (λ x. x.state) chunked)
