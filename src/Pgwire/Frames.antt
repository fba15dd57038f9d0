-- ===== src/Pgwire/Frames.antt =====
-- The messages that mugshot/pgwire.c puts to its buffer, byte by byte.
use plmuggin.Base.{
  ℕ, ◌+◌, ◌-◌, ◌≤◌, ◌≡◌, refl, sym, ap, ap₂, subst, ◌∙◌, Bool, true, false, List, [], ◌∷◌, ◌++◌,
  append_assoc, append-nil, arith, leb, ltb, if◌then◌else◌, Bytes, length, length-append, take,
  drop, take-append, drop-append, Bool-cases, inl, inr,
}
use plmuggin.Pgwire.{
  Conn, min_buffer_increase, new_buf_size, pg_ensure_buf, Put, ◌>>>◌, store, put, htons, htonl,
  put_ch, put_i16, put_i32, put_string, put_len_str, mark_len, update_len, counted, put_oids,
  put_params, put_parse, put_bind, put_describe_portal, put_execute, pg_put_query,
}
use plmuggin.Result.{ok, Returns}

-- After pg_ensure_buf there is room for the bytes, and for 8192 more.
pub pg_ensure_buf_room :
    (alloc : ℕ → Bool) (c : Conn) (extra : ℕ)
    → (pg_ensure_buf alloc c extra).0 ≡ true
    → length c.text + extra + min_buffer_increase ≤ (pg_ensure_buf alloc c extra).1.buf_size
unfolding pg_ensure_buf new_buf_size
pg_ensure_buf_room alloc c extra h = ground arith

pub pg_ensure_buf-text :
    (alloc : ℕ → Bool) (c : Conn) (extra : ℕ) → (pg_ensure_buf alloc c extra).1.text ≡ c.text
unfolding pg_ensure_buf
pg_ensure_buf-text alloc c extra = ground arith

pub pg_ensure_buf_granted :
    (alloc : ℕ → Bool) (c : Conn) (extra : ℕ)
    → ((n : ℕ) → alloc n ≡ true)
    → (pg_ensure_buf alloc c extra).0 ≡ true
unfolding pg_ensure_buf
pg_ensure_buf_granted alloc c extra h =
    elim (Bool-cases (ltb c.buf_size (length c.text + extra + min_buffer_increase))) [
      | inl e ↦
          rw (e, h (new_buf_size c.buf_size (length c.text + extra + min_buffer_increase))) refl
      | inr e ↦ rw e refl
    ]

-- The text fits the buffer, with room for four bytes more.
abbrev pub HasRoom : Conn → Type 0
HasRoom c = length c.text + 4 ≤ c.buf_size

-- What a put leaves of the text `t`: unless memory was refused, `bytes` stand behind it and there
-- is room for `room` bytes more.
pub record After (alloc : ℕ → Bool) (t bytes : Bytes) (room : ℕ) (r : Bool × Conn) : Type 0 where
  pub text : r.0 ≡ true → r.1.text ≡ t ++ bytes
  pub fits : r.0 ≡ true → length r.1.text + room ≤ r.1.buf_size
  pub granted : ((n : ℕ) → alloc n ≡ true) → r.0 ≡ true

-- On every buffer, what is put stays within it; unless memory was refused, `bytes` stand behind
-- the text.
abbrev pub Puts : (ℕ → Bool) → Put → Bytes → Type 0
Puts alloc m bytes =
    (c : Conn) → length c.text ≤ c.buf_size → Returns (m c) (After alloc c.text bytes 0)

store-After :
    (alloc : ℕ → Bool) (bytes t : Bytes) (r : Bool × Conn)
    → r.1.text ≡ t
    → (r.0 ≡ true → length t + length bytes + min_buffer_increase ≤ r.1.buf_size)
    → (((n : ℕ) → alloc n ≡ true) → r.0 ≡ true)
    → Returns (store bytes r) (After alloc t bytes min_buffer_increase)
unfolding store
store-After alloc bytes t (false, c) e h g =
    (_, refl, record { text = λ x. cc; fits = λ x. cc; granted = g })
store-After alloc bytes t (true, c) e h g =
    let fits : leb (length c.text + length bytes) c.buf_size ≡ true =
      ground (arith, h refl, ap length e) in
    (
      (true, record c { text = c.text ++ bytes }),
      rw fits refl,
      record {
        text = λ x. ap (λ w. w ++ bytes) e;
        fits = λ x. omega (arith, h refl, ap length e, length-append c.text bytes);
        granted = g;
      },
    )

put-After :
    (alloc : ℕ → Bool) (bytes : Bytes) (c : Conn)
    → Returns (put alloc bytes c) (After alloc c.text bytes min_buffer_increase)
unfolding put
put-After alloc bytes c =
    store-After alloc bytes c.text (pg_ensure_buf alloc c (length bytes))
      (pg_ensure_buf-text alloc c (length bytes)) (λ h. pg_ensure_buf_room alloc c (length bytes) h)
      (pg_ensure_buf_granted alloc c (length bytes))

pub put-Puts : (alloc : ℕ → Bool) (bytes : Bytes) → Puts alloc (put alloc bytes) bytes
put-Puts alloc bytes c fits =
    let (r, run, h) = put-After alloc bytes c in
    (r, run, record { text = h.text; fits = λ e. omega (arith, h.fits e); granted = h.granted })

-- The rest of a chain: after false nothing more is put.
then-After :
    {alloc : ℕ → Bool} {t x y : Bytes} {room : ℕ} (k : Put) (r : Bool × Conn)
    → After alloc t x room r
    → (r.0 ≡ true → Returns (k r.1) (After alloc r.1.text y 0))
    → Returns (if r.0 then k r.1 else ok (false, r.1)) (After alloc t (x ++ y) 0)
then-After k (false, c) h hk =
    (_, refl, record { text = λ e. cc; fits = λ e. cc; granted = h.granted })
then-After {t} {x} {y} k (true, c) h hk =
    let (q, run, a) = hk refl in
    (
      q,
      run,
      record {
        text = λ f. a.text f ∙ ap (λ w. w ++ y) (h.text refl) ∙ append_assoc t x y;
        fits = a.fits;
        granted = a.granted;
      },
    )

pub Puts-then :
    {alloc : ℕ → Bool} {m k : Put} {x y : Bytes}
    → Puts alloc m x
    → Puts alloc k y
    → Puts alloc (m >>> k) (x ++ y)
unfolding ◌>>>◌
Puts-then {k} hm hk c fits =
    let (r, run, h) = hm c fits in rw run (then-After k r h (λ e. hk r.1 (omega (arith, h.fits e))))

-- A message: its type, the count of the bytes that follow, which counts itself, and its payload.
abbrev pub message : ℕ → Bytes → Bytes
message type payload = type ∷ htonl (4 + length payload) ++ payload

update_len-marked :
    (x w : Bytes) (c : Conn)
    → c.text ≡ x ++ (0 ∷ 0 ∷ 0 ∷ 0 ∷ []) ++ w
    → length c.text ≤ c.buf_size
    → (d : Conn) × (update_len (length x) c ≡ ok (true, d))
      × (d.text ≡ x ++ (htonl (4 + length w) ++ w))
      × (length d.text ≤ d.buf_size)
unfolding update_len
update_len-marked x w c e fits =
    let n : length c.text ≡ length x + 4 + length w =
      ap length e
      ∙ omega (
        arith,
        length-append (x ++ (0 ∷ 0 ∷ 0 ∷ 0 ∷ [])) w,
        length-append x (0 ∷ 0 ∷ 0 ∷ 0 ∷ []),
      ) in
    let front : take (length x) c.text ≡ x =
      ap (take (length x)) (e ∙ append_assoc x (0 ∷ 0 ∷ 0 ∷ 0 ∷ []) w)
      ∙ take-append x ((0 ∷ 0 ∷ 0 ∷ 0 ∷ []) ++ w) in
    let back : drop (length x + 4) c.text ≡ w =
      ap₂ drop (sym (length-append x (0 ∷ 0 ∷ 0 ∷ 0 ∷ []))) e
      ∙ drop-append (x ++ (0 ∷ 0 ∷ 0 ∷ 0 ∷ [])) w in
    let inside : leb (length x + 4) c.buf_size ≡ true = ground (arith, n) in
    let size : length c.text - length x ≡ 4 + length w = omega (arith, n) in
    let new : take (length x) c.text
          ++ (htonl (length c.text - length x) ++ drop (length x + 4) c.text)
        ≡ x ++ (htonl (4 + length w) ++ w) =
      rw (front, back, size) refl in
    (
      record c {
        text =
            take (length x) c.text
            ++ (htonl (length c.text - length x) ++ drop (length x + 4) c.text);
      },
      rw inside refl,
      new,
      omega (arith, ap length new, n, length-append x (htonl (4 + length w) ++ w)),
    )

-- The frame of a message around its payload. What mark_len leaves out of account, the room for
-- its four bytes, the put before it has made.
pub counted-HasRoom :
    {alloc : ℕ → Bool} {body : Put} {w : Bytes} (c : Conn)
    → Puts alloc body w
    → HasRoom c
    → Returns (counted body c) (After alloc c.text (htonl (4 + length w) ++ w) 0)
unfolding counted mark_len ◌>>>◌
counted-HasRoom {body} {w} c h room =
    let (q, run, a) =
      h (record c { text = c.text ++ 0 ∷ 0 ∷ 0 ∷ 0 ∷ [] })
        (omega (arith, length-append c.text (0 ∷ 0 ∷ 0 ∷ 0 ∷ []))) in
    elim (Bool-cases q.0) [
      | inl e ↦
          let (d, run', text, fits) =
            update_len-marked c.text w q.1 (a.text e) (omega (arith, a.fits e)) in
          (
            (true, d),
            rw (run, e) run',
            record { text = λ f. text; fits = λ f. omega (arith, fits); granted = λ g. refl },
          )
      | inr e ↦ (
        (false, q.1),
        rw (run, e) refl,
        record { text = λ f. cc; fits = λ f. cc; granted = λ g. sym e ∙ a.granted g },
      )
    ]

counted-Puts :
    (alloc : ℕ → Bool) (type : ℕ) {body : Put} {w : Bytes}
    → Puts alloc body w
    → Puts alloc (put_ch alloc type >>> counted body) (message type w)
unfolding put_ch ◌>>>◌
counted-Puts alloc type {body} h c fits =
    let (r, run, a) = put-After alloc (type ∷ []) c in
    rw run (then-After (counted body) r a (λ e. counted-HasRoom r.1 h (omega (arith, a.fits e))))

-- The parameters of a query, as the protocol has them.
abbrev pub oids_bytes : List ℕ → Bytes
oids_bytes [] = []
oids_bytes (oid ∷ oids) = htonl oid ++ oids_bytes oids

abbrev pub params_bytes : List Bytes → Bytes
params_bytes [] = []
params_bytes (p ∷ ps) = (htonl (length p) ++ p) ++ params_bytes ps

abbrev pub parse_payload : Bytes → List ℕ → Bytes
parse_payload sql oids = 0 ∷ ((sql ++ 0 ∷ []) ++ (htons (length oids) ++ oids_bytes oids))

abbrev pub bind_payload : List Bytes → Bytes
bind_payload ps =
    0 ∷ 0 ∷ (htons 0 ++ (htons (length ps) ++ (params_bytes ps ++ (htons 1 ++ htons 1))))

-- The messages Parse, Bind, Describe and Execute of a query.
abbrev pub query_messages : Bytes → List ℕ → List Bytes → Bytes
query_messages sql oids ps =
    message b'P' (parse_payload sql oids)
    ++ (message b'B' (bind_payload ps)
        ++ (message b'D' (b'P' ∷ 0 ∷ []) ++ message b'E' (0 ∷ htonl 0)))

module _ (alloc : ℕ → Bool) where
  pub Puts-nil : Puts alloc (λ c. ok (true, c)) []
  Puts-nil c fits = (
    _,
    refl,
    record { text = λ e. sym (append-nil c.text); fits = λ e. omega arith; granted = λ g. refl },
  )

  put_oids-Puts : (oids : List ℕ) → Puts alloc (put_oids alloc oids) (oids_bytes oids)
  unfolding put_oids put_i32
  put_oids-Puts [] = Puts-nil
  put_oids-Puts (oid ∷ oids) = Puts-then (put-Puts alloc (htonl oid)) (put_oids-Puts oids)

  put_params-Puts : (ps : List Bytes) → Puts alloc (put_params alloc ps) (params_bytes ps)
  unfolding put_params put_len_str put_i32
  put_params-Puts [] = Puts-nil
  put_params-Puts (p ∷ ps) =
      Puts-then (Puts-then (put-Puts alloc (htonl (length p))) (put-Puts alloc p))
        (put_params-Puts ps)

  put_parse-Puts :
      (sql : Bytes) (oids : List ℕ)
      → Puts alloc (put_parse alloc sql oids) (message b'P' (parse_payload sql oids))
  unfolding put_parse put_ch put_string put_i16
  put_parse-Puts sql oids = counted-Puts alloc b'P' (
      Puts-then (put-Puts alloc (0 ∷ [])) (
        Puts-then (put-Puts alloc (sql ++ 0 ∷ []))
          (Puts-then (put-Puts alloc (htons (length oids))) (put_oids-Puts oids))))

  put_bind-Puts :
      (ps : List Bytes) → Puts alloc (put_bind alloc ps) (message b'B' (bind_payload ps))
  unfolding put_bind put_ch put_i16
  put_bind-Puts ps = counted-Puts alloc b'B' (
      Puts-then (put-Puts alloc (0 ∷ [])) (
        Puts-then (put-Puts alloc (0 ∷ [])) (
          Puts-then (put-Puts alloc (htons 0)) (
            Puts-then (put-Puts alloc (htons (length ps))) (
              Puts-then (put_params-Puts ps)
                (Puts-then (put-Puts alloc (htons 1)) (put-Puts alloc (htons 1))))))))

  put_describe_portal-Puts : Puts alloc (put_describe_portal alloc) (message b'D' (b'P' ∷ 0 ∷ []))
  unfolding put_describe_portal put_ch
  put_describe_portal-Puts =
      counted-Puts alloc b'D' (Puts-then (put-Puts alloc (b'P' ∷ [])) (put-Puts alloc (0 ∷ [])))

  put_execute-Puts : Puts alloc (put_execute alloc) (message b'E' (0 ∷ htonl 0))
  unfolding put_execute put_ch put_i32
  put_execute-Puts =
      counted-Puts alloc b'E' (Puts-then (put-Puts alloc (0 ∷ [])) (put-Puts alloc (htonl 0)))

  pub pg_put_query-Puts :
      (sql : Bytes) (oids : List ℕ) (ps : List Bytes)
      → Puts alloc (pg_put_query alloc sql oids ps) (query_messages sql oids ps)
  unfolding pg_put_query
  pg_put_query-Puts sql oids ps =
      Puts-then (put_parse-Puts sql oids)
        (Puts-then (put_bind-Puts ps) (Puts-then put_describe_portal-Puts put_execute-Puts))

-- pg_put_query on a buffer that its text fits, where no memory is refused: it returns true, with
-- the messages Parse, Bind, Describe and Execute of the query behind the text, each with its
-- length, and no write leaves the buffer.
pub pg_put_query-query_messages :
    (alloc : ℕ → Bool) (sql : Bytes) (oids : List ℕ) (ps : List Bytes) (c : Conn)
    → ((n : ℕ) → alloc n ≡ true)
    → length c.text ≤ c.buf_size
    → (d : Conn) × (pg_put_query alloc sql oids ps c ≡ ok (true, d))
      × (d.text ≡ c.text ++ query_messages sql oids ps)
      × (length d.text ≤ d.buf_size)
pg_put_query-query_messages alloc sql oids ps c granted fits =
    let ((flag, d), run, a) = pg_put_query-Puts alloc sql oids ps c fits in
    let e : flag ≡ true = a.granted granted in
    (
      d,
      subst (λ b. pg_put_query alloc sql oids ps c ≡ ok (b, d)) e run,
      a.text e,
      omega (arith, a.fits e),
    )

-- pg_put_query on a buffer that its text fits returns, true or false, whatever memory it gets: no
-- write leaves the buffer.
pub pg_put_query-Returns :
    (alloc : ℕ → Bool) (sql : Bytes) (oids : List ℕ) (ps : List Bytes) (c : Conn)
    → length c.text ≤ c.buf_size
    → (r : Bool × Conn) × (pg_put_query alloc sql oids ps c ≡ ok r)
pg_put_query-Returns alloc sql oids ps c fits =
    let (r, run, _) = pg_put_query-Puts alloc sql oids ps c fits in (r, run)
