-- ===== src/Pgwire.antt =====
-- The output buffer of mugshot/pgwire.c and the messages that it puts there. `alloc n` says whether
-- realloc gets `n` bytes. The sizes are far below those at which size_t would wrap.
pub mod Frames
pub mod Read
pub mod Value
pub mod Row
pub mod NextRow
pub mod Session
pub mod Query
pub mod Connect
use plmuggin.Base.{
  ℕ, zero, suc, ◌+◌, ◌-◌, ◌*◌, ◌/◌, ◌%◌, ◌^◌, Bool, true, false, ◌||◌, List, [], ◌∷◌, ◌++◌, ltb,
  leb, if◌then◌else◌, Bytes, length, take, drop,
}
use plmuggin.Result.{Result, ok, fail, out_of_bounds, ◌>>=◌}
use plmuggin.Strbuf.{golden}

-- The buffer of PgConn: `text` is what is before buf_pos.
pub record Conn : Type 0 where
  pub buf_size : ℕ
  pub text : Bytes

abbrev pub min_buffer_size : ℕ
min_buffer_size = 4096

abbrev pub min_buffer_increase : ℕ
min_buffer_increase = 8192

abbrev pub max_buffer_increase : ℕ
max_buffer_increase = 5242880

-- the size that pg_ensure_buf asks for
unfoldable pub new_buf_size : ℕ → ℕ → ℕ
new_buf_size size wanted =
    let new_size = golden size in
    let increase = new_size - size in
    if ltb new_size wanted || ltb max_buffer_increase increase
    then wanted
    else if ltb increase min_buffer_increase
    then size + min_buffer_increase
    else new_size

-- false where the memory is refused; the buffer is then as it was
unfoldable pub pg_ensure_buf : (ℕ → Bool) → Conn → ℕ → Bool × Conn
unfolding new_buf_size
pg_ensure_buf alloc c extra =
    let wanted = length c.text + extra + min_buffer_increase in
    let new_size = new_buf_size c.buf_size wanted in
    if ltb c.buf_size wanted
    then (if alloc new_size then (true, record c { buf_size = new_size }) else (false, c))
    else (true, c)

-- A part of a function that puts a message: false is the way to its `return false`.
abbrev pub Put : Type 0
Put = Conn → Result (Bool × Conn)

infixl 5 ◌>>>◌
unfoldable pub ◌>>>◌ : Put → Put → Put
(m >>> k) c = do r ← m c; if r.0 then k (r.1) else ok (false, r.1)

-- `memcpy` to buf_pos
unfoldable pub store : Bytes → Bool × Conn → Result (Bool × Conn)
store bytes (false, c) = ok (false, c)
store bytes (true, c) =
    if leb (length c.text + length bytes) c.buf_size
    then ok (true, record c { text = c.text ++ bytes })
    else fail out_of_bounds

unfoldable pub put : (ℕ → Bool) → Bytes → Put
unfolding pg_ensure_buf store
put alloc bytes c = store bytes (pg_ensure_buf alloc c (length bytes))

-- htons and htonl, as the bytes that they lay down
abbrev pub htons : ℕ → Bytes
htons v = v / 2 ^ 8 % 2 ^ 8 ∷ v % 2 ^ 8 ∷ []

abbrev pub htonl : ℕ → Bytes
htonl v = v / 2 ^ 24 % 2 ^ 8 ∷ v / 2 ^ 16 % 2 ^ 8 ∷ v / 2 ^ 8 % 2 ^ 8 ∷ v % 2 ^ 8 ∷ []

unfoldable pub put_ch : (ℕ → Bool) → ℕ → Put
unfolding put
put_ch alloc ch = put alloc (ch ∷ [])

unfoldable pub put_i16 : (ℕ → Bool) → ℕ → Put
unfolding put
put_i16 alloc v = put alloc (htons v)

unfoldable pub put_i32 : (ℕ → Bool) → ℕ → Put
unfolding put
put_i32 alloc v = put alloc (htonl v)

-- put_string of a C string, whose NUL is copied with it
unfoldable pub put_string : (ℕ → Bool) → Bytes → Put
unfolding put
put_string alloc s = put alloc (s ++ 0 ∷ [])

unfoldable pub put_len_str : (ℕ → Bool) → Bytes → Put
unfolding put_i32 put
put_len_str alloc s = put_i32 alloc (length s) >>> put alloc s

-- mark_len, which leaves four bytes without a look at the size of the buffer
unfoldable pub mark_len : Conn → Conn
mark_len c = record c { text = c.text ++ 0 ∷ 0 ∷ 0 ∷ 0 ∷ [] }

-- update_len, which writes to the four bytes at `len_pos`
unfoldable pub update_len : ℕ → Put
update_len len_pos c =
    if leb (len_pos + 4) c.buf_size
    then ok (
      true,
      record c {
        text =
            take len_pos c.text ++ (htonl (length c.text - len_pos) ++ drop (len_pos + 4) c.text);
      },
    )
    else fail out_of_bounds

-- `mark_len(c); …; update_len(c);`
unfoldable pub counted : Put → Put
unfolding mark_len update_len ◌>>>◌
counted body c = (body >>> update_len (length c.text)) (mark_len c)

-- the loops over the parameters
unfoldable pub put_oids : (ℕ → Bool) → List ℕ → Put
unfolding put_i32 ◌>>>◌
put_oids alloc [] c = ok (true, c)
put_oids alloc (oid ∷ oids) c = (put_i32 alloc oid >>> put_oids alloc oids) c

unfoldable pub put_params : (ℕ → Bool) → List Bytes → Put
unfolding put_len_str ◌>>>◌
put_params alloc [] c = ok (true, c)
put_params alloc (p ∷ ps) c = (put_len_str alloc p >>> put_params alloc ps) c

unfoldable pub put_parse : (ℕ → Bool) → Bytes → List ℕ → Put
unfolding put_ch put_string put_i16 put_oids counted ◌>>>◌
put_parse alloc sql param_oids =
    put_ch alloc b'P'
    >>> counted (
        put_ch alloc 0
        >>> (put_string alloc sql
            >>> (put_i16 alloc (length param_oids) >>> put_oids alloc param_oids)))

unfoldable pub put_bind : (ℕ → Bool) → List Bytes → Put
unfolding put_ch put_i16 put_params counted ◌>>>◌
put_bind alloc param_data =
    put_ch alloc b'B'
    >>> counted (
        put_ch alloc 0
        >>> (put_ch alloc 0
            >>> (put_i16 alloc 0
                >>> (put_i16 alloc (length param_data)
                    >>> (put_params alloc param_data >>> (put_i16 alloc 1 >>> put_i16 alloc 1))))))

unfoldable pub put_describe_portal : (ℕ → Bool) → Put
unfolding put_ch counted ◌>>>◌
put_describe_portal alloc = put_ch alloc b'D' >>> counted (put_ch alloc b'P' >>> put_ch alloc 0)

unfoldable pub put_execute : (ℕ → Bool) → Put
unfolding put_ch put_i32 counted ◌>>>◌
put_execute alloc = put_ch alloc b'E' >>> counted (put_ch alloc 0 >>> put_i32 alloc 0)

unfoldable pub put_sync : (ℕ → Bool) → Put
unfolding put_ch put_i32 ◌>>>◌
put_sync alloc = put_ch alloc b'S' >>> put_i32 alloc 4

-- pg_put_query; the two lists have num_params entries
unfoldable pub pg_put_query : (ℕ → Bool) → Bytes → List ℕ → List Bytes → Put
unfolding put_parse put_bind put_describe_portal put_execute ◌>>>◌
pg_put_query alloc sql param_oids param_data =
    put_parse alloc sql param_oids
    >>> (put_bind alloc param_data >>> (put_describe_portal alloc >>> put_execute alloc))
