-- ===== src/Mugshot/Arena.antt =====
-- The arena allocator of mugshot/mugshot.c, on addresses. `malloc` gives an address, or 0 for NULL.
use plmuggin.Base.{
  ℕ, ◌+◌, ◌<◌, ◌||◌, ◌-◌, ◌*◌, ◌%◌, ◌^◌, ◌≤◌, ◌≡◌, ◌≢◌, refl, false, Option, none, some, arith,
  IsAlignment, of_1, of_2, of_4, of_8, of_16, bit_and-mod, leb, ◌==◌, if◌then◌else◌, Bool-cases,
  inl, inr,
}
use plmuggin.Result.{Result, ok, fail, out_of_bounds, overflow}
use Prim.Native.Nat.{bit_and}

-- mugshot_arena: `limit` is its `end`
pub record Arena : Type 0 where
  pub start : ℕ
  pub cur : ℕ
  pub limit : ℕ

abbrev pub default_size : ℕ
default_size = 8 * 1024 * 1024

unfoldable pub mugshot_arena_init : (ℕ → ℕ) → ℕ → Arena
mugshot_arena_init malloc capacity = record {
  start = malloc capacity;
  cur = malloc capacity;
  limit = malloc capacity + capacity;
}

-- `-(uintptr_t)cur & (align - 1)`, for an alignment, which is not 0
unfoldable pub padding : ℕ → ℕ → ℕ
padding cur align = bit_and ((2 ^ 64 - cur % 2 ^ 64) % 2 ^ 64) (align - 1)

-- The block behind `cur`, which memset clears: a write through NULL where malloc gave none. The
-- product of two ptrdiff_t has 63 bits, and the sum is a pointer.
unfoldable pub take_block : Arena → ℕ → ℕ → Result (Option ℕ × Arena)
take_block a pad bytes =
    if leb (2 ^ 63) bytes || leb (2 ^ 64) (a.cur + pad + bytes)
    then fail overflow
    else if leb a.limit (a.cur + pad + bytes)
    then ok (none, a)
    else if a.start == 0
    then fail out_of_bounds
    else ok (some (a.cur + pad), record a { cur = a.cur + pad + bytes })

-- mugshot_arena_alloc: the address of the block, or `none` for NULL
unfoldable pub mugshot_arena_alloc : (ℕ → ℕ) → Arena → ℕ → ℕ → ℕ → Result (Option ℕ × Arena)
unfolding mugshot_arena_init take_block padding
mugshot_arena_alloc malloc a size align count =
    let ready = if a.start == 0 then mugshot_arena_init malloc default_size else a in
    take_block ready (padding ready.cur align) (count * size)

unfoldable pub mugshot_arena_clear : Arena → Arena
mugshot_arena_clear a = record a { cur = a.start }

-- An arena with memory, of which a part is used.
pub record IsArena (a : Arena) : Type 0 where
  pub has_memory : a.start ≢ 0
  pub used : a.start ≤ a.cur
  pub inside : a.cur ≤ a.limit

-- How an allocation of `bytes` may end: with NULL and the arena as it was, or with a block that
-- is aligned, begins behind all that was in use and ends before the end of the memory and where the
-- arena's use now ends.
pub data Allocates (a : Arena) (align bytes : ℕ) : Option ℕ × Arena → Type 0 where
  refused : Allocates a align bytes (none, a)
  allocated :
      {p : ℕ} {b : Arena}
      → IsArena b
      → p % align ≡ 0
      → a.cur ≤ p
      → b.cur ≡ p + bytes
      → b.start ≡ a.start
      → b.limit ≡ a.limit
      → Allocates a align bytes (some p, b)

-- The address that is padded is aligned.
padding-aligned : (cur align : ℕ) → IsAlignment align → (cur + padding cur align) % align ≡ 0
unfolding padding
padding-aligned cur align h =
    let x = (2 ^ 64 - cur % 2 ^ 64) % 2 ^ 64 in rw (bit_and-mod x align h) (to_next h)
  where
    to_next : IsAlignment align → (cur + (2 ^ 64 - cur % 2 ^ 64) % 2 ^ 64 % align) % align ≡ 0
    to_next (of_1 e) = rw e (omega arith)
    to_next (of_2 e) = rw e (omega arith)
    to_next (of_4 e) = rw e (omega arith)
    to_next (of_8 e) = rw e (omega arith)
    to_next (of_16 e) = rw e (omega arith)

take_block-Allocates :
    (a : Arena) (align pad bytes : ℕ)
    → IsArena a
    → bytes < 2 ^ 63
    → a.cur + pad + bytes < 2 ^ 64
    → (a.cur + pad) % align ≡ 0
    → (r : Option ℕ × Arena) × (take_block a pad bytes ≡ ok r) × Allocates a align bytes r
unfolding take_block
take_block-Allocates a align pad bytes inv small near aligned =
    let fine : (leb (2 ^ 63) bytes || leb (2 ^ 64) (a.cur + pad + bytes)) ≡ false = ground arith in
    elim (Bool-cases (leb a.limit (a.cur + pad + bytes))) [
      | inl full ↦ ((none, a), rw (fine, full) refl, refused)
      | inr roomy ↦
          let b : Arena = record a { cur = a.cur + pad + bytes } in
          let there : (a.start == 0) ≡ false = ground (arith, inv.has_memory) in
          (
            (some (a.cur + pad), b),
            rw (fine, roomy, there) refl,
            allocated
                (record {
                  has_memory = inv.has_memory;
                  used = omega (arith, inv.used);
                  inside = ground arith;
                })
                aligned (omega arith) (omega arith) refl refl,
          )
    ]

-- On an arena with memory mugshot_arena_alloc gives NULL and leaves the arena as it was, or gives a
-- block of count * size bytes that is aligned, overlaps nothing in use and lies within the arena's
-- memory. The alignment is 1, 2, 4, 8 or 16, the product is within ptrdiff_t, and the end that is
-- asked for within the address space.
pub mugshot_arena_alloc-Allocates :
    (malloc : ℕ → ℕ) (a : Arena) (size align count : ℕ)
    → IsArena a
    → IsAlignment align
    → count * size < 2 ^ 63
    → a.cur + padding a.cur align + count * size < 2 ^ 64
    → (r : Option ℕ × Arena) × (mugshot_arena_alloc malloc a size align count ≡ ok r)
      × Allocates a align (count * size) r
unfolding mugshot_arena_alloc
mugshot_arena_alloc-Allocates malloc a size align count inv h small near =
    let there : (a.start == 0) ≡ false = ground (arith, inv.has_memory) in
    rw there (
      take_block-Allocates a align (padding a.cur align) (count * size) inv small near
        (padding-aligned a.cur align h))
