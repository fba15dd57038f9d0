-- ===== src/Mugshot/Worker/Connection.antt =====
-- ensure_connection of mugshot/mugshot.c: a worker gets a connection to the database before it takes a
-- request. What the calls of pg_connect give, one after the other, is a list.
use plmuggin.Base.{
  ℕ, zero, suc, ◌*◌, ◌≤◌, ◌≡◌, refl, ap, true, Option, none, some, List, [], ◌∷◌, ◌++◌, arith, ltb,
  if◌then◌else◌, length, replicate, All,
}
use plmuggin.Pgwire.Session.{PgConn}

-- the time to sleep after the next failure
unfoldable pub next_sleep : ℕ → ℕ
next_sleep seconds = if ltb 60 (seconds * 2) then 60 else seconds * 2

-- the loop: the connection and the seconds that were slept, or `none` where the attempts given do not
-- reach its end
unfoldable pub connect_again : ℕ → List (Option PgConn) → Option (PgConn × List ℕ)
connect_again seconds [] = none
connect_again seconds (some c ∷ attempts) = some (c, [])
connect_again seconds (none ∷ attempts) = elim (connect_again (next_sleep seconds) attempts) [
  | none ↦ none
  | some (c, slept) ↦ some (c, seconds ∷ slept)
]

-- ensure_connection, with the connection of the worker, which is closed where it is marked so
unfoldable pub ensure_connection : Option PgConn → List (Option PgConn) → Option (PgConn × List ℕ)
ensure_connection none attempts = connect_again 5 attempts
ensure_connection (some c) attempts = if c.close then connect_again 5 attempts else some (c, [])

-- A sleep is from 5 seconds to a minute.
abbrev pub IsSleep : ℕ → Type 0
IsSleep seconds = (5 ≤ seconds) × (seconds ≤ 60)

-- The connection cannot be used: there is none, or an error has marked it to be closed.
abbrev pub IsLost : Option PgConn → Type 0
IsLost none = Unit
IsLost (some c) = c.close ≡ true

next_sleep-IsSleep : (seconds : ℕ) → IsSleep seconds → IsSleep (next_sleep seconds)
unfolding next_sleep
next_sleep-IsSleep seconds h = ground arith

connect_again-replicate :
    (n seconds : ℕ) (c : PgConn) (rest : List (Option PgConn))
    → IsSleep seconds
    → (slept : List ℕ) × (connect_again seconds (replicate n none ++ some c ∷ rest)
        ≡ some (c, slept))
      × (length slept ≡ n)
      × All IsSleep slept
unfolding connect_again
connect_again-replicate zero seconds c rest h = ([], refl, refl, tt)
connect_again-replicate (suc n) seconds c rest h =
    let (slept, run, count, all) =
      connect_again-replicate n (next_sleep seconds) c rest (next_sleep-IsSleep seconds h) in
    (seconds ∷ slept, rw run refl, ap suc count, (h, all))

-- A worker whose connection is lost gets the first one that pg_connect gives, however often it has
-- failed before, and sleeps once after each failure, from 5 seconds to a minute.
pub ensure_connection-replicate :
    (old : Option PgConn) (n : ℕ) (c : PgConn) (rest : List (Option PgConn))
    → IsLost old
    → (slept : List ℕ) × (ensure_connection old (replicate n none ++ some c ∷ rest)
        ≡ some (c, slept))
      × (length slept ≡ n)
      × All IsSleep slept
unfolding ensure_connection
ensure_connection-replicate none n c rest lost =
    connect_again-replicate n 5 c rest (omega arith, omega arith)
ensure_connection-replicate (some old) n c rest lost =
    rw lost (connect_again-replicate n 5 c rest (omega arith, omega arith))
