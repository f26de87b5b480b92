-- ===== src/Buffer.antt =====
-- src/buffer.rs: the global byte budget. A `u64` operation of the atomic counter wraps.
pub mod Concurrent
pub mod Sequential
use rust_xhttp.Common.{
  ℕ, ◌+◌, ◌-◌, ◌%◌, ◌^◌, Bool, true, Option, none, some, if◌then◌else◌, ◌==◌, ltb, saturating_add,
}

pub record Budget : Type 0 where
  pub used : ℕ
  pub limit : ℕ

unfoldable pub new : ℕ → Budget
new limit_bytes = record { used = 0; limit = limit_bytes }

-- The body of the loop of `try_reserve` on the value `cur` that was loaded: the value that the
-- exchange would store, or `none` where the function gives up.
unfoldable pub next_used : ℕ → ℕ → ℕ → Option ℕ
next_used limit cur bytes =
    let next = saturating_add cur bytes in if ltb limit next then none else some next

-- `fetch_add` and `fetch_sub`
abbrev pub fetch_add : ℕ → ℕ → ℕ
fetch_add used bytes = (used + bytes) % 2 ^ 64

abbrev pub fetch_sub : ℕ → ℕ → ℕ
fetch_sub used bytes = (used + 2 ^ 64 - bytes) % 2 ^ 64

-- `try_reserve` where nothing else touches the counter, so that the first exchange succeeds: the
-- new budget, or `none` where nothing is reserved. A reservation is the number of its bytes.
unfoldable pub try_reserve : Budget → ℕ → Option Budget
unfolding next_used
try_reserve b bytes =
    if b.limit == 0
    then some (record b { used = fetch_add b.used bytes })
    else elim (next_used b.limit b.used bytes) [
      | none ↦ none
      | some next ↦ some (record b { used = next })
    ]

-- Dropping a reservation of `bytes`.
unfoldable pub release : Budget → ℕ → Budget
release b bytes = record b { used = fetch_sub b.used bytes }
