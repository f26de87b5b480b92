-- ===== src/Buffer/Sequential.antt =====
-- src/buffer.rs: one reservation at a time.
use rust_xhttp.Common.{ℕ, ◌+◌, ◌-◌, ◌^◌, ◌<◌, ◌≡◌, ◌≢◌, ◌↔◌, none, some, arith}
use rust_xhttp.Buffer.{Budget, try_reserve, release}

-- With a limit, `try_reserve` gives nothing exactly when the bytes in use and the bytes wanted
-- together pass the limit, for a limit below the largest u64.
pub try_reserve-eq-none_iff :
    (b : Budget) (bytes : ℕ)
    → b.limit ≢ 0
    → b.limit < 2 ^ 64 - 1
    → (try_reserve b bytes ≡ none) ↔ (b.limit < b.used + bytes)
unfolding try_reserve
try_reserve-eq-none_iff b bytes nonzero small = (λ e. ground arith, λ h. ground arith)

-- Dropping a reservation undoes it: the budget is as it was, with a limit or without, as long as
-- the counter does not wrap and the limit, if there is one, is below the largest u64.
pub release-try_reserve :
    (b b' : Budget) (bytes : ℕ)
    → b.limit < 2 ^ 64 - 1
    → b.used + bytes < 2 ^ 64
    → try_reserve b bytes ≡ some b'
    → release b' bytes ≡ b
unfolding try_reserve release
release-try_reserve b b' bytes small fits e = ground arith
