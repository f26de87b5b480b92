-- ===== src/Examples/Buffer.antt =====
-- Runs of src/buffer.rs.
use rust_xhttp.Common.{◌≡◌, ◌≤◌, refl, [], ◌∷◌, arith}
use rust_xhttp.Buffer.{Budget, new, next_used}
use rust_xhttp.Buffer.Concurrent.{
  idle, loaded, holding, System, load, exchange, Reach, here, further, start, held, Reach-start,
}

abbrev half_full : Budget
half_full = record { used = 5; limit = 10 }

-- One of two threads loads the counter and then reserves three bytes.
one_holds : System
one_holds = record { budget = record { used = 3; limit = 10 }; threads = holding 3 ∷ idle ∷ [] }

one_loaded : System
one_loaded = record { budget = new 10; threads = loaded 3 0 ∷ idle ∷ [] }

reserves : Reach (start 10 2) one_holds
unfolding one_holds one_loaded new next_used
reserves =
    further {t = one_loaded} (further here (load 3 (λ e. omega arith) ([], idle ∷ [], refl, refl)))
      (exchange 3 0 3 refl refl ([], idle ∷ [], refl, refl))

Reach-start_example :
    (one_holds.budget.used ≡ held one_holds.threads) × (held one_holds.threads ≤ 10)
Reach-start_example = Reach-start 10 2 one_holds (omega arith) (omega arith) reserves
