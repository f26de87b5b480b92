-- ===== src/Vless/Addons/Loop.antt =====
-- src/vless/addons.rs: one round of the loop of `decode_addons_body`.
use rust_xhttp.Common.{ℕ, suc, ◌≤◌, ◌<◌, ◌≡◌, Bytes, ok, length, lt→ltb, le→ltb_false}
use rust_xhttp.Vless.Addons.{Addons, next, stop, Outcome, returns, decode_round, decode_loop}

module _ (fuel : ℕ) (body : Bytes) (i : ℕ) (addons : Addons) where
  pub loop-next :
      (i' : ℕ) (addons' : Addons)
      → i < length body
      → decode_round body i addons ≡ next i' addons'
      → decode_loop (suc fuel) body i addons ≡ decode_loop fuel body i' addons'
  unfolding decode_loop
  loop-next i' addons' h e = rw (lt→ltb i (length body) h, e)

  pub loop-stop :
      (o : Outcome)
      → i < length body
      → decode_round body i addons ≡ stop o
      → decode_loop (suc fuel) body i addons ≡ o
  unfolding decode_loop
  loop-stop o h e = rw (lt→ltb i (length body) h, e)

  pub loop-end : length body ≤ i → decode_loop (suc fuel) body i addons ≡ returns (ok addons)
  unfolding decode_loop
  loop-end h = rw (le→ltb_false i (length body) h)
