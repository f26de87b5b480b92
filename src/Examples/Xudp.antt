-- ===== src/Examples/Xudp.antt =====
-- Runs of src/xudp.rs, after its tests.
use rust_xhttp.Common.{◌≡◌, refl, [], ◌∷◌, ◌++◌, some, Bytes, arith, inl, ok, replicate}
use rust_xhttp.Vless.Address.{ipv4}
use rust_xhttp.Xudp.{Frame, encode_frame, read_frame}
use rust_xhttp.Xudp.RoundTrip.{IsFrame, read_frame-encode_frame}

abbrev dns_frame : Frame
dns_frame = record {
  session_id = 0;
  status = 1;
  option = 1;
  target = some (record { address = ipv4 127 0 0 1; port = 53 });
  global_id = some (replicate 8 9);
  payload = b'd' ∷ b'n' ∷ b's' ∷ [];
}

dns_frame-IsFrame : IsFrame dns_frame
dns_frame-IsFrame = record {
  session_fits = omega arith;
  status_known = refl;
  target_fits = (inl refl, omega arith, omega arith, (refl, refl, refl));
  payload_fits = omega arith;
  payload_flagged = λ e. cc;
}

read_frame-encode_frame_example :
    (out : Bytes) × (encode_frame dns_frame ≡ ok out)
    × (read_frame (out ++ 7 ∷ []) ≡ ok (dns_frame, 7 ∷ []))
read_frame-encode_frame_example = read_frame-encode_frame dns_frame dns_frame-IsFrame (7 ∷ [])
