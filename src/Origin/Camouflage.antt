-- ===== src/Origin/Camouflage.antt =====
-- src/origin.rs: what a request that does not speak XHTTP gets.
use rust_xhttp.Common.{◌≤◌, ◌≡◌, false, ◌&&◌, ◌||◌, bytes_eq}
use rust_xhttp.Origin.{Request, Origin, options_name, request_header_bytes}
use rust_xhttp.Origin.Names.{healthz, readyz}
use rust_xhttp.Origin.Handle.{is_addressed, has_padding}

-- A request that is for the site: its headers are within the limit, it is no health check, and it
-- has another path or host than the configured ones, or no padding of a valid length and is not
-- an OPTIONS request.
pub record IsForSite (o : Origin) (request : Request) : Type 0 where
  pub small : request_header_bytes request ≤ o.xhttp.max_header_bytes
  pub no_health : (bytes_eq request.path healthz || bytes_eq request.path readyz) ≡ false
  pub unqualified :
      (is_addressed o request && (bytes_eq request.method options_name || has_padding o request))
      ≡ false
