-- ===== src/Origin/Names.antt =====
-- src/origin.rs: the paths, the header names and the header values that it spells out.
use rust_xhttp.Common.{[], ◌∷◌, Bytes}

abbrev pub healthz : Bytes
healthz = b'/' ∷ b'h' ∷ b'e' ∷ b'a' ∷ b'l' ∷ b't' ∷ b'h' ∷ b'z' ∷ []

abbrev pub readyz : Bytes
readyz = b'/' ∷ b'r' ∷ b'e' ∷ b'a' ∷ b'd' ∷ b'y' ∷ b'z' ∷ []

abbrev pub name_content_type : Bytes
name_content_type =
    b'c' ∷ b'o' ∷ b'n' ∷ b't' ∷ b'e' ∷ b'n' ∷ b't' ∷ b'-' ∷ b't' ∷ b'y' ∷ b'p' ∷ b'e' ∷ []

abbrev pub name_content_length : Bytes
name_content_length =
    b'c' ∷ b'o' ∷ b'n' ∷ b't' ∷ b'e' ∷ b'n' ∷ b't' ∷ b'-' ∷ b'l' ∷ b'e' ∷ b'n' ∷ b'g' ∷ b't' ∷ b'h'
    ∷ []

abbrev pub name_cache_control : Bytes
name_cache_control =
    b'c' ∷ b'a' ∷ b'c' ∷ b'h' ∷ b'e' ∷ b'-' ∷ b'c' ∷ b'o' ∷ b'n' ∷ b't' ∷ b'r' ∷ b'o' ∷ b'l' ∷ []

abbrev pub name_etag : Bytes
name_etag = b'e' ∷ b't' ∷ b'a' ∷ b'g' ∷ []

abbrev pub name_last_modified : Bytes
name_last_modified =
    b'l' ∷ b'a' ∷ b's' ∷ b't' ∷ b'-' ∷ b'm' ∷ b'o' ∷ b'd' ∷ b'i' ∷ b'f' ∷ b'i' ∷ b'e' ∷ b'd' ∷ []

abbrev pub name_nosniff : Bytes
name_nosniff =
    b'x' ∷ b'-' ∷ b'c' ∷ b'o' ∷ b'n' ∷ b't' ∷ b'e' ∷ b'n' ∷ b't' ∷ b'-' ∷ b't' ∷ b'y' ∷ b'p' ∷ b'e'
    ∷ b'-' ∷ b'o' ∷ b'p' ∷ b't' ∷ b'i' ∷ b'o' ∷ b'n' ∷ b's' ∷ []

abbrev pub nosniff : Bytes
nosniff = b'n' ∷ b'o' ∷ b's' ∷ b'n' ∷ b'i' ∷ b'f' ∷ b'f' ∷ []

abbrev pub name_referrer_policy : Bytes
name_referrer_policy =
    b'r' ∷ b'e' ∷ b'f' ∷ b'e' ∷ b'r' ∷ b'r' ∷ b'e' ∷ b'r' ∷ b'-' ∷ b'p' ∷ b'o' ∷ b'l' ∷ b'i' ∷ b'c'
    ∷ b'y' ∷ []

abbrev pub strict_origin : Bytes
strict_origin =
    b's' ∷ b't' ∷ b'r' ∷ b'i' ∷ b'c' ∷ b't' ∷ b'-' ∷ b'o' ∷ b'r' ∷ b'i' ∷ b'g' ∷ b'i' ∷ b'n' ∷ b'-'
    ∷ b'w' ∷ b'h' ∷ b'e' ∷ b'n' ∷ b'-' ∷ b'c' ∷ b'r' ∷ b'o' ∷ b's' ∷ b's' ∷ b'-' ∷ b'o' ∷ b'r'
    ∷ b'i' ∷ b'g' ∷ b'i' ∷ b'n' ∷ []

abbrev pub name_allow : Bytes
name_allow = b'a' ∷ b'l' ∷ b'l' ∷ b'o' ∷ b'w' ∷ []

abbrev pub name_if_none_match : Bytes
name_if_none_match =
    b'i' ∷ b'f' ∷ b'-' ∷ b'n' ∷ b'o' ∷ b'n' ∷ b'e' ∷ b'-' ∷ b'm' ∷ b'a' ∷ b't' ∷ b'c' ∷ b'h' ∷ []

abbrev pub name_x_padding : Bytes
name_x_padding = b'x' ∷ b'-' ∷ b'p' ∷ b'a' ∷ b'd' ∷ b'd' ∷ b'i' ∷ b'n' ∷ b'g' ∷ []

abbrev pub name_buffering : Bytes
name_buffering =
    b'x' ∷ b'-' ∷ b'a' ∷ b'c' ∷ b'c' ∷ b'e' ∷ b'l' ∷ b'-' ∷ b'b' ∷ b'u' ∷ b'f' ∷ b'f' ∷ b'e' ∷ b'r'
    ∷ b'i' ∷ b'n' ∷ b'g' ∷ []

abbrev pub no_store : Bytes
no_store = b'n' ∷ b'o' ∷ b'-' ∷ b's' ∷ b't' ∷ b'o' ∷ b'r' ∷ b'e' ∷ []

abbrev pub event_stream : Bytes
event_stream =
    b't' ∷ b'e' ∷ b'x' ∷ b't' ∷ b'/' ∷ b'e' ∷ b'v' ∷ b'e' ∷ b'n' ∷ b't' ∷ b'-' ∷ b's' ∷ b't' ∷ b'r'
    ∷ b'e' ∷ b'a' ∷ b'm' ∷ []
