-- ===== src/Tls/Messages/KeyShare.antt =====
-- src/tls/tls13/messages.rs: the search for the key share of a ServerHello. A slice index out of range
-- is the outcome `panics`. The loop has as many rounds as the end of the extensions says, and each one
-- moves on by four bytes at least.
use rust_xhttp.Common.{
  ℕ, zero, suc, ◌+◌, if◌then◌else◌, ◌==◌, leb, Option, none, some, Bytes, length, get_elem?,
}
use rust_xhttp.Tls.Messages.{u16_at, after_session_id}

abbrev pub ext_key_share : ℕ
ext_key_share = 0x0033

-- The group, the offset and the length of the share.
pub data Search : Type 0 where
  found : ℕ → ℕ → ℕ → Search
  absent panics : Search

-- `u16::from_be_bytes` of the bytes at an index and behind it.
abbrev pub word_at : Bytes → ℕ → Option ℕ
word_at hello pos = u16_at (get_elem? hello pos) (get_elem? hello (pos + 1))

-- The arm of the key share, with its group and its length.
abbrev pub share_at : Bytes → ℕ → Option ℕ → Option ℕ → Search
share_at hello ext_data (some group) (some kx_len) =
    if leb (ext_data + 4 + kx_len) (length hello) then found group (ext_data + 4) kx_len else absent
share_at hello ext_data _ _ = absent

-- One extension, with its type and its length.
abbrev pub extension_at : Bytes → ℕ → Option ℕ → Option ℕ → (ℕ → Search) → Search
extension_at hello pos (some ext_type) (some ext_len) next =
    let ext_data = pos + 4 in
    let later = next (ext_data + ext_len) in
    if ext_type == ext_key_share
    then share_at hello ext_data (word_at hello ext_data) (word_at hello (ext_data + 2))
    else later
extension_at hello pos _ _ next = panics

unfoldable pub find_from : ℕ → Bytes → ℕ → ℕ → Search
find_from zero hello ext_end pos = absent
find_from (suc fuel) hello ext_end pos =
    let round =
      extension_at hello pos (word_at hello pos) (word_at hello (pos + 2))
        (find_from fuel hello ext_end) in
    if leb (pos + 4) ext_end then round else absent

abbrev pub find_extensions : Bytes → ℕ → Option ℕ → Search
find_extensions hello pos none = absent
find_extensions hello pos (some ext_total) =
    find_from (pos + 2 + ext_total) hello (pos + 2 + ext_total) (pos + 2)

abbrev pub find_behind : Bytes → Option ℕ → Search
find_behind hello none = absent
find_behind hello (some pos) = find_extensions hello (pos + 2 + 1) (word_at hello (pos + 2 + 1))

unfoldable pub find_server_keyshare : Bytes → Search
unfolding find_from
find_server_keyshare hello =
    let pos = 1 + 3 + 2 + 32 in find_behind hello (after_session_id pos (get_elem? hello pos))
