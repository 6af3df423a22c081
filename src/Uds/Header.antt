-- ===== src/Uds/Header.antt =====
-- The packed header of src/uds/transport_uds.h: what is written is what is read.
use libkrossbar.Prelude.{ℕ, ◌^◌, ◌<◌, ◌≡◌, refl, some, length, ap, arith}
use libkrossbar.Uds.{magic, header_bytes, read_header}

-- The header of a message of fewer than 2^32 bytes is read back as the magic number and its length.
pub read_header-header_bytes :
    (len : ℕ) → len < 2 ^ 32 → read_header (header_bytes len) ≡ some (magic, len)
unfolding read_header header_bytes
read_header-header_bytes len h = ap (λ n. some (magic, n)) (omega arith)

pub length-header_bytes : (len : ℕ) → length (header_bytes len) ≡ 5
unfolding header_bytes
length-header_bytes len = refl
