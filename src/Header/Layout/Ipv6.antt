-- ===== src/Header/Layout/Ipv6.antt =====
-- IPv6_HEADER_t of c/common/header.h, packed to one byte.
use study_tips.Base.{ℕ}

abbrev pub vtf : ℕ
vtf = 0

abbrev pub payload_len : ℕ
payload_len = 4

abbrev pub next_header : ℕ
next_header = 6

abbrev pub hop_limit : ℕ
hop_limit = 7

abbrev pub src_addr : ℕ
src_addr = 8

abbrev pub dst_addr : ℕ
dst_addr = 24

abbrev pub size : ℕ
size = 40
