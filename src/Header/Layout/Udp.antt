-- ===== src/Header/Layout/Udp.antt =====
-- UDP_HEADER_t of c/common/header.h, packed to one byte.
use study_tips.Base.{ℕ}

abbrev pub src_port : ℕ
src_port = 0

abbrev pub dst_port : ℕ
dst_port = 2

abbrev pub udp_length : ℕ
udp_length = 4

abbrev pub check_sum : ℕ
check_sum = 6

abbrev pub size : ℕ
size = 8
