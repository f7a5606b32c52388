-- ===== src/Header/Layout/Ipv4.antt =====
-- IPv4_HEADER_t of c/common/header.h, packed to one byte.
use study_tips.Base.{ℕ}

abbrev pub version_and_header_len : ℕ
version_and_header_len = 0

abbrev pub type_of_service : ℕ
type_of_service = 1

abbrev pub total_len_of_packet : ℕ
total_len_of_packet = 2

abbrev pub packet_id : ℕ
packet_id = 4

abbrev pub slice_info : ℕ
slice_info = 6

abbrev pub ttl : ℕ
ttl = 8

abbrev pub type_of_protocol : ℕ
type_of_protocol = 9

abbrev pub check_sum : ℕ
check_sum = 10

abbrev pub src_addr : ℕ
src_addr = 12

abbrev pub dst_addr : ℕ
dst_addr = 16

abbrev pub size : ℕ
size = 20
