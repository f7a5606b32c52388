-- ===== src/Header/Checksums.antt =====
-- The functions of c/common/header.h that write a checksum into a header in memory: the IPv4 header
-- checksum, the UDP checksums, and the older `..._checksum2` versions of these.
-- The pointers are offsets into one object, as in the senders, which keep both headers in one buffer.
-- The two versions for IPv4 and IPv6 differ in the fields of the IP header alone, so each is a call
-- of one function of the places of those fields.
pub mod Words
pub mod Received
pub mod Udp
pub mod Ip
pub mod Older
pub mod Outside
mod Tests
use study_tips.Base.{ℕ, ◌+◌, ◌-◌, ◌^◌, Option, some, bit_and}
use study_tips.Base.Word.{u8, u16, u32, ◌<<<◌}
use study_tips.Header.Memory.{Mem, load, store16, htons, ◌>>=◌}
use study_tips.Header.Layout.Ipv4
use study_tips.Header.Layout.Ipv6
use study_tips.Header.Layout.Udp as UdpLayout
use study_tips.Header.Sum.{checksum, csum}

-- The field that a UDP checksum function stores for the folded sum: `htons((uint16_t)(~sum))`.
abbrev pub complement : ℕ → ℕ
complement sum = htons (u16 (2 ^ 32 - 1 - sum))

pub ipv4_header_checksum : Mem → ℕ → Option Mem
ipv4_header_checksum m ip = do
  first ← load m (ip + Ipv4.version_and_header_len)
  let ip_head_len = u8 (bit_and first 0x0F <<< 2)
  m1 ← store16 m (ip + Ipv4.check_sum) 0
  sum ← checksum m1 0 (some ip) ip_head_len
  store16 m1 (ip + Ipv4.check_sum) (complement sum)

-- `src` and `dst` are the places of addresses of `len` bytes, `proto` that of the protocol's byte.
pub udp_checksum : Mem → (src dst len proto udp udp_len : ℕ) → Option Mem
udp_checksum m src dst len proto udp udp_len = do
  m1 ← store16 m (udp + UdpLayout.udp_length) (htons (u16 udp_len))
  sum1 ← checksum m1 (u32 udp_len) (some src) len
  sum2 ← checksum m1 sum1 (some dst) len
  next ← load m1 proto
  m2 ← store16 m1 (udp + UdpLayout.check_sum) 0
  sum ← checksum m2 (u32 (sum2 + bit_and next 0x00FF)) (some udp) (u32 udp_len)
  store16 m2 (udp + UdpLayout.check_sum) (complement sum)

pub udp4_header_checksum : Mem → (ip udp udp_len : ℕ) → Option Mem
udp4_header_checksum m ip udp udp_len =
    udp_checksum m (ip + Ipv4.src_addr) (ip + Ipv4.dst_addr) 4 (ip + Ipv4.type_of_protocol) udp
      udp_len

pub udp6_header_checksum : Mem → (ip udp udp_len : ℕ) → Option Mem
udp6_header_checksum m ip udp udp_len =
    udp_checksum m (ip + Ipv6.src_addr) (ip + Ipv6.dst_addr) 16 (ip + Ipv6.next_header) udp udp_len

-- The older versions assign each sum to `sum` and so drop the one before; `csum` complements too.
-- Its `int packlen` holds the length as it is for a length below 2 ^ 31, which is all that is modelled.
pub udp_checksum2 : Mem → (src dst len proto udp udp_len : ℕ) → Option Mem
udp_checksum2 m src dst len proto udp udp_len = do
  m1 ← store16 m (udp + UdpLayout.udp_length) (htons (u16 udp_len))
  let sum0 = u32 udp_len
  sum1 ← csum m1 src len
  sum2 ← csum m1 dst len
  next ← load m1 proto
  let sum3 = u32 (sum2 + bit_and next 0x00FF)
  m2 ← store16 m1 (udp + UdpLayout.check_sum) 0
  sum ← csum m2 udp udp_len
  store16 m2 (udp + UdpLayout.check_sum) (complement sum)

pub udp4_header_checksum2 : Mem → (ip udp udp_len : ℕ) → Option Mem
udp4_header_checksum2 m ip udp udp_len =
    udp_checksum2 m (ip + Ipv4.src_addr) (ip + Ipv4.dst_addr) 4 (ip + Ipv4.type_of_protocol) udp
      udp_len

pub udp6_header_checksum2 : Mem → (ip udp udp_len : ℕ) → Option Mem
udp6_header_checksum2 m ip udp udp_len =
    udp_checksum2 m (ip + Ipv6.src_addr) (ip + Ipv6.dst_addr) 16 (ip + Ipv6.next_header) udp udp_len
