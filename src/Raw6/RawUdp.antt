-- ===== src/Raw6/RawUdp.antt =====
-- c/raw6/rawudp.c: builds a UDP packet with its IP header in the static buffer `abPktInfo`, and hands
-- the part from the UDP header on to a raw socket. Messages on the terminal are left out.
-- Linux, <arpa/inet.h> and <stdlib.h> convert addresses and numbers: `Inet` stands for these.
pub mod Packet
pub mod Fault
pub mod Payload
pub mod Main
pub mod Outcome
pub mod Addressed
pub mod PacketHeader
pub mod Ports
pub mod PayloadLen
pub mod Datagram
pub mod Sent
pub mod Gathered
mod Tests
use study_tips.Base.{
  ℕ, ◌+◌, ◌-◌, ◌%◌, ◌^◌, Bool, true, false, Option, none, some, List, [], ◌∷◌, ◌++◌, length,
  if◌then◌else◌, replicate,
}
use study_tips.Base.Int.{ℤ, pos, negsuc, minus_one, is_neg}
use study_tips.Base.Word.{u16}
use study_tips.Header.Memory.{Mem, store, store16, htons, ◌>>=◌}
use study_tips.Header.Block.{fill, copy, slice}
use study_tips.Header.Layout.Ipv4
use study_tips.Header.Layout.Ipv6
use study_tips.Header.Layout.Udp
use study_tips.Header.Checksums.{udp4_header_checksum, udp6_header_checksum}
use study_tips.Os.{Run, exit, fault, ◌▸◌}
use study_tips.Os.Sockets.{Call, socket, bind, sendto, sendmsg, close}

abbrev pub buffer_size : ℕ
buffer_size = 4096

-- `static uint8_t abPktInfo[4096]`
pub ab_pkt_info : Mem
ab_pkt_info = replicate buffer_size 0

abbrev pub ipproto_udp : ℕ
ipproto_udp = 17

-- "hello world", with the zero that ends it.
abbrev pub hello_world : List ℕ
hello_world = b'h' ∷ b'e' ∷ b'l' ∷ b'l' ∷ b'o' ∷ b' ' ∷ b'w' ∷ b'o' ∷ b'r' ∷ b'l' ∷ b'd' ∷ 0 ∷ []

-- The UDP header, for `req_len` bytes with it, after an IP header of `udp` bytes.
pub put_udp_header : Mem → ℕ → ℕ → Option Mem
put_udp_header m udp req_len = do
  m1 ← store16 m (udp + Udp.src_port) (htons 12760)
  m2 ← store16 m1 (udp + Udp.dst_port) (htons 22760)
  m3 ← store16 m2 (udp + Udp.udp_length) (htons (u16 req_len))
  store16 m3 (udp + Udp.check_sum) 0

-- What `sendV6` writes into the buffer before it sends: the IPv6 header, then the UDP header.
pub put_ipv6_header : Mem → List ℕ → List ℕ → ℕ → Option Mem
put_ipv6_header m from to content_len = do
  m1 ← fill m 0 0 Ipv6.size
  m2 ← store m1 Ipv6.vtf 0x60
  m3 ← store16 m2 Ipv6.payload_len (htons (u16 (Udp.size + content_len)))
  m4 ← store m3 Ipv6.next_header ipproto_udp
  m5 ← store m4 Ipv6.hop_limit 128
  m6 ← copy m5 Ipv6.src_addr from
  copy m6 Ipv6.dst_addr to

pub packet_v6 : Mem → List ℕ → List ℕ → ℕ → Option Mem
packet_v6 m from to content_len = do
  m1 ← put_ipv6_header m from to content_len
  m2 ← put_udp_header m1 Ipv6.size (Udp.size + content_len)
  udp6_header_checksum m2 0 Ipv6.size (Udp.size + content_len)

-- The same for `sendV4`, with the IPv4 header.
pub put_ipv4_header : Mem → List ℕ → List ℕ → ℕ → Option Mem
put_ipv4_header m from to content_len = do
  m1 ← fill m 0 0 Ipv4.size
  m2 ← store m1 Ipv4.version_and_header_len 0x45
  m3 ← store16 m2 Ipv4.total_len_of_packet (htons (u16 (Ipv4.size + Udp.size + content_len)))
  m4 ← store m3 Ipv4.type_of_protocol ipproto_udp
  m5 ← store m4 Ipv4.ttl 128
  m6 ← copy m5 Ipv4.src_addr from
  copy m6 Ipv4.dst_addr to

pub packet_v4 : Mem → List ℕ → List ℕ → ℕ → Option Mem
packet_v4 m from to content_len = do
  m1 ← put_ipv4_header m from to content_len
  m2 ← put_udp_header m1 Ipv4.size (Udp.size + content_len)
  udp4_header_checksum m2 0 Ipv4.size (Udp.size + content_len)

-- The iovec branch: the length field and the checksum are done again for a header and the text, which
-- is not in the buffer; the gathered bytes are the header and the text.
abbrev pub iovec_len : ℕ
iovec_len = Udp.size + length hello_world

pub gather_v6 : Mem → Option (List ℕ)
gather_v6 m = do
  m1 ← store16 m (Ipv6.size + Udp.udp_length) (htons (u16 iovec_len))
  m2 ← udp6_header_checksum m1 0 Ipv6.size iovec_len
  header ← slice m2 Ipv6.size Udp.size
  some (header ++ hello_world)

pub gather_v4 : Mem → Option (List ℕ)
gather_v4 m = do
  m1 ← store16 m (Ipv4.size + Udp.udp_length) (htons (u16 iovec_len))
  m2 ← udp4_header_checksum m1 0 Ipv4.size iovec_len
  header ← slice m2 Ipv4.size Udp.size
  some (header ++ hello_world)

-- What the kernel answers to the calls of one run.
pub record Replies : Type 0 where
  pub on_socket : ℤ
  pub on_bind : ℤ
  pub on_send : ℤ
  pub on_send_again : ℤ

-- The port that the first `sendmsg` has in its address, in the host's byte order.
abbrev pub odd_port : ℕ
odd_port = 1234

-- The calls once the packet is in the buffer; `rest` is what follows `sendV6`.
pub send_gathered : Replies → ℤ → List ℕ → Option (List ℕ) → Run Call → Run Call
send_gathered r sock to none rest = fault
send_gathered r sock to (some bytes) rest =
    sendmsg sock to odd_port bytes r.on_send ▸ sendmsg sock to 0 bytes r.on_send_again ▸ rest

pub send_block : Replies → ℤ → List ℕ → Option (List ℕ) → Run Call → Run Call
send_block r sock to none rest = fault
send_block r sock to (some bytes) rest = sendto sock to bytes r.on_send ▸ rest

pub send_v6 : Replies → ℤ → List ℕ → List ℕ → Bool → ℕ → Run Call → Run Call
unfolding send_gathered send_block
send_v6 r sock from to iovec_flag content_len rest =
    let packet = packet_v6 ab_pkt_info from to content_len in
    if iovec_flag
    then send_gathered r sock to (packet >>= gather_v6) rest
    else send_block r sock to (packet >>= λ m. slice m Ipv6.size (Udp.size + content_len)) rest

pub send_v4 : Replies → ℤ → List ℕ → List ℕ → Bool → ℕ → Run Call → Run Call
unfolding send_gathered send_block
send_v4 r sock from to iovec_flag content_len rest =
    let packet = packet_v4 ab_pkt_info from to content_len in
    if iovec_flag
    then send_gathered r sock to (packet >>= gather_v4) rest
    else send_block r sock to (packet >>= λ m. slice m Ipv4.size (Udp.size + content_len)) rest

-- `inet_pton` for the two families (`none` is a text that is no address), and `atoi`.
pub record Inet : Type 0 where
  pub pton6 : List ℕ → Option (List ℕ)
  pub pton4 : List ℕ → Option (List ℕ)
  pub atoi : List ℕ → ℤ

-- What `getopt` returns for one option, with its argument.
pub data Opt : Type 0 where
  iovec v4 unknown : Opt
  source destination content : List ℕ → Opt

pub record Settings : Type 0 where
  pub from : List ℕ
  pub to : List ℕ
  pub from4 : List ℕ
  pub to4 : List ℕ
  pub iovec_flag : Bool
  pub is_v4 : Bool
  pub content_len : ℕ

-- A conversion that fails leaves the address as it was.
abbrev pub or_else {ℓ} : {A : Type ℓ} → Option A → A → A
or_else none a = a
or_else (some b) a = b

-- int to uint16_t
abbrev pub to_u16 : ℤ → ℕ
to_u16 (pos n) = u16 n
to_u16 (negsuc n) = 2 ^ 16 - 1 - u16 n

module _ (inet : Inet) where
  pub take_option : Opt → Settings → Option Settings
  take_option iovec s = some (record s { iovec_flag = true })
  take_option (source text) s = some (record s {
    from = or_else (inet.pton6 text) s.from;
    from4 = or_else (inet.pton4 text) s.from4;
  })
  take_option (destination text) s =
      some (record s { to = or_else (inet.pton6 text) s.to; to4 = or_else (inet.pton4 text) s.to4 })
  take_option (content text) s = some (record s { content_len = to_u16 (inet.atoi text) })
  take_option v4 s = some (record s { is_v4 = true })
  take_option unknown s = none

  -- The loop on `getopt`; `none` is the exit with the usage text.
  pub take_options : List Opt → Settings → Option Settings
  take_options [] s = some s
  take_options (o ∷ os) s = take_option o s >>= take_options os

  pub default_settings : List ℕ → List ℕ → List ℕ → List ℕ → Settings
  default_settings from to from4 to4 = record {
    from = or_else (inet.pton6 from) (replicate 16 0);
    to = or_else (inet.pton6 to) (replicate 16 0);
    from4 = or_else (inet.pton4 from4) (replicate 4 0);
    to4 = or_else (inet.pton4 to4) (replicate 4 0);
    iovec_flag = false;
    is_v4 = false;
    content_len = 2049;
  }

-- From the call of `socket` to the end of `main`.
pub run_with : Replies → Settings → Run Call
run_with r s =
    let sock = r.on_socket in
    let end = close sock ▸ exit (pos 0) in
    socket sock
    ▸ (if is_neg sock
        then exit minus_one
        else bind sock (if s.is_v4 then s.from4 else s.from) r.on_bind
          ▸ (if is_neg r.on_bind
              then close sock ▸ exit minus_one
              else (if s.is_v4
                  then send_v4 r sock s.from4 s.to4 s.iovec_flag s.content_len end
                  else send_v6 r sock s.from s.to s.iovec_flag s.content_len end)))

-- `main`, from the texts of the four addresses and what `getopt` finds in the arguments.
pub main : Inet → List ℕ → List ℕ → List ℕ → List ℕ → List Opt → Replies → Run Call
main inet from to from4 to4 opts r =
    elim (take_options inet opts (default_settings inet from to from4 to4)) [
      | none ↦ exit (pos 1)
      | some s ↦ run_with r s
    ]
