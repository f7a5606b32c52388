-- ===== src/Raw6/RawAll/Laws.antt =====
-- What c/raw6/rawall.c sends.
use study_tips.Base.{ℕ, ◌<◌, ◌≡◌, arith, length, List, [], ◌∷◌, replicate, refl, false}
use study_tips.Base.Int.{pos, is_neg, eqb_refl}
use study_tips.Header.Memory.{byte}
use study_tips.Header.Block.{Keeps}
use study_tips.Header.Checksums.Words.{field16}
use study_tips.Os.{Run, exit, ◌▸◌, IsClean}
use study_tips.Os.Sockets.{Call, socket, bind, sendto, close, call_descriptors}
use study_tips.Raw6.RawUdp.{Inet, or_else, ab_pkt_info, put_ipv6_header}
use study_tips.Raw6.RawUdp.Packet.{put_ipv6_header-Keeps, ab_pkt_info-IsFramed}
use study_tips.Raw6.RawUdp.Main.{HasSizes, or_else_size}
use study_tips.Raw6.RawAll.{Replies, send_rounds, enough, addresses, run_from, main}
use study_tips.Raw6.RawUdp.PayloadLen.{put_ipv6_header_len}
use study_tips.Raw6.RawAll.Round.{IsRound, put_round-IsRound}

-- Two packets, of 560 and 2060 bytes, in the order in which they are sent. Each states its ports and its
-- own length in the UDP header, with no checksum, but the IPv6 header, with its payload length, is the same in both.
pub record SendsTwo (from to : List ℕ) (r : Replies) (call : Run Call) : Type 0 where
  pub small : List ℕ
  pub large : List ℕ
  pub run :
      call
      ≡ socket r.on_socket
        ▸ bind r.on_socket from r.on_bind
        ▸ sendto r.on_socket to small (r.on_send 0)
        ▸ sendto r.on_socket to large (r.on_send 1)
        ▸ close r.on_socket
        ▸ exit (pos 0)
  pub sizes : (length small ≡ 560) × (length large ≡ 2060)
  pub source_ports : (field16 small 40 ≡ 12760) × (field16 large 40 ≡ 12760)
  pub destination_ports : (field16 small 42 ≡ 22760) × (field16 large 42 ≡ 22760)
  pub check_sums : (field16 small 46 ≡ 0) × (field16 large 46 ≡ 0)
  pub lengths : (field16 small 44 ≡ 520) × (field16 large 44 ≡ 2020)
  pub payload_lengths : (field16 small 4 ≡ 520) × (field16 large 4 ≡ 520)
  pub same_header : (i : ℕ) → i < 40 → byte large i ≡ byte small i

module _ (from to : List ℕ) (from_size : length from ≡ 16) (to_size : length to ≡ 16) where
  header : Keeps 4096 48 ab_pkt_info (put_ipv6_header ab_pkt_info from to 512)
  header =
      put_ipv6_header-Keeps ab_pkt_info from to 512 ab_pkt_info (ab_pkt_info-IsFramed 48) from_size
        to_size

  header_len : field16 header.out 4 ≡ 520
  header_len =
      put_ipv6_header_len ab_pkt_info from to 512 (omega (arith, (ab_pkt_info-IsFramed 48).size))
        from_size to_size header.out header.returns

  first : IsRound header.out 512
  first = put_round-IsRound header.out 512 header.framed.bytes header.framed.size (omega arith)

  second : IsRound first.out 2012
  second = put_round-IsRound first.out 2012 first.bytes first.size (omega arith)

  rounds :
      (r : Replies) (rest : Run Call)
      → send_rounds enough r to 0 header.out 512 rest
        ≡ sendto r.on_socket to first.block (r.on_send 0)
          ▸ sendto r.on_socket to second.block (r.on_send 1)
          ▸ rest
  unfolding send_rounds
  rounds r rest = ground (arith, first.returns, second.returns)

  run_from-SendsTwo :
      (r : Replies)
      → is_neg r.on_socket ≡ false
      → is_neg r.on_bind ≡ false
      → SendsTwo from to r (run_from from to r)
  unfolding run_from
  run_from-SendsTwo r opened bound = record {
    small = first.block;
    large = second.block;
    run = rw (opened, bound, header.returns, rounds r (close r.on_socket ▸ exit (pos 0)));
    sizes = (first.whole, second.whole);
    source_ports = (
      ground (arith, first.copied 40, first.copied 41, first.source_port),
      ground (arith, second.copied 40, second.copied 41, second.source_port),
    );
    destination_ports = (
      ground (arith, first.copied 42, first.copied 43, first.destination_port),
      ground (arith, second.copied 42, second.copied 43, second.destination_port),
    );
    check_sums = (
      ground (arith, first.copied 46, first.copied 47, first.check_sum),
      ground (arith, second.copied 46, second.copied 47, second.check_sum),
    );
    lengths = (
      ground (arith, first.copied 44, first.copied 45, first.length_field),
      ground (arith, second.copied 44, second.copied 45, second.length_field),
    );
    payload_lengths = (
      ground (
        arith,
        first.copied 4,
        first.copied 5,
        first.same_header 4,
        first.same_header 5,
        header_len,
      ),
      ground (
        arith,
        second.copied 4,
        second.copied 5,
        second.same_header 4,
        second.same_header 5,
        first.same_header 4,
        first.same_header 5,
        header_len,
      ),
    );
    same_header = λ i h. ground (arith, second.copied i, first.copied i, second.same_header i);
  }

  run_from-IsClean : (r : Replies) → IsClean (run_from from to r)
  unfolding run_from
  run_from-IsClean r =
      rw (header.returns, rounds r (close r.on_socket ▸ exit (pos 0)))
        (ground (arith, eqb_refl r.on_socket))

module _ (inet : Inet) (sizes : HasSizes inet) where
  -- A text's address, or the one before it, has 16 bytes.
  or_else_16 : (text b : List ℕ) → length b ≡ 16 → length (or_else (inet.pton6 text) b) ≡ 16
  or_else_16 text b h = or_else_size 16 (inet.pton6 text) b (sizes.size6 text) h

  addresses_16 :
      (from to : List ℕ) (args : List (List ℕ))
      → (length (addresses inet from to args).0 ≡ 16)
        × (length (addresses inet from to args).1 ≡ 16)
  unfolding addresses
  addresses_16 from to [] =
      (or_else_16 from (replicate 16 0) refl, or_else_16 to (replicate 16 0) refl)
  addresses_16 from to (dst ∷ []) = (
    or_else_16 from (replicate 16 0) refl,
    or_else_16 dst (or_else (inet.pton6 to) (replicate 16 0)) (or_else_16 to (replicate 16 0) refl),
  )
  addresses_16 from to (src ∷ dst ∷ _) = (
    or_else_16 src (or_else (inet.pton6 from) (replicate 16 0))
        (or_else_16 from (replicate 16 0) refl),
    or_else_16 dst (or_else (inet.pton6 to) (replicate 16 0)) (or_else_16 to (replicate 16 0) refl),
  )

  -- If `inet_pton` writes addresses of the families' sizes and the socket is opened and bound, `main`
  -- sends two packets, of 560 and 2060 bytes, closes the socket and exits with 0, whatever the arguments
  -- are and `sendto` answers; the UDP headers say ports 12760 and 22760, lengths 520 and 2020 and no
  -- checksum, and both packets have the same 40 bytes of IPv6 header, with a payload length of 520.
  pub main-SendsTwo :
      (from to : List ℕ) (args : List (List ℕ)) (r : Replies)
      → is_neg r.on_socket ≡ false
      → is_neg r.on_bind ≡ false
      → SendsTwo
          (addresses inet from to args).0
          (addresses inet from to args).1
          r
          (main inet from to args r)
  unfolding main
  main-SendsTwo from to args r opened bound =
      let (from_size, to_size) = addresses_16 from to args in
      run_from-SendsTwo (addresses inet from to args).0 (addresses inet from to args).1 from_size
        to_size r opened bound

  -- If `inet_pton` writes addresses of the families' sizes, then whatever the arguments are and the
  -- kernel answers, `main` exits and leaves no descriptor open.
  pub rawall-IsClean :
      (from to : List ℕ) (args : List (List ℕ)) (r : Replies) → IsClean (main inet from to args r)
  unfolding main
  rawall-IsClean from to args r =
      let (from_size, to_size) = addresses_16 from to args in
      run_from-IsClean (addresses inet from to args).0 (addresses inet from to args).1 from_size
        to_size r
