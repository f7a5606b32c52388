-- ===== src/Lib.antt =====
-- The C and C++ demos of the repository: network programs on raw sockets and netlink, what they
-- share, and demos of the language, of threads and of signals.
--
-- Lists of numbers below 256 stand for memory and for the bytes of packets and addresses. A
-- pointer is an offset into one such list, and an access outside it is `none`, from which a run
-- becomes `fault`. The host is little-endian. A uint16_t, uint32_t or uint64_t is a natural
-- number that is taken modulo 2 ^ 16, 2 ^ 32 or 2 ^ 64 where the code stores it. What goes to the
-- terminal is left out, but where a file says what is shown.
--
-- The files, and the code that they model:
-- - Base: numbers, lists, C's integers, machine words and bit operations that the other files
--   share.
-- - Os: a run of a program as the calls that it makes, each with the kernel's answer, up to its
--   exit; which descriptors are left open; the socket calls. Every answer of the kernel is a
--   parameter of the run, so that a statement for all answers is one for every kernel.
-- - Header: c/common/header.h. Header/Layout has the offsets in IPv4_HEADER_t, IPv6_HEADER_t and
--   UDP_HEADER_t, Header/Sum `Checksum` and `csum`, Header/Checksums the functions that store a
--   checksum in a header. The loops that fold the carries have fuel 6, which is enough for any
--   64-bit sum.
-- - Raw6: the programs of c/raw6. RawUdp is rawudp.c: `packet_v6` and `packet_v4` are what
--   `sendV6` and `sendV4` write into `abPktInfo`, `gather_v6` and `gather_v4` their iovec
--   branches, `main` the program with its options; RawUdp/Datagram, RawUdp/Sent and
--   RawUdp/Gathered look at what the program sends as a receiver does. RawAll is rawall.c, with
--   fuel 2 for the loop on the content's length, which makes two rounds; Server is server.c,
--   whose endless loop runs on the list of the kernel's answers, and whose Shows is about the
--   ports that it prints; Exchange puts RawUdp and Server together; FlowLabel is flowlabel.c.
--   RawUdp and RawAll use Header's layout, and RawUdp its checksums.
-- - Netlink: c/netlink/getroute.c. Attributes is `nl_filter_route`, Messages the loop of `main`
--   over the messages of a reply, Program the request and the whole of `main`. The macros of the
--   kernel's headers are the record Macros; what is assumed of them is that behind a valid
--   message or attribute less is left than before it, and so the bytes that are left, and 1 more,
--   are enough fuel for a loop; a loop whose fuel has run out returns nothing, and neither does
--   what calls it.
-- - Sockets: Raw4 is c/raw4/rawbind.c, SockBuf c/sockbuf/main.c, on the socket calls of Os, and
--   UdpSendData c/udpSendData/main.c, with calls of its own; its loop is recursion on the rounds
--   that are left.
-- - Ambient: c/ambient/main.c. Caplist is `get_caplist`, with `strtok`, Program `set_ambient_cap`
--   and `main`. Memory is taken to be enough.
-- - Fgets: c/fgets/main.c, with the parent's two loops on lists of what `fgets` and `waitpid`
--   answer, and the child.
-- - BitIncr: c/bits/bitincr.c, with the union as one number; its loops are recursion on the
--   rounds that are left.
-- - Sftpdir: c/libssh2/sftpdir.c. Arguments is the arguments and `kbd_callback`, Auth how
--   `auth_pw` chooses the way to authenticate, Program the calls of `main`, with the answers of
--   libssh2 as parameters and the listing's loop on the list of answers to
--   `libssh2_sftp_readdir_ex`.
-- - Signal: c/signal/main.c. Defs is the options and `thread_entry` up to the call that blocks,
--   Process the process after `pthread_create` as a step relation: the kernel and the senders of
--   signals choose the steps, a signal is one whose default action ends the process, and the
--   handler runs as one step. Outline is the machine that the process keeps to.
-- - Sched: c/sched/sched.c, with its last loop on the list of what its rounds find in `g_exit`.
-- - Cap: c/cap/main.c, the run of the parent or the child, by what `fork` returns there; the
--   service's endless loop has as many rounds as there is time for. Usage is `usage`, with what
--   it needs of `snprintf`; a number is enough fuel for its own digits.
-- - FileFds: the two counts of c/filefds/main.c; the laws hold them against one table of
--   descriptors, which the directory lists in order, with `.` and `..` in front.
-- - DynaArray: `f` of c/dyna_stack_array/dynaArray.c. ThreeOpr: the two expressions of
--   c/threeopr/main.c.
-- - Malloc: c/malloc/main.c, for a block of any size and rounds of any length; a round writes a
--   byte at least, so the size, and 1 more, is enough fuel.
-- - Register: `f` of c/register/main.c.
-- - KeyInfo: c/void/voidptr.c, on a host with pointers of 8 bytes.
-- - Aligned: c/aligned/main.c, with a struct as its bytes and the places of its fields in the two
--   layouts that x86-64 gives them.
-- - TimerStruct: c/struct/main.c, with `encodeBuf` as its bytes.
-- - Macro: c/macro/macro.c, with a function body as the list of its checks and a statement as
--   what it prints and returns.
-- - Stack: c/stack/main.c, on the lines that are read. Bss: c/bss/main.c, on the lines that are
--   read; the size of an array, and 1 more, is enough fuel for the loop that touches it.
-- - Tls: c++/tls/main.cpp, as a step relation: a step is one statement of `main` or of a thread,
--   in any order that creation and join allow. Runs is about all runs.
-- - AceSignal: ace/signal/main.cpp, with a thread as what it does up to its end, the reactor's
--   dispatch of signals a parameter, and its loop on the list of its answers.
-- - Setrlimit: c/setrlimit/main.c, on a kernel that is a parameter with its state. IfElse:
--   c/ifelse/main.c. Sctp: c/sctp/main.c.
-- - Warning: c/warning/main.c, with `memcmp` of the C library a parameter.
-- - UdpDgram: ace/udpdgram/iovec.cpp, with ACE's datagram socket a parameter that has a state,
--   and the endless loop on the list of the reactor's answers.
-- - Inline: c/inline, with `none` for an int that overflows. Meta: c/meta/meta.c.
-- - Tsn: c/tsn/main.c, comparison of serial numbers, with RFC 1982 as the description it is held
--   against.
--
-- Not modelled: the other directories of c, which are small demonstrations of the compiler or of
-- one call; in c/libssh2 the rest of the directory, which is a copy of another project's headers;
-- the C++ files but those named above, and the Java, Python and shell files; the text of
-- messages; addresses beyond their bytes, such as ports given by the kernel and flow labels.
mod Base
pub mod Os
pub mod Header
pub mod Netlink
pub mod Raw6
pub mod Sockets
pub mod Ambient
pub mod Fgets
pub mod BitIncr
pub mod Sftpdir
pub mod Signal
pub mod Sched
pub mod Cap
pub mod FileFds
pub mod DynaArray
pub mod ThreeOpr
pub mod Malloc
pub mod Register
pub mod KeyInfo
pub mod Aligned
pub mod TimerStruct
pub mod Macro
pub mod Stack
pub mod Bss
pub mod Tls
pub mod AceSignal
pub mod Setrlimit
pub mod IfElse
pub mod Sctp
pub mod Warning
pub mod UdpDgram
pub mod Inline
pub mod Meta
pub mod Tsn
