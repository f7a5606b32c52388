-- ===== src/Netlink/Program.antt =====
-- `main` of c/netlink/getroute.c.
pub mod Laws
use study_tips.Base.{
  ℕ, ◌+◌, ◌*◌, Bool, true, false, Option, none, some, List, [], ◌∷◌, ◌++◌, get_or, ltb, bit_or,
  if◌then◌else◌,
}
use study_tips.Base.Int.{ℤ, pos, negsuc, minus_one, is_neg}
use study_tips.Os.{Descriptors, Run, exit, running, ◌▸◌}
use study_tips.Netlink.Macros.{Macros, remaining}
use study_tips.Netlink.Messages.{Walk, walk, is_positive}

-- The request: the fields that `main` sets, the others being 0.
pub record Request : Type 0 where
  pub nlmsg_len : ℕ
  pub nlmsg_type : ℕ
  pub nlmsg_flags : ℕ
  pub nlmsg_seq : ℕ
  pub nlmsg_pid : ℕ
  pub rtm_family : ℕ
  pub rta_type : ℕ
  pub rta_len : ℕ
  pub rta_data : List ℕ

pub data Call : Type 0 where
  socket : ℤ → Call
  send : ℤ → Request → ℤ → Call
  poll : ℤ → ℤ → Call
  recvfrom : ℤ → ℤ → Call
  close : ℤ → Call

abbrev pub opened : Call → Option ℤ
opened (socket fd) = if is_neg fd then none else some fd
opened _ = none

abbrev pub closed : Call → Option ℤ
closed (close fd) = some fd
closed _ = none

instance abbrev pub call_descriptors : Descriptors Call
call_descriptors = record { opened = opened; closed = closed }

-- The result of the loop on `getopt`: the usage text, or the flag that `-a` sets.
pub data Options : Type 0 where
  usage : Options
  ack_flag : Bool → Options

abbrev pub take_options : List (Option ℕ) → Bool → Options
take_options [] ack = ack_flag ack
take_options (some a ∷ opts) ack = take_options opts true
take_options (none ∷ opts) ack = usage

-- The size of `buf`.
abbrev pub buf_size : ℕ
buf_size = 4096

module _ (k : Macros) where
  open k use {
    Message, rtm_getroute, rta_dst, nlmsg_length, rta_length, sizeof_rtmsg, nlm_f_request,
    nlm_f_ack, af_inet, af_inet6, pton6, pton4,
  }

  -- What the kernel answers, and the message at the start of what it has received.
  pub record Replies : Type 0 where
    pub on_socket : ℤ
    pub on_send : ℤ
    pub on_poll : ℤ
    pub on_recv : ℤ
    pub first : Message
    pub self_pid : ℕ

  abbrev pub or_nothing : Option (List ℕ) → List ℕ
  or_nothing none = []
  or_nothing (some a) = a

  abbrev pub is_address : Option (List ℕ) → Bool
  is_address none = false
  is_address (some a) = true

  -- `req`, from the text of the address.
  unfoldable pub request : Bool → List ℕ → Request
  request ack text =
      let is_v6 = is_address (pton6 text) in
      let len = if is_v6 then rta_length 16 else rta_length 4 in
      record {
        nlmsg_len = nlmsg_length (sizeof_rtmsg + len);
        nlmsg_type = rtm_getroute;
        nlmsg_flags = if ack then bit_or nlm_f_request nlm_f_ack else nlm_f_request;
        nlmsg_seq = 1;
        nlmsg_pid = 1234;
        rtm_family = if is_v6 then af_inet6 else af_inet;
        rta_type = rta_dst;
        rta_len = len;
        rta_data = or_nothing (if is_v6 then pton6 text else pton4 text);
      }

  -- The end of `main`, from what the loop over the messages leaves.
  unfoldable pub finish : ℤ → Option (Walk k) → Run Call
  finish sock none = running
  finish sock (some w) =
      if is_positive k w.left then close sock ▸ exit minus_one else close sock ▸ exit (pos 0)

  abbrev pub exceeds : ℤ → ℕ → Bool
  exceeds (pos n) size = ltb size n
  exceeds (negsuc n) size = false

  -- From the call of `socket` on.
  unfoldable pub ask : Replies → Request → Run Call
  ask r req =
      let sock = r.on_socket in
      let failure = close sock ▸ exit minus_one in
      let loop =
        finish sock (walk k (remaining r.on_recv + 1) r.self_pid req.nlmsg_pid r.first r.on_recv) in
      socket sock
      ▸ (if is_neg sock
          then exit minus_one
          else send sock req r.on_send
            ▸ (if is_neg r.on_send
                then failure
                else poll sock r.on_poll
                  ▸ (if is_neg r.on_poll
                      then failure
                      else recvfrom sock r.on_recv
                        ▸ (if is_neg r.on_recv
                            then failure
                            else (if exceeds r.on_recv buf_size then failure else loop)))))

  -- What follows the loop on `getopt`. The address is `argv[1]`.
  unfoldable pub with_options : Options → List (List ℕ) → Bool → Replies → Run Call
  with_options usage argv has_dst r = exit minus_one
  with_options (ack_flag ack) argv has_dst r =
      if has_dst then ask r (request ack (get_or argv 1 [])) else exit minus_one

  -- `main`, from the options, the arguments as `getopt` leaves them in `argv`, `argv[0]` at their
  -- head, and whether some argument is behind the options.
  unfoldable pub main : List (Option ℕ) → List (List ℕ) → Bool → Replies → Run Call
  main opts argv has_dst r = with_options (take_options opts false) argv has_dst r
