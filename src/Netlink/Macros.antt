-- ===== src/Netlink/Macros.antt =====
-- What c/netlink/getroute.c takes from <linux/netlink.h>, <linux/rtnetlink.h> and <arpa/inet.h>: the
-- macros that find a message or an attribute in the buffer, the fields that it reads, and constants.
use study_tips.Base.{ℕ, ◌<◌, ◌≡◌, Bool, true, Option, List}
use study_tips.Base.Int.{ℤ, pos, negsuc}

-- The bytes that are left, where a length has not gone below 0.
abbrev pub remaining : ℤ → ℕ
remaining (pos n) = n
remaining (negsuc n) = 0

pub record Macros : Type 1 where
  pub Message : Type 0  -- `struct nlmsghdr *`
  pub Attribute : Type 0  -- `struct rtattr *`
  pub nlmsg_ok : Message → ℤ → Bool
  pub nlmsg_next : Message → ℤ → Message × ℤ
  pub nlmsg_type : Message → ℕ
  pub nlmsg_len : Message → ℕ
  pub nlmsg_pid : Message → ℕ
  pub error_code : Message → ℤ  -- the `error` of the `struct nlmsgerr` behind the header
  pub rtm_rta : Message → Attribute
  pub rta_ok : Attribute → ℤ → Bool
  pub rta_next : Attribute → ℤ → Attribute × ℤ
  pub rta_type : Attribute → ℕ
  pub rta_max : ℕ
  pub rta_table : ℕ
  pub rta_iif : ℕ
  pub rta_oif : ℕ
  pub rta_src : ℕ
  pub rta_dst : ℕ
  pub nlmsg_done : ℕ
  pub nlmsg_error : ℕ
  pub rtm_newroute : ℕ
  pub rtm_getroute : ℕ
  pub af_inet : ℕ
  pub af_inet6 : ℕ
  pub nlmsg_length : ℕ → ℕ
  pub rta_length : ℕ → ℕ
  pub sizeof_rtmsg : ℕ
  pub sizeof_nlmsgerr : ℕ
  pub nlm_f_request : ℕ
  pub nlm_f_ack : ℕ
  -- `inet_pton` for the two families; `none` is a text that is no address.
  pub pton6 : List ℕ → Option (List ℕ)
  pub pton4 : List ℕ → Option (List ℕ)

-- Behind a valid message or attribute less is left than before it.
pub record AreShorter (k : Macros) : Type 0 where
  pub nlmsg_next_shorter :
      (h : k.Message) (len : ℤ)
      → k.nlmsg_ok h len ≡ true
      → remaining (k.nlmsg_next h len).1 < remaining len
  pub rta_next_shorter :
      (a : k.Attribute) (len : ℤ)
      → k.rta_ok a len ≡ true
      → remaining (k.rta_next a len).1 < remaining len
