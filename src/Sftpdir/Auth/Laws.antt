-- ===== src/Sftpdir/Auth/Laws.antt =====
-- The way to authenticate is the one asked for, if it is offered, or else the first that is.
use study_tips.Base.{◌≡◌, arith, Bool, true, false, none, if◌then◌else◌}
use study_tips.Sftpdir.Auth.{
  Offer, Wish, wish_of, offered_bits, auth_bits, Method, by_password, by_keyboard, by_publickey,
  unsupported, method_of,
}

abbrev pub is_offered : Offer → Method → Bool
is_offered o by_password = o.password
is_offered o by_keyboard = o.keyboard
is_offered o by_publickey = o.publickey
is_offered o unsupported = false

-- The first way that is offered.
abbrev pub first_offered : Offer → Method
first_offered o =
    if o.password
    then by_password
    else (if o.keyboard then by_keyboard else (if o.publickey then by_publickey else unsupported))

-- A wish for one way.
abbrev pub wish_for : Method → Wish
wish_for by_password = record {
  wants_password = true;
  wants_keyboard = false;
  wants_publickey = false;
}
wish_for by_keyboard = record {
  wants_password = false;
  wants_keyboard = true;
  wants_publickey = false;
}
wish_for by_publickey = record {
  wants_password = false;
  wants_keyboard = false;
  wants_publickey = true;
}
wish_for unsupported = wish_of none

-- With a wish for one way, or for none, that way is taken if it is offered, and otherwise the first
-- that is offered of password, keyboard and public key.
pub method_of-auth_bits :
    (o : Offer) (m : Method)
    → method_of (auth_bits o (wish_for m)) ≡ (if is_offered o m then m else first_offered o)
unfolding method_of auth_bits offered_bits
method_of-auth_bits o by_password = ground arith
method_of-auth_bits o by_keyboard = ground arith
method_of-auth_bits o by_publickey = ground arith
method_of-auth_bits o unsupported = ground arith
