-- ===== src/Sockets/Raw4.antt =====
-- c/raw4/rawbind.c: two raw sockets that are bound to one address.
pub mod Laws
use study_tips.Base.{List, [], ◌∷◌, if◌then◌else◌, ℕ, replicate}
use study_tips.Base.Int.{ℤ, pos, minus_one, is_neg}
use study_tips.Os.{Run, exit, ◌▸◌}
use study_tips.Os.Sockets.{Call, socket, bind, close}
use study_tips.Raw6.RawUdp.{Inet, or_else}

pub record Replies : Type 0 where
  pub on_socket : ℤ
  pub on_second_socket : ℤ
  pub on_bind : ℤ
  pub on_rebind : ℤ

-- The address: the default text, then the program's first argument.
pub source_address : Inet → List ℕ → List (List ℕ) → List ℕ
source_address inet default [] = or_else (inet.pton4 default) (replicate 4 0)
source_address inet default (arg ∷ args) =
    or_else (inet.pton4 arg) (or_else (inet.pton4 default) (replicate 4 0))

-- `main`, with the arguments behind the program's name.
pub main : Inet → List ℕ → List (List ℕ) → Replies → Run Call
main inet default args r =
    let sock = r.on_socket in
    let second = r.on_second_socket in
    let from = source_address inet default args in
    let failure = close sock ▸ close second ▸ exit minus_one in
    socket sock
    ▸ (if is_neg sock
        then exit minus_one
        else socket second
          ▸ (if is_neg second
              then exit minus_one
              else bind sock from r.on_bind
                ▸ (if is_neg r.on_bind
                    then failure
                    else bind second from r.on_rebind
                      ▸ (if is_neg r.on_rebind
                          then failure
                          else close sock ▸ close second ▸ exit (pos 0)))))
