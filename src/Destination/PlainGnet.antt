-- ===== src/Destination/PlainGnet.antt =====
-- A buffer that behaves as gnet documents it, for concrete runs.
use gforward.Prelude.{
  ℕ, zero, suc, ◌≡◌, refl, Option, none, some, List, [], length, take, drop, ltb, ◌==◌,
  if◌then◌else◌, arith,
}
use gforward.Destination.Parser.{Gnet, IsGnet}

abbrev peek_bytes : List ℕ → ℕ → Option (List ℕ)
peek_bytes buf n =
    if n == 0 then some buf else if ltb (length buf) n then none else some (take n buf)

abbrev pub plain_gnet : Gnet
plain_gnet = record { peek = peek_bytes; discard = λ buf n. drop n buf }

drop_empty : (n : ℕ) → drop {A = ℕ} n [] ≡ []
drop_empty zero = refl
drop_empty (suc k) = refl

pub plain_gnet-IsGnet : IsGnet plain_gnet
plain_gnet-IsGnet = record {
  peek_all = λ buf. refl;
  peek_some = λ buf n lo le. ground arith;
  peek_short = λ buf n lt. ground arith;
  discard_some = λ buf n lo le. refl;
  discard_empty = drop_empty;
}
