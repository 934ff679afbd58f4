-- ===== src/Std/Utf8.antt =====
-- `std::str::from_utf8`: the well-formed UTF-8 byte sequences of the Unicode standard (table 3-7).
-- A Rust `String` is modelled by its bytes, `as_bytes()`.
use zc_splice_proxy.Base.{
  ℕ, ◌<◌, ◌≡◌, refl, Bool, true, false, ◌&&◌, List, [], ◌∷◌, Option, none, some, arith, leb, ltb,
  ◌==◌, if◌then◌else◌, All,
}

abbrev pub Bytes : Type 0
Bytes = List ℕ

-- A byte of a `u8`.
abbrev pub IsByte : ℕ → Type 0
IsByte b = b < 256

-- An inclusive range of bytes.
record Range : Type 0 where
  first : ℕ
  last : ℕ

abbrev within : Range → ℕ → Bool
within r b = leb r.first b && leb b r.last

abbrev continuation : Range
continuation = record { first = 0x80; last = 0xbf }

abbrev then_tails : ℕ → ℕ → List Range → Option (List Range)
then_tails a b rest = some (record { first = a; last = b } ∷ rest)

-- The ranges of the bytes that follow a leading byte; `none` for a byte that cannot lead.
follow : ℕ → Option (List Range)
follow b =
    if ltb b 0x80
    then some []
    else if ltb b 0xc2
    then none
    else if leb b 0xdf
    then then_tails 0x80 0xbf []
    else if b == 0xe0
    then then_tails 0xa0 0xbf (continuation ∷ [])
    else if b == 0xed
    then then_tails 0x80 0x9f (continuation ∷ [])
    else if leb b 0xef
    then then_tails 0x80 0xbf (continuation ∷ [])
    else if b == 0xf0
    then then_tails 0x90 0xbf (continuation ∷ continuation ∷ [])
    else if leb b 0xf3
    then then_tails 0x80 0xbf (continuation ∷ continuation ∷ [])
    else if b == 0xf4
    then then_tails 0x80 0x8f (continuation ∷ continuation ∷ [])
    else none

-- The list holds the ranges still expected of the character that is being read.
scan : List Range → Bytes → Bool
scan [] [] = true
scan (r ∷ rs) [] = false
scan (r ∷ rs) (b ∷ bs) = within r b && scan rs bs
scan [] (b ∷ bs) = elim (follow b) [ none ↦ false | some rs ↦ scan rs bs ]

unfoldable pub is_utf8 : Bytes → Bool
unfolding follow scan
is_utf8 bs = scan [] bs

-- `str::from_utf8(bytes)`; the position in the error is not read by the program.
unfoldable pub from_utf8 : Bytes → Option Bytes
from_utf8 bs = if is_utf8 bs then some bs else none

pub is_utf8_ascii : (bs : Bytes) → All (λ b. b < 128) bs → is_utf8 bs ≡ true
unfolding is_utf8
is_utf8_ascii [] h = refl
is_utf8_ascii (b ∷ bs) h = ground (arith, is_utf8_ascii bs h.1)
