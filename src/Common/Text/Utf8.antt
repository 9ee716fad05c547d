-- ===== src/Common/Text/Utf8.antt =====
-- `String::from_utf8`: the code points that bytes stand for, if they are well formed.
use dappy_core.Common.{
  ℕ, zero, suc, ◌+◌, ◌-◌, ◌*◌, ◌<◌, ◌≡◌, refl, Bool, not, ◌&&◌, Option, none, some, List, [], ◌∷◌,
  arith, leb, if◌then◌else◌, ◌==◌, nat_eq, string_eq,
}
use dappy_core.Common.Text.{Text}

abbrev pub Bytes : Type 0
Bytes = List ℕ

abbrev between : ℕ → ℕ → ℕ → Bool
between a b x = leb a x && leb x b

-- How many bytes follow a first byte, its own bits, and the range of the byte after it.
abbrev pub lead : ℕ → Option (ℕ × ℕ × ℕ × ℕ)
lead b =
    if leb b 127
    then some (0, b, 128, 191)
    else if between 194 223 b
    then some (1, b - 192, 128, 191)
    else if b == 224
    then some (2, 0, 160, 191)
    else if b == 237
    then some (2, 13, 128, 159)
    else if between 225 239 b
    then some (2, b - 224, 128, 191)
    else if b == 240
    then some (3, 0, 144, 191)
    else if between 241 243 b
    then some (3, b - 240, 128, 191)
    else if b == 244
    then some (3, 4, 128, 143)
    else none

abbrev cons_to : ℕ → Option Text → Option Text
cons_to c none = none
cons_to c (some s) = some (c ∷ s)

-- `need` bytes are missing of a character whose bits so far are `acc`; the next lies in `lo` to `hi`.
abbrev pub decode_from : ℕ → ℕ → ℕ → ℕ → Bytes → Option Text
decode_from zero acc lo hi [] = some []
decode_from (suc need) acc lo hi [] = none
decode_from zero acc lo hi (b ∷ bs) = elim (lead b) [
  | none ↦ none
  | some (n, bits, l, h) ↦
      if n == 0 then cons_to b (decode_from 0 0 0 0 bs) else decode_from n bits l h bs
]
decode_from (suc need) acc lo hi (b ∷ bs) =
    let c = acc * 64 + (b - 128) in
    let done = decode_from 0 0 0 0 bs in
    let more = decode_from need c 128 191 bs in
    if not (between lo hi b) then none else if need == 0 then cons_to c done else more

unfoldable pub from_utf8 : Bytes → Option Text
from_utf8 bs = decode_from 0 0 0 0 bs

abbrev pub AllAscii : Bytes → Type 0
AllAscii [] = Unit
AllAscii (b ∷ bs) = (b < 128) × AllAscii bs

-- ASCII bytes are their own code points.
pub from_utf8-ascii : (bs : Bytes) → AllAscii bs → from_utf8 bs ≡ some bs
unfolding from_utf8
from_utf8-ascii [] h = refl
from_utf8-ascii (b ∷ bs) h = ground (arith, from_utf8-ascii bs h.1)
