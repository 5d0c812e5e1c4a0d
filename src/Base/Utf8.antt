-- ===== src/Base/Utf8.antt =====
-- `String::from_utf8`: the well-formed byte sequences of Unicode.
use Prim.Native.Nat.{ℕ}
use mathlib.Core.Bool.{Bool, true, false, ◌&&◌}
use mathlib.Core.List.{List, [], ◌∷◌}
use vaultex.Base.Booleans.{ltb, leb, ◌==◌, if◌then◌else◌}
use vaultex.Base.ByteStrings.{Bytes}

-- The ranges of the bytes that a sequence still needs.
abbrev pub Needed : Type 0
Needed = List (ℕ × ℕ)

abbrev tail : ℕ × ℕ
tail = (0x80, 0xbf)

-- The lead bytes, with what has to follow each; `(1, 0)` is a range that no byte is in.
abbrev after_lead : ℕ → Needed
after_lead b =
    if ltb b 0x80
    then []
    else if ltb b 0xc2
    then (1, 0) ∷ []
    else if ltb b 0xe0
    then tail ∷ []
    else if b == 0xe0
    then (0xa0, 0xbf) ∷ tail ∷ []
    else if b == 0xed
    then (0x80, 0x9f) ∷ tail ∷ []
    else if ltb b 0xf0
    then tail ∷ tail ∷ []
    else if b == 0xf0
    then (0x90, 0xbf) ∷ tail ∷ tail ∷ []
    else if ltb b 0xf4
    then tail ∷ tail ∷ tail ∷ []
    else if b == 0xf4
    then (0x80, 0x8f) ∷ tail ∷ tail ∷ []
    else (1, 0) ∷ []

unfoldable pub well_formed : Needed → Bytes → Bool
well_formed [] [] = true
well_formed (r ∷ rs) [] = false
well_formed [] (b ∷ bs) = well_formed (after_lead b) bs
well_formed ((low, high) ∷ rs) (b ∷ bs) = leb low b && leb b high && well_formed rs bs

unfoldable pub is_utf8 : Bytes → Bool
unfolding well_formed
is_utf8 bytes = well_formed [] bytes
