-- ===== src/Prelude/Space.antt =====
-- `strings.TrimSpace`: white space is that of `unicode.IsSpace`, in UTF-8.
use Prim.Native.Nat.{ℕ, zero, suc}
use mathlib.Core.Bool.{Bool, ◌&&◌, ◌||◌}
use mathlib.Core.List.{[], ◌∷◌, reverse}
use libopenapi.Prelude.Tests.{leb, ◌==◌, if◌then◌else◌}
use libopenapi.Prelude.Text.{Bytes}

abbrev pub is_space_byte : ℕ → Bool
is_space_byte c = (leb 9 c && leb c 13) || c == 32

abbrev is_space_pair : ℕ → ℕ → Bool
is_space_pair a b = a == 0xc2 && (b == 0x85 || b == 0xa0)

abbrev is_space_triple : ℕ → ℕ → ℕ → Bool
is_space_triple a b c =
    (a == 0xe1 && b == 0x9a && c == 0x80)
    || (a == 0xe2
        && b == 0x80
        && ((leb 0x80 c && leb c 0x8a) || c == 0xa8 || c == 0xa9 || c == 0xaf))
    || (a == 0xe2 && b == 0x81 && c == 0x9f)
    || (a == 0xe3 && b == 0x80 && c == 0x80)

-- The bytes of the white space in front, or 0 if there is none.
unfoldable pub space_width : Bytes → ℕ
space_width [] = 0
space_width (a ∷ []) = if is_space_byte a then 1 else 0
space_width (a ∷ b ∷ []) = if is_space_byte a then 1 else if is_space_pair a b then 2 else 0
space_width (a ∷ b ∷ c ∷ s) =
    if is_space_byte a
    then 1
    else if is_space_pair a b
    then 2
    else if is_space_triple a b c
    then 3
    else 0

-- The same of a text that is read backwards.
unfoldable pub space_width_back : Bytes → ℕ
space_width_back [] = 0
space_width_back (a ∷ []) = if is_space_byte a then 1 else 0
space_width_back (a ∷ b ∷ []) = if is_space_byte a then 1 else if is_space_pair b a then 2 else 0
space_width_back (a ∷ b ∷ c ∷ s) =
    if is_space_byte a
    then 1
    else if is_space_pair b a
    then 2
    else if is_space_triple c b a
    then 3
    else 0

-- The number says how many bytes of a white space are still to be passed over.
unfoldable pub trim_front : (Bytes → ℕ) → ℕ → Bytes → Bytes
trim_front width k [] = []
trim_front width (suc k) (c ∷ s) = trim_front width k s
trim_front width zero (c ∷ s) = elim (width (c ∷ s)) [ zero ↦ c ∷ s | suc k ↦ trim_front width k s ]

unfoldable pub trim_space : Bytes → Bytes
unfolding space_width space_width_back trim_front
trim_space s = reverse (trim_front space_width_back 0 (reverse (trim_front space_width 0 s)))
