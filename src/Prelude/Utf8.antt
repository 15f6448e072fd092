-- ===== src/Prelude/Utf8.antt =====
-- `String::from_utf8_lossy` of the standard library, as the UTF-8 bytes of its result: each maximal
-- ill-formed part becomes U+FFFD.
use Prim.Native.Nat.{ℕ, zero, suc, ◌<◌, ◌≤◌}
use mathlib.Core.Path.{◌≡◌, refl}
use mathlib.Core.Bool.{Bool, true, false, ◌&&◌, ◌||◌}
use mathlib.Core.List.{[], ◌∷◌, ◌++◌}
use native.Mathlib.Omega.{arith}
use veraqis_recover.Prelude.Tests.{◌==◌, ltb, leb, if◌then◌else◌}
use veraqis_recover.Prelude.Lists.{length, take, drop, All}
use veraqis_recover.Prelude.ByteStrings.{Bytes}

within : ℕ → ℕ → ℕ → Bool
within lo hi b = leb lo b && leb b hi

-- The byte at the front, or 0 behind the end.
front_or_0 : Bytes → ℕ
front_or_0 [] = 0
front_or_0 (b ∷ bs) = b

is_cont : ℕ → Bool
unfolding within
is_cont = within 0x80 0xBF

-- The second bytes that may follow a first byte of a sequence of three, and of four.
second_of_3 : ℕ → ℕ → Bool
unfolding within
second_of_3 first b =
    (first == 0xE0 && within 0xA0 0xBF b)
    || (within 0xE1 0xEC first && within 0x80 0xBF b)
    || (first == 0xED && within 0x80 0x9F b)
    || (within 0xEE 0xEF first && within 0x80 0xBF b)

second_of_4 : ℕ → ℕ → Bool
unfolding within
second_of_4 first b =
    (first == 0xF0 && within 0x90 0xBF b)
    || (within 0xF1 0xF3 first && within 0x80 0xBF b)
    || (first == 0xF4 && within 0x80 0x8F b)

-- Whether the sequence at the front is well formed, and how many bytes it or its ill-formed part has.
sequence : ℕ → Bytes → Bool × ℕ
unfolding within front_or_0 is_cont second_of_3 second_of_4
sequence first rest =
    if ltb first 128
    then (true, 1)
    else if within 0xC2 0xDF first
    then (if is_cont (front_or_0 rest) then (true, 2) else (false, 1))
    else if within 0xE0 0xEF first
    then if second_of_3 first (front_or_0 rest)
      then (if is_cont (front_or_0 (drop 1 rest)) then (true, 3) else (false, 2))
      else (false, 1)
    else if within 0xF0 0xF4 first
    then if second_of_4 first (front_or_0 rest)
      then if is_cont (front_or_0 (drop 1 rest))
        then (if is_cont (front_or_0 (drop 2 rest)) then (true, 4) else (false, 3))
        else (false, 2)
      else (false, 1)
    else (false, 1)

lossy_loop : ℕ → Bytes → Bytes
unfolding sequence
lossy_loop zero bs = []
lossy_loop (suc fuel) [] = []
lossy_loop (suc fuel) (b ∷ bs) =
    let (good, n) = sequence b bs in
    let rest = lossy_loop fuel (drop n (b ∷ bs)) in
    (if good then take n (b ∷ bs) else 0xEF ∷ 0xBF ∷ 0xBD ∷ []) ++ rest

-- Each round takes a byte at least, so the length is fuel enough.
unfoldable pub from_utf8_lossy : Bytes → Bytes
unfolding lossy_loop
from_utf8_lossy bs = lossy_loop (length bs) bs

lossy_loop_ascii :
    (bs : Bytes) (fuel : ℕ) → All (λ b. b < 128) bs → length bs ≤ fuel → lossy_loop fuel bs ≡ bs
unfolding lossy_loop
lossy_loop_ascii [] zero h k = refl
lossy_loop_ascii [] (suc fuel) h k = refl
lossy_loop_ascii (b ∷ bs) zero h k = elim k [ ]
lossy_loop_ascii (b ∷ bs) (suc fuel) h k =
    ground (arith, lossy_loop_ascii bs fuel h.1 (omega arith))

-- ASCII text is kept.
pub from_utf8_lossy_ascii : (bs : Bytes) → All (λ b. b < 128) bs → from_utf8_lossy bs ≡ bs
unfolding from_utf8_lossy
from_utf8_lossy_ascii bs h = lossy_loop_ascii bs (length bs) h (omega arith)
