-- ===== src/Prelude/ByteStrings.antt =====
-- Byte strings: little-endian words, equality, and what a prefix leaves behind it.
use Prim.Native.Nat.{ℕ, zero, suc, ◌+◌, ◌-◌, ◌*◌, ◌/◌, ◌%◌, ◌^◌, ◌≤◌, ◌<◌}
use mathlib.Core.Path.{◌≡◌, refl, sym, ap, ap₂, ◌∙◌}
use mathlib.Core.Logic.{◌↔◌}
use mathlib.Core.Bool.{Bool, true, false, ◌&&◌}
use mathlib.Core.List.{List, [], ◌∷◌, ◌++◌}
use native.Mathlib.Nat.{pow-succ'}
use native.Mathlib.Omega.{arith}
use veraqis_recover.Prelude.Tests.{◌==◌, ltb}
use veraqis_recover.Prelude.Lists.{
  replicate, all, length, take, drop, slice, All, take-length_append, drop-length_append,
}

abbrev pub Bytes : Type 0
Bytes = List ℕ

abbrev pub IsByte : ℕ → Type 0
IsByte b = b < 256

-- `u16::from_le_bytes`, `u32::from_le_bytes` and `u64::from_le_bytes`, by the length of the list.
abbrev pub from_le_bytes : Bytes → ℕ
from_le_bytes [] = 0
from_le_bytes (b ∷ bs) = b + 256 * from_le_bytes bs

-- `to_le_bytes` of a word of `w` bytes.
abbrev pub to_le_bytes : ℕ → ℕ → Bytes
to_le_bytes zero v = []
to_le_bytes (suc w) v = v % 256 ∷ to_le_bytes w (v / 256)

pub length-to_le_bytes : (w v : ℕ) → length (to_le_bytes w v) ≡ w
length-to_le_bytes zero v = refl
length-to_le_bytes (suc w) v = ap suc (length-to_le_bytes w (v / 256))

pub to_le_bytes-IsByte : (w v : ℕ) → All IsByte (to_le_bytes w v)
to_le_bytes-IsByte zero v = tt
to_le_bytes-IsByte (suc w) v = (omega arith, to_le_bytes-IsByte w (v / 256))

-- A word that fits is read back.
pub from_le_bytes-to_le_bytes : (w v : ℕ) → v < 256 ^ w → from_le_bytes (to_le_bytes w v) ≡ v
from_le_bytes-to_le_bytes zero v h = omega arith
from_le_bytes-to_le_bytes (suc w) v h =
    omega (arith, from_le_bytes-to_le_bytes w (v / 256) (omega (arith, pow-succ' 256 w)))

pub from_le_bytes-lt : (bs : Bytes) → All IsByte bs → from_le_bytes bs < 256 ^ length bs
from_le_bytes-lt [] h = omega arith
from_le_bytes-lt (b ∷ bs) h = omega (arith, h.0, from_le_bytes-lt bs h.1, pow-succ' 256 (length bs))

-- `==` of byte slices.
abbrev pub bytes_eq : Bytes → Bytes → Bool
bytes_eq [] [] = true
bytes_eq (x ∷ xs) (y ∷ ys) = x == y && bytes_eq xs ys
bytes_eq _ _ = false

pub bytes_eq_iff : (a b : Bytes) → (bytes_eq a b ≡ true) ↔ (a ≡ b)
bytes_eq_iff (x ∷ a) (y ∷ b) = ground (arith, bytes_eq_iff a b)
bytes_eq_iff _ _ = ground arith

module _ {ℓ} {A : Type ℓ} where
  pub drop-drop : (m n : ℕ) (xs : List A) → drop (m + n) xs ≡ drop n (drop m xs)
  drop-drop zero n xs = ap (λ (k : ℕ). drop k xs) {y = n} (omega arith)
  drop-drop (suc m) n [] =
      ap (λ (k : ℕ). drop k []) {y = suc (m + n)} (omega arith) ∙ sym (drop_nil n)
    where
      drop_nil : (k : ℕ) → drop {A = A} k [] ≡ []
      drop_nil zero = refl
      drop_nil (suc k) = refl
  drop-drop (suc m) n (x ∷ xs) =
      ap (λ (k : ℕ). drop k (x ∷ xs)) {y = suc (m + n)} (omega arith) ∙ drop-drop m n xs

  -- Strings that agree from `k` on have the same slices there.
  pub slice_behind :
      (k a b : ℕ) (xs ys : List A) → k ≤ a → drop k xs ≡ drop k ys → slice a b xs ≡ slice a b ys
  slice_behind k a b xs ys h e = ap (take (b - a)) (from xs ∙ (ap (drop (a - k)) e ∙ sym (from ys)))
    where
      from : (zs : List A) → drop a zs ≡ drop (a - k) (drop k zs)
      from zs = ap (λ (n : ℕ). drop n zs) {y = k + (a - k)} (omega arith) ∙ drop-drop k (a - k) zs

  -- The middle of a string, by where it starts and how long it is.
  pub slice_middle :
      (head mid tail : List A)
      → slice (length head) (length head + length mid) (head ++ (mid ++ tail)) ≡ mid
  slice_middle head mid tail =
      ap (λ (n : ℕ). take n (drop (length head) (head ++ (mid ++ tail)))) {y = length mid}
        (omega arith)
      ∙ (ap (take (length mid)) (drop-length_append head (mid ++ tail))
          ∙ take-length_append mid tail)

  -- The same, for bounds that are computed.
  pub slice_at :
      (a b : ℕ) (head mid tail : List A)
      → a ≡ length head
      → b ≡ a + length mid
      → slice a b (head ++ (mid ++ tail)) ≡ mid
  slice_at a b head mid tail e f =
      ap₂ (λ (x y : ℕ). slice x y (head ++ (mid ++ tail))) {y = length head}
        {v = length head + length mid} e (omega (arith, e, f))
      ∙ slice_middle head mid tail

  pub drop-front : (xs ys : List A) {n : ℕ} → length xs ≡ n → drop n (xs ++ ys) ≡ ys
  drop-front xs ys {n} e = ap (λ (k : ℕ). drop k (xs ++ ys)) (sym e) ∙ drop-length_append xs ys

  pub take-front : (xs ys : List A) {n : ℕ} → length xs ≡ n → take n (xs ++ ys) ≡ xs
  take-front xs ys {n} e = ap (λ (k : ℕ). take k (xs ++ ys)) (sym e) ∙ take-length_append xs ys

  pub take-append_left : (n : ℕ) (xs ys : List A) → n ≤ length xs → take n (xs ++ ys) ≡ take n xs
  take-append_left zero xs ys h = refl
  take-append_left (suc n) [] ys h = elim h [ ]
  take-append_left (suc n) (x ∷ xs) ys h =
      ap (λ (t : List A). x ∷ t) (take-append_left n xs ys (omega arith))

  pub take-take : (m n : ℕ) (xs : List A) → m ≤ n → take m (take n xs) ≡ take m xs
  take-take zero n xs h = refl
  take-take (suc m) zero xs h = elim h [ ]
  take-take (suc m) (suc n) [] h = refl
  take-take (suc m) (suc n) (x ∷ xs) h = ap (λ (t : List A). x ∷ t) (take-take m n xs (omega arith))

  take-split : (m n : ℕ) (xs : List A) → take (m + n) xs ≡ take m xs ++ take n (drop m xs)
  take-split zero n xs = ap (λ (k : ℕ). take k xs) {y = n} (omega arith)
  take-split (suc m) n [] =
      ap (λ (k : ℕ). take k []) {y = suc (m + n)} (omega arith) ∙ sym (take_nil n)
    where
      take_nil : (k : ℕ) → take {A = A} k [] ≡ []
      take_nil zero = refl
      take_nil (suc k) = refl
  take-split (suc m) n (x ∷ xs) =
      ap (λ (k : ℕ). take k (x ∷ xs)) {y = suc (m + n)} (omega arith)
      ∙ ap (λ (t : List A). x ∷ t) (take-split m n xs)

  -- A slice in two.
  pub slice_split :
      (a m b : ℕ) (xs : List A) → a ≤ m → m ≤ b → slice a b xs ≡ slice a m xs ++ slice m b xs
  slice_split a m b xs h k =
      ap (λ (n : ℕ). take n (drop a xs)) {y = (m - a) + (b - m)} (omega arith)
      ∙ (take-split (m - a) (b - m) (drop a xs)
          ∙ ap (λ (t : List A). slice a m xs ++ take (b - m) t)
              (sym (drop-drop a (m - a) xs) ∙ ap (λ (n : ℕ). drop n xs) {y = m} (omega arith)))

  slice-take : (k a b : ℕ) (xs : List A) → b ≤ k → slice a b (take k xs) ≡ slice a b xs
  slice-take k zero b xs h = take-take (b - 0) k xs (omega arith)
  slice-take zero (suc a) b xs h =
      ap (λ (n : ℕ). take n (drop (suc a) (take zero xs))) {y = 0} (omega arith)
      ∙ ap (λ (n : ℕ). take n (drop (suc a) xs)) {x = 0} (omega arith)
  slice-take (suc k) (suc a) b [] h = refl
  slice-take (suc k) (suc a) b (x ∷ xs) h =
      ap (λ (n : ℕ). take n (drop a (take k xs))) {y = b - 1 - a} (omega arith)
      ∙ (slice-take k a (b - 1) xs (omega arith)
          ∙ ap (λ (n : ℕ). take n (drop a xs)) {x = b - 1 - a} (omega arith))

  -- Strings that agree up to `k` have the same slices there.
  pub slice_before :
      (k a b : ℕ) (xs ys : List A) → b ≤ k → take k xs ≡ take k ys → slice a b xs ≡ slice a b ys
  slice_before k a b xs ys h e =
      sym (slice-take k a b xs h) ∙ (ap (slice a b) e ∙ slice-take k a b ys h)

pub replicate-IsByte : (n : ℕ) → All IsByte (replicate n 0)
replicate-IsByte zero = tt
replicate-IsByte (suc n) = (omega arith, replicate-IsByte n)

-- Bytes by a test of all of them.
pub all-IsByte : (bs : Bytes) → all (λ b. ltb b 256) bs ≡ true → All IsByte bs
all-IsByte [] h = tt
all-IsByte (b ∷ bs) h = (ground arith, all-IsByte bs (ground arith))
