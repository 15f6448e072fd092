-- ===== src/Rar/Vint.antt =====
-- Variable-length integers: `vint` of crates/phx_recovery/src/rar/mod.rs, and `put_vint`, the writer
-- beside its tests.
use mathlib.Core.Path.{ap₂}
use native.Mathlib.Nat.{pow-le-pow_right, mod-eq_of_lt, div-add-mod, pow-succ'}
use veraqis_recover.Prelude.{
  ℕ, zero, suc, ◌+◌, ◌*◌, ◌/◌, ◌%◌, ◌^◌, ◌≤◌, ◌<◌, ◌≡◌, refl, ap, ◌∙◌, bit_and, bit_or, [], ◌∷◌,
  ◌++◌, some, ltb, ◌==◌, if◌then◌else◌, length, drop, arith, Bytes, length-drop, drop-length_append,
  inl, inr, Bool-cases, ltb→lt,
}
use veraqis_recover.Prelude.Bits.{bit_or_above, bit_or-lt, bit_and_low, bit_and_top, two_pow_add}
use veraqis_recover.Rar.Defs.{vint, vint_loop}

vint_loop_bounds :
    (bs : Bytes) (p shift j val v q : ℕ)
    → val < 2 ^ 64
    → shift ≡ 7 * j
    → j ≤ 9
    → vint_loop bs p shift val ≡ some (v, q)
    → (p < q) × (q ≤ p + length bs) × (q + j ≤ p + 10) × (v < 2 ^ 64)
unfolding vint_loop
vint_loop_bounds [] p shift j val v q h s k e = cc
vint_loop_bounds (b ∷ bs) p shift j val v q h s k e =
    let group = bit_and b 0x7F * 2 ^ shift % 2 ^ 64 in
    ground (
      arith,
      bit_or-lt 64 val group h (omega arith),
      vint_loop_bounds bs (p + 1) (shift + 7) (j + 1) (bit_or val group) v q,
    )

-- A vint that is read takes one to ten bytes, all within the input, and is a `u64`.
pub vint_bounds :
    (d : Bytes) (p v q : ℕ)
    → vint d p ≡ some (v, q)
    → (p < q) × (q ≤ length d) × (q ≤ p + 10) × (v < 2 ^ 64)
unfolding vint
vint_bounds d p v q e =
    let found =
      vint_loop_bounds (drop p d) p 0 0 0 v q (omega arith) (omega arith) (omega arith) e in
    omega (arith, found, length-drop p d)

-- `put_vint`: the rounds of its loop; a `u64` has ten groups of seven bits at most.
unfoldable pub put_vint_loop : ℕ → ℕ → Bytes
put_vint_loop zero v = []
put_vint_loop (suc rounds) v =
    let rest = put_vint_loop rounds (v / 2 ^ 7) in
    let b = bit_and v 0x7F in if v / 2 ^ 7 == 0 then b ∷ [] else bit_or b 0x80 ∷ rest

unfoldable pub put_vint : ℕ → Bytes
put_vint v = put_vint_loop 10 v

-- One group more, with `acc` below it, as a sum.
group_in :
    (acc g shift : ℕ)
    → acc < 2 ^ shift
    → acc + g * 2 ^ shift < 2 ^ 64
    → bit_or acc (g * 2 ^ shift % 2 ^ 64) ≡ acc + g * 2 ^ shift
group_in acc g shift h fits =
    ap (λ (t : ℕ). bit_or acc t) (mod-eq_of_lt (omega arith)) ∙ bit_or_above shift acc g h

last_byte :
    (w acc shift p : ℕ) (post : Bytes)
    → w < 128
    → acc < 2 ^ shift
    → acc + w * 2 ^ shift < 2 ^ 64
    → vint_loop (w ∷ post) p shift acc ≡ some (acc + w * 2 ^ shift, p + 1)
unfolding vint_loop
last_byte w acc shift p post hw ha fits = ground (arith, low, top, group_in acc w shift)
  where
    low : bit_and w 0x7F ≡ w
    low = omega (arith, bit_and_low 7 w)

    top : bit_and w 0x80 ≡ 0
    top = omega (arith, bit_and_top 7 w (omega arith))

inner_byte :
    (g acc shift p : ℕ) (post : Bytes)
    → g < 128
    → acc < 2 ^ shift
    → shift + 7 < 64
    → acc + g * 2 ^ shift < 2 ^ 64
    → vint_loop ((g + 128) ∷ post) p shift acc
      ≡ vint_loop post (p + 1) (shift + 7) (acc + g * 2 ^ shift)
unfolding vint_loop
inner_byte g acc shift p post hg ha hs fits = ground (arith, low, top, group_in acc g shift)
  where
    low : bit_and (g + 128) 0x7F ≡ g
    low = omega (arith, bit_and_low 7 (g + 128))

    top : bit_and (g + 128) 0x80 ≡ 128
    top = omega (arith, bit_and_top 7 (g + 128) (omega arith))

seven : (s : ℕ) → 2 ^ (s + 7) ≡ 128 * 2 ^ s
seven s = omega (arith, two_pow_add s 7)

shift_fits : (v shift : ℕ) → 128 ≤ v → v * 2 ^ shift < 2 ^ 64 → shift + 7 < 64
shift_fits v shift h fits = elim (Bool-cases (ltb (shift + 7) 64)) [
  | inl small ↦ ltb→lt _ _ small
  | inr large ↦ absurd (omega (arith, too_big (ground arith), seven shift, pays))
]
  where
    too_big : 64 ≤ shift + 7 → 2 ^ 64 ≤ 2 ^ (shift + 7)
    too_big k = pow-le-pow_right (omega arith) k

    pays : 128 * 2 ^ shift ≤ v * 2 ^ shift
    pays = grind arith

split_group : (v shift : ℕ) → v * 2 ^ shift ≡ v % 128 * 2 ^ shift + v / 128 * 2 ^ (shift + 7)
split_group v shift = omega (
  arith,
  ap (λ (t : ℕ). t * 2 ^ shift) (div-add-mod v 128),
  ap (λ (t : ℕ). v / 128 * t) (seven shift),
)

put_vint_last : (rounds v : ℕ) → v < 128 → put_vint_loop (suc rounds) v ≡ v ∷ []
unfolding put_vint_loop
put_vint_last rounds v h = ground (arith, bit_and_low 7 v)

put_vint_more :
    (rounds v : ℕ)
    → 128 ≤ v
    → put_vint_loop (suc rounds) v ≡ (v % 128 + 128) ∷ put_vint_loop rounds (v / 128)
unfolding put_vint_loop
put_vint_more rounds v h = ground (arith, bit_and_low 7 v, bit_or_above 7 (bit_and v 127) 1)

-- `v` is what is still to be written, and it counts from bit `shift` on.
vint_loop-put_vint_loop :
    (rounds v acc shift p : ℕ) (post : Bytes)
    → v < 128 ^ suc rounds
    → acc < 2 ^ shift
    → acc + v * 2 ^ shift < 2 ^ 64
    → vint_loop (put_vint_loop (suc rounds) v ++ post) p shift acc
      ≡ some (acc + v * 2 ^ shift, p + length (put_vint_loop (suc rounds) v))
vint_loop-put_vint_loop zero v acc shift p post hv ha fits =
    rw (put_vint_last zero v (omega arith)) (last_byte v acc shift p post (omega arith) ha fits)
vint_loop-put_vint_loop (suc rounds) v acc shift p post hv ha fits = elim (Bool-cases (ltb v 128)) [
  | inl small ↦
      rw (put_vint_last (suc rounds) v (ltb→lt _ _ small))
        (last_byte v acc shift p post (ltb→lt _ _ small) ha fits)
  | inr large ↦ rw (put_vint_more (suc rounds) v (ground arith)) (
      inner_byte (v % 128) acc shift p _ (omega arith) ha
        (shift_fits v shift (ground arith) (omega arith)) (omega (arith, split_group v shift))
      ∙ (vint_loop-put_vint_loop rounds (v / 128) (acc + v % 128 * 2 ^ shift) (shift + 7) (p + 1)
            post (omega (arith, pow-succ' 128 (suc rounds))) (low_groups (v % 128) (omega arith))
            (omega (arith, split_group v shift))
          ∙ ap₂ (λ (a b : ℕ). some (a, b)) (omega (arith, split_group v shift)) (omega arith)))
]
  where
    low_groups : (g : ℕ) → g < 128 → acc + g * 2 ^ shift < 2 ^ (shift + 7)
    low_groups g h = grind (arith, seven shift)

vint-vint_loop : (d : Bytes) (p : ℕ) → vint d p ≡ vint_loop (drop p d) p 0 0
unfolding vint
vint-vint_loop d p = refl

-- `vint` reads back every `u64` that `put_vint` wrote, wherever it stands, and stops behind it.
pub vint-put_vint :
    (pre post : Bytes) (v : ℕ)
    → v < 2 ^ 64
    → vint (pre ++ (put_vint v ++ post)) (length pre) ≡ some (v, length pre + length (put_vint v))
unfolding put_vint
vint-put_vint pre post v h =
    vint-vint_loop _ (length pre)
    ∙ (ap (λ (t : Bytes). vint_loop t (length pre) 0 0)
          (drop-length_append pre (put_vint v ++ post))
        ∙ (vint_loop-put_vint_loop 9 v 0 0 (length pre) post (omega arith) (omega arith)
              (omega arith)
            ∙ ap (λ (t : ℕ). some (t, length pre + length (put_vint_loop 10 v))) (omega arith)))
