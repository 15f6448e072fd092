-- ===== src/Crc/Bitwise.antt =====
-- The table of crates/phx_analyze_engine/src/integrity/crc32.rs and the CRC-32 bit by bit.
use veraqis_recover.Prelude.{
  ℕ, zero, suc, ◌+◌, ◌*◌, ◌/◌, ◌%◌, ◌^◌, ◌≤◌, ◌<◌, ◌≡◌, refl, sym, ap, ap₂, ◌∙◌, bit_and, bit_xor,
  [], ◌∷◌, Bytes, IsByte, All, ==_iff, arith,
}
use veraqis_recover.Prelude.Bits.{bit_and_low, bit_xor_step, bit_xor-mod, bit_xor_comm, two_pow_suc}
use native.Mathlib.Nat.{div-div-eq-div-mul}
use veraqis_recover.Crc.Table.{
  Crc32_new, table_bit, table_bits, table_from, build_table, table_at, table_step, update_loop,
  update, finalize, table_crc32,
}

-- The register, a byte and its eight rounds.
unfoldable pub bitwise_loop : ℕ → Bytes → ℕ
bitwise_loop crc [] = crc
bitwise_loop crc (b ∷ bytes) = bitwise_loop (table_bits 8 (bit_xor crc b)) bytes

-- The CRC-32 without a table.
unfoldable pub bitwise_crc32 : Bytes → ℕ
bitwise_crc32 bytes = bit_xor (bitwise_loop 0xFFFFFFFF bytes) 0xFFFFFFFF

xor_half : (a b : ℕ) → bit_xor a b / 2 ≡ bit_xor (a / 2) (b / 2)
xor_half a b = omega (arith, bit_xor_step a b)

xor_parity : (a b : ℕ) → bit_xor a b % 2 ≡ (a % 2 + b % 2) % 2
xor_parity a b = omega (arith, bit_xor_step a b)

xor_zero_fuel : (n a : ℕ) → a ≤ n → bit_xor a 0 ≡ a
xor_zero_fuel n zero h = refl
xor_zero_fuel zero (suc a) h = elim h [ ]
xor_zero_fuel (suc n) (suc a) h =
    omega (arith, bit_xor_step (suc a) 0, xor_zero_fuel n (suc a / 2) (omega arith))

xor_zero : (a : ℕ) → bit_xor a 0 ≡ a
xor_zero a = xor_zero_fuel a a (omega arith)

xor_assoc_fuel :
    (n a b c : ℕ) → a ≤ n → b ≤ n → c ≤ n → bit_xor (bit_xor a b) c ≡ bit_xor a (bit_xor b c)
xor_assoc_fuel zero zero zero zero h k l = refl
xor_assoc_fuel zero (suc a) b c h k l = elim h [ ]
xor_assoc_fuel zero zero (suc b) c h k l = elim k [ ]
xor_assoc_fuel zero zero zero (suc c) h k l = elim l [ ]
xor_assoc_fuel (suc n) a b c h k l = omega (
  arith,
  bit_xor_step (bit_xor a b) c,
  bit_xor_step a (bit_xor b c),
  ap (λ (t : ℕ). bit_xor t (c / 2)) (xor_half a b),
  ap (λ (t : ℕ). bit_xor (a / 2) t) (xor_half b c),
  xor_parity a b,
  xor_parity b c,
  xor_assoc_fuel n (a / 2) (b / 2) (c / 2) (omega arith) (omega arith) (omega arith),
)

xor_assoc : (a b c : ℕ) → bit_xor (bit_xor a b) c ≡ bit_xor a (bit_xor b c)
xor_assoc a b c = xor_assoc_fuel (a + b + c) a b c (omega arith) (omega arith) (omega arith)

-- What stands above the low `k` bits only moves down in a round.
xor_div : (k a b : ℕ) → bit_xor a b / 2 ^ k ≡ bit_xor (a / 2 ^ k) (b / 2 ^ k)
xor_div zero a b =
    omega (arith, ap₂ bit_xor {x = a} {y = a / 1} {u = b} {v = b / 1} (omega arith) (omega arith))
xor_div (suc k) a b =
    down (bit_xor a b)
    ∙ (ap (λ (t : ℕ). t / 2 ^ k) (xor_half a b)
        ∙ (xor_div k (a / 2) (b / 2) ∙ ap₂ bit_xor (sym (down a)) (sym (down b))))
  where
    down : (m : ℕ) → m / 2 ^ suc k ≡ m / 2 / 2 ^ k
    down m = ap (λ (t : ℕ). m / t) (two_pow_suc k) ∙ sym (div-div-eq-div-mul m 2 (2 ^ k))

table_bit_odd : (y : ℕ) → y % 2 ≡ 1 → table_bit y ≡ bit_xor (y / 2) 0xEDB88320
unfolding table_bit
table_bit_odd y h = rw ((==_iff (bit_and y 1) 1).1 (omega (arith, h, bit_and_low 1 y))) refl

table_bit_even : (y : ℕ) → y % 2 ≡ 0 → table_bit y ≡ y / 2
unfolding table_bit
table_bit_even y h = rw (low y h) refl
  where
    low : (x : ℕ) → x % 2 ≡ 0 → bit_and x 1 ≡ 0
    low x k = omega (arith, k, bit_and_low 1 x)

shift_twice : (k h : ℕ) → h * 2 ^ suc k ≡ 2 * (h * 2 ^ k)
shift_twice k h = grind (arith, two_pow_suc k)

half_shift : (k h : ℕ) → h * 2 ^ suc k / 2 ≡ h * 2 ^ k
half_shift k h = omega (arith, shift_twice k h)

even_shift : (k h : ℕ) → h * 2 ^ suc k % 2 ≡ 0
even_shift k h = omega (arith, shift_twice k h)

-- What stands above the low bit passes a round unchanged, one place down.
shift_bit : (k h y : ℕ) → table_bit (bit_xor (h * 2 ^ suc k) y) ≡ bit_xor (h * 2 ^ k) (table_bit y)
shift_bit k h y = by_parity (y % 2) refl
  where
    half : bit_xor (h * 2 ^ suc k) y / 2 ≡ bit_xor (h * 2 ^ k) (y / 2)
    half = xor_half (h * 2 ^ suc k) y ∙ ap (λ (t : ℕ). bit_xor t (y / 2)) (half_shift k h)

    parity : bit_xor (h * 2 ^ suc k) y % 2 ≡ y % 2
    parity = omega (arith, xor_parity (h * 2 ^ suc k) y, even_shift k h)

    by_parity :
        (r : ℕ)
        → y % 2 ≡ r
        → table_bit (bit_xor (h * 2 ^ suc k) y) ≡ bit_xor (h * 2 ^ k) (table_bit y)
    by_parity zero e =
        table_bit_even (bit_xor (h * 2 ^ suc k) y) (parity ∙ e)
        ∙ (half ∙ ap (bit_xor (h * 2 ^ k)) (sym (table_bit_even y e)))
    by_parity (suc zero) e =
        table_bit_odd (bit_xor (h * 2 ^ suc k) y) (parity ∙ e)
        ∙ (ap (λ (t : ℕ). bit_xor t 0xEDB88320) half
            ∙ (xor_assoc (h * 2 ^ k) (y / 2) 0xEDB88320
                ∙ ap (bit_xor (h * 2 ^ k)) (sym (table_bit_odd y e))))
    by_parity (suc (suc r)) e = let no : ⊥ = omega (arith, e) in elim no [ ]

bits_shift : (k h y : ℕ) → table_bits k (bit_xor (h * 2 ^ k) y) ≡ bit_xor h (table_bits k y)
unfolding table_bits
bits_shift zero h y = let e : h * 1 ≡ h = omega arith in ap (λ (t : ℕ). bit_xor t y) e
bits_shift (suc k) h y = ap (table_bits k) (shift_bit k h y) ∙ bits_shift k h (table_bit y)

table_at_from : (i n j : ℕ) → j < n → table_at (table_from i n) j ≡ table_bits 8 (i + j)
unfolding table_at table_from
table_at_from i zero j h = let no : ⊥ = omega (arith, h) in elim no [ ]
table_at_from i (suc n) zero h = (let e : i ≡ i + 0 = omega arith in ap (table_bits 8) e)
table_at_from i (suc n) (suc j) h =
    table_at_from (suc i) n j (omega arith)
    ∙ (let e : suc i + j ≡ i + suc j = omega arith in ap (table_bits 8) e)

xor_low : (q r : ℕ) → r < 256 → bit_xor (q * 2 ^ 8) r / 2 ^ 8 ≡ q
xor_low q r h =
    xor_div 8 (q * 2 ^ 8) r ∙ (ap₂ bit_xor (omega arith) (omega (arith, h)) ∙ xor_zero q)

xor_high : (q r : ℕ) → r < 256 → bit_xor (q * 2 ^ 8) r % 2 ^ 8 ≡ r
xor_high q r h =
    bit_xor-mod 8 (q * 2 ^ 8) r
    ∙ (ap₂ bit_xor (omega arith) (omega (arith, h)) ∙ (bit_xor_comm 0 r ∙ xor_zero r))

-- A word is its upper part and its low byte.
word_parts : (x : ℕ) → bit_xor (x / 256 * 2 ^ 8) (x % 256) ≡ x
word_parts x =
    omega
      (arith, xor_low (x / 256) (x % 256) (omega arith), xor_high (x / 256) (x % 256) (omega arith))

build_table_lem : build_table ≡ table_from 0 256
unfolding build_table
build_table_lem = refl

byte_apart : (crc b : ℕ) → b < 256 → crc / 256 ≡ bit_xor crc b / 256
byte_apart crc b h = sym (
    xor_div 8 crc b
    ∙ (ap (bit_xor (crc / 256)) (let e : b / 256 ≡ 0 = omega (arith, h) in e)
        ∙ xor_zero (crc / 256)))

entry_of : (x : ℕ) → table_at build_table (bit_and x 0xFF) ≡ table_bits 8 (x % 256)
entry_of x =
    ap₂ table_at build_table_lem low
    ∙ (table_at_from 0 256 (x % 256) (omega arith) ∙ ap (table_bits 8) (omega arith))
  where
    low : bit_and x 0xFF ≡ x % 256
    low = omega (arith, bit_and_low 8 x)

table_step_lem : (crc b : ℕ) → b < 256 → table_step crc b ≡ table_bits 8 (bit_xor crc b)
unfolding table_step
table_step_lem crc b h =
    ap₂ bit_xor (byte_apart crc b h) (entry_of (bit_xor crc b))
    ∙ (sym (bits_shift 8 (bit_xor crc b / 256) (bit_xor crc b % 256))
        ∙ ap (table_bits 8) (word_parts (bit_xor crc b)))

update_loop_lem :
    (crc : ℕ) (bytes : Bytes) → All IsByte bytes → update_loop crc bytes ≡ bitwise_loop crc bytes
unfolding update_loop bitwise_loop
update_loop_lem crc [] all = refl
update_loop_lem crc (b ∷ bytes) (small, all) =
    ap (λ (t : ℕ). update_loop t bytes) (table_step_lem crc b small)
    ∙ update_loop_lem (table_bits 8 (bit_xor crc b)) bytes all

-- On every list of bytes, the CRC-32 that the analyzer takes by its table of 256 entries is the
-- one computed with no table: each byte is put into the register by exclusive or, and the register
-- goes through eight shifts of one bit.
pub table_crc32-bitwise_crc32 :
    (bytes : Bytes) → All IsByte bytes → table_crc32 bytes ≡ bitwise_crc32 bytes
unfolding table_crc32 bitwise_crc32 finalize update Crc32_new
table_crc32-bitwise_crc32 bytes all =
    ap (λ (t : ℕ). bit_xor t 0xFFFFFFFF) (update_loop_lem 0xFFFFFFFF bytes all)
