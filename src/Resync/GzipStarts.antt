-- ===== src/Resync/GzipStarts.antt =====
-- The starts of members in crates/phx_recovery/src/resync/gzip.rs, and their headers.
use veraqis_recover.Prelude.{
  ℕ, zero, suc, ◌+◌, ◌-◌, ◌≤◌, Bool, true, ◌&&◌, inl, inr, Option, none, some, List, [], ◌∷◌, Bytes,
  ltb, leb, ltb_false→le, length, slice, bytes_eq, arith, Bool-cases,
}
use veraqis_recover.Resync.Gzip.{starts_from, member_starts, gz_header_len}
use veraqis_recover.Resync.GzipWalk.{next_or}

-- Whether no header runs into the next start.
unfoldable pub header_fits : ℕ → ℕ → Option ℕ → Bool
header_fits next_start start none = true
header_fits next_start start (some hlen) = leb (start + hlen) next_start

unfoldable pub headers_apart : Bytes → List ℕ → Bool
headers_apart input [] = true
headers_apart input (start ∷ starts) =
    let rest = headers_apart input starts in
    header_fits (next_or (length input) starts) start (gz_header_len input start) && rest

-- Starts in order, within the input.
unfoldable pub Ascending : Bytes → ℕ → List ℕ → Type 0
Ascending input from [] = Unit
Ascending input from (s ∷ starts) = (from ≤ s) × (s ≤ length input) × Ascending input (suc s) starts

Ascending-weaken :
    (input : Bytes) (from later : ℕ) (starts : List ℕ)
    → from ≤ later
    → Ascending input later starts
    → Ascending input from starts
unfolding Ascending
Ascending-weaken input from later [] l h = tt
Ascending-weaken input from later (s ∷ starts) l h = (omega (arith, h.0), h.1, h.2)

pub starts_from-Ascending :
    (input : Bytes) (i n : ℕ)
    → i + n ≤ suc (length input)
    → Ascending input i (starts_from input i n)
unfolding starts_from Ascending
starts_from-Ascending input i zero h = tt
starts_from-Ascending input i (suc n) h =
    let rest = starts_from-Ascending input (suc i) n (omega (arith, h)) in
    elim (Bool-cases (bytes_eq (slice i (i + 3) input) (0x1F ∷ 0x8B ∷ 0x08 ∷ []))) [
      | inl magic ↦ simp magic (omega arith, omega (arith, h), rest)
      | inr other ↦ simp other (Ascending-weaken input i (suc i) _ (omega arith) rest)
    ]

pub member_starts-Ascending : (input : Bytes) → Ascending input 0 (member_starts input)
unfolding member_starts
member_starts-Ascending input = elim (Bool-cases (ltb (length input) 3)) [
  | inl short ↦ simp short (unfold Ascending in tt)
  | inr long ↦
      simp long (
        starts_from-Ascending input 0 (length input - 3 + 1) (omega (arith, ltb_false→le _ _ long)))
]

pub next_or-bounds :
    (input : Bytes) (s : ℕ) (starts : List ℕ)
    → s ≤ length input
    → Ascending input (suc s) starts
    → (s ≤ next_or (length input) starts) × (next_or (length input) starts ≤ length input)
unfolding next_or Ascending
next_or-bounds input s [] l h = (l, omega arith)
next_or-bounds input s (t ∷ starts) l h = (omega (arith, h.0), h.1)
