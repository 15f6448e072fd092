-- ===== src/Strategies/ResyncContents.antt =====
-- What strategies/tar_size_resync.rs has to find: the headers, the end of the archive and the data of
-- each header, said of the input alone.
use veraqis_recover.Prelude.{
  ℕ, zero, suc, ◌+◌, ◌-◌, ◌*◌, ◌/◌, ◌≤◌, ◌<◌, ◌≡◌, refl, sym, ap, ◌∙◌, ◌⊎◌, inl, inr, Bool, true,
  false, ◌&&◌, some, List, [], ◌∷◌, Bytes, leb, leb→le, min, length, take, drop, slice, replicate,
  length-slice, take-take, take-append_left, arith, Bool-cases,
}
use mathlib.Core.List.{Memᴰ}
use veraqis_recover.Recovery.Model.{utf8}
use veraqis_recover.Ustar.{all_zero, is_ustar}
use veraqis_recover.Resync.Tar.{blocks_of, read_name}
use veraqis_recover.Resync.Spans.{Content}
use veraqis_recover.Strategies.Terminator.{all_zero-replicate}
use veraqis_recover.Strategies.SizeResync.{
  is_ustar_header, headers_from, end_from, find_end_of_archive, true_size, stored_size, copied_data,
}

-- The block of 512 bytes with an index.
abbrev pub nth_block : Bytes → ℕ → Bytes
nth_block input i = slice (i * 512) (i * 512 + 512) input

-- Each whole block with the magic is among the offsets.
abbrev pub HasAllHeaders : Bytes → List ℕ → Type 0
HasAllHeaders input offsets =
    (i : ℕ)
    → suc i * 512 ≤ length input
    → is_ustar (nth_block input i) ≡ true
    → Memᴰ (i * 512) offsets

abbrev pub IsZeroPair : Bytes → ℕ → Type 0
IsZeroPair input i =
    (all_zero (nth_block input i) ≡ true) × (all_zero (nth_block input (suc i)) ≡ true)

-- The end of the archive: the first two blocks of zeros among whole ones, or the end of the whole
-- blocks, if there are no two.
abbrev pub IsEnd : Bytes → ℕ → Type 0
IsEnd input end =
    ((i : ℕ) × (end ≡ i * 512)
      × (suc (suc i) * 512 ≤ length input)
      × IsZeroPair input i
      × ((j : ℕ) → j < i → ¬ IsZeroPair input j))
    ⊎ (((j : ℕ) → suc (suc j) * 512 ≤ length input → ¬ IsZeroPair input j)
        × (end ≡ length input / 512 * 512))

-- What a header at an offset holds up to a boundary: its name, and the data behind it, which ends
-- with its size, if the blocks of that many bytes end before the boundary, and else with the last
-- whole block before the boundary.
pub record HasContent (input : Bytes) (offset boundary : ℕ) (content : Content) : Type 0 where
  pub named : content.0 ≡ some (utf8 (read_name (slice offset (offset + 512) input)) ∷ [])
  pub held :
      (((stored_size (slice offset (offset + 512) input) + 511) / 512 * 512
          ≤ boundary - (offset + 512))
        × (content.1
            ≡ slice
                (offset + 512)
                (offset + 512 + stored_size (slice offset (offset + 512) input))
                input))
      ⊎ ((boundary - (offset + 512)
            < (stored_size (slice offset (offset + 512) input) + 511) / 512 * 512)
          × (content.1
              ≡ slice
                  (offset + 512)
                  (offset + 512 + (boundary - (offset + 512)) / 512 * 512)
                  input))

-- The contents of headers at offsets, each up to the next one, and the last up to the end.
unfoldable pub HasContents : Bytes → ℕ → List ℕ → List Content → Type 0
HasContents input end [] [] = Unit
HasContents input end [] (content ∷ contents) = ⊥
HasContents input end (offset ∷ offsets) [] = ⊥
HasContents input end (offset ∷ []) (content ∷ contents) =
    HasContent input offset end content × HasContents input end [] contents
HasContents input end (offset ∷ (next ∷ offsets)) (content ∷ contents) =
    HasContent input offset next content × HasContents input end (next ∷ offsets) contents

zeros_no_ustar :
    (block : Bytes) → length block ≡ 512 → all_zero block ≡ true → is_ustar block ≡ false
zeros_no_ustar block l z =
    ap is_ustar (all_zero-replicate block z ∙ ap (λ (n : ℕ). replicate n 0) l) ∙ refl

is_ustar-is_ustar_header :
    (block : Bytes) → length block ≡ 512 → is_ustar block ≡ true → is_ustar_header block ≡ true
unfolding is_ustar_header
is_ustar-is_ustar_header block l m = elim (Bool-cases (all_zero block)) [
  | inl zeros ↦ cc (m, zeros_no_ustar block l zeros)
  | inr other ↦ rw (l, other) m
]

headers_from-Mem :
    (input : Bytes) (i blocks k : ℕ)
    → k < blocks
    → is_ustar_header (nth_block input (i + k)) ≡ true
    → Memᴰ ((i + k) * 512) (headers_from input i blocks)
unfolding headers_from
headers_from-Mem input i zero k l m = let no : ⊥ = omega (arith, l) in elim no [ ]
headers_from-Mem input i (suc blocks) zero l m =
    let here : i + 0 ≡ i = omega arith in
    let good : is_ustar_header (nth_block input i) ≡ true =
      ap (λ (n : ℕ). is_ustar_header (nth_block input n)) (sym here) ∙ m in
    rw good (Memᴰ.head (ap (λ (n : ℕ). n * 512) here))
headers_from-Mem input i (suc blocks) (suc k) l m =
    let there : i + suc k ≡ suc i + k = omega arith in
    let rest =
      headers_from-Mem input (suc i) blocks k (omega (arith, l))
        (ap (λ (n : ℕ). is_ustar_header (nth_block input n)) (sym there) ∙ m) in
    rw there (elim (Bool-cases (is_ustar_header (nth_block input i))) [
      | inl good ↦ simp good (Memᴰ.tail rest)
      | inr other ↦ simp other rest
    ])

pub headers_from-HasAllHeaders :
    (input : Bytes) → HasAllHeaders input (headers_from input 0 (length input / 512))
headers_from-HasAllHeaders input i l m =
    let start : i ≡ 0 + i = omega arith in
    rw start (
      headers_from-Mem input 0 (length input / 512) i (omega (arith, l)) (
        ap (λ (n : ℕ). is_ustar_header (nth_block input n)) (sym start)
        ∙ is_ustar-is_ustar_header (nth_block input i)
            (omega (
              arith,
              length-slice (i * 512) (i * 512 + 512) input (omega arith) (omega (arith, l)),
            ))
            m))

both_true : (a b : Bool) → (a && b) ≡ true → (a ≡ true) × (b ≡ true)
both_true a b h = ground arith

-- The search for the end: the first pair of zero blocks, or none.
abbrev IsFirstPair : Bytes → ℕ → ℕ → ℕ → ℕ → Type 0
IsFirstPair input nblocks i pairs end =
    ((k : ℕ) × (k < pairs)
      × (end ≡ (i + k) * 512)
      × IsZeroPair input (i + k)
      × ((j : ℕ) → j < k → ¬ IsZeroPair input (i + j)))
    ⊎ (((j : ℕ) → j < pairs → ¬ IsZeroPair input (i + j)) × (end ≡ nblocks * 512))

moved_pair : (input : Bytes) (i j : ℕ) → i ≡ j → IsZeroPair input i → IsZeroPair input j
moved_pair input i j e (a, b) = (
  ap (λ (n : ℕ). all_zero (nth_block input n)) (sym e) ∙ a,
  ap (λ (n : ℕ). all_zero (nth_block input (suc n))) (sym e) ∙ b,
)

none_earlier :
    (input : Bytes) (i n : ℕ)
    → ¬ IsZeroPair input i
    → ((j : ℕ) → j < n → ¬ IsZeroPair input (suc i + j))
    → (j : ℕ) → j < suc n
    → ¬ IsZeroPair input (i + j)
none_earlier input i n here later zero l z = here (moved_pair input (i + 0) i (omega arith) z)
none_earlier input i n here later (suc j) l z =
    later j (omega (arith, l)) (moved_pair input (i + suc j) (suc i + j) (omega arith) z)

later_pair :
    (input : Bytes) (nblocks i pairs end : ℕ)
    → ¬ IsZeroPair input i
    → IsFirstPair input nblocks (suc i) pairs end
    → IsFirstPair input nblocks i (suc pairs) end
later_pair input nblocks i pairs end here (inl (k, l, e, z, before)) = inl (
  suc k,
  omega (arith, l),
  omega (arith, e),
  moved_pair input (suc i + k) (i + suc k) (omega arith) z,
  none_earlier input i k here before,
)
later_pair input nblocks i pairs end here (inr (no_pair, e)) =
    inr (none_earlier input i pairs here no_pair, e)

end_from-IsFirstPair :
    (input : Bytes) (nblocks i pairs : ℕ)
    → IsFirstPair input nblocks i pairs (end_from input nblocks i pairs)
unfolding end_from
end_from-IsFirstPair input nblocks i zero =
    inr (λ j l z. let no : ⊥ = omega (arith, l) in elim no [ ], refl)
end_from-IsFirstPair input nblocks i (suc pairs) =
    elim (Bool-cases (all_zero (nth_block input i) && all_zero (nth_block input (suc i)))) [
      | inl found ↦
          let zeros = both_true (all_zero (nth_block input i)) _ found in
          rw found (
            inl (
              0,
              omega arith,
              omega arith,
              moved_pair input i (i + 0) (omega arith) zeros,
              λ j l z. let no : ⊥ = omega (arith, l) in elim no [ ],
            ))
      | inr other ↦ rw other (
          later_pair input nblocks i pairs _ (λ z. cc (other, not_both _ _ z.0 z.1))
            (end_from-IsFirstPair input nblocks (suc i) pairs))
    ]
  where
    not_both : (a b : Bool) → a ≡ true → b ≡ true → (a && b) ≡ true
    not_both a b p q = ground arith

pub find_end_of_archive-IsEnd :
    (input : Bytes) → IsEnd input (find_end_of_archive input (length input / 512))
unfolding find_end_of_archive
find_end_of_archive-IsEnd input =
    elim (end_from-IsFirstPair input (length input / 512) 0 (length input / 512 - 1)) [
      | inl found ↦ inl (
        found.0,
        omega (arith, found.2),
        omega (arith, found.1),
        moved_pair input (0 + found.0) found.0 (omega arith) found.3,
        λ j l z. found.4 j l (moved_pair input j (0 + j) (omega arith) z),
      )
      | inr none_found ↦ inr (
        λ j l z. none_found.0 j (omega (arith, l)) (moved_pair input j (0 + j) (omega arith) z),
        none_found.1,
      )
    ]

-- The first bytes of the data that is copied are those of the input.
take-copied_data :
    (input : Bytes) (start blocks size : ℕ)
    → start + blocks * 512 ≤ length input
    → size ≤ blocks * 512
    → take size (copied_data input start blocks) ≡ slice start (start + size) input
unfolding copied_data
take-copied_data input start blocks size l s =
    let end = min (start + blocks * 512) (length input) in
    take-append_left size (slice start end input) (replicate (blocks * 512 - (end - start)) 0)
      (omega (arith, l, s, length-slice start end input (omega arith) (omega arith)))
    ∙ (take-take size (end - start) (drop start input) (omega (arith, l, s))
        ∙ ap (λ (n : ℕ). take n (drop start input)) (omega arith))

pub true_size-HasContent :
    (input : Bytes) (offset boundary : ℕ)
    → boundary ≤ length input
    → offset + 512 ≤ length input
    → (let block = slice offset (offset + 512) input in
        let sizes = true_size (stored_size block) (boundary - (offset + 512)) in
        HasContent input offset boundary (
          some (utf8 (read_name block) ∷ []),
          take sizes.0 (copied_data input (offset + 512) sizes.1),
        ))
unfolding true_size
true_size-HasContent input offset boundary b l =
    let stored = stored_size (slice offset (offset + 512) input) in
    let gap = boundary - (offset + 512) in
    elim (Bool-cases (leb (blocks_of stored * 512) gap)) [
      | inl fits ↦
          let small = leb→le (blocks_of stored * 512) gap fits in
          rw fits (record {
            named = refl;
            held = inl (
              small,
              take-copied_data input (offset + 512) (blocks_of stored) stored
                  (omega (arith, small, b, l)) (omega arith),
            );
          })
      | inr over ↦ rw over (record {
        named = refl;
        held = inr (
          beyond (blocks_of stored * 512) gap over,
          take-copied_data input (offset + 512) (gap / 512) (gap / 512 * 512) (omega (arith, b, l))
              (omega arith),
        );
      })
    ]
  where
    beyond : (m n : ℕ) → leb m n ≡ false → n < m
    beyond m n h = ground arith
