-- ===== src/Resync/Termination.antt =====
-- The rounds of the loop of crates/phx_recovery/src/resync/tar.rs.
use veraqis_recover.Prelude.{
  ℕ, zero, suc, ◌+◌, ◌*◌, ◌/◌, ◌≤◌, ◌<◌, ◌≡◌, refl, inl, inr, Bytes, leb, leb→le, leb_false→lt,
  length, slice, arith, Bool-cases,
}
use veraqis_recover.Ustar.{all_zero, is_ustar}
use veraqis_recover.Resync.Tar.{
  checksum_ok, size_of, Walk, skip_zeros, skip_garbage, skip_mismatch, keep_member, abstain,
  data_fits, take_member, on_block, tar_round, salvage_loop, started_walk,
}

module _ (input block : Bytes) (walk : Walk) (l : walk.pos + 512 ≤ length input) where
  take_member_advances : walk.pos + 512 ≤ (take_member input block walk).pos
  unfolding take_member keep_member abstain
  take_member_advances =
      elim (Bool-cases (data_fits (walk.pos + 512) (size_of block) (length input))) [
        | inl fits ↦ simp fits (omega arith)
        | inr over ↦ simp over l
      ]

  on_block_advances : walk.pos + 512 ≤ (on_block input block walk).pos
  unfolding on_block skip_zeros skip_garbage skip_mismatch
  on_block_advances = elim (Bool-cases (all_zero block)) [
    | inl zeros ↦ simp zeros (omega arith)
    | inr more ↦ elim (Bool-cases (is_ustar block)) [
      | inr other ↦ simp (more, other) (omega arith)
      | inl magic ↦ elim (Bool-cases (checksum_ok block)) [
        | inl own ↦ simp (more, magic, own) take_member_advances
        | inr bad ↦ simp (more, magic, bad) (omega arith)
      ]
    ]
  ]

-- Rounds that lead past the end are enough.
loops_agree :
    (rounds more : ℕ) (input : Bytes) (walk : Walk)
    → length input < walk.pos + 512 * suc rounds
    → rounds ≤ more
    → salvage_loop more input walk ≡ salvage_loop rounds input walk
unfolding salvage_loop tar_round
loops_agree zero zero input walk h k = refl
loops_agree zero (suc more) input walk h k = ground (arith, h)
loops_agree (suc rounds) zero input walk h k = elim k [ ]
loops_agree (suc rounds) (suc more) input walk h k =
    elim (Bool-cases (leb (walk.pos + 512) (length input))) [
      | inl going ↦ simp going (
          loops_agree rounds more input (tar_round input walk)
            (omega (
              arith,
              h,
              on_block_advances input (slice walk.pos (walk.pos + 512) input) walk
                  (leb→le _ _ going),
            ))
            (omega arith))
      | inr done ↦ simp done refl
    ]

loop_ends :
    (rounds : ℕ) (input : Bytes) (walk : Walk)
    → length input < walk.pos + 512 * suc rounds
    → length input < (salvage_loop rounds input walk).pos + 512
unfolding salvage_loop tar_round
loop_ends zero input walk h = omega arith
loop_ends (suc rounds) input walk h = elim (Bool-cases (leb (walk.pos + 512) (length input))) [
  | inl going ↦ simp going (
      loop_ends rounds input (tar_round input walk) (
        omega (
          arith,
          h,
          on_block_advances input (slice walk.pos (walk.pos + 512) input) walk (leb→le _ _ going),
        )))
  | inr done ↦ simp done (leb_false→lt _ _ done)
]

-- The blocks of the data are rounds enough for the salvage: the loop has then run to its end, with
-- less than a block left, and further rounds change nothing.
pub salvage_loop_stops :
    (extra : ℕ) (input : Bytes)
    → (salvage_loop (length input / 512 + extra) input started_walk
        ≡ salvage_loop (length input / 512) input started_walk)
      × (length input < (salvage_loop (length input / 512) input started_walk).pos + 512)
unfolding started_walk
salvage_loop_stops extra input = (
  loops_agree (length input / 512) (length input / 512 + extra) input started_walk (omega arith)
      (omega arith),
  loop_ends (length input / 512) input started_walk (omega arith),
)
