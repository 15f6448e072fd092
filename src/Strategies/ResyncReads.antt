-- ===== src/Strategies/ResyncReads.antt =====
-- The archive of strategies/tar_size_resync.rs as a stream of members.
use veraqis_recover.Prelude.{
  ℕ, ◌+◌, ◌-◌, ◌*◌, ◌^◌, ◌≤◌, ◌<◌, ◌≡◌, refl, ap, ap₂, ◌∙◌, true, Bool, Bytes, IsByte, All, some,
  List, [], ◌∷◌, ◌++◌, append_assoc, leb, leb→le, min, length, take, drop, slice, replicate,
  length-replicate, length-slice, length-append, All-take, All-drop, arith, Bool-cases, inl, inr,
}
use veraqis_recover.Recovery.Model.{utf8}
use veraqis_recover.Ustar.{is_ustar}
use veraqis_recover.Resync.Tar.{blocks_of, read_name}
use veraqis_recover.Resync.Spans.{Item, member, item_onto, IsWhole, IsItem, Content, members_of}
use veraqis_recover.Strategies.SizeResync.{
  true_size, stored_size, header_written, copied_data, resync_entry,
}
use veraqis_recover.Strategies.ResyncEntries.{
  rebuilt_header_small, read_name-header_written, size_of-header_written, header_written-IsWhole,
}

length-copied_data :
    (input : Bytes) (start blocks : ℕ)
    → start ≤ length input
    → length (copied_data input start blocks) ≡ blocks * 512
unfolding copied_data
length-copied_data input start blocks h =
    let end = min (start + blocks * 512) (length input) in
    omega (
      arith,
      length-append (slice start end input) (replicate (blocks * 512 - (end - start)) 0),
      length-slice start end input (omega arith) (omega arith),
      length-replicate {A = ℕ} (blocks * 512 - (end - start)) 0,
    )

-- The size that a header is given fits before the boundary, and the blocks are as many as it needs.
true_size_fits :
    (stored max_data : ℕ)
    → ((true_size stored max_data).1 ≡ blocks_of (true_size stored max_data).0)
      × ((true_size stored max_data).1 * 512 ≤ max_data)
      × ((true_size stored max_data).0 ≤ max_data)
unfolding true_size
true_size_fits stored max_data = elim (Bool-cases (leb (blocks_of stored * 512) max_data)) [
  | inl fits ↦ simp fits (refl, leb→le _ _ fits, omega (arith, leb→le _ _ fits))
  | inr over ↦ simp over (omega arith, omega arith, omega arith)
]

module _ (input : Bytes) (offset : ℕ) where
  unfoldable pub header_block : Bytes
  header_block = slice offset (offset + 512) input

  module _ (boundary : ℕ) where
    unfoldable pub entry_size : ℕ
    unfolding header_block
    entry_size = (true_size (stored_size header_block) (boundary - (offset + 512))).0

    unfoldable pub entry_blocks : ℕ
    unfolding header_block
    entry_blocks = (true_size (stored_size header_block) (boundary - (offset + 512))).1

    unfoldable pub entry_data : Bytes
    unfolding entry_blocks
    entry_data = copied_data input (offset + 512) entry_blocks

    unfoldable pub entry_item : Item
    unfolding header_block entry_size entry_data
    entry_item = member (header_written entry_size header_block) entry_data

    -- What the entry holds: the header's name, and as many bytes as its size says.
    unfoldable pub entry_content : Content
    unfolding header_block entry_size entry_data
    entry_content = (some (utf8 (read_name header_block) ∷ []), take entry_size entry_data)

    module _ (h : All IsByte input) (l : offset + 512 ≤ length input)
        (m : is_ustar header_block ≡ true) (b : boundary ≤ length input)
        (s : length input < 8 ^ 11) where
      block_good : (All IsByte header_block) × (length header_block ≡ 512)
      unfolding header_block
      block_good = (
        All-take IsByte (offset + 512 - offset) (drop offset input)
            (All-drop IsByte offset input h),
        omega (arith, length-slice offset (offset + 512) input (omega arith) l),
      )

      small_size : entry_size < 8 ^ 11
      unfolding entry_size
      small_size =
          omega
            (arith, s, b, (true_size_fits (stored_size header_block) (boundary - (offset + 512))).2)

      -- The data before the boundary.
      pub blocks_fit : entry_blocks * 512 ≤ boundary - (offset + 512)
      unfolding entry_blocks
      blocks_fit = (true_size_fits (stored_size header_block) (boundary - (offset + 512))).1

      entry_length : length entry_data ≡ entry_blocks * 512
      unfolding entry_data
      entry_length = length-copied_data input (offset + 512) entry_blocks l

      same_blocks : entry_blocks ≡ blocks_of entry_size
      unfolding entry_blocks entry_size
      same_blocks = (true_size_fits (stored_size header_block) (boundary - (offset + 512))).0

      whole : IsWhole (header_written entry_size header_block) entry_data
      whole =
          header_written-IsWhole header_block entry_size block_good.0 block_good.1 small_size
            entry_data m (entry_length ∙ ap (λ (n : ℕ). n * 512) same_blocks)

      pub entry_good : IsItem entry_item
      unfolding entry_item IsItem
      entry_good = whole

      pub entry_held :
          (items : List Item) → members_of (entry_item ∷ items) ≡ entry_content ∷ members_of items
      unfolding entry_item entry_content members_of
      entry_held items =
          ap₂ (λ (n : Bytes) (k : ℕ). (some (utf8 n ∷ []), take k entry_data) ∷ members_of items)
            (read_name-header_written header_block entry_size block_good.0 block_good.1 small_size)
            (size_of-header_written header_block entry_size block_good.0 block_good.1 small_size)

      pub length-entry :
          (rest : Bytes)
          → length (item_onto entry_item rest) ≡ 512 + entry_blocks * 512 + length rest
      unfolding entry_item item_onto
      length-entry rest = omega (
        arith,
        length-append (header_written entry_size header_block) (entry_data ++ rest),
        length-append entry_data rest,
        whole.sized,
        entry_length,
      )

      -- The entry is written.
      pub entry_written :
          (corrected : Bool) × (resync_entry input offset boundary
            ≡ some (header_written entry_size header_block ++ entry_data, corrected))
      unfolding resync_entry entry_data entry_blocks
      entry_written = (
        (true_size (stored_size header_block) (boundary - (offset + 512))).2,
        unfold entry_size header_block in
            rw
              (rebuilt_header_small
                (true_size (stored_size (slice offset (offset + 512) input))
                  (boundary - (offset + 512))).0
                (slice offset (offset + 512) input) small_size)
              refl,
      )

    pub entry_bytes :
        (rest : Bytes)
        → (header_written entry_size header_block ++ entry_data) ++ rest ≡ item_onto entry_item rest
    unfolding entry_item item_onto
    entry_bytes rest = append_assoc (header_written entry_size header_block) entry_data rest
