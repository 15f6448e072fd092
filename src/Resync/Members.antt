-- ===== src/Resync/Members.antt =====
-- The members that the walk of crates/phx_recovery/src/resync/tar.rs gives back.
use veraqis_recover.Prelude.{
  ℕ, ◌+◌, ◌*◌, min, ◌≤◌, ◌≡◌, true, some, List, [], ◌∷◌, ◌++◌, Bytes, length, slice, arith,
}
use veraqis_recover.Recovery.Model.{utf8}
use veraqis_recover.Ustar.{is_ustar}
use veraqis_recover.Resync.{Segment, verified_tar_member}
use veraqis_recover.Resync.Tar.{read_name, checksum_ok, size_of, blocks_of}

-- The segment is the member of a header block of the input with its own checksum: the name and the
-- size are the header's, and the bytes are those behind it.
pub record IsMember (input : Bytes) (s : Segment) : Type 0 where
  pub kind : s.kind ≡ verified_tar_member
  pub magic : is_ustar (slice s.source_offset (s.source_offset + 512) input) ≡ true
  pub own : checksum_ok (slice s.source_offset (s.source_offset + 512) input) ≡ true
  pub named :
      s.name ≡ some (utf8 (read_name (slice s.source_offset (s.source_offset + 512) input)) ∷ [])
  pub body :
      s.bytes
      ≡ slice
          (s.source_offset + 512)
          (s.source_offset + 512 + size_of (slice s.source_offset (s.source_offset + 512) input))
          input
  pub inside :
      s.source_offset + 512 + size_of (slice s.source_offset (s.source_offset + 512) input)
      ≤ s.source_end
  pub ended :
      s.source_end
      ≡ min
          (s.source_offset
            + 512
            + blocks_of (size_of (slice s.source_offset (s.source_offset + 512) input)) * 512)
          (length input)
  pub within : s.source_end ≤ length input

-- Members of the input, each behind the one before, between two positions.
unfoldable pub Members : Bytes → ℕ → List Segment → ℕ → Type 0
Members input from [] to = from ≤ to
Members input from (s ∷ ss) to =
    IsMember input s × (from ≤ s.source_offset) × Members input s.source_end ss to

pub Members-append :
    (input : Bytes) (from mid to : ℕ) (ss : List Segment) (s : Segment)
    → Members input from ss mid
    → IsMember input s
    → mid ≤ s.source_offset
    → s.source_end ≤ to
    → Members input from (ss ++ s ∷ []) to
unfolding Members
Members-append input from mid to [] s h m l k = (m, omega arith, k)
Members-append input from mid to (t ∷ ss) s h m l k =
    (h.0, h.1, Members-append input t.source_end mid to ss s h.2 m l k)

pub Members-extend :
    (input : Bytes) (from mid to : ℕ) (ss : List Segment)
    → Members input from ss mid
    → mid ≤ to
    → Members input from ss to
unfolding Members
Members-extend input from mid to [] h l = omega arith
Members-extend input from mid to (t ∷ ss) h l =
    (h.0, h.1, Members-extend input t.source_end mid to ss h.2 l)

-- Members end within the input.
pub Members-within :
    (input : Bytes) (from to : ℕ) (ss : List Segment)
    → Members input from ss to
    → from ≤ length input
    → Members input from ss (length input)
unfolding Members
Members-within input from to [] h l = l
Members-within input from to (t ∷ ss) h l =
    (h.0, h.1, Members-within input t.source_end to ss h.2 h.0.within)
