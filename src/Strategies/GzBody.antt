-- ===== src/Strategies/GzBody.antt =====
-- strategies/gz_restore.rs: where the body of a GZIP member stands, and what can be read of it.
use veraqis_recover.Prelude.{
  ℕ, suc, ◌+◌, ◌-◌, Bool, Option, none, some, [], ◌∷◌, ◌++◌, Bytes, from_le_bytes, if◌then◌else◌,
  ltb, leb, ◌==◌, min, length, drop, slice,
}
use veraqis_recover.Prelude.Texts.{String}
use veraqis_recover.Resync.Gzip.{Reads, done, fail, more, gz_flag}

-- The position behind the next NUL from `pos` on, or one behind the end.
unfoldable pub skip_name : ℕ → Bytes → ℕ
skip_name pos [] = pos + 1
skip_name pos (b ∷ bs) = let rest = skip_name (suc pos) bs in if b == 0 then pos + 1 else rest

-- `FNAME` and `FCOMMENT`: a position behind the end moves on by one.
unfoldable pub pass_name : Bytes → Bool → ℕ → ℕ
pass_name input flag pos = if flag then skip_name pos (drop pos input) else pos

-- `FEXTRA`, or nothing when its length is cut off.
unfoldable pub pass_extra : Bytes → Bool → Option ℕ
pass_extra input flag =
    if flag
    then (if ltb (length input) 12 then none else some (12 + from_le_bytes (slice 10 12 input)))
    else some 10

unfoldable pub pass_names : Bytes → ℕ → Option ℕ → ℕ
pass_names input flags none = length input
pass_names input flags (some pos) =
    let name = pass_name input (gz_flag flags 0x08) pos in
    let comment = pass_name input (gz_flag flags 0x10) name in
    min (if gz_flag flags 0x02 then comment + 2 else comment) (length input)

unfoldable pub gz_body_start : Bytes → ℕ
gz_body_start input =
    let flags = from_le_bytes (slice 3 4 input) in
    if ltb (length input) 10
    then length input
    else pass_names input flags (pass_extra input (gz_flag flags 0x04))

unfoldable pub deflate_body : Bytes → Bytes
deflate_body input =
    let start = gz_body_start input in
    let end = if ltb (start + 8) (length input) then length input - 8 else length input in
    if leb (length input) start then [] else slice start end input

-- `read_to_end`: the bytes read, and the error that ended them.
unfoldable pub read_to_end : Bytes → Reads → Bytes × Option String
read_to_end bytes (done consumed) = (bytes, none)
read_to_end bytes (fail error consumed) = (bytes, some error)
read_to_end bytes (more chunk consumed reads) = read_to_end (bytes ++ chunk) reads
