-- ===== src/Rar/Layout.antt =====
-- The layout of RAR5 headers, as crates/phx_recovery/src/rar/mod.rs reads them.
use veraqis_recover.Prelude.{
  ℕ, ◌+◌, ◌/◌, ◌^◌, ◌≤◌, ◌≡◌, refl, sym, ap, ◌∙◌, bit_and, true, Option, none, some, some_inj,
  if◌then◌else◌, ltb, ◌==◌, length, slice, get_slice?, arith, Bytes,
}
use veraqis_recover.Prelude.Options.{◌>>=◌, >>=-eq-some}
use veraqis_recover.Prelude.Utf8.{from_utf8_lossy}
use veraqis_recover.Crc.{crc32}
use veraqis_recover.Rar.Defs.{
  FileEntry, has_flag, vint, checked_add, optional_u32, parse_file_header,
}
use veraqis_recover.Rar.Walk.{Header, header, optional_vint, read_fields}

-- The fields of a header from `body_start` to the cursor `b`: type, flags, extra size, data size.
pub record HasFields (file : Bytes) (body_start htype data_size b : ℕ) : Type 0 where
  pub at_flags : ℕ
  pub flags : ℕ
  pub at_extra : ℕ
  pub extra : ℕ
  pub at_data : ℕ
  pub typed : vint file body_start ≡ some (htype, at_flags)
  pub flagged : vint file at_flags ≡ some (flags, at_extra)
  pub extra_read : optional_vint (has_flag flags 0x01) file at_extra ≡ some (extra, at_data)
  pub data_read : optional_vint (has_flag flags 0x02) file at_data ≡ some (data_size, b)

-- The fields of a file header from the cursor `b` on, all of them before `stop`: what they say is
-- what the entry says, whose place and packed size the caller fills in.
pub record HasEntry (file : Bytes) (b stop : ℕ) (e : FileEntry) : Type 0 where
  pub file_flags : ℕ
  pub at_size : ℕ
  pub unpacked_size : ℕ
  pub at_attributes : ℕ
  pub attributes : ℕ
  pub at_mtime : ℕ
  pub mtime : Option ℕ
  pub at_crc : ℕ
  pub crc : Option ℕ
  pub at_comp : ℕ
  pub comp_info : ℕ
  pub at_host : ℕ
  pub host_os : ℕ
  pub at_length : ℕ
  pub name_len : ℕ
  pub at_name : ℕ
  pub flags_read : vint file b ≡ some (file_flags, at_size)
  pub size_read : vint file at_size ≡ some (unpacked_size, at_attributes)
  pub attributes_read : vint file at_attributes ≡ some (attributes, at_mtime)
  pub mtime_read : optional_u32 (has_flag file_flags 0x02) file at_mtime ≡ some (mtime, at_crc)
  pub crc_read : optional_u32 (has_flag file_flags 0x04) file at_crc ≡ some (crc, at_comp)
  pub comp_read : vint file at_comp ≡ some (comp_info, at_host)
  pub host_read : vint file at_host ≡ some (host_os, at_length)
  pub length_read : vint file at_length ≡ some (name_len, at_name)
  pub covered : at_name + name_len ≤ stop
  pub told : e ≡ record {
    name = from_utf8_lossy (slice at_name (at_name + name_len) file);
    is_dir = has_flag file_flags 0x01;
    size = if has_flag file_flags 0x01 then none else some unpacked_size;
    crc = if has_flag file_flags 0x01 then none else crc;
    header_crc_ok = true;
    method = bit_and (comp_info / 2 ^ 7) 0x07;
    data_offset = 0;
    packed_size = 0;
  }

-- The header of a block: its size stands behind the CRC-32, and counts the bytes behind itself up to
-- `stop`, which lies within the file.
pub record IsBlock (file : Bytes) (start stop htype data_size b : ℕ) : Type 0 where
  pub size : ℕ
  pub body_start : ℕ
  pub sized : vint file (start + 4) ≡ some (size, body_start)
  pub ended : stop ≡ body_start + size
  pub within : stop ≤ length file
  pub fields : HasFields file body_start htype data_size b

name_slice :
    (d : Bytes) (p stop end : ℕ) (name : Bytes)
    → (if ltb end stop then none else get_slice? p stop d) ≡ some name
    → (stop ≤ end) × (name ≡ slice p stop d)
name_slice d p stop end name e = ground arith

pub checked_add_lem : (a b c : ℕ) → checked_add a b ≡ some c → c ≡ a + b
unfolding checked_add
checked_add_lem a b c e = ground arith

moved : (a b c : ℕ) → a ≡ b → a ≤ c → b ≤ c
moved a b c e h = omega (arith, e, h)

-- A step of a reader that succeeds: the value read, the cursor behind it, and the rest.
step :
    {A B P : Type 0} (o : Option (A × ℕ)) (k : A × ℕ → Option B) {b : B}
    → o >>= k ≡ some b
    → ((v : A) (q : ℕ) → o ≡ some (v, q) → k (v, q) ≡ some b → P)
    → P
step (some (v, q)) k e f = f v q refl e
step none k e f = cc

-- The entry that the fields make.
abbrev made : ℕ → ℕ → Option ℕ → ℕ → Bytes → FileEntry
made flags size crc comp name = record {
  name = from_utf8_lossy name;
  is_dir = has_flag flags 0x01;
  size = if has_flag flags 0x01 then none else some size;
  crc = if has_flag flags 0x01 then none else crc;
  header_crc_ok = true;
  method = bit_and (comp / 2 ^ 7) 0x07;
  data_offset = 0;
  packed_size = 0;
}

first_of :
    {x y : FileEntry} {p q : ℕ}
    → ◌≡◌ {A = Option (FileEntry × ℕ)} (some (x, p)) (some (y, q))
    → x ≡ y
first_of h = ap (λ (r : FileEntry × ℕ). r.0) (some_inj h)

module _ (d : Bytes) (p end : ℕ) (e : FileEntry) (q : ℕ) where
  name_read :
      (at_name name_len : ℕ) (make : Bytes → FileEntry)
      → (do
        stop ← checked_add at_name name_len
        name ← if ltb end stop then none else get_slice? at_name stop d
        let out : FileEntry × ℕ = (make name, at_name)
        some out)
        ≡ some (e, q)
      → (at_name + name_len ≤ end) × (make (slice at_name (at_name + name_len) d) ≡ e)
  name_read at_name name_len make h =
      let (stop, r, h1) = >>=-eq-some (checked_add at_name name_len) _ h in
      let (name, r1, h2) =
        >>=-eq-some (if ltb end stop then none else get_slice? at_name stop d) _ h1 in
      let (within, text) = name_slice d at_name stop end name r1 in
      let at = checked_add_lem at_name name_len stop r in
      (
        moved stop (at_name + name_len) end at within,
        ap make (sym (text ∙ ap (λ (n : ℕ). slice at_name n d) at)) ∙ first_of h2,
      )

  pub parse_file_header-HasEntry :
      parse_file_header d p end ≡ some (e, q)
      → HasEntry d p end (record e { data_offset = 0; packed_size = 0 })
  unfolding parse_file_header
  parse_file_header-HasEntry h = step (vint d p) _ h (λ flags p1 r1 h1.
      step (vint d p1) _ h1 (λ size p2 r2 h2. step (vint d p2) _ h2 (λ attributes p3 r3 h3.
        step (optional_u32 (has_flag flags 0x02) d p3) _ h3 (λ mtime p4 r4 h4.
          step (optional_u32 (has_flag flags 0x04) d p4) _ h4 (λ crc p5 r5 h5.
            step (vint d p5) _ h5 (λ comp p6 r6 h6. step (vint d p6) _ h6 (λ host p7 r7 h7.
              step (vint d p7) _ h7 (λ name_len p8 r8 h8.
                let (covered, same) = name_read p8 name_len (made flags size crc comp) h8 in
                record {
                  file_flags = flags;
                  at_size = p1;
                  unpacked_size = size;
                  at_attributes = p2;
                  attributes = attributes;
                  at_mtime = p3;
                  mtime = mtime;
                  at_crc = p4;
                  crc = crc;
                  at_comp = p5;
                  comp_info = comp;
                  at_host = p6;
                  host_os = host;
                  at_length = p7;
                  name_len = name_len;
                  at_name = p8;
                  flags_read = r1;
                  size_read = r2;
                  attributes_read = r3;
                  mtime_read = r4;
                  crc_read = r5;
                  comp_read = r6;
                  host_read = r7;
                  length_read = r8;
                  covered = covered;
                  told =
                      ap (λ (f : FileEntry). record f { data_offset = 0; packed_size = 0 })
                        (sym same);
                }))))))))

pub read_fields-HasFields :
    (file : Bytes) (crc hs_start body_start body_end : ℕ) (h : Header)
    → read_fields file crc hs_start body_start body_end ≡ some (header h)
    → (h.body_end ≡ body_end)
      × (h.crc_ok ≡ (crc32 (slice hs_start body_end file) == crc))
      × HasFields file body_start h.htype h.data_size h.b
unfolding read_fields
read_fields-HasFields file crc hs_start body_start body_end h e =
    let ((htype, p1), r1, e1) = >>=-eq-some (vint file body_start) _ e in
    let ((flags, p2), r2, e2) = >>=-eq-some (vint file p1) _ e1 in
    let ((extra, p3), r3, e3) = >>=-eq-some (optional_vint (has_flag flags 0x01) file p2) _ e2 in
    let ((data_size, p4), r4, e4) =
      >>=-eq-some (optional_vint (has_flag flags 0x02) file p3) _ e3 in
    let same : (record {
      hs_start = hs_start;
      body_end = body_end;
      crc_ok = crc32 (slice hs_start body_end file) == crc;
      htype = htype;
      data_size = data_size;
      b = p4;
    })
        ≡ h =
      header_inj (some_inj e4) in
    rw (← same) (
      refl,
      refl,
      record {
        at_flags = p1;
        flags = flags;
        at_extra = p2;
        extra = extra;
        at_data = p3;
        typed = r1;
        flagged = r2;
        extra_read = r3;
        data_read = r4;
      },
    )
  where
    header_inj : {a c : Header} → header a ≡ header c → a ≡ c
    header_inj k = cc
