-- ===== src/Rar/Proven.antt =====
-- What the entries and the corrupt blocks of an inventory rest on, in crates/phx_recovery/src/rar/mod.rs.
use veraqis_recover.Prelude.{
  ℕ, zero, suc, ◌+◌, ◌≤◌, ◌≡◌, ◌≢◌, refl, sym, ap, ap₂, ◌∙◌, true, false, not, ◌||◌, Option, none,
  some, ltb, ◌==◌, length, take, slice, arith, Bytes, from_le_bytes, some_inj, inl, inr, Bool-cases,
  All, All-append, bytes_eq, ==_iff,
}
use veraqis_recover.Prelude.Options.{>>=-eq-some}
use veraqis_recover.Crc.{crc32}
use veraqis_recover.Rar.Defs.{
  signature5, t_file, FileEntry, Inventory, empty_inventory, vint, checked_add, u32le,
  parse_file_header,
}
use veraqis_recover.Rar.Vint.{vint_bounds}
use veraqis_recover.Rar.Layout.{
  IsBlock, HasEntry, checked_add_lem, parse_file_header-HasEntry, read_fields-HasFields,
}
use veraqis_recover.Rar.Walk.{
  Header, HeaderAt, past_eof, header, read_fields, within_file, read_header, note_main, note_file,
  note_service, note_verified, note_block, Round, stop, next, to_next, after_header, walk_round,
  walk_on, walk, conclude, read_inventory, guard_limit,
}

-- The CRC-32 stored at `start`, and the one of the header bytes behind it up to `stop`.
abbrev pub stored_crc : Bytes → ℕ → ℕ
stored_crc file start = from_le_bytes (slice start (start + 4) file)

abbrev pub computed_crc : Bytes → ℕ → ℕ → ℕ
computed_crc file start to = crc32 (slice (start + 4) to file)

-- An entry is what the fields of a file block say, all of which stand before the block's end, where
-- its data begins, and so among the bytes that the block's CRC-32 covers; and that validates.
pub record IsProven (file : Bytes) (e : FileEntry) : Type 0 where
  pub start : ℕ
  pub b : ℕ
  pub block : IsBlock file start e.data_offset t_file e.packed_size b
  pub entry : HasEntry file b e.data_offset (record e { data_offset = 0; packed_size = 0 })
  pub crc_valid : computed_crc file start e.data_offset ≡ stored_crc file start

-- At `start` there is a block whose CRC-32 does not validate.
pub record IsCorrupt (file : Bytes) (start : ℕ) : Type 0 where
  pub stop : ℕ
  pub htype : ℕ
  pub data_size : ℕ
  pub b : ℕ
  pub block : IsBlock file start stop htype data_size b
  pub crc_invalid : computed_crc file start stop ≢ stored_crc file start

-- What `read_header` tells of a header at `p`.
pub record IsHeader (file : Bytes) (p : ℕ) (h : Header) : Type 0 where
  pub room : p + 5 ≤ h.body_end
  pub within : h.body_end ≤ length file
  pub verdict : h.crc_ok ≡ (computed_crc file p h.body_end == stored_crc file p)
  pub block : IsBlock file p h.body_end h.htype h.data_size h.b

u32le_lem :
    (d : Bytes) (p v q : ℕ)
    → u32le d p ≡ some (v, q)
    → (q ≡ p + 4) × (q ≤ length d) × (v ≡ stored_crc d p)
unfolding u32le checked_add
u32le_lem d p v q e = ground arith

within_end :
    (file : Bytes) (crc q body_start body_end : ℕ) (h : Header)
    → within_file file crc q body_start (some body_end) ≡ some (header h)
    → (body_end ≤ length file) × (read_fields file crc q body_start body_end ≡ some (header h))
unfolding within_file
within_end file crc q body_start body_end h e = ground arith

no_header :
    (file : Bytes) (crc q body_start : ℕ) (h : Header)
    → within_file file crc q body_start none ≡ some (header h)
    → ⊥
unfolding within_file
no_header file crc q body_start h e = cc

within_file-IsHeader :
    (file : Bytes) (p crc q size body_start : ℕ) (h : Header) (o : Option ℕ)
    → q ≡ p + 4
    → crc ≡ stored_crc file p
    → vint file q ≡ some (size, body_start)
    → checked_add body_start size ≡ o
    → within_file file crc q body_start o ≡ some (header h)
    → IsHeader file p h
within_file-IsHeader file p crc q size body_start h none hq hc got sum e =
    absurd (no_header file crc q body_start h e)
within_file-IsHeader file p crc q size body_start h (some to) hq hc got sum e =
    let (fits, read) = within_end file crc q body_start to h e in
    let (same, ok, fields) = read_fields-HasFields file crc q body_start to h read in
    let sized : vint file (p + 4) ≡ some (size, body_start) =
      ap (λ (n : ℕ). vint file n) (sym hq) ∙ got in
    let ended : h.body_end ≡ body_start + size = same ∙ checked_add_lem body_start size to sum in
    let inside : h.body_end ≤ length file = omega (arith, same, fits) in
    record {
      room = omega (arith, hq, ended, (vint_bounds file q size body_start got).0);
      within = inside;
      verdict = ok ∙ ap₂ ◌==◌ (ap₂ (λ (a b : ℕ). crc32 (slice a b file)) hq (sym same)) hc;
      block = record {
        size = size;
        body_start = body_start;
        sized = sized;
        ended = ended;
        within = inside;
        fields = fields;
      };
    }

pub read_header-IsHeader :
    (file : Bytes) (p : ℕ) (h : Header) → read_header file p ≡ some (header h) → IsHeader file p h
unfolding read_header
read_header-IsHeader file p h e =
    let ((crc, q), got_crc, e2) = >>=-eq-some (u32le file p) _ e in
    let ((size, body_start), got_size, e3) = >>=-eq-some (vint file q) _ e2 in
    let (hq, fits, hc) = u32le_lem file p crc q got_crc in
    within_file-IsHeader file p crc q size body_start h _ hq hc got_size refl e3

-- The entries are proven, and the corrupt blocks are corrupt.
record Inv (file : Bytes) (inv : Inventory) : Type 0 where
  proven : All (IsProven file) inv.files
  corrupt : All (IsCorrupt file) inv.corrupt_blocks

module _ (file : Bytes) (inv : Inventory) (p : ℕ) (h : Header) (w : IsHeader file p h)
    (i : Inv file inv) where
  entry-IsProven :
      (e : FileEntry) (q : ℕ)
      → h.crc_ok ≡ true
      → h.htype ≡ t_file
      → parse_file_header file h.b h.body_end ≡ some (e, q)
      → IsProven file (record e { data_offset = h.body_end; packed_size = h.data_size })
  entry-IsProven e q ok kind parsed = record {
    start = p;
    b = h.b;
    block = rw (kind) at w.block;
    entry = parse_file_header-HasEntry file h.b h.body_end e q parsed;
    crc_valid = (==_iff _ _).0 (sym w.verdict ∙ ok);
  }

  note_file-Inv :
      (o : Option (FileEntry × ℕ))
      → h.crc_ok ≡ true
      → h.htype ≡ t_file
      → parse_file_header file h.b h.body_end ≡ o
      → Inv file (note_file inv h o)
  unfolding note_file
  note_file-Inv none ok kind parsed = i
  note_file-Inv (some (e, q)) ok kind parsed = record {
    proven =
        All-append (IsProven file) inv.files _ i.proven (entry-IsProven e q ok kind parsed, tt);
    corrupt = i.corrupt;
  }

  note_main-Inv : (o : Option (ℕ × ℕ)) → Inv file (note_main inv o)
  unfolding note_main
  note_main-Inv none = i
  note_main-Inv (some (f, q)) = record { proven = i.proven; corrupt = i.corrupt }

  note_service-Inv : (o : Option (FileEntry × ℕ)) → Inv file (note_service inv o)
  unfolding note_service
  note_service-Inv none = i
  note_service-Inv (some (e, q)) = ground arith

  note_verified-Inv : h.crc_ok ≡ true → Inv file (note_verified file inv h)
  unfolding note_verified
  note_verified-Inv ok = elim (Bool-cases (h.htype == t_file)) [
    | inl hit ↦
        let kind = (==_iff h.htype t_file).0 hit in
        rw kind (note_file-Inv (parse_file_header file h.b h.body_end) ok kind refl)
    | inr other ↦ ground (
      arith,
      other,
      note_main-Inv (vint file h.b),
      note_service-Inv (parse_file_header file h.b h.body_end),
    )
  ]

  this-IsCorrupt : h.crc_ok ≡ false → IsCorrupt file p
  this-IsCorrupt bad = record {
    stop = h.body_end;
    htype = h.htype;
    data_size = h.data_size;
    b = h.b;
    block = w.block;
    crc_invalid = λ e. cc (bad, w.verdict, (==_iff _ _).1 e);
  }

  note_block-Inv : Inv file (note_block file inv p h)
  unfolding note_block
  note_block-Inv = elim (Bool-cases h.crc_ok) [
    | inl ok ↦ simp ok (note_verified-Inv ok)
    | inr bad ↦ simp bad (record {
      proven = i.proven;
      corrupt = All-append (IsCorrupt file) inv.corrupt_blocks _ i.corrupt (this-IsCorrupt bad, tt);
    })
  ]

abbrev RoundInv : Bytes → Round → Type 0
RoundInv file (stop inv) = Inv file inv
RoundInv file (next inv p) = Inv file inv

to_next-Inv :
    (file : Bytes) (inv : Inventory) (h : Header) (o : Option ℕ)
    → Inv file inv
    → RoundInv file (to_next file inv h o)
unfolding to_next
to_next-Inv file inv h none i = record { proven = i.proven; corrupt = i.corrupt }
to_next-Inv file inv h (some p) i = ground arith

walk_round-Inv :
    (file : Bytes) (inv : Inventory) (p : ℕ) (r : Round)
    → Inv file inv
    → walk_round file inv p ≡ some r
    → RoundInv file r
unfolding walk_round
walk_round-Inv file inv p r i e =
    let (at, got, e2) = >>=-eq-some (read_header file p) _ e in rw (← some_inj e2) (after at got)
  where
    after :
        (at : HeaderAt) → read_header file p ≡ some at → RoundInv file (after_header file inv p at)
    after past_eof got = unfold after_header in record { proven = i.proven; corrupt = i.corrupt }
    after (header h) got =
        unfold after_header in
        to_next-Inv file (note_block file inv p h) h _
          (note_block-Inv file inv p h (read_header-IsHeader file p h got) i)

walk_on-Inv :
    (file : Bytes) (out : Inventory) (again : Inventory → ℕ → Option Inventory) (o : Option Round)
    → ((inv : Inventory) (p : ℕ) → Inv file inv → again inv p ≡ some out → Inv file out)
    → ((r : Round) → o ≡ some r → RoundInv file r)
    → walk_on again o ≡ some out
    → Inv file out
unfolding walk_on
walk_on-Inv file out again none ih here e = cc
walk_on-Inv file out again (some (stop inv)) ih here e = rw (← some_inj e) (here (stop inv) refl)
walk_on-Inv file out again (some (next inv p)) ih here e = ih inv p (here (next inv p) refl) e

walk-Inv :
    (guard : ℕ) (file : Bytes) (inv : Inventory) (p : ℕ) (out : Inventory)
    → Inv file inv
    → walk guard file inv p ≡ some out
    → Inv file out
unfolding walk
walk-Inv zero file inv p out i e = rw (← some_inj e) i
walk-Inv (suc guard) file inv p out i e = elim (Bool-cases (ltb (length file) (p + 5))) [
  | inl done ↦ rw (← some_inj (rw done at e)) i
  | inr more ↦
      walk_on-Inv file out _ (walk_round file inv p) (λ inv' p'. walk-Inv guard file inv' p' out)
        (λ r. walk_round-Inv file inv p r i) (rw more at e)
]

-- In every inventory that is returned, each file entry is what a file block says whose stored CRC-32
-- is the CRC-32 of its header: the flags, sizes, CRC-32, method and name are read from fields that
-- end where the header, of the stored size, ends, and its data begins there; and at each offset of
-- a corrupt block stands a block within the file whose header, of the stored size, has not the
-- stored CRC-32.
pub read_inventory-IsProven :
    (file : Bytes) (inv : Inventory)
    → read_inventory file ≡ some inv
    → All (IsProven file) inv.files × All (IsCorrupt file) inv.corrupt_blocks
unfolding read_inventory
read_inventory-IsProven file inv e =
    elim (Bool-cases (ltb (length file) 8 || not (bytes_eq (take 8 file) signature5))) [
      | inl refused ↦ cc (rw refused at e)
      | inr rar ↦
          let (walked, found, shown) =
            >>=-eq-some (walk guard_limit file empty_inventory 8) _ (rw rar at e) in
          concluded walked shown (
            walk-Inv guard_limit file empty_inventory 8 walked
              (record { proven = tt; corrupt = tt }) found)
    ]
  where
    concluded :
        (walked : Inventory)
        → some (conclude walked) ≡ some inv
        → Inv file walked
        → All (IsProven file) inv.files × All (IsCorrupt file) inv.corrupt_blocks
    concluded walked shown i = rw (← some_inj shown) (unfold conclude in ground arith)
