-- ===== src/Resync/ItemRounds.antt =====
-- Rounds of crates/phx_recovery/src/resync/tar.rs at a member and at a block that is none.
use veraqis_recover.Prelude.{
  ℕ, ◌+◌, ◌^◌, ◌≤◌, ◌<◌, ◌≡◌, refl, sym, ap, ◌∙◌, true, some, [], ◌∷◌, ◌++◌, map, map-append,
  append_assoc, append-nil, Bytes, le→leb, lt→ltb, length, length-append, take, drop, slice,
  take-append-drop, slice_at, length-take, arith, Bool-cases, inl, inr,
}
use veraqis_recover.Recovery.Model.{utf8}
use veraqis_recover.Ustar.{all_zero, is_ustar}
use veraqis_recover.Ustar.Magic.{is_ustar-all_zero}
use veraqis_recover.Resync.{is_verified, push}
use veraqis_recover.Resync.Tar.{
  read_name, checksum_ok, size_of, Walk, skip_zeros, skip_garbage, skip_mismatch, count_member,
  member_at, keep_member, data_fits, take_member, on_block, tar_round,
}
use veraqis_recover.Resync.Spans.{
  Item, member, gap, item_bytes, item_onto, IsWhole, is_gap, IsItem, content, contents_of,
  members_of,
}

-- The body behind a block, cut to its size.
body_at :
    (front block body rest : Bytes) (pos size : ℕ)
    → pos ≡ length front
    → length block ≡ 512
    → size ≤ length body
    → slice (pos + 512) (pos + 512 + size) (front ++ (block ++ (body ++ rest))) ≡ take size body
body_at front block body rest pos size e l k =
    ap (slice (pos + 512) (pos + 512 + size)) (
      sym (append_assoc front block (body ++ rest))
      ∙ ap (λ (t : Bytes). (front ++ block) ++ t)
          (ap (λ (t : Bytes). t ++ rest) (sym (take-append-drop size body))
            ∙ append_assoc (take size body) (drop size body) rest))
    ∙ slice_at (pos + 512) (pos + 512 + size) (front ++ block) (take size body)
        (drop size body ++ rest) (omega (arith, e, l, length-append front block))
        (omega (arith, k, length-take size body))

-- A round at a block that is no header goes on behind it, with what was found.
gap_round :
    (input block : Bytes) (walk : Walk)
    → is_gap block ≡ true
    → ((on_block input block walk).pos ≡ walk.pos + 512)
      × ((on_block input block walk).result.segments ≡ walk.result.segments)
unfolding is_gap on_block skip_zeros skip_garbage skip_mismatch
gap_round input block walk h = elim (Bool-cases (all_zero block)) [
  | inl zeros ↦ simp zeros (refl, refl)
  | inr more ↦ elim (Bool-cases (is_ustar block)) [
    | inr other ↦ simp (more, other) (refl, refl)
    | inl magic ↦ elim (Bool-cases (checksum_ok block)) [
      | inl own ↦ let no : ⊥ = ground (arith, h, more, magic, own) in elim no [ ]
      | inr bad ↦ simp (more, magic, bad) (refl, refl)
    ]
  ]
]

le→data_fits :
    (start size len : ℕ) → start + size ≤ len → len < 2 ^ 64 → data_fits start size len ≡ true
unfolding data_fits
le→data_fits start size len h k =
    rw (lt→ltb (start + size) (2 ^ 64) (omega arith), le→leb (start + size) len h) refl

-- A round at a header whose data fit keeps the member.
member_round :
    (input block : Bytes) (walk : Walk)
    → is_ustar block ≡ true
    → checksum_ok block ≡ true
    → walk.pos + 512 + size_of block ≤ length input
    → length input < 2 ^ 64
    → on_block input block walk ≡ keep_member input block walk
unfolding on_block take_member
member_round input block walk magic own fits small =
    simp (is_ustar-all_zero block magic, magic, own)
      (rw (le→data_fits (walk.pos + 512) (size_of block) (length input) fits small) refl)

-- What a round at the item that stands at the walk's position does.
abbrev pub ItemRound : Bytes → Item → Walk → Type 0
ItemRound input item walk =
    ((tar_round input walk).pos ≡ walk.pos + length (item_bytes item))
    × (contents_of (tar_round input walk).result
        ≡ contents_of walk.result ++ members_of (item ∷ []))

keep_member_contents :
    (input block : Bytes) (walk : Walk)
    → contents_of (keep_member input block walk).result
      ≡ contents_of walk.result
        ++ (
          some (utf8 (read_name block) ∷ []),
          slice (walk.pos + 512) (walk.pos + 512 + size_of block) input,
        )
          ∷ []
unfolding keep_member contents_of content push count_member member_at is_verified
keep_member_contents input block walk =
    map-append content walk.result.segments (member_at input block walk.pos ∷ [])

gap_item :
    (front rest block : Bytes) (walk : Walk)
    → length block ≡ 512
    → is_gap block ≡ true
    → walk.pos ≡ length front
    → ItemRound (front ++ (block ++ rest)) (gap block) walk
unfolding tar_round item_bytes contents_of members_of
gap_item front rest block walk l h e =
    let here = slice_at walk.pos (walk.pos + 512) front block rest e (omega (arith, l)) in
    let round = gap_round (front ++ (block ++ rest)) block walk h in
    rw here (
      omega (arith, round.0, l),
      ap (map content) round.1 ∙ sym (append-nil (map content walk.result.segments)),
    )

member_item :
    (front rest block body : Bytes) (walk : Walk)
    → IsWhole block body
    → length (front ++ (block ++ (body ++ rest))) < 2 ^ 64
    → walk.pos ≡ length front
    → ItemRound (front ++ (block ++ (body ++ rest))) (member block body) walk
unfolding tar_round item_bytes members_of
member_item front rest block body walk h small e =
    let input = front ++ (block ++ (body ++ rest)) in
    let fits : size_of block ≤ length body = omega (arith, h.padded) in
    let here =
      slice_at walk.pos (walk.pos + 512) front block (body ++ rest) e (omega (arith, h.sized)) in
    let total : walk.pos + 512 + size_of block ≤ length input = omega (
      arith,
      e,
      fits,
      h.sized,
      length-append front (block ++ (body ++ rest)),
      length-append block (body ++ rest),
      length-append body rest,
    ) in
    rw (here, member_round input block walk h.magic h.own total small)
      (
        unfold keep_member in omega (arith, length-append block body, h.sized, h.padded),
        keep_member_contents input block walk
            ∙ ap
                (λ (bytes : Bytes).
                  contents_of walk.result ++ (some (utf8 (read_name block) ∷ []), bytes) ∷ [])
                (body_at front block body rest walk.pos (size_of block) e h.sized fits),
      )

pub item_round :
    (front rest : Bytes) (item : Item) (walk : Walk)
    → IsItem item
    → length (front ++ item_onto item rest) < 2 ^ 64
    → walk.pos ≡ length front
    → ItemRound (front ++ item_onto item rest) item walk
unfolding item_onto IsItem
item_round front rest (gap block) walk h small e = gap_item front rest block walk h.0 h.1 e
item_round front rest (member block body) walk h small e =
    member_item front rest block body walk h small e
