-- ===== src/Resync/Continues.antt =====
-- The walk of crates/phx_recovery/src/resync/tar.rs over a stream of members and other blocks.
use veraqis_recover.Prelude.{
  ℕ, zero, suc, ◌+◌, ◌*◌, ◌/◌, ◌^◌, ◌≤◌, ◌<◌, ◌≡◌, refl, sym, ap, ◌∙◌, Bool, true, false, List, [],
  ◌∷◌, ◌++◌, append_assoc, append-nil, Bytes, All, ltb, leb, le→leb, ltb→lt, lt→leb_false, length,
  length-append, arith, Bool-cases, inl, inr,
}
use veraqis_recover.Recovery.Model.{Message}
use veraqis_recover.Resync.{new, SalvageResult}
use veraqis_recover.Resync.Tar.{
  Walk, tar_round, salvage_loop, warn_if, summary, started_walk, salvage_tar,
}
use veraqis_recover.Resync.Spans.{
  Item, member, gap, item_bytes, item_onto, IsItem, Content, contents_of, members_of,
}
use veraqis_recover.Resync.ItemRounds.{ItemRound, item_round}
use veraqis_recover.Resync.Spans.{stream, item_bytes_append}

item_long : (item : Item) → IsItem item → 512 ≤ length (item_bytes item)
unfolding IsItem item_bytes
item_long (member block body) h = omega (arith, h.sized, length-append block body)
item_long (gap block) h = omega (arith, h.0)

length-stream :
    (item : Item) (rest : Bytes)
    → length (item_onto item rest) ≡ length (item_bytes item) + length rest
length-stream item rest =
    ap length (sym (item_bytes_append item rest)) ∙ length-append (item_bytes item) rest

members_of-cons :
    (item : Item) (items : List Item)
    → members_of (item ∷ items) ≡ members_of (item ∷ []) ++ members_of items
unfolding members_of
members_of-cons (member block body) items = refl
members_of-cons (gap block) items = refl

walk_items :
    (rounds : ℕ) (items : List Item) (input front tail : Bytes) (walk : Walk)
    → All IsItem items
    → input ≡ front ++ stream items tail
    → length input < 2 ^ 64
    → length tail < 512
    → walk.pos ≡ length front
    → length (stream items tail) < 512 * suc rounds
    → contents_of (salvage_loop rounds input walk).result
      ≡ contents_of walk.result ++ members_of items
unfolding salvage_loop stream
walk_items zero [] input front tail walk h same small short e l =
    unfold members_of in sym (append-nil (contents_of walk.result))
walk_items zero (item ∷ items) input front tail walk h same small short e l =
    let no : ⊥ = omega (arith, l, item_long item h.0, length-stream item (stream items tail)) in
    elim no [ ]
walk_items (suc rounds) [] input front tail walk h same small short e l =
    let long : length input ≡ length front + length tail =
      ap length same ∙ length-append front tail in
    let done : leb (walk.pos + 512) (length input) ≡ false =
      lt→leb_false _ _ (omega (arith, long, e, short)) in
    simp done (unfold members_of in sym (append-nil (contents_of walk.result)))
walk_items (suc rounds) (item ∷ items) input front tail walk h same small short e l =
    let rest = stream items tail in
    let long : length input ≡ length front + length (item_onto item rest) =
      ap length same ∙ length-append front (item_onto item rest) in
    let going : leb (walk.pos + 512) (length input) ≡ true =
      le→leb _ _ (omega (arith, long, e, item_long item h.0, length-stream item rest)) in
    let round : ItemRound input item walk =
      rw same (item_round front rest item walk h.0 (omega (arith, small, ap length same)) e) in
    simp going (
      walk_items rounds items input (front ++ item_bytes item) tail (tar_round input walk) h.1
        (same
          ∙ (ap (λ (t : Bytes). front ++ t) (sym (item_bytes_append item rest))
              ∙ sym (append_assoc front (item_bytes item) rest)))
        small short (omega (arith, round.0, e, length-append front (item_bytes item)))
        (omega (arith, l, item_long item h.0, length-stream item rest))
      ∙ (ap (λ (cs : List Content). cs ++ members_of items) round.1
          ∙ (append_assoc (contents_of walk.result) (members_of (item ∷ [])) (members_of items)
              ∙ ap (λ (cs : List Content). contents_of walk.result ++ cs)
                  (sym (members_of-cons item items)))))

contents_of-warn_if :
    (b : Bool) (message : Message) (result : SalvageResult)
    → contents_of (warn_if b message result) ≡ contents_of result
unfolding warn_if contents_of
contents_of-warn_if true message result = refl
contents_of-warn_if false message result = refl

contents_of-summary : (walk : Walk) → contents_of (summary walk) ≡ contents_of walk.result
unfolding summary
contents_of-summary walk =
    contents_of-warn_if _ _ _ ∙ (contents_of-warn_if _ _ _ ∙ contents_of-warn_if _ _ walk.result)

-- Less than a block holds no member.
no_members :
    (items : List Item) (tail : Bytes)
    → All IsItem items
    → length (stream items tail) < 512
    → [] ≡ members_of items
unfolding stream members_of
no_members [] tail h l = refl
no_members (item ∷ items) tail h l =
    let no : ⊥ = omega (arith, l, item_long item h.0, length-stream item (stream items tail)) in
    elim no [ ]

-- The salvage of a stream of members, and of any blocks that are no headers between them, before less
-- than a block of other bytes, gives back each member, in order, by its name and its bytes; the
-- stream is shorter than 2^64 bytes.
pub salvage_tar_continues :
    (items : List Item) (tail : Bytes)
    → All IsItem items
    → length tail < 512
    → length (stream items tail) < 2 ^ 64
    → contents_of (salvage_tar (stream items tail)) ≡ members_of items
unfolding salvage_tar started_walk new contents_of
salvage_tar_continues items tail h short small =
    let input = stream items tail in
    let walked =
      walk_items (length input / 512) items input [] tail started_walk h refl small short refl
        (omega arith) in
    elim (Bool-cases (ltb (length input) 512)) [
      | inr long ↦ simp long (contents_of-summary _ ∙ walked)
      | inl brief ↦ simp brief (no_members items tail h (ltb→lt _ _ brief))
    ]
