-- ===== src/Strategies/Scan.antt =====
-- What the scan of strategies/forensic_carve.rs finds.
use veraqis_recover.Prelude.{
  ℕ, zero, suc, ◌+◌, ◌≤◌, ◌<◌, ◌≡◌, refl, sym, ap, ap₂, ◌∙◌, Bool, true, ◌&&◌, List, [], ◌∷◌, ◌++◌,
  Bytes, All, All-append, le→leb, length, drop, drop-drop, arith, Bool-cases, inl, inr, ◌==◌,
  ==_iff,
}
use mathlib.Core.List.{Memᴰ}
use mathlib.Core.List.Memᴰ
use veraqis_recover.Prelude.Texts.{String}
use veraqis_recover.Strategies.ForensicCarve.{
  Signature, signatures, begins, Hit, hits_at, hits_from, insert_hit, sort_hits, scan_signatures,
}

-- The magic stands in the input at an offset.
abbrev pub Occurs : Bytes → Bytes → ℕ → Type 0
Occurs magic input i = (back : Bytes) × (drop i input ≡ magic ++ back)

-- A hit names an offset and the label of a signature whose magic stands there.
pub record IsHit (input : Bytes) (hit : Hit) : Type 0 where
  pub signature : Signature
  pub listed : Memᴰ signature signatures
  pub labelled : hit.1 ≡ signature.label
  pub occurs : Occurs signature.magic input hit.0

-- No magic stands at an offset below `n`.
abbrev pub HasNoneBefore : ℕ → Bytes → Type 0
HasNoneBefore n input =
    (j : ℕ) (sig : Signature) → Memᴰ sig signatures → j < n → ¬ Occurs sig.magic input j

-- Each offset at which a magic stands is a hit with its label.
abbrev pub HasAllHits : Bytes → List Hit → Type 0
HasAllHits input hits =
    (j : ℕ) (sig : Signature)
    → Memᴰ sig signatures
    → j < length input
    → Occurs sig.magic input j
    → Memᴰ (j, sig.label) hits

begins-occurs :
    (magic bytes : Bytes) → begins magic bytes ≡ true → (back : Bytes) × (bytes ≡ magic ++ back)
unfolding begins
begins-occurs [] bytes h = (bytes, refl)
begins-occurs (m ∷ magic) [] h = cc
begins-occurs (m ∷ magic) (b ∷ bytes) h =
    let (same, rest) = both (m == b) (begins magic bytes) h in
    let (back, e) = begins-occurs magic bytes rest in
    (back, ap₂ (λ (x : ℕ) (xs : Bytes). x ∷ xs) (sym ((==_iff m b).0 same)) e)
  where
    both : (a c : Bool) → (a && c) ≡ true → (a ≡ true) × (c ≡ true)
    both a c k = ground arith

begins-append : (magic back : Bytes) → begins magic (magic ++ back) ≡ true
unfolding begins
begins-append [] back = refl
begins-append (m ∷ magic) back = rw ((==_iff m m).1 refl) (begins-append magic back)

hits_at-IsHit :
    (input : Bytes) (i : ℕ) (sigs : List Signature)
    → ((sig : Signature) → Memᴰ sig sigs → Memᴰ sig signatures)
    → All (IsHit input) (hits_at i (drop i input) sigs)
unfolding hits_at
hits_at-IsHit input i [] f = tt
hits_at-IsHit input i (sig ∷ sigs) f =
    let rest = hits_at-IsHit input i sigs (λ s m. f s (Memᴰ.tail m)) in
    elim (Bool-cases (begins sig.magic (drop i input))) [
      | inl good ↦ simp good (
        record {
          signature = sig;
          listed = f sig (Memᴰ.head refl);
          labelled = refl;
          occurs = begins-occurs sig.magic (drop i input) good;
        },
        rest,
      )
      | inr bad ↦ simp bad rest
    ]

drop_one :
    (i : ℕ) (input : Bytes) (b : ℕ) (bytes : Bytes)
    → drop i input ≡ b ∷ bytes
    → drop (suc i) input ≡ bytes
drop_one i input b bytes e =
    ap (λ (n : ℕ). drop n input) {x = suc i} {y = i + 1} (omega arith)
    ∙ (drop-drop i 1 input ∙ ap (drop 1) e)

hits_from-IsHit :
    (input : Bytes) (i : ℕ) (bytes : Bytes)
    → drop i input ≡ bytes
    → All (IsHit input) (hits_from i bytes)
unfolding hits_from
hits_from-IsHit input i [] e = tt
hits_from-IsHit input i (b ∷ bytes) e =
    All-append (IsHit input) (hits_at i (b ∷ bytes) signatures) (hits_from (suc i) bytes)
      (rw (sym e) (hits_at-IsHit input i signatures (λ s m. m)))
      (hits_from-IsHit input (suc i) bytes (drop_one i input b bytes e))

hits_at-Mem :
    (i : ℕ) (bytes : Bytes) (sigs : List Signature) (sig : Signature)
    → Memᴰ sig sigs
    → begins sig.magic bytes ≡ true
    → Memᴰ (i, sig.label) (hits_at i bytes sigs)
unfolding hits_at
hits_at-Mem i bytes [] sig m g = elim m [ ]
hits_at-Mem i bytes (other ∷ sigs) sig (Memᴰ.head e) g =
    rw (ap (λ (s : Signature). begins s.magic bytes) (sym e) ∙ g)
      (Memᴰ.head (ap (λ (s : Signature). (i, s.label)) e))
hits_at-Mem i bytes (other ∷ sigs) sig (Memᴰ.tail m) g =
    let rest = hits_at-Mem i bytes sigs sig m g in
    elim (Bool-cases (begins other.magic bytes)) [
      | inl good ↦ simp good (Memᴰ.tail rest)
      | inr bad ↦ simp bad rest
    ]

place : (x y : ℕ) (label : String) → x ≡ y → ◌≡◌ {A = Hit} (x, label) (y, label)
place x y label e = ap (λ (n : ℕ). (n, label)) e

hits_from-Mem :
    (i k : ℕ) (bytes : Bytes) (sig : Signature)
    → Memᴰ sig signatures
    → k < length bytes
    → begins sig.magic (drop k bytes) ≡ true
    → Memᴰ (i + k, sig.label) (hits_from i bytes)
unfolding hits_from
hits_from-Mem i k [] sig m l g = let no : ⊥ = omega (arith, l) in elim no [ ]
hits_from-Mem i zero (b ∷ bytes) sig m l g = Memᴰ.append_left (hits_from (suc i) bytes) (
    Memᴰ.cast (place (i + 0) i sig.label (omega arith))
      (hits_at-Mem i (b ∷ bytes) signatures sig m g))
hits_from-Mem i (suc k) (b ∷ bytes) sig m l g =
    Memᴰ.append_right (hits_at i (b ∷ bytes) signatures) (
      Memᴰ.cast (place (i + suc k) (suc i + k) sig.label (omega arith))
        (hits_from-Mem (suc i) k bytes sig m (omega (arith, l)) g))

-- Offsets of hits that do not descend, within the input.
unfoldable pub Ascending : Bytes → ℕ → List Hit → Type 0
Ascending input from [] = Unit
Ascending input from (hit ∷ hits) =
    (from ≤ hit.0) × (hit.0 ≤ length input) × Ascending input hit.0 hits

Ascending-weaken :
    (input : Bytes) (from later : ℕ) (hits : List Hit)
    → from ≤ later
    → Ascending input later hits
    → Ascending input from hits
unfolding Ascending
Ascending-weaken input from later [] l h = tt
Ascending-weaken input from later (hit ∷ hits) l h = (omega (arith, h.0), h.1, h.2)

hits_at-Ascending :
    (input : Bytes) (i : ℕ) (bytes : Bytes) (sigs : List Signature) (hits : List Hit)
    → i ≤ length input
    → Ascending input i hits
    → Ascending input i (hits_at i bytes sigs ++ hits)
unfolding hits_at Ascending
hits_at-Ascending input i bytes [] hits l h = h
hits_at-Ascending input i bytes (sig ∷ sigs) hits l h =
    let rest = hits_at-Ascending input i bytes sigs hits l h in
    elim (Bool-cases (begins sig.magic bytes)) [
      | inl good ↦ simp good (omega arith, l, rest)
      | inr bad ↦ simp bad rest
    ]

hits_from-Ascending :
    (input : Bytes) (i : ℕ) (bytes : Bytes)
    → i + length bytes ≤ length input
    → Ascending input i (hits_from i bytes)
unfolding hits_from
hits_from-Ascending input i [] l = unfold Ascending in tt
hits_from-Ascending input i (b ∷ bytes) l =
    hits_at-Ascending input i (b ∷ bytes) signatures (hits_from (suc i) bytes) (omega arith) (
      Ascending-weaken input i (suc i) _ (omega arith)
        (hits_from-Ascending input (suc i) bytes (omega (arith, l))))

insert_hit-first :
    (input : Bytes) (hit : Hit) (hits : List Hit)
    → Ascending input hit.0 hits
    → insert_hit hit hits ≡ hit ∷ hits
unfolding insert_hit Ascending
insert_hit-first input hit [] h = refl
insert_hit-first input hit (other ∷ hits) h = rw (le→leb hit.0 other.0 h.0) refl

-- The sort leaves hits in order as they are.
sort_hits-Ascending :
    (input : Bytes) (from : ℕ) (hits : List Hit) → Ascending input from hits → sort_hits hits ≡ hits
unfolding sort_hits Ascending
sort_hits-Ascending input from [] h = refl
sort_hits-Ascending input from (hit ∷ hits) h =
    ap (insert_hit hit) (sort_hits-Ascending input hit.0 hits h.2)
    ∙ insert_hit-first input hit hits h.2

scan_in_order : (input : Bytes) → scan_signatures input ≡ hits_from 0 input
unfolding scan_signatures
scan_in_order input =
    sort_hits-Ascending input 0 (hits_from 0 input)
      (hits_from-Ascending input 0 input (omega arith))

pub scan_signatures-Ascending : (input : Bytes) → Ascending input 0 (scan_signatures input)
scan_signatures-Ascending input =
    rw (scan_in_order input) (hits_from-Ascending input 0 input (omega arith))

pub scan_signatures-IsHit : (input : Bytes) → All (IsHit input) (scan_signatures input)
scan_signatures-IsHit input = rw (scan_in_order input) (hits_from-IsHit input 0 input refl)

pub scan_signatures-HasAllHits : (input : Bytes) → HasAllHits input (scan_signatures input)
scan_signatures-HasAllHits input j sig m l (back, e) = rw (scan_in_order input) (
    Memᴰ.cast (place j (0 + j) sig.label (omega arith))
      (hits_from-Mem 0 j input sig m l (ap (begins sig.magic) e ∙ begins-append sig.magic back)))

pub no_hits-HasNoneBefore :
    (input : Bytes) → HasAllHits input [] → HasNoneBefore (length input) input
no_hits-HasNoneBefore input f j sig m l o = Memᴰ.not-nil (f j sig m l o)

Ascending-least :
    (input : Bytes) (from : ℕ) (hits : List Hit) (hit : Hit)
    → Ascending input from hits
    → Memᴰ hit hits
    → from ≤ hit.0
unfolding Ascending
Ascending-least input from [] hit h m = elim m [ ]
Ascending-least input from (first ∷ hits) hit h (Memᴰ.head e) =
    omega (arith, h.0, ap (λ (x : Hit). x.0) e)
Ascending-least input from (first ∷ hits) hit h (Memᴰ.tail m) =
    omega (arith, h.0, Ascending-least input first.0 hits hit h.2 m)

pub first_hit-HasNoneBefore :
    (input : Bytes) (from : ℕ) (first : Hit) (hits : List Hit)
    → Ascending input from (first ∷ hits)
    → HasAllHits input (first ∷ hits)
    → HasNoneBefore first.0 input
unfolding Ascending
first_hit-HasNoneBefore input from first hits h f j sig m l o = omega (
  arith,
  l,
  Ascending-least input first.0 (first ∷ hits) (j, sig.label) (omega arith, h.1, h.2)
      (f j sig m (omega (arith, l, h.1)) o),
)
