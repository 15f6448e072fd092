-- ===== src/Rar/Guard.antt =====
-- The guard of the loop in `read_inventory`, crates/phx_recovery/src/rar/mod.rs.
use veraqis_recover.Prelude.{
  ℕ, zero, suc, ◌+◌, ◌*◌, ◌≤◌, ◌<◌, ◌≡◌, refl, Option, none, some, ltb, length, arith, Bytes,
  some_inj, inl, inr, Bool-cases,
}
use veraqis_recover.Prelude.Options.{>>=-eq-some}
use veraqis_recover.Rar.Defs.{Inventory, checked_add}
use veraqis_recover.Rar.Proven.{IsHeader, read_header-IsHeader}
use veraqis_recover.Rar.Walk.{
  Header, HeaderAt, past_eof, header, read_header, note_block, Round, stop, next, to_next,
  after_header, walk_round, walk_on, walk,
}

to_next_forward :
    (file : Bytes) (inv inv' : Inventory) (h : Header) (p p' : ℕ)
    → IsHeader file p h
    → to_next file inv h (checked_add h.body_end h.data_size) ≡ next inv' p'
    → (p + 5 ≤ p') × (p' ≤ length file)
unfolding to_next checked_add
to_next_forward file inv inv' h p p' w e = ground arith

-- A round that goes on has gone five bytes on at least, within the file.
walk_round_forward :
    (file : Bytes) (inv inv' : Inventory) (p p' : ℕ)
    → walk_round file inv p ≡ some (next inv' p')
    → (p + 5 ≤ p') × (p' ≤ length file)
unfolding walk_round
walk_round_forward file inv inv' p p' e =
    let (at, got, e2) = >>=-eq-some (read_header file p) _ e in after at got (some_inj e2)
  where
    after :
        (at : HeaderAt)
        → read_header file p ≡ some at
        → after_header file inv p at ≡ next inv' p'
        → (p + 5 ≤ p') × (p' ≤ length file)
    after past_eof got h = unfold after_header in cc
    after (header h) got r =
        unfold after_header in
        to_next_forward file (note_block file inv p h) inv' h p p'
          (read_header-IsHeader file p h got) r

walk_on_same :
    (f g : Inventory → ℕ → Option Inventory) (o : Option Round)
    → ((inv : Inventory) (p : ℕ) → o ≡ some (next inv p) → f inv p ≡ g inv p)
    → walk_on f o ≡ walk_on g o
unfolding walk_on
walk_on_same f g none same = refl
walk_on_same f g (some (stop inv)) same = refl
walk_on_same f g (some (next inv p)) same = same inv p refl

-- With a guard of `n` rounds, where five bytes a round lead past the end of the file, the walk does
-- not depend on the guard: any larger one gives the same result.
pub walk_guard :
    (n m : ℕ) (file : Bytes) (inv : Inventory) (p : ℕ)
    → n ≤ m
    → length file < p + 5 * n + 5
    → walk n file inv p ≡ walk m file inv p
unfolding walk
walk_guard zero zero file inv p k h = refl
walk_guard zero (suc m) file inv p k h = ground arith
walk_guard (suc n) zero file inv p k h = elim k [ ]
walk_guard (suc n) (suc m) file inv p k h = elim (Bool-cases (ltb (length file) (p + 5))) [
  | inl done ↦ rw done
  | inr more ↦ rw more (
      walk_on_same _ _ (walk_round file inv p) λ inv' p' e.
        walk_guard n m file inv' p' (omega arith)
          (omega (arith, walk_round_forward file inv inv' p p' e)))
]
