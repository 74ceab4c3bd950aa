-- ===== src/Alias.antt =====
-- The aliases of L1 addresses: crates/arb-revm/src/arb_precompiles/arbsys.rs. An address is its 20
-- bytes, the highest first. A loop from the last byte to the first is recursion that treats the rest
-- of the bytes first; it returns the bytes and the carry or borrow out of the highest.
mod Tests
use arb_reth.Bytes.{IsBytes, all_bytes→IsBytes}
use arb_reth.Prelude.{
  ℕ, suc, length, ◌+◌, ◌-◌, ◌*◌, ◌/◌, ◌%◌, ◌^◌, ◌≤◌, ◌<◌, ◌≡◌, refl, ◌∙◌, ap, ap₂, List, [], ◌∷◌,
  arith, ltb, if◌then◌else◌, AllLe, Bool, true, leb, leb→le, ◌&&◌, Bool-cases, inl, inr,
}

abbrev pub address_alias_offset : List ℕ
address_alias_offset =
    17 ∷ 17 ∷ 0 ∷ 0 ∷ 0 ∷ 0 ∷ 0 ∷ 0 ∷ 0 ∷ 0 ∷ 0 ∷ 0 ∷ 0 ∷ 0 ∷ 0 ∷ 0 ∷ 0 ∷ 0 ∷ 17 ∷ 17 ∷ []

apply_loop : List ℕ → List ℕ → List ℕ × ℕ
apply_loop [] offset = ([], 0)
apply_loop (b ∷ bytes) [] = (b ∷ bytes, 0)
apply_loop (b ∷ bytes) (o ∷ offset) =
    let rest = apply_loop bytes offset in
    let sum = b + o + rest.1 in (sum % 256 ∷ rest.0, sum / 256)

pub apply_l1_to_l2_alias : List ℕ → List ℕ
unfolding apply_loop
apply_l1_to_l2_alias addr = (apply_loop addr address_alias_offset).0

-- `diff` is a signed 16-bit number, here with 512 added: it is negative if `b < o + borrow`.
undo_loop : List ℕ → List ℕ → List ℕ × ℕ
undo_loop [] offset = ([], 0)
undo_loop (b ∷ bytes) [] = (b ∷ bytes, 0)
undo_loop (b ∷ bytes) (o ∷ offset) =
    let rest = undo_loop bytes offset in
    ((b + 512 - o - rest.1) % 256 ∷ rest.0, if ltb b (o + rest.1) then 1 else 0)

pub undo_l1_to_l2_alias : List ℕ → List ℕ
unfolding undo_loop
undo_l1_to_l2_alias addr = (undo_loop addr address_alias_offset).0

length-apply_loop : (bs os : List ℕ) → length (apply_loop bs os).0 ≡ length bs
unfolding apply_loop
length-apply_loop [] os = refl
length-apply_loop (b ∷ bs) [] = refl
length-apply_loop (b ∷ bs) (o ∷ os) = ap suc (length-apply_loop bs os)

pub length-apply_l1_to_l2_alias : (addr : List ℕ) → length (apply_l1_to_l2_alias addr) ≡ length addr
unfolding apply_l1_to_l2_alias
length-apply_l1_to_l2_alias addr = length-apply_loop addr address_alias_offset

apply_carry : (bs os : List ℕ) → IsBytes bs → IsBytes os → (apply_loop bs os).1 ≤ 1
unfolding apply_loop
apply_carry [] os p q = omega arith
apply_carry (b ∷ bs) [] p q = omega arith
apply_carry (b ∷ bs) (o ∷ os) p q = omega (arith, apply_carry bs os p.1 q.1, p.0, q.0)

undo_borrow : (bs os : List ℕ) → (undo_loop bs os).1 ≤ 1
unfolding undo_loop
undo_borrow [] os = omega arith
undo_borrow (b ∷ bs) [] = omega arith
undo_borrow (b ∷ bs) (o ∷ os) = ground (arith, undo_borrow bs os)

undo_byte :
    (b o c : ℕ)
    → b ≤ 255
    → o ≤ 255
    → c ≤ 1
    → (((b + o + c) % 256 + 512 - o - c) % 256 ≡ b)
      × ((if ltb ((b + o + c) % 256) (o + c) then 1 else 0) ≡ (b + o + c) / 256)
undo_byte b o c p q r = (omega arith, ground arith)

apply_byte :
    (b o c : ℕ)
    → b ≤ 255
    → o ≤ 255
    → c ≤ 1
    → (((b + 512 - o - c) % 256 + o + c) % 256 ≡ b)
      × (((b + 512 - o - c) % 256 + o + c) / 256 ≡ (if ltb b (o + c) then 1 else 0))
apply_byte b o c p q r = (omega arith, ground arith)

-- Undoing takes off what was added, and borrows where that carried.
undo-apply_loop :
    (bs os : List ℕ)
    → IsBytes bs
    → IsBytes os
    → undo_loop (apply_loop bs os).0 os ≡ (bs, (apply_loop bs os).1)
unfolding apply_loop undo_loop
undo-apply_loop [] os p q = refl
undo-apply_loop (b ∷ bs) [] p q = refl
undo-apply_loop (b ∷ bs) (o ∷ os) p q =
    let e = undo-apply_loop bs os p.1 q.1 in
    let d = undo_byte b o (apply_loop bs os).1 p.0 q.0 (apply_carry bs os p.1 q.1) in
    rw (e, d.0, d.1) refl

-- Applying adds back what was taken off, and carries where that borrowed.
apply-undo_loop :
    (bs os : List ℕ)
    → IsBytes bs
    → IsBytes os
    → apply_loop (undo_loop bs os).0 os ≡ (bs, (undo_loop bs os).1)
unfolding apply_loop undo_loop
apply-undo_loop [] os p q = refl
apply-undo_loop (b ∷ bs) [] p q = refl
apply-undo_loop (b ∷ bs) (o ∷ os) p q =
    let e = apply-undo_loop bs os p.1 q.1 in
    let d = apply_byte b o (undo_loop bs os).1 p.0 q.0 (undo_borrow bs os) in rw (e, d.0, d.1) refl

address_alias_offset-IsBytes : IsBytes address_alias_offset
address_alias_offset-IsBytes = all_bytes→IsBytes address_alias_offset refl

-- `apply_l1_to_l2_alias` and `undo_l1_to_l2_alias` are inverse to each other on the bytes of an
-- address.
pub undo_l1_to_l2_alias-apply_l1_to_l2_alias :
    (addr : List ℕ)
    → IsBytes addr
    → (undo_l1_to_l2_alias (apply_l1_to_l2_alias addr) ≡ addr)
      × (apply_l1_to_l2_alias (undo_l1_to_l2_alias addr) ≡ addr)
unfolding undo_l1_to_l2_alias apply_l1_to_l2_alias
undo_l1_to_l2_alias-apply_l1_to_l2_alias addr p = (
  ap (λ r. r.0) (undo-apply_loop addr address_alias_offset p address_alias_offset-IsBytes),
  ap (λ r. r.0) (apply-undo_loop addr address_alias_offset p address_alias_offset-IsBytes),
)
