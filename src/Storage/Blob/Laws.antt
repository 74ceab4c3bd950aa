-- ===== src/Storage/Blob/Laws.antt =====
-- What `get_bytes` reads after `set_bytes`.
use arb_reth.Prelude.{
  ℕ, zero, suc, ◌+◌, ◌-◌, ◌^◌, ◌≤◌, ◌≡◌, refl, ◌∙◌, arith, inl, inr, Bool-cases, List, ◌++◌, length,
  take, drop, length-drop, AllLe, drop-AllLe, ltb, u64_max, saturating_sub,
}
use arb_reth.Bytes.{from_be_bytes}
use arb_reth.Host.{Host, IsStore}
use arb_reth.World.{World, ok, bind-ok}
use arb_reth.World.Loop.{Leaves}
use arb_reth.Storage.Space.{Storage, read_slot, write_slot}
use arb_reth.Storage.Space.Keys.{NoPageCollision}
use arb_reth.Storage.Space.Laws.{cell, read_slot_lem, write_slot_lem, cell-after_write}
use arb_reth.Storage.Blob.{
  zeros, get_bytes_size, get_bytes, clear_chunks, clear_bytes, write_chunks, set_bytes,
}
use arb_reth.Storage.Blob.Chunks.{leb-true, leb-false, ltb-true, shape, Shape, empty, short, long}
use arb_reth.Storage.Blob.Chunks

module _ ⦃h : Host⦄ (l : IsStore h) (sto : Storage) (free : NoPageCollision sto) where
  -- The loop of `set_bytes` returns, and has written the bytes.
  write_chunks_lem :
      (fuel : ℕ) (b : List ℕ) (offset : ℕ) (w : World h)
      → length b ≤ fuel
      → AllLe 255 b
      → offset + length b ≤ 2 ^ 64
      → Leaves (write_chunks sto fuel b offset) w (Chunks.Written l sto free w b offset)
  unfolding write_chunks
  write_chunks_lem zero b offset w p all r = record {
    after = w;
    returned = refl;
    left_with = Chunks.Written-empty l sto free w b offset (omega arith);
  }
  write_chunks_lem (suc fuel) b offset w p all r = elim (shape b) [
    | empty e ↦ record {
      after = w;
      returned = rw (leb-false 32 (length b) (omega arith), e) refl;
      left_with = Chunks.Written-empty l sto free w b offset e;
    }
    | short some_left few ↦ record {
      after = Chunks.put_word l sto free offset (from_be_bytes (zeros (32 - length b) ++ b)) w;
      returned =
          rw (leb-false 32 (length b) few, ltb-true 0 (length b) some_left)
            (write_slot_lem l sto offset _ w);
      left_with = Chunks.Written-short l sto free w b offset all some_left few (omega arith);
    }
    | long many ↦
        let rest =
          write_chunks_lem fuel (drop 32 b) (offset + 1)
            (Chunks.put_word l sto free offset (from_be_bytes (take 32 b)) w)
            (omega (arith, length-drop 32 b many)) (drop-AllLe 255 32 b all)
            (omega (arith, length-drop 32 b many)) in
        record {
          after = rest.after;
          returned = rw (leb-true 32 (length b) many) (
              bind-ok (write_slot sto offset (from_be_bytes (take 32 b))) _ w
                (write_slot_lem l sto offset _ w)
              ∙ rest.returned);
          left_with =
              Chunks.Written-long l sto free w rest.after b offset all many (omega arith)
                rest.left_with;
        }
  ]

  clear_chunks_lem :
      (fuel n offset : ℕ) (w : World h) → Leaves (clear_chunks sto fuel n offset) w (λ w'. Unit {0})
  unfolding clear_chunks
  clear_chunks_lem zero n offset w = record { after = w; returned = refl; left_with = tt }
  clear_chunks_lem (suc fuel) n offset w = elim (Bool-cases (ltb 0 n)) [
    | inl some_left ↦
        let rest =
          clear_chunks_lem fuel (saturating_sub n 32) (offset + 1)
            (Chunks.put_word l sto free offset 0 w) in
        record {
          after = rest.after;
          returned = rw some_left (
              bind-ok (write_slot sto offset 0) _ w (write_slot_lem l sto offset 0 w)
              ∙ rest.returned);
          left_with = tt;
        }
    | inr none_left ↦ record { after = w; returned = rw none_left refl; left_with = tt }
  ]

  size_lem :
      (w : World h) (n : ℕ) → cell l w sto 0 ≡ n → n ≤ u64_max → get_bytes_size sto w ≡ ok n w
  unfolding get_bytes_size
  size_lem w n e p =
      bind-ok (read_slot sto 0) _ w (read_slot_lem l sto 0 w)
      ∙ rw e (rw (leb-true n u64_max p) refl)

  clear_lem : (w : World h) → cell l w sto 0 ≤ u64_max → Leaves (clear_bytes sto) w (λ w'. Unit {0})
  unfolding clear_bytes
  clear_lem w p =
      let loop = clear_chunks_lem (cell l w sto 0) (cell l w sto 0) 1 w in
      record {
        after = Chunks.put_word l sto free 0 0 loop.after;
        returned =
            bind-ok (get_bytes_size sto) _ w (size_lem w (cell l w sto 0) refl p)
            ∙ bind-ok (clear_chunks sto (cell l w sto 0) (cell l w sto 0) 1) _ w loop.returned
            ∙ write_slot_lem l sto 0 0 loop.after;
        left_with = tt;
      }

  -- On a host that is a store and for a storage whose pages do not collide: where offset 0 holds a
  -- 64-bit number, `set_bytes` of any bytes, as many as a 64-bit number can count, returns, and
  -- `get_bytes` then returns those bytes and changes nothing.
  pub get_bytes-set_bytes :
      (w : World h) (b : List ℕ)
      → cell l w sto 0 ≤ u64_max
      → AllLe 255 b
      → length b ≤ u64_max
      → Leaves (set_bytes sto b) w (λ w'. get_bytes sto w' ≡ ok b w')
  unfolding set_bytes get_bytes
  get_bytes-set_bytes w b p all small = record {
    after = chunks.after;
    returned =
        bind-ok (clear_bytes sto) _ w cleared.returned
        ∙ bind-ok (write_slot sto 0 (length b)) _ cleared.after
            (write_slot_lem l sto 0 (length b) cleared.after)
        ∙ chunks.returned;
    left_with =
        bind-ok (get_bytes_size sto) _ chunks.after
          (size_lem chunks.after (length b) size_kept small)
        ∙ chunks.left_with.reads (length b) (omega arith);
  }
    where
      cleared : Leaves (clear_bytes sto) w (λ w'. Unit {0})
      cleared = clear_lem w p

      w2 : World h
      w2 = Chunks.put_word l sto free 0 (length b) cleared.after

      chunks : Leaves (write_chunks sto (length b) b 1) w2 (Chunks.Written l sto free w2 b 1)
      chunks = write_chunks_lem (length b) b 1 w2 (omega arith) all (omega arith)

      size_kept : cell l chunks.after sto 0 ≡ length b
      size_kept =
          chunks.left_with.kept 0 (omega arith)
          ∙ cell-after_write l sto free 0 (length b) cleared.after 0 (omega arith) (omega arith)
