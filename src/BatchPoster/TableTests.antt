-- ===== src/BatchPoster/TableTests.antt =====
-- The posters of a table, on a host whose hash tells the table's storages apart.
use arb_reth.Prelude.{not, ◌&&◌, ◌∷◌, ◌%◌, ◌≡◌, refl, arith, true, ◌||◌, [], if◌then◌else◌}
use arb_reth.Bytes.{to_be_bytes, from_be_bytes}
use arb_reth.World.Ends.{Ends}
use arb_reth.World.{World}
use arb_reth.Storage.Slot.{StorageSlot, value, after_set}
use arb_reth.Storage.Space.{open_slot, open_sub_storage}
use arb_reth.AddressSet.Model.{place, places, contains, Apart, HoldsSet}
use arb_reth.BatchPoster.{
  semantic, opened, already_exists, not_exist, open_table, internal_open, open_poster, add_poster,
  get_funds_due_list,
}
use arb_reth.BatchPoster.Balance.{due}
use arb_reth.BatchPoster.Register.{
  set_storage, poster_at, PosterApart, kept, Leaving, open_poster_lem,
}
use arb_reth.BatchPoster.DueList.{due_list, get_funds_due_list_lem}
use arb_reth.TestTable.{
  table_storage, table_host, table_store, empty_world, tag, tags_differ, same_pages,
}

tag_of_set : tag (set_storage table_storage).storage_key % 256 ≡ 29
unfolding open_sub_storage tag to_be_bytes from_be_bytes
tag_of_set = refl

tag_of_places : tag (places (set_storage table_storage)).storage_key % 256 ≡ 39
unfolding open_sub_storage tag to_be_bytes from_be_bytes
tag_of_places = refl

tag_of_poster : tag (poster_at table_storage 77).storage_key % 256 ≡ 103
unfolding open_sub_storage tag to_be_bytes from_be_bytes
tag_of_poster = refl

table_apart : Apart (set_storage table_storage)
table_apart = record {
  own = λ p q a b e.
      same_pages (set_storage table_storage) p q (omega (arith, a)) (omega (arith, b)) e;
  keys = λ p q a b e. same_pages (places (set_storage table_storage)) p q a b e;
  cross = λ p q a b.
      tags_differ (set_storage table_storage) (places (set_storage table_storage)) p q
        (omega (arith, tag_of_set, tag_of_places)) (omega (arith, a)) b;
}

-- The poster 77.
poster_apart : PosterApart table_storage 77
poster_apart = record {
  from_list = λ p a.
      tags_differ (poster_at table_storage 77) (set_storage table_storage) 0 p
        (omega (arith, tag_of_set, tag_of_poster)) (omega arith) (omega (arith, a));
  from_mapping = λ p a.
      tags_differ (poster_at table_storage 77) (places (set_storage table_storage)) 0 p
        (omega (arith, tag_of_places, tag_of_poster)) (omega arith) a;
}

no_posters : HoldsSet (set_storage table_storage) table_apart table_store empty_world []
unfolding value place
no_posters = record {
  writable = refl;
  room = omega arith;
  size_at = refl;
  entries = λ i p. refl;
  mapped = λ a p. refl;
}

open_poster_lem_example :
    Ends (open_poster (open_table table_storage) 77 true) empty_world (λ r w'.
      (r ≡ (
        if contains 77 [] || true
        then opened (internal_open (open_table table_storage) 77)
        else semantic not_exist))
      × Leaving table_store table_storage table_apart 77
          (omega arith)
          poster_apart
          no_posters
          true
          77
          w')
    × Ends (add_poster (open_table table_storage) 77 5) empty_world (λ r w'.
      (r ≡ (
        if contains 77 []
        then semantic already_exists
        else opened (internal_open (open_table table_storage) 77)))
      × Leaving table_store table_storage table_apart 77
          (omega arith)
          poster_apart
          no_posters
          true
          5
          w')
unfolding place
open_poster_lem_example =
    open_poster_lem table_store table_storage table_apart 77 (omega arith) poster_apart no_posters 5
      true (omega arith)

-- The table with the poster 77, which is due 30.
abbrev created : Ends (open_poster (open_table table_storage) 77 true) empty_world (λ r w'.
    (r ≡ (
      if contains 77 [] || true
      then opened (internal_open (open_table table_storage) 77)
      else semantic not_exist))
    × Leaving table_store table_storage table_apart 77
        (omega arith)
        poster_apart
        no_posters
        (not (contains 77 []) && true)
        77
        w')
created =
    (open_poster_lem table_store table_storage table_apart 77 (omega arith) poster_apart no_posters
      5 true (omega arith)).0

abbrev owing : World table_host
owing = after_set table_store (open_slot (poster_at table_storage 77) 0) 30 created.after

owing_holds : HoldsSet (set_storage table_storage) table_apart table_store owing (77 ∷ [])
unfolding place
owing_holds =
    kept table_store table_storage table_apart 77 (omega arith) poster_apart created.left_with.1.0 0
      30 (omega arith) created.left_with.1.0

get_funds_due_list_lem_example : Ends (get_funds_due_list (open_table table_storage)) owing (λ r w'.
    (r ≡ opened (due_list table_store table_storage table_apart owing (77 ∷ [])))
    × HoldsSet (set_storage table_storage) table_apart table_store w' (77 ∷ [])
    × ((s : StorageSlot) → due table_store w' s ≡ due table_store owing s))
unfolding place
get_funds_due_list_lem_example =
    get_funds_due_list_lem table_store table_storage table_apart owing (77 ∷ []) owing_holds
      (omega arith, tt)
