-- ===== src/AddressSet/Calls.antt =====
-- The calls of an address set, and the list that specifies what they reply and leave.
use arb_reth.Prelude.{
  ℕ, Bool, Option, none, some, List, [], ◌∷◌, ◌==◌, length, get_or, take, min, if◌then◌else◌,
}
use arb_reth.Host.{Host}
use arb_reth.World.{M, ◌>>=◌, ◌>>◌, pure}
use arb_reth.AddressSet.{
  AddressSet, size_of, is_member, get_any_member, clear, all_members, add, remove,
}
use arb_reth.AddressSet.Model.{contains, insert}
use arb_reth.AddressSet.Swap.{without}

pub data Op : Type 0 where
  add_op remove_op is_member_op all_members_op : ℕ → Op
  size_op any_member_op clear_op : Op

pub data Reply : Type 0 where
  unit_reply : Reply
  bool_reply : Bool → Reply
  size_reply : ℕ → Reply
  member_reply : Option ℕ → Reply
  members_reply : List ℕ → Reply

-- The first member; the address zero in front passes for an empty slot.
abbrev pub any_of : List ℕ → Option ℕ
any_of xs = if get_or xs 0 0 == 0 then none else some (get_or xs 0 0)

abbrev pub spec_reply : Op → List ℕ → Reply
spec_reply (add_op a) xs = unit_reply
spec_reply (remove_op a) xs = unit_reply
spec_reply (is_member_op a) xs = bool_reply (contains a xs)
spec_reply (all_members_op limit) xs = members_reply (take (min (length xs) limit) xs)
spec_reply size_op xs = size_reply (length xs)
spec_reply any_member_op xs = member_reply (any_of xs)
spec_reply clear_op xs = unit_reply

abbrev pub spec_next : Op → List ℕ → List ℕ
spec_next (add_op a) xs = insert a xs
spec_next (remove_op a) xs = without a xs
spec_next (is_member_op a) xs = xs
spec_next (all_members_op limit) xs = xs
spec_next size_op xs = xs
spec_next any_member_op xs = xs
spec_next clear_op xs = []

unfoldable pub spec_replies : List Op → List ℕ → List Reply
spec_replies [] xs = []
spec_replies (op ∷ ops) xs = spec_reply op xs ∷ spec_replies ops (spec_next op xs)

unfoldable pub spec_last : List Op → List ℕ → List ℕ
spec_last [] xs = xs
spec_last (op ∷ ops) xs = spec_last ops (spec_next op xs)

module _ ⦃h : Host⦄ where
  abbrev pub run_op : ℕ → AddressSet → Op → M Reply
  run_op version s (add_op a) = add s a >> pure unit_reply
  run_op version s (remove_op a) = remove s a version >> pure unit_reply
  run_op version s (is_member_op a) = is_member s a >>= λ b. pure (bool_reply b)
  run_op version s (all_members_op limit) = all_members s limit >>= λ xs. pure (members_reply xs)
  run_op version s size_op = size_of s >>= λ n. pure (size_reply n)
  run_op version s any_member_op = get_any_member s >>= λ m. pure (member_reply m)
  run_op version s clear_op = clear s >> pure unit_reply

  -- The calls in order, with what each returned.
  unfoldable pub run : ℕ → AddressSet → List Op → M (List Reply)
  run version s [] = pure []
  run version s (op ∷ ops) = do r ← run_op version s op; rs ← run version s ops; pure (r ∷ rs)
