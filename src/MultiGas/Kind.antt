-- ===== src/MultiGas/Kind.antt =====
-- `ResourceKind`, a dimension of gas, and `check_resource_kind`.
use Prim.Native.String.{String}
use arb_reth.Prelude.{ℕ, ◌<◌, ◌≡◌, ◌↔◌, Option, none, some, ◌||◌, leb, ◌==◌, if◌then◌else◌, arith}

pub data ResourceKind : Type 0 where
  unknown computation history_growth storage_access : ResourceKind
  storage_growth l1_calldata l2_calldata wasm_computation : ResourceKind

abbrev pub count : ℕ
count = 8

-- `kind as usize`, also `kind as u8`.
abbrev pub index : ResourceKind → ℕ
index unknown = 0
index computation = 1
index history_growth = 2
index storage_access = 3
index storage_growth = 4
index l1_calldata = 5
index l2_calldata = 6
index wasm_computation = 7

-- `impl Display for ResourceKind`.
pub display : ResourceKind → String
display unknown = "Unknown"
display computation = "Computation"
display history_growth = "HistoryGrowth"
display storage_access = "StorageAccess"
display storage_growth = "StorageGrowth"
display l1_calldata = "L1Calldata"
display l2_calldata = "L2Calldata"
display wasm_computation = "WasmComputation"

-- `transmute` of a byte in range: the kind with that discriminant.
abbrev of_discriminant : ℕ → ResourceKind
of_discriminant id =
    if id == 1
    then computation
    else if id == 2
    then history_growth
    else if id == 3
    then storage_access
    else if id == 4
    then storage_growth
    else if id == 5
    then l1_calldata
    else if id == 6
    then l2_calldata
    else if id == 7
    then wasm_computation
    else unknown

-- `none` is the error "invalid resource id".
pub check_resource_kind : ℕ → Option ResourceKind
check_resource_kind id = if id == 0 || leb count id then none else some (of_discriminant id)

-- A byte is accepted as a kind exactly when it is that kind's discriminant and not 0.
pub check_resource_kind_iff :
    (id : ℕ) (kind : ResourceKind)
    → (check_resource_kind id ≡ some kind) ↔ ((index kind ≡ id) × (0 < id))
unfolding check_resource_kind
check_resource_kind_iff id kind = ground arith

pub index-lt-count : (kind : ResourceKind) → index kind < count
index-lt-count kind = ground arith
