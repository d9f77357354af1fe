-- ===== src/Message/Offsets/Memory.antt =====
-- The memory that the pointers of an offset buffer lead into: the NetworkMessage whose sequence
-- numbers are read through pointers, and the blocks that hold the data of the variants.
use open_pub_sub.Base.{ℕ}
use open_pub_sub.Binary.VariantCodec.{VariantCodec}
use open_pub_sub.Message.DataSet.{DataSetMessage}
use open_pub_sub.Message.Network.{NetworkMessage}

-- What a variant is in memory, which a codec leaves open: its `type`, and its `data`, which is where
-- its value stands. `address i j` is the `data` pointer of field `j` of DataSetMessage `i` when the
-- offsets are recorded. `scalar t a h` is the variant of `UA_Variant_setScalar(…, a, t)`, with the
-- value that the blocks `h` hold at `a`.
pub record VariantMemory (c : VariantCodec) : Type 1 where
  pub DataType : Type 0
  pub Address : Type 0
  pub Heap : Type 0
  pub data_type : c.Variant → DataType
  pub address : ℕ → ℕ → Address
  pub scalar : DataType → Address → Heap → c.Variant

pub record Memory (c : VariantCodec) (vm : VariantMemory c) : Type 0 where
  pub message : NetworkMessage c.Variant
  pub heap : vm.Heap

-- Where a memory `S` has one DataSetMessage and the blocks, and where the data of its fields stood
-- when the offsets were recorded.
pub record Place (c : VariantCodec) (vm : VariantMemory c) (S : Type 0) : Type 0 where
  pub message : S → DataSetMessage c.Variant
  pub heap : S → vm.Heap
  pub address : ℕ → vm.Address
