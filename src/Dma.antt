-- ===== src/Dma.antt =====
-- b4860/libb4860/ipc/lib/fsl_user_dma.c: the list of descriptors that the DMA engine is given. An
-- array in memory is a function of the index. A register keeps what is written to it, and the
-- engine sets `sr`; writing the error bits of `sr` back leaves the bits that are set.
pub mod Chain
mod Tests
use Prim.Native.Nat.{bit_or}
use enb_l1_b4860_ppc.Common.{
  ℕ, ◌+◌, ◌-◌, ◌*◌, ◌/◌, ◌%◌, ◌^◌, Bool, Option, none, some, List, [], ◌∷◌, ◌==◌, if◌then◌else◌,
  bit_and, word_mod,
}

-- `dma_list_t`
pub record Descriptor : Type 0 where
  pub sattr : ℕ
  pub src : ℕ
  pub dattr : ℕ
  pub dest : ℕ
  pub enlndar : ℕ
  pub nlndar : ℕ
  pub length : ℕ

-- `uspace_dma_t`, with the registers of its engine that are used
pub record Dma : Type 0 where
  pub list_index : ℕ
  pub phys_addr : ℕ
  pub dma_list : ℕ → Descriptor
  pub sr : ℕ
  pub mr : ℕ
  pub clndar : ℕ
  pub eclndar : ℕ

-- What `fsl_uspace_dma_add_entry` is given.
pub record Entry : Type 0 where
  pub src : ℕ
  pub dest : ℕ
  pub length : ℕ

pub data DmaCode : Type 0 where
  dma_success dma_list_full dma_busy : DmaCode

-- MAX_DMA_ENTRIES, and the size of a descriptor
abbrev pub max_dma_entries : ℕ
max_dma_entries = 144

abbrev pub descriptor_size : ℕ
descriptor_size = 32

abbrev pub put_descriptor : ℕ → Descriptor → (ℕ → Descriptor) → ℕ → Descriptor
put_descriptor i d list j = if j == i then d else list j

-- The descriptor for an entry, at an index of the list.
abbrev pub described : ℕ → ℕ → Entry → Descriptor
described phys i e = record {
  sattr = 0x50000;
  src = e.src % word_mod;
  dattr = bit_or 0x50000 (bit_and (e.dest / 2 ^ 32) 0xf);
  dest = e.dest % word_mod;
  enlndar = 0;
  nlndar = (phys + (i + 1) * descriptor_size) % word_mod;
  length = e.length;
}

-- `fsl_uspace_dma_list_clear`
unfoldable pub list_clear : Dma → Dma
list_clear d = record d { list_index = 0 }

-- `fsl_uspace_dma_add_entry`
unfoldable pub add_entry : Entry → Dma → DmaCode × Dma
add_entry e d = if d.list_index == max_dma_entries then (dma_list_full, d) else (
  dma_success,
  record d {
    dma_list = put_descriptor d.list_index (described d.phys_addr d.list_index e) d.dma_list;
    list_index = d.list_index + 1;
  },
)

-- `fsl_uspace_dma_busy`
unfoldable pub is_busy : Dma → Bool
is_busy d = bit_and d.sr 4 == 4

-- `fsl_uspace_dma_start`; none stands for the write in front of the list when it is empty.
unfoldable pub start : Dma → Option (DmaCode × Dma)
unfolding is_busy
start d =
    let last = d.list_index - 1 in
    if is_busy d
    then some (dma_busy, d)
    else if d.list_index == 0
    then none
    else some (
      dma_success,
      record d {
        list_index = last;
        dma_list = put_descriptor last (record (d.dma_list last) { nlndar = 1 }) d.dma_list;
        eclndar = 0;
        clndar = d.phys_addr % word_mod;
        mr = 0x08200001;
      },
    )

-- Entries added one after the other, as the callers do, which ignore the code.
unfoldable pub add_entries : List Entry → Dma → Dma
unfolding add_entry
add_entries [] d = d
add_entries (e ∷ es) d = add_entries es (add_entry e d).1
