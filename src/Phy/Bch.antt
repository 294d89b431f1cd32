-- ===== src/Phy/Bch.antt =====
-- The master information block that phy_common_encode_bch packs.
use Prim.Native.Nat.{bit_or}
use enb_l1_b4860_ppc.Common.{ℕ, ◌+◌, ◌*◌, ◌/◌, ◌%◌, ◌^◌, ◌<◌, ◌≡◌, ap, ◌∙◌, arith, bit_and}
use enb_l1_b4860_ppc.Common.Bits.{halves, bit_and_mask}
use enb_l1_b4860_ppc.Allocator.Align.{clear_low}
use enb_l1_b4860_ppc.Common.Testbit.{or_fields}
use enb_l1_b4860_ppc.Phy.{Cell, bandwidth_code, pbch_first, pbch_second}

bandwidth_code-small : (n : ℕ) → bandwidth_code n < 5
unfolding bandwidth_code
bandwidth_code-small n = ground arith

-- The parameters of a cell that the fields can hold.
pub record IsCell (cell : Cell) : Type 0 where
  pub duration : cell.phich_duration < 2
  pub resource : cell.phich_resource < 4

-- The first byte is the sum of its fields, each in its place.
pbch_first-sum :
    (cell : Cell) (frame : ℕ)
    → IsCell cell
    → frame < 1024
    → pbch_first cell frame
      ≡ ((bandwidth_code cell.dl_channel_bandwidth * 2 + cell.phich_duration) * 4
            + cell.phich_resource)
          * 4
        + frame / 256
unfolding pbch_first
pbch_first-sum cell frame v h =
    let b = bandwidth_code cell.dl_channel_bandwidth in
    let d = cell.phich_duration in
    let s = cell.phich_resource in
    let d_field : bit_and (d * 16) 0x10 ≡ d * 16 =
      let same : d * 16 ≡ d * 2 ^ 4 + 0 = omega arith in
      ap (λ (t : ℕ). bit_and t 0x10) same
      ∙ clear_low 1 4 d 0 (omega (arith, v.duration)) (omega arith) in
    let s_field : s * 4 % 256 ≡ s * 4 = omega (arith, v.resource) in
    let f_field : bit_and (frame / 256) 3 ≡ frame / 256 =
      bit_and_mask 2 (frame / 256) ∙ omega arith in
    let one : bit_or (b * 32) (d * 16) ≡ (b * 2 + d) * 16 =
      or_fields 5 b (d * 16) (omega (arith, v.duration)) ∙ omega arith in
    let two : bit_or ((b * 2 + d) * 16) (s * 4) ≡ ((b * 2 + d) * 4 + s) * 4 =
      or_fields 4 (b * 2 + d) (s * 4) (omega (arith, v.resource)) ∙ omega arith in
    rw (d_field, s_field, f_field, one, two)
      (or_fields 2 ((b * 2 + d) * 4 + s) (frame / 256) (omega arith))

low_byte : (x : ℕ) → x < 2 ^ 10 → bit_and x 0xfc ≡ x / 4 * 4 % 256
low_byte x h = ground (arith, halves x 252, halves (x / 2) 126, bit_and_mask 6 (x / 2 / 2))

-- The two bytes give back, as the master information block lays them out, the code of the bandwidth
-- in the three highest bits, then the PHICH's duration and resource, and the eight highest bits of
-- the frame, if the frame is below 1024, the duration below 2 and the resource below 4.
pub pbch-fields :
    (cell : Cell) (frame : ℕ)
    → IsCell cell
    → frame < 1024
    → (pbch_first cell frame / 32 ≡ bandwidth_code cell.dl_channel_bandwidth)
      × (pbch_first cell frame / 16 % 2 ≡ cell.phich_duration)
      × (pbch_first cell frame / 4 % 4 ≡ cell.phich_resource)
      × ((pbch_first cell frame % 4) * 64 + pbch_second frame / 4 ≡ frame / 4)
      × (pbch_first cell frame < 256)
unfolding pbch_second
pbch-fields cell frame v h =
    let sum = pbch_first-sum cell frame v h in
    let code = bandwidth_code-small cell.dl_channel_bandwidth in
    (
      omega (arith, sum, v.duration, v.resource),
      omega (arith, sum, v.duration, v.resource),
      omega (arith, sum, v.duration, v.resource),
      omega (arith, sum, low_byte frame h),
      omega (arith, sum, v.duration, v.resource, code),
    )
