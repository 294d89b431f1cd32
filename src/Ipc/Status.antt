-- ===== src/Ipc/Status.antt =====
-- What `fsl_ipc_chk_recv_status` reports.
use Prim.Native.Nat.{bit_or}
use enb_l1_b4860_ppc.Common.{
  ℕ, ◌-◌, ◌^◌, ◌≤◌, ◌≡◌, ◌≢◌, ◌↔◌, Bool, true, false, not, ◌&&◌, ◌||◌, List, [], ◌∷◌, ◌==◌,
  if◌then◌else◌, arith, ◌⊎◌, inl, inr, ℕ_discrete,
}
use enb_l1_b4860_ppc.Common.Testbit.{
  testbit, testbit-or, testbit_le, testbit-zero, testbit-pow_self, testbit-pow_ne,
}
use enb_l1_b4860_ppc.Channel.{is_empty}
use enb_l1_b4860_ppc.Ipc.{UsChannel, Ipc, channel_at, recv_status, chk_recv_status}

-- Whether one of these configured channels has the identifier and a descriptor that waits.
unfoldable pub is_ready : Ipc → ℕ → List UsChannel → Bool
is_ready ipc id [] = false
is_ready ipc id (ch ∷ chs) =
    (ch.channel_id == id && not (is_empty (channel_at ipc ch.channel_id))) || is_ready ipc id chs

-- Every identifier has a bit in the mask.
unfoldable pub HaveBits : List UsChannel → Type 0
HaveBits [] = Unit
HaveBits (ch ∷ chs) = (ch.channel_id ≤ 63) × HaveBits chs

own_bit :
    (id c : ℕ)
    → id ≤ 63
    → c ≤ 63
    → ((c ≡ id) × (testbit (63 - id) (2 ^ (63 - c)) ≡ 1))
      ⊎ ((c ≢ id) × (testbit (63 - id) (2 ^ (63 - c)) ≡ 0))
own_bit id c small le = elim (ℕ_discrete c id) [
  | yes e ↦ inl (e, rw e (testbit-pow_self (63 - id)))
  | no ne ↦ inr (ne, testbit-pow_ne (63 - id) (63 - c) (omega arith))
]

module _ (ipc : Ipc) (id : ℕ) (small : id ≤ 63) where
  recv_status-bit :
      (chs : List UsChannel) (bmask : ℕ)
      → HaveBits chs
      → (testbit (63 - id) (recv_status ipc chs bmask) ≡ 1)
        ↔ ((testbit (63 - id) bmask ≡ 1) ⊎ (is_ready ipc id chs ≡ true))
  unfolding recv_status is_ready HaveBits
  recv_status-bit [] bmask h = ground arith
  recv_status-bit (ch ∷ chs) bmask (le, h) =
      let bit = 2 ^ (63 - ch.channel_id) in
      ground (
        arith,
        recv_status-bit chs bmask h,
        recv_status-bit chs (bit_or bmask bit) h,
        testbit-or (63 - id) bmask bit,
        testbit_le (63 - id) bmask,
        own_bit id ch.channel_id small le,
      )

  -- What the mask starts with: the bit of channel 0.
  first_bit :
      (testbit (63 - id) (if not (is_empty (channel_at ipc 0)) then 2 ^ 63 else 0) ≡ 1)
      ↔ ((id ≡ 0) × (is_empty (channel_at ipc 0) ≡ false))
  first_bit = ground (arith, testbit-zero (63 - id), own_bit id 0 small (omega arith))

  -- The bit of channel `id` in the mask that `fsl_ipc_chk_recv_status` stores, counted from the
  -- highest, is set exactly if a descriptor waits on it, and the process has configured the channel
  -- or it is channel 0; the identifiers of the configured channels are at most 63.
  pub chk_recv_status-bit :
      HaveBits ipc.us_channels
      → (testbit (63 - id) (chk_recv_status ipc) ≡ 1) ↔ (
          ((id ≡ 0) × (is_empty (channel_at ipc 0) ≡ false))
          ⊎ (is_ready ipc id ipc.us_channels ≡ true))
  unfolding chk_recv_status
  chk_recv_status-bit h =
      let start = if not (is_empty (channel_at ipc 0)) then 2 ^ 63 else 0 in
      ground (arith, recv_status-bit ipc.us_channels start h, first_bit)
