-- ===== src/Ipc/Block.antt =====
-- The blocking receive.
use enb_l1_b4860_ppc.Common.{
  ℕ, ◌+◌, ◌-◌, ◌%◌, ◌^◌, ◌≤◌, ◌<◌, ◌≡◌, ◌≢◌, refl, ap, ◌∙◌, Bool, none, arith, bit_and, pow-suc,
  zero, suc,
}
use enb_l1_b4860_ppc.Common.Bits.{bit_and-zero}
use enb_l1_b4860_ppc.Ipc.{success, channel_empty, Ipc, recv_ptr, recv_ptr_block}

-- `1 << channel_id` has no bit that is set from 32 on.
beyond_word : (k : ℕ) → 2 ^ (k + 32) % 2 ^ 32 ≡ 0
beyond_word zero = refl
beyond_word (suc k) =
    let e : 2 ^ (suc k + 32) ≡ 2 ^ suc (k + 32) = ap (λ (n : ℕ). 2 ^ n) (omega arith) in
    omega (arith, beyond_word k, e, pow-suc 2 (k + 32))

high_bit : (id : ℕ) → 32 ≤ id → 2 ^ id % 2 ^ 32 ≡ 0
high_bit id h =
    let e : id ≡ id - 32 + 32 = omega arith in
    ap (λ (n : ℕ). 2 ^ n % 2 ^ 32) e ∙ beyond_word (id - 32)

module _ (lock : ℕ → Bool) (p2v : ℕ → ℕ) where
  -- On a channel from 32 on that has nothing to receive at once, `fsl_ipc_recv_ptr_block` returns
  -- -ERR_CHANNEL_EMPTY when the device wakes it, whatever the device reports and whatever is in the
  -- ring by then.
  pub recv_ptr_block-high :
      (id got ready_mask : ℕ) (ipc woken : Ipc)
      → 32 ≤ id
      → id < ipc.max_channels
      → (recv_ptr lock p2v id ipc).0 ≢ success
      → recv_ptr_block lock p2v id ipc got ready_mask woken ≡ (channel_empty, none, woken)
  unfolding recv_ptr_block
  recv_ptr_block-high id got ready_mask ipc woken h k empty =
      let masked : bit_and ready_mask (2 ^ id % 2 ^ 32) ≡ 0 =
        ap (λ (t : ℕ). bit_and ready_mask t) (high_bit id h) ∙ bit_and-zero ready_mask in
      ground (arith, masked)
