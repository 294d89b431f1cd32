-- ===== src/Fapi/Start/Laws.antt =====
-- Emptying the channel from L1 ends with the channel empty; the DSP is up when it has said so.
use enb_l1_b4860_ppc.Common.{
  ℕ, zero, suc, ◌+◌, ◌-◌, ◌/◌, ◌%◌, ◌^◌, ◌≤◌, ◌<◌, ◌≡◌, ◌↔◌, ◌⊎◌, inl, inr, refl, sym, ap, ◌∙◌,
  Bool, true, false, Option, some, List, [], ◌∷◌, arith, ◌==◌, bit_and, Bool-cases, length,
  ℕ_discrete, subst,
}
use native.Mathlib.Nat.{div-div-eq-div-mul}
use enb_l1_b4860_ppc.Common.Bits.{bit_and_mask, two_pow_suc}
use enb_l1_b4860_ppc.Common.Testbit.{testbit, testbit_le}
use enb_l1_b4860_ppc.Channel.{is_empty}
use enb_l1_b4860_ppc.Channel.Ring.{pending, is_empty_iff, pending-consume, length-contents}
use enb_l1_b4860_ppc.Ipc.{
  Code, success, channel_empty, Ipc, channel_at, recv_ptr, consume, chk_recv_status,
}
use enb_l1_b4860_ppc.Ipc.Ptr.{IsLinked, waiting, consume-IsLinked, consume-channel}
use enb_l1_b4860_ppc.Ipc.Status.{HaveBits, is_ready, chk_recv_status-bit}
use enb_l1_b4860_ppc.Fapi.{ipc_sc2pa_ch_id}
use enb_l1_b4860_ppc.Fapi.Start.{drain, ipc_reset_channel, poll, is_dsp_up}

no_length {ℓ} : {A : Type ℓ} (xs : List A) → length xs ≡ 0 → xs ≡ []
no_length [] h = refl
no_length (x ∷ xs) h = absurd (omega (arith, h))

module _ (lock : ℕ → Bool) (p2v : ℕ → ℕ) (free : lock ipc_sc2pa_ch_id ≡ true) where
  -- How many descriptors wait for the process.
  abbrev left : Ipc → ℕ
  left ipc = pending (channel_at ipc ipc_sc2pa_ch_id)

  recv_ptr-empty :
      (ipc : Ipc)
      → IsLinked ipc_sc2pa_ch_id ipc
      → left ipc ≡ 0
      → ((recv_ptr lock p2v ipc_sc2pa_ch_id ipc).0 ≡ channel_empty)
        × ((recv_ptr lock p2v ipc_sc2pa_ch_id ipc).2 ≡ ipc)
  unfolding recv_ptr
  recv_ptr-empty ipc l h = ground (arith, l, is_empty_iff l.ring)

  recv_ptr-some :
      (ipc : Ipc)
      → IsLinked ipc_sc2pa_ch_id ipc
      → 0 < left ipc
      → (recv_ptr lock p2v ipc_sc2pa_ch_id ipc).0 ≡ success
        × ((recv_ptr lock p2v ipc_sc2pa_ch_id ipc).2 ≡ consume ipc_sc2pa_ch_id ipc)
  unfolding recv_ptr
  recv_ptr-some ipc l h = ground (arith, l, is_empty_iff l.ring)

  left-consume :
      (ipc : Ipc)
      → IsLinked ipc_sc2pa_ch_id ipc
      → 0 < left ipc
      → left (consume ipc_sc2pa_ch_id ipc) ≡ left ipc - 1
  left-consume ipc l h =
      ap pending (consume-channel ipc_sc2pa_ch_id ipc l.in_array) ∙ pending-consume l.ring h

  -- What is left when the channel is drained.
  abbrev pub Drained : Option (Code × Ipc) → Type 0
  Drained r =
      (ipc' : Ipc) × (r ≡ some (channel_empty, ipc'))
      × IsLinked ipc_sc2pa_ch_id ipc'
      × (left ipc' ≡ 0)

  drain-Drained :
      (fuel : ℕ) (ipc : Ipc)
      → IsLinked ipc_sc2pa_ch_id ipc
      → left ipc < fuel
      → Drained (drain lock p2v fuel ipc)
  unfolding drain
  drain-Drained zero ipc l h = absurd (omega arith)
  drain-Drained (suc fuel) ipc l h = elim (Bool-cases (left ipc == 0)) [
    | inl e ↦
        let none_left : left ipc ≡ 0 = ground (arith, e) in
        let (code, same) = recv_ptr-empty ipc l none_left in
        rw (drain, code, same) (ipc, refl, l, none_left)
    | inr e ↦
        let some_left : 0 < left ipc = ground (arith, e) in
        let (code, after) = recv_ptr-some ipc l some_left in
        let ih =
          drain-Drained fuel (consume ipc_sc2pa_ch_id ipc)
            (consume-IsLinked ipc_sc2pa_ch_id l some_left)
            (omega (arith, left-consume ipc l some_left, h)) in
        rw (drain, code, after) ih
  ]

  reset-empty :
      (fuel ch_id : ℕ) (ipc ipc' : Ipc)
      → drain lock p2v fuel ipc ≡ some (channel_empty, ipc')
      → ipc_reset_channel lock p2v fuel ch_id ipc ≡ some (success, ipc')
  unfolding ipc_reset_channel
  reset-empty fuel ch_id ipc ipc' e = rw (ipc_reset_channel, e) refl

  -- On a channel from L1 that both sides have opened, with a valid ring and a free semaphore,
  -- ipc_reset_channel returns 0 after no more rounds than the ring has descriptors and one, and
  -- leaves the channel linked and without any descriptor that waits.
  pub ipc_reset_channel-drains :
      (fuel ch_id : ℕ) (ipc : Ipc)
      → IsLinked ipc_sc2pa_ch_id ipc
      → (channel_at ipc ipc_sc2pa_ch_id).bd_ring_size < fuel
      → (ipc' : Ipc) × (ipc_reset_channel lock p2v fuel ch_id ipc ≡ some (success, ipc'))
        × IsLinked ipc_sc2pa_ch_id ipc'
        × (waiting ipc_sc2pa_ch_id ipc' ≡ [])
  ipc_reset_channel-drains fuel ch_id ipc l h =
      let (ipc', e, l', none_left) = drain-Drained fuel ipc l (omega (arith, l.ring.count, h)) in
      (
        ipc',
        reset-empty fuel ch_id ipc ipc' e,
        l',
        no_length (waiting ipc_sc2pa_ch_id ipc') (length-contents l'.ring ∙ none_left),
      )

-- Channel 0 has a descriptor, or is configured and has one.
abbrev pub SaidSo : Ipc → Type 0
SaidSo ipc = (is_empty (channel_at ipc 0) ≡ false) ⊎ (is_ready ipc 0 ipc.us_channels ≡ true)

testbit-div : (k a : ℕ) → testbit k a ≡ a / 2 ^ k % 2
unfolding testbit
testbit-div zero a = omega arith
testbit-div (suc k) a =
    testbit-div k (a / 2)
    ∙ ap (λ (t : ℕ). t % 2)
        (div-div-eq-div-mul a 2 (2 ^ k) ∙ ap (λ (t : ℕ). a / t) (sym (two_pow_suc k)))

-- One poll.
SaidSo-iff :
    (ipc : Ipc)
    → HaveBits ipc.us_channels
    → ((bit_and (chk_recv_status ipc / 2 ^ 63) 1 == 0) ≡ false) ↔ SaidSo ipc
SaidSo-iff ipc h =
    let mask = chk_recv_status ipc in
    let bit : bit_and (mask / 2 ^ 63) 1 ≡ testbit 63 mask =
      bit_and_mask 1 (mask / 2 ^ 63) ∙ sym (testbit-div 63 mask) in
    ground (arith, bit, chk_recv_status-bit ipc 0 (omega arith) h, testbit_le 63 mask)

poll_to :
    (n i : ℕ) (seen : ℕ → Ipc)
    → ((j : ℕ) → HaveBits (seen j).us_channels)
    → poll n i seen ≡ true
    → (j : ℕ) × (i ≤ j) × (j < i + n) × SaidSo (seen j)
unfolding poll
poll_to zero i seen h e = absurd (ground (arith, e))
poll_to (suc n) i seen h e =
    elim (Bool-cases (bit_and (chk_recv_status (seen i) / 2 ^ 63) 1 == 0)) [
      | inl dark ↦
          let later : poll n (i + 1) seen ≡ true = ground (arith, e, dark) in
          let (j, lo, hi, s) = poll_to n (i + 1) seen h later in (j, omega arith, omega arith, s)
      | inr now ↦ (i, omega arith, omega arith, (SaidSo-iff (seen i) (h i)).0 now)
    ]

poll_from :
    (n i j : ℕ) (seen : ℕ → Ipc)
    → ((k : ℕ) → HaveBits (seen k).us_channels)
    → i ≤ j
    → j < i + n
    → SaidSo (seen j)
    → poll n i seen ≡ true
unfolding poll
poll_from zero i j seen h lo hi s = absurd (omega arith)
poll_from (suc n) i j seen h lo hi s =
    elim (Bool-cases (bit_and (chk_recv_status (seen i) / 2 ^ 63) 1 == 0)) [
      | inl dark ↦ elim (ℕ_discrete i j) [
        | yes same ↦
            let now = (SaidSo-iff (seen i) (h i)).1 (subst (λ k. SaidSo (seen k)) (sym same) s) in
            ground (arith, dark, now)
        | no other ↦
            let later = poll_from n (i + 1) j seen h (omega arith) (omega arith) s in
            ground (arith, dark, later)
      ]
      | inr now ↦ ground (arith, now)
    ]

-- is_dsp_up holds exactly if at one of its 32 polls a descriptor waits on channel 0, given that the
-- identifiers of the configured channels are at most 63.
pub is_dsp_up_iff :
    (seen : ℕ → Ipc)
    → ((j : ℕ) → HaveBits (seen j).us_channels)
    → (is_dsp_up seen ≡ true) ↔ ((j : ℕ) × (j < 32) × SaidSo (seen j))
unfolding is_dsp_up
is_dsp_up_iff seen h = (
  λ e. let (j, lo, hi, s) = poll_to 32 0 seen h e in (j, omega arith, s),
  λ (j, hi, s). poll_from 32 0 j seen h (omega arith) (omega arith) s,
)
