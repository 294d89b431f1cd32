-- ===== src/Fapi/Frames.antt =====
-- The number of a subframe in one word: the macros of fapi_interface.h.
use Prim.Native.Nat.{bit_or}
use enb_l1_b4860_ppc.Common.{
  ℕ, ◌+◌, ◌-◌, ◌*◌, ◌/◌, ◌%◌, ◌^◌, ◌<◌, ◌≡◌, ap, ◌∙◌, arith, bit_and, word_mod,
}
use enb_l1_b4860_ppc.Common.Bits.{bit_and_mask}
use enb_l1_b4860_ppc.Common.Testbit.{or_fields}
use enb_l1_b4860_ppc.Fapi.Messages.{sfn_sf}

-- FAPI_SFNSF2SFN, FAPI_SFNSF2SF, FAPI_SFNSF2DEC, FAPI_SFNSFDEC2SFNSF
abbrev pub sfnsf2sfn : ℕ → ℕ
sfnsf2sfn x = x / 16

abbrev pub sfnsf2sf : ℕ → ℕ
sfnsf2sf x = bit_and x 0xf

unfoldable pub sfnsf2dec : ℕ → ℕ
sfnsf2dec x = ((x / 16) * 10 + bit_and x 0xf) % word_mod

unfoldable pub sfnsfdec2sfnsf : ℕ → ℕ
sfnsfdec2sfnsf d = bit_or (d / 10 * 16 % word_mod) (bit_and (d - d / 10 * 10) 0xf)

-- In a word, with a subframe below 16.
pub sfn_sf-sum :
    (frame subframe : ℕ)
    → frame < 2 ^ 28
    → subframe < 16
    → sfn_sf frame subframe ≡ frame * 16 + subframe
unfolding sfn_sf
sfn_sf-sum frame subframe hf hs =
    let word : frame * 16 % word_mod ≡ frame * 16 = omega arith in
    ap (λ (t : ℕ). bit_or t subframe) word ∙ or_fields 4 frame subframe hs

low_four : (x : ℕ) → bit_and x 0xf ≡ x % 16
low_four x = bit_and_mask 4 x

-- For a frame below 2 ^ 28 and a subframe below 16, the word that the requests carry gives them back
-- by the macros FAPI_SFNSF2SFN and FAPI_SFNSF2SF; the number of a subframe goes to such a word and
-- back by FAPI_SFNSFDEC2SFNSF and FAPI_SFNSF2DEC, if it is below 10 * 2 ^ 28.
pub sfn_sf-roundtrip :
    (frame subframe dec : ℕ)
    → frame < 2 ^ 28
    → subframe < 16
    → dec < 10 * 2 ^ 28
    → (sfnsf2sfn (sfn_sf frame subframe) ≡ frame)
      × (sfnsf2sf (sfn_sf frame subframe) ≡ subframe)
      × (sfnsf2dec (sfnsfdec2sfnsf dec) ≡ dec)
unfolding sfnsf2dec sfnsfdec2sfnsf
sfn_sf-roundtrip frame subframe dec hf hs hd =
    let sum = sfn_sf-sum frame subframe hf hs in
    let word : dec / 10 * 16 % word_mod ≡ dec / 10 * 16 = omega arith in
    let digit : bit_and (dec - dec / 10 * 10) 0xf ≡ dec % 10 =
      low_four (dec - dec / 10 * 10) ∙ omega arith in
    let parts : bit_or (dec / 10 * 16 % word_mod) (bit_and (dec - dec / 10 * 10) 0xf)
        ≡ dec / 10 * 16 + dec % 10 =
      rw (word, digit) (or_fields 4 (dec / 10) (dec % 10) (omega arith)) in
    (
      omega (arith, sum),
      low_four (sfn_sf frame subframe) ∙ omega (arith, sum),
      rw (parts, low_four (dec / 10 * 16 + dec % 10)) (omega arith),
    )
