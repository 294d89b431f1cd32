-- ===== src/Ipc/Access.antt =====
-- Reading and writing the channels of the shared control area.
use enb_l1_b4860_ppc.Common.{
  ℕ, ◌<◌, ◌≡◌, refl, ◌≢◌, arith, length, length-set, get_or-set_self, get_or-set_ne,
}
use enb_l1_b4860_ppc.Channel.{Channel}
use enb_l1_b4860_ppc.Ipc.{Ipc, no_channel, channel_at, put_channel, generate_indication}

pub channel_at-put_self :
    (ipc : Ipc) (i : ℕ) (ch : Channel)
    → i < length ipc.channels
    → channel_at (put_channel ipc i ch) i ≡ ch
unfolding channel_at put_channel
channel_at-put_self ipc i ch h = get_or-set_self ipc.channels i ch no_channel h

pub channel_at-put_ne :
    (ipc : Ipc) (i j : ℕ) (ch : Channel)
    → i ≢ j
    → channel_at (put_channel ipc i ch) j ≡ channel_at ipc j
unfolding channel_at put_channel
channel_at-put_ne ipc i j ch h = get_or-set_ne ipc.channels i j ch no_channel h

pub length-put :
    (ipc : Ipc) (i : ℕ) (ch : Channel)
    → length (put_channel ipc i ch).channels ≡ length ipc.channels
unfolding put_channel
length-put ipc i ch = length-set ipc.channels i ch

-- An indication changes nothing but the DSP's registers.
pub channel_at-indication :
    (ch : Channel) (ipc : Ipc) (i : ℕ)
    → channel_at (generate_indication ch ipc) i ≡ channel_at ipc i
unfolding channel_at generate_indication
channel_at-indication ch ipc i = ground arith

pub indication-frame :
    (ch : Channel) (ipc : Ipc)
    → ((generate_indication ch ipc).channels ≡ ipc.channels)
      × ((generate_indication ch ipc).max_channels ≡ ipc.max_channels)
      × ((generate_indication ch ipc).memory ≡ ipc.memory)
unfolding generate_indication
indication-frame ch ipc = ground arith

pub put-frame :
    (ipc : Ipc) (i : ℕ) (ch : Channel)
    → ((put_channel ipc i ch).max_channels ≡ ipc.max_channels)
      × ((put_channel ipc i ch).memory ≡ ipc.memory)
      × ((put_channel ipc i ch).registers ≡ ipc.registers)
unfolding put_channel
put-frame ipc i ch = (refl, refl, refl)
