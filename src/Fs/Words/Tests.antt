-- ===== src/Fs/Words/Tests.antt =====
-- Inputs for Fs/Words.
use sdios.Prelude.{◌≡◌, refl, false}
use sdios.Fs.Words.{conv2, conv4}

super_rev : conv2 false 0x137f ≡ 0x7f13
unfolding conv2
super_rev = refl

bytes_reversed : conv4 false 0x11223344 ≡ 0x44332211
unfolding conv4
bytes_reversed = refl
