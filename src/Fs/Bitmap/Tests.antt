-- ===== src/Fs/Bitmap/Tests.antt =====
-- A device of one map block of 1024 bytes, and the theorems of the bit maps on it.
use sdios.Prelude.{
  ℕ, zero, suc, ◌≡◌, ◌≢◌, ◌<◌, refl, false, Option, none, some, ◌∷◌, arith, ◌==◌, if◌then◌else◌,
  replicate,
}
use sdios.Fs.Words.{conv2}
use sdios.Fs.Bits.{bit_of, lowest_clear}
use sdios.Fs.Super.{SuperBlock}
use sdios.Fs.Bitmap.{imap, Store, alloc_bit, free_bit, map_bits, bit_blocks, start_block}
use sdios.Fs.Bitmap.Scan.{AllWords, used}
use sdios.Fs.Bitmap.Alloc.{IsMap, map_bit, alloc_bit-found, alloc_bit-full, alloc_bit-succeeds}
use sdios.Fs.Bitmap.Free.{free_bit-alloc_bit}

abbrev pub floppy : SuperBlock
floppy = record {
  ninodes = 40;
  nzones = 0;
  imap_blocks = 1;
  zmap_blocks = 1;
  firstdatazone = 10;
  log_zone_size = 0;
  max_size = 100000;
  zones = 60;
  magic = 0x2468;
  block_size = 1024;
  isup = none;
  imount = none;
  inodes_per_block = 16;
  dev = 0x301;
  rd_only = false;
  native = false;
  version = 2;
  ndzones = 7;
  nindirs = 256;
  isearch = 0;
  zsearch = 0;
}

-- Inodes 0 to 18 are in use; the words are stored in the other byte order.
abbrev pub fresh : Store
fresh = record { words = λ i. 0xffff ∷ 0x0700 ∷ replicate 510 0; dirty = λ i. false }

-- The bit that a call returns, and the store that it leaves behind; a panic is 0 and no change.
number : Option (ℕ × Store) → ℕ
number none = 0
number (some (b, s)) = b

store_after : Option (ℕ × Store) → Store
store_after none = fresh
store_after (some (b, s)) = s

abbrev taken : Store
taken = store_after (alloc_bit floppy imap 35 fresh)

-- The search starts at the word of the origin; from 41, which is past the end, it starts at 0.
from_origin : number (alloc_bit floppy imap 35 fresh) ≡ 32
unfolding number alloc_bit lowest_clear conv2
from_origin = refl

past_the_end : number (alloc_bit floppy imap 41 fresh) ≡ 19
unfolding number alloc_bit lowest_clear conv2
past_the_end = refl

pub AllWords-replicate : (n : ℕ) → AllWords (replicate n 0)
AllWords-replicate zero = tt
AllWords-replicate (suc n) = (omega arith, AllWords-replicate n)

pub fresh-IsMap : IsMap floppy imap fresh
unfolding bit_blocks start_block map_bits
fresh-IsMap = record {
  words_fit = λ i h. (omega arith, (omega arith, AllWords-replicate 510));
  whole = λ i h. refl;
  bits_fit = omega arith;
  not_empty = omega arith;
  block_size = omega arith;
}

-- Every inode is in use.
abbrev pub full : Store
full = record { words = λ i. replicate 512 0xffff; dirty = λ i. false }

pub AllWords-ones : (n : ℕ) → AllWords (replicate n 0xffff)
AllWords-ones zero = tt
AllWords-ones (suc n) = (omega arith, AllWords-ones n)

full-IsMap : IsMap floppy imap full
unfolding bit_blocks start_block map_bits
full-IsMap = record {
  words_fit = λ i h. AllWords-ones 512;
  whole = λ i h. refl;
  bits_fit = omega arith;
  not_empty = omega arith;
  block_size = omega arith;
}

alloc_35 : alloc_bit floppy imap 35 fresh ≡ some (32, taken)
unfolding store_after alloc_bit lowest_clear conv2
alloc_35 = refl

alloc_bit-found_example :
    (32 < map_bits floppy imap)
    × (map_bit floppy imap fresh 32 ≡ 0)
    × ((c : ℕ) → map_bit floppy imap taken c ≡ (if c == 32 then 1 else map_bit floppy imap fresh c))
alloc_bit-found_example =
    alloc_bit-found floppy imap 35 fresh 32 taken fresh-IsMap alloc_35 (omega arith)

alloc_bit-full_example :
    (full ≡ full) × ((c : ℕ) → c < map_bits floppy imap → map_bit floppy imap full c ≡ 1)
unfolding alloc_bit map_bit used conv2 bit_of bit_blocks start_block
alloc_bit-full_example = alloc_bit-full floppy imap 0 full full full-IsMap refl refl

alloc_bit-succeeds_example :
    (b : ℕ) × (s' : Store) × (alloc_bit floppy imap 5 fresh ≡ some (b, s')) × (b ≢ 0)
unfolding alloc_bit map_bit used conv2 bit_of map_bits
alloc_bit-succeeds_example =
    alloc_bit-succeeds floppy imap 5 fresh 20 fresh-IsMap refl refl (omega arith) refl

free_bit-alloc_bit_example :
    (s'' : Store) × (free_bit floppy imap 32 taken ≡ some s'')
    × ((c : ℕ) → map_bit floppy imap s'' c ≡ map_bit floppy imap fresh c)
free_bit-alloc_bit_example =
    free_bit-alloc_bit floppy imap 35 fresh 32 taken fresh-IsMap refl alloc_35 (omega arith)
