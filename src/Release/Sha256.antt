-- ===== src/Release/Sha256.antt =====
-- src/laion_sieve/pass_release_contract.h: `sha256_hex`. Words are 32-bit numbers; the eight words of the
-- hash and the working words are a record.
use Prim.Native.Nat.{bit_and, bit_or, bit_xor}
use booleann.Base.{
  ℕ, zero, suc, ◌+◌, ◌-◌, ◌*◌, ◌/◌, ◌%◌, ◌^◌, List, [], ◌∷◌, ◌++◌, ltb, if◌then◌else◌, length,
  get_or, replicate,
}

abbrev u32 : ℕ → ℕ
u32 x = x % 2 ^ 32

unfoldable pub rotate_right : ℕ → ℕ → ℕ
rotate_right value count = bit_or (value / 2 ^ count) (u32 (value * 2 ^ (32 - count)))

abbrev xor3 : ℕ → ℕ → ℕ → ℕ
xor3 x y z = bit_xor (bit_xor x y) z

-- `constants`
abbrev constants : List ℕ
constants =
    0x428a2f98 ∷ 0x71374491 ∷ 0xb5c0fbcf ∷ 0xe9b5dba5 ∷ 0x3956c25b ∷ 0x59f111f1 ∷ 0x923f82a4
    ∷ 0xab1c5ed5 ∷ 0xd807aa98 ∷ 0x12835b01 ∷ 0x243185be ∷ 0x550c7dc3 ∷ 0x72be5d74 ∷ 0x80deb1fe
    ∷ 0x9bdc06a7 ∷ 0xc19bf174 ∷ 0xe49b69c1 ∷ 0xefbe4786 ∷ 0x0fc19dc6 ∷ 0x240ca1cc ∷ 0x2de92c6f
    ∷ 0x4a7484aa ∷ 0x5cb0a9dc ∷ 0x76f988da ∷ 0x983e5152 ∷ 0xa831c66d ∷ 0xb00327c8 ∷ 0xbf597fc7
    ∷ 0xc6e00bf3 ∷ 0xd5a79147 ∷ 0x06ca6351 ∷ 0x14292967 ∷ 0x27b70a85 ∷ 0x2e1b2138 ∷ 0x4d2c6dfc
    ∷ 0x53380d13 ∷ 0x650a7354 ∷ 0x766a0abb ∷ 0x81c2c92e ∷ 0x92722c85 ∷ 0xa2bfe8a1 ∷ 0xa81a664b
    ∷ 0xc24b8b70 ∷ 0xc76c51a3 ∷ 0xd192e819 ∷ 0xd6990624 ∷ 0xf40e3585 ∷ 0x106aa070 ∷ 0x19a4c116
    ∷ 0x1e376c08 ∷ 0x2748774c ∷ 0x34b0bcb5 ∷ 0x391c0cb3 ∷ 0x4ed8aa4a ∷ 0x5b9cca4f ∷ 0x682e6ff3
    ∷ 0x748f82ee ∷ 0x78a5636f ∷ 0x84c87814 ∷ 0x8cc70208 ∷ 0x90befffa ∷ 0xa4506ceb ∷ 0xbef9a3f7
    ∷ 0xc67178f2 ∷ []

pub record Hash : Type 0 where
  pub a : ℕ
  pub b : ℕ
  pub c : ℕ
  pub d : ℕ
  pub e : ℕ
  pub f : ℕ
  pub g : ℕ
  pub h : ℕ

abbrev pub initial : Hash
initial = record {
  a = 0x6a09e667;
  b = 0xbb67ae85;
  c = 0x3c6ef372;
  d = 0xa54ff53a;
  e = 0x510e527f;
  f = 0x9b05688c;
  g = 0x1f83d9ab;
  h = 0x5be0cd19;
}

-- The eight bytes of the bit count, the highest first.
abbrev big_endian : ℕ → List ℕ
big_endian n =
    n / 2 ^ 56 % 256
    ∷ n / 2 ^ 48 % 256
    ∷ n / 2 ^ 40 % 256
    ∷ n / 2 ^ 32 % 256
    ∷ n / 2 ^ 24 % 256
    ∷ n / 2 ^ 16 % 256
    ∷ n / 2 ^ 8 % 256
    ∷ n % 256
    ∷ []

-- The loop pushes as many zeros as take the size to 56 in its block.
unfoldable pub padded : List ℕ → List ℕ
padded input =
    let size = length input + 1 in
    let bit_count = length input * 8 % 2 ^ 64 in
    input ++ 0x80 ∷ replicate ((120 - size % 64) % 64) 0 ++ big_endian bit_count

-- So many words of four bytes, the highest first; with the bytes behind them.
unfoldable pub block_words : ℕ → List ℕ → List ℕ × List ℕ
block_words zero bytes = ([], bytes)
block_words (suc count) (p ∷ q ∷ r ∷ s ∷ bytes) =
    let rest = block_words count bytes in
    (bit_or (bit_or (bit_or (p * 2 ^ 24) (q * 2 ^ 16)) (r * 2 ^ 8)) s ∷ rest.0, rest.1)
block_words (suc count) bytes = ([], [])

abbrev sigma0 : ℕ → ℕ
sigma0 w = xor3 (rotate_right w 7) (rotate_right w 18) (w / 2 ^ 3)

abbrev sigma1 : ℕ → ℕ
sigma1 w = xor3 (rotate_right w 17) (rotate_right w 19) (w / 2 ^ 10)

-- The words from 16 on; the newest word comes first in the list.
unfoldable pub extend : ℕ → List ℕ → List ℕ
unfolding rotate_right
extend zero newest = newest
extend (suc count) newest =
    let s0 = sigma0 (get_or newest 14 0) in
    let s1 = sigma1 (get_or newest 1 0) in
    extend count (u32 (get_or newest 15 0 + s0 + get_or newest 6 0 + s1) ∷ newest)

abbrev reverse_onto : List ℕ → List ℕ → List ℕ
reverse_onto [] ys = ys
reverse_onto (x ∷ xs) ys = reverse_onto xs (x ∷ ys)

-- One of the 64 rounds.
unfoldable pub round : ℕ → ℕ → Hash → Hash
unfolding rotate_right
round constant word x =
    let upper = xor3 (rotate_right x.e 6) (rotate_right x.e 11) (rotate_right x.e 25) in
    let choose = bit_xor (bit_and x.e x.f) (bit_and (2 ^ 32 - 1 - x.e) x.g) in
    let first = u32 (x.h + upper + choose + constant + word) in
    let lower = xor3 (rotate_right x.a 2) (rotate_right x.a 13) (rotate_right x.a 22) in
    let majority = xor3 (bit_and x.a x.b) (bit_and x.a x.c) (bit_and x.b x.c) in
    let second = u32 (lower + majority) in
    record {
      a = u32 (first + second);
      b = x.a;
      c = x.b;
      d = x.c;
      e = u32 (x.d + first);
      f = x.e;
      g = x.f;
      h = x.g;
    }

unfoldable pub rounds : List ℕ → List ℕ → Hash → Hash
unfolding round
rounds [] words x = x
rounds (constant ∷ more) [] x = x
rounds (constant ∷ more) (word ∷ words) x = rounds more words (round constant word x)

abbrev add : Hash → Hash → Hash
add x y = record {
  a = u32 (x.a + y.a);
  b = u32 (x.b + y.b);
  c = u32 (x.c + y.c);
  d = u32 (x.d + y.d);
  e = u32 (x.e + y.e);
  f = u32 (x.f + y.f);
  g = u32 (x.g + y.g);
  h = u32 (x.h + y.h);
}

-- So many blocks of 64 bytes.
unfoldable pub hash_blocks : ℕ → List ℕ → Hash → Hash
unfolding block_words extend rounds
hash_blocks zero bytes hash = hash
hash_blocks (suc count) bytes hash =
    let block = block_words 16 bytes in
    let words = reverse_onto (extend 48 (reverse_onto block.0 [])) [] in
    hash_blocks count block.1 (add hash (rounds constants words hash))

abbrev pub hex_digit : ℕ → ℕ
hex_digit n = if ltb n 10 then 48 + n else 87 + n

-- `setw(8) << value` in hexadecimal
unfoldable pub hex_word : ℕ → List ℕ
hex_word n =
    hex_digit (n / 2 ^ 28 % 16)
    ∷ hex_digit (n / 2 ^ 24 % 16)
    ∷ hex_digit (n / 2 ^ 20 % 16)
    ∷ hex_digit (n / 2 ^ 16 % 16)
    ∷ hex_digit (n / 2 ^ 12 % 16)
    ∷ hex_digit (n / 2 ^ 8 % 16)
    ∷ hex_digit (n / 2 ^ 4 % 16)
    ∷ hex_digit (n % 16)
    ∷ []

unfoldable pub hex_hash : Hash → List ℕ
unfolding hex_word
hex_hash x =
    hex_word x.a
    ++ hex_word x.b
    ++ hex_word x.c
    ++ hex_word x.d
    ++ hex_word x.e
    ++ hex_word x.f
    ++ hex_word x.g
    ++ hex_word x.h

unfoldable pub sha256_hex : List ℕ → List ℕ
unfolding padded hash_blocks hex_hash
sha256_hex input =
    let bytes = padded input in hex_hash (hash_blocks (length bytes / 64) bytes initial)
