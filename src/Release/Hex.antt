-- ===== src/Release/Hex.antt =====
-- The form of the digest of src/laion_sieve/pass_release_contract.h.
use booleann.Base.{
  ℕ, ◌/◌, ◌%◌, ◌^◌, ◌<◌, ◌≡◌, refl, true, ◌&&◌, ◌||◌, List, [], ◌∷◌, ◌++◌, leb, length, arith,
}
use booleann.Release.{all_hex}
use booleann.Release.Sha256.{
  Hash, hex_digit, hex_word, hex_hash, hash_blocks, padded, initial, sha256_hex,
}

all_hex-append :
    (xs ys : List ℕ) → all_hex xs ≡ true → all_hex ys ≡ true → all_hex (xs ++ ys) ≡ true
unfolding all_hex
all_hex-append [] ys h k = k
all_hex-append (x ∷ xs) ys h k = ground (arith, all_hex-append xs ys)

digit-hex :
    (n : ℕ)
    → n < 16
    → ((leb 48 (hex_digit n) && leb (hex_digit n) 57)
        || (leb 97 (hex_digit n) && leb (hex_digit n) 102))
      ≡ true
digit-hex n h = ground arith

all_hex-word : (n : ℕ) → all_hex (hex_word n) ≡ true
unfolding all_hex hex_word
all_hex-word n =
    rw
      (
        digit-hex (n / 2 ^ 28 % 16) (omega arith),
        digit-hex (n / 2 ^ 24 % 16) (omega arith),
        digit-hex (n / 2 ^ 20 % 16) (omega arith),
        digit-hex (n / 2 ^ 16 % 16) (omega arith),
        digit-hex (n / 2 ^ 12 % 16) (omega arith),
        digit-hex (n / 2 ^ 8 % 16) (omega arith),
        digit-hex (n / 2 ^ 4 % 16) (omega arith),
        digit-hex (n % 16) (omega arith),
      )
      refl

all_hex-hash : (x : Hash) → (length (hex_hash x) ≡ 64) × (all_hex (hex_hash x) ≡ true)
unfolding hex_hash
all_hex-hash x = (
  refl,
  all_hex-append (hex_word x.a) _ (all_hex-word x.a) (
      all_hex-append (hex_word x.b) _ (all_hex-word x.b) (
        all_hex-append (hex_word x.c) _ (all_hex-word x.c) (
          all_hex-append (hex_word x.d) _ (all_hex-word x.d) (
            all_hex-append (hex_word x.e) _ (all_hex-word x.e) (
              all_hex-append (hex_word x.f) _ (all_hex-word x.f)
                (all_hex-append (hex_word x.g) _ (all_hex-word x.g) (all_hex-word x.h))))))),
)

-- The digest of every text passes the form that a release needs: 64 lowercase hexadecimal digits.
pub sha256_hex-all_hex :
    (input : List ℕ) → (length (sha256_hex input) ≡ 64) × (all_hex (sha256_hex input) ≡ true)
unfolding sha256_hex
sha256_hex-all_hex input =
    all_hex-hash (hash_blocks (length (padded input) / 64) (padded input) initial)
