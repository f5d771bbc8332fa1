-- ===== src/EliasFano/Tests.antt =====
-- An object of three rows, encoded and decoded, and the theorems of the Elias-Fano codec at it.
use booleann.Base.{
  ℕ, ◌+◌, ◌*◌, ◌/◌, ◌^◌, ◌≤◌, ◌<◌, ◌≡◌, ◌↔◌, refl, true, ◌||◌, some, [], ◌∷◌, arith, pos,
}
use booleann.Base.Ordered.{IsSupport, contains}
use booleann.EliasFano.{
  ok, bad_input_order, Account, Directory, universe, account_for, validate_directory,
}
use booleann.EliasFano.Sizes.{account_for-IsEnough}
use booleann.EliasFano.Accepted.{Fits, validate_directory_iff}
use booleann.EliasFano.Encode.{Encoded, Destination, encode_sorted, ranges_overlap}
use booleann.EliasFano.Union.{union_ids}
use booleann.EliasFano.Decode.{decode, pass, decode_rows, next, finish}
use booleann.EliasFano.Decoded.{IsWhole, decode-IsWhole}
use booleann.EliasFano.Overlap.{ranges_overlap_iff}
use booleann.EliasFano.Merged.{union_ids_iff}

abbrev destination : Destination
destination = record {
  owner = λ _. 9;
  owner_address = 4096;
  owner_bytes = 64;
  payload_offset = 8;
  directory_address = 1024;
}

abbrev encoded : Encoded
encoded = encode_sorted 1 (some (pos 3 ∷ pos 700000 ∷ pos 700001 ∷ [])) 2048 destination true

abbrev directory : Directory
directory = record {
  low_offset = 8;
  high_offset = 16;
  rows = 3;
  lower_bits = 18;
  version = 1;
  reserved = 0;
}

encoded_run : (encoded.status ≡ ok) × (encoded.directory ≡ some directory)
unfolding encode_sorted account_for
encoded_run = (refl, refl)

round_trip :
    (decode 1 (some directory) (some encoded.owner) 64 (some 3) true).output
    ≡ 3 ∷ 700000 ∷ 700001 ∷ []
unfolding encode_sorted decode validate_directory account_for pass decode_rows next finish
round_trip = refl

unsorted_run :
    (encode_sorted 1 (some (pos 3 ∷ pos 3 ∷ [])) 2048 destination true).status ≡ bad_input_order
unfolding encode_sorted
unsorted_run = refl

account_for-IsEnough_example :
    (a : Account) × (account_for 3 ≡ some a)
    × (8 * a.payload_bytes < 3 * (a.lower_bits + 3) + 128)
    × ((index id : ℕ)
        → index < 3
        → id < universe
        → (index * a.lower_bits + a.lower_bits ≤ 8 * a.low_bytes)
          × (id / 2 ^ a.lower_bits + index < 8 * a.high_bytes))
account_for-IsEnough_example = account_for-IsEnough 3 (omega arith) (omega arith)

abbrev sizes : Account
sizes = record {
  lower_bits = 18;
  low_bits = 54;
  high_bits = 6;
  low_bytes = 8;
  high_bytes = 8;
  payload_bytes = 16;
}

directory-Fits : Fits directory sizes 64
directory-Fits = record {
  format = (refl, refl);
  aligned = (refl, refl);
  lower = refl;
  adjacent = refl;
  inside = omega arith;
}

validate_directory_iff_example :
    (validate_directory directory 64 ≡ some sizes)
    ↔ ((account_for 3 ≡ some sizes) × Fits directory sizes 64)
validate_directory_iff_example =
    validate_directory_iff directory 64 sizes (omega arith) (omega arith) (omega arith)

decode-IsWhole_example :
    IsWhole 3 3 (decode 1 (some directory) (some encoded.owner) 64 (some 3) true)
decode-IsWhole_example = decode-IsWhole 1 directory encoded.owner 64 3

union_ids_iff_example :
    IsSupport 0 universe (union_ids (1 ∷ 4 ∷ []) (4 ∷ 6 ∷ []))
    × ((a : ℕ)
        → contains (union_ids (1 ∷ 4 ∷ []) (4 ∷ 6 ∷ [])) a
          ≡ (contains (1 ∷ 4 ∷ []) a || contains (4 ∷ 6 ∷ []) a))
union_ids_iff_example =
    union_ids_iff (1 ∷ 4 ∷ []) (4 ∷ 6 ∷ [])
      ((omega arith, (omega arith, tt)), (omega arith, (omega arith, tt)))
      ((omega arith, (omega arith, tt)), (omega arith, (omega arith, tt)))

ranges_overlap_iff_example :
    (ranges_overlap 8 8 12 4 ≡ true)
    ↔ ((address : ℕ) × (8 ≤ address) × (address < 8 + 8) × (12 ≤ address) × (address < 12 + 4))
ranges_overlap_iff_example =
    ranges_overlap_iff 8 8 12 4 (omega arith) (omega arith) (omega arith) (omega arith)
