-- ===== src/Release/Tests.antt =====
-- A release and its acknowledgement, and the theorems of the release contract at them.
use booleann.Base.{◌≡◌, ◌≢◌, refl, true, false, some, List, [], ◌∷◌, ◌++◌, length}
use booleann.Release.{
  AckRecord, ReleaseRecord, ContractSchemas, canonical_ack, canonical_release,
  validate_canonical_ack, validate_canonical_release, read_ack, read_release, canonical_size_value,
  canonical_string_value, text_eq, all_hex, to_string, strip,
}
use booleann.Release.Sha256.{sha256_hex}
use booleann.Release.Hex.{sha256_hex-all_hex}
use booleann.Release.Wait.{absent, visible, Poll, waiting, acknowledged, wait_for_release_then_ack}
use booleann.Release.Granted.{AllQuiet, IsGrant}
use booleann.Release.Loop.{wait-IsGrant, wait-ends}

-- The digest of "abc" from FIPS 180-2.
abc-digest :
    sha256_hex (97 ∷ 98 ∷ 99 ∷ [])
    ≡ 98 ∷ 97 ∷ 55 ∷ 56 ∷ 49 ∷ 54 ∷ 98 ∷ 102 ∷ 56 ∷ 102 ∷ 48 ∷ 49 ∷ 99 ∷ 102 ∷ 101 ∷ 97 ∷ 52 ∷ 49
      ∷ 52 ∷ 49 ∷ 52 ∷ 48 ∷ 100 ∷ 101 ∷ 53 ∷ 100 ∷ 97 ∷ 101 ∷ 50 ∷ 50 ∷ 50 ∷ 51 ∷ 98 ∷ 48 ∷ 48 ∷ 51
      ∷ 54 ∷ 49 ∷ 97 ∷ 51 ∷ 57 ∷ 54 ∷ 49 ∷ 55 ∷ 55 ∷ 97 ∷ 57 ∷ 99 ∷ 98 ∷ 52 ∷ 49 ∷ 48 ∷ 102 ∷ 102
      ∷ 54 ∷ 49 ∷ 102 ∷ 50 ∷ 48 ∷ 48 ∷ 49 ∷ 53 ∷ 97 ∷ 100 ∷ []
unfolding sha256_hex
abc-digest = refl

abbrev schemas : ContractSchemas
schemas = record { ack = 97 ∷ 49 ∷ []; release = 114 ∷ 49 ∷ [] }

abbrev ack : AckRecord
ack = record {
  pass = 2;
  passes_jsonl_bytes = 120;
  results_jsonl_bytes = 0;
  state_id = 115 ∷ 55 ∷ [];
}

-- The canonical text of an acknowledgement is accepted as that acknowledgement.
ack_run : validate_canonical_ack (canonical_ack ack schemas) (115 ∷ 55 ∷ []) 2 schemas ≡ some ack
unfolding validate_canonical_ack read_ack canonical_size_value canonical_string_value canonical_ack
    to_string text_eq strip
ack_run = refl

abbrev release : ReleaseRecord
release = record {
  ack_sha256 = sha256_hex (canonical_ack ack schemas);
  pass = 2;
  state_id = 115 ∷ 55 ∷ [];
}

-- A turn before the release, the turn that sees it, and one that is not reached.
abbrev polls : List Poll
polls =
    record { stopped = false; expired = false; release = absent; acknowledgement = absent }
    ∷ record {
      stopped = false;
      expired = false;
      release = visible (canonical_release release schemas);
      acknowledgement = visible (canonical_ack ack schemas);
    }
    ∷ record { stopped = true; expired = true; release = absent; acknowledgement = absent }
    ∷ []

wait_run : wait_for_release_then_ack (115 ∷ 55 ∷ []) 2 schemas polls ≡ acknowledged ack
unfolding wait_for_release_then_ack validate_canonical_ack read_ack canonical_size_value
    canonical_string_value canonical_ack to_string text_eq strip validate_canonical_release
    read_release canonical_release all_hex sha256_hex
wait_run = refl

wait-IsGrant_example :
    (before : List Poll) × (poll : Poll) × (after : List Poll) × (polls ≡ before ++ poll ∷ after)
    × AllQuiet before
    × IsGrant (115 ∷ 55 ∷ []) 2 schemas ack poll
wait-IsGrant_example = wait-IsGrant (115 ∷ 55 ∷ []) 2 schemas polls ack wait_run

wait-ends_example : wait_for_release_then_ack (115 ∷ 55 ∷ []) 2 schemas polls ≢ waiting
wait-ends_example = wait-ends (115 ∷ 55 ∷ []) 2 schemas polls refl

sha256_hex-all_hex_example :
    (length (sha256_hex (97 ∷ [])) ≡ 64) × (all_hex (sha256_hex (97 ∷ [])) ≡ true)
sha256_hex-all_hex_example = sha256_hex-all_hex (97 ∷ [])
