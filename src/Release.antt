-- ===== src/Release.antt =====
-- src/laion_sieve/pass_release_contract.h: the two-phase release of a pass. A string is the list of its
-- bytes, and a throw is `none`. A byte offset into the payload is the text behind it.
pub mod Key
pub mod Sha256
pub mod Wait
pub mod Hex
pub mod Granted
pub mod Loop
pub mod Exact
mod Tests
use booleann.Base.{
  ℕ, zero, suc, ◌+◌, ◌-◌, ◌*◌, ◌/◌, ◌%◌, ◌^◌, Bool, true, false, not, ◌&&◌, ◌||◌, Option, none,
  some, List, [], ◌∷◌, ◌++◌, ltb, leb, ◌==◌, if◌then◌else◌, length,
}
use booleann.Release.Key
use booleann.Base.Options.{◌>>=◌}

pub record AckRecord : Type 0 where
  pub pass : ℕ
  pub passes_jsonl_bytes : ℕ
  pub results_jsonl_bytes : ℕ
  pub state_id : List ℕ

pub record ReleaseRecord : Type 0 where
  pub ack_sha256 : List ℕ
  pub pass : ℕ
  pub state_id : List ℕ

pub record ContractSchemas : Type 0 where
  pub ack : List ℕ
  pub release : List ℕ

-- The text behind a prefix.
unfoldable pub strip : List ℕ → List ℕ → Option (List ℕ)
strip [] text = some text
strip (c ∷ marker) [] = none
strip (c ∷ marker) (d ∷ text) = let rest = strip marker text in if c == d then rest else none

-- `find`: the text behind the first place where the marker stands
unfoldable pub find : List ℕ → List ℕ → Option (List ℕ)
find marker [] = strip marker []
find marker (c ∷ text) =
    let later = find marker text in
    elim (strip marker (c ∷ text)) [ none ↦ later | some rest ↦ some rest ]

-- The marker of a key: "key":
abbrev pub marker : List ℕ → List ℕ
marker key = 34 ∷ key ++ 34 ∷ 58 ∷ []

-- `unique_value_offset`
unfoldable pub unique_value : List ℕ → List ℕ → Option (List ℕ)
unfolding find
unique_value payload key = do
  rest ← find (marker key) payload
  elim (find (marker key) rest) [ none ↦ some rest | some _ ↦ none ]

-- The characters up to the closing quote.
unfoldable pub quoted : List ℕ → Option (List ℕ)
quoted [] = none
quoted (c ∷ text) =
    let rest = quoted text in
    if c == 34
    then some []
    else if ltb c 0x20 || c == 92
    then none
    else rest >>= (λ value. some (c ∷ value))

unfoldable pub opened : List ℕ → Option (List ℕ)
unfolding quoted
opened [] = none
opened (c ∷ text) = if c == 34 then quoted text else none

unfoldable pub canonical_string_value : List ℕ → List ℕ → Option (List ℕ)
unfolding unique_value opened
canonical_string_value payload key = unique_value payload key >>= opened

-- The digits that a text starts with.
unfoldable pub leading_digits : List ℕ → List ℕ
leading_digits [] = []
leading_digits (c ∷ text) =
    let rest = leading_digits text in if leb 48 c && leb c 57 then c ∷ rest else []

-- `from_chars` on digits, which fails beyond 64 bits
unfoldable pub from_chars : ℕ → List ℕ → Option ℕ
from_chars value [] = some value
from_chars value (c ∷ text) =
    let value = value * 10 + (c - 48) in if leb (2 ^ 64) value then none else from_chars value text

unfoldable pub leads_with_zero : List ℕ → Bool
leads_with_zero [] = false
leads_with_zero (c ∷ digits) = ltb 0 (length digits) && c == 48

unfoldable pub canonical_size_value : List ℕ → List ℕ → Option ℕ
unfolding unique_value leading_digits from_chars leads_with_zero
canonical_size_value payload key = do
  rest ← unique_value payload key
  let digits = leading_digits rest
  if length digits == 0 || leads_with_zero digits then none else from_chars 0 digits

-- `to_string` of a 64-bit number: 20 digits are enough
unfoldable pub decimal : ℕ → ℕ → List ℕ
decimal zero n = []
decimal (suc fuel) n =
    let rest = decimal fuel (n / 10) in
    let digit = (48 + n % 10) ∷ [] in if ltb n 10 then digit else rest ++ digit

unfoldable pub to_string : ℕ → List ℕ
unfolding decimal
to_string n = decimal 20 n

-- A string in quotes, and the end of a document.
abbrev pub quote : List ℕ → List ℕ
quote text = 34 ∷ text ++ 34 ∷ []

abbrev pub end : List ℕ
end = 125 ∷ 10 ∷ []

unfoldable pub canonical_ack : AckRecord → ContractSchemas → List ℕ
canonical_ack record' schemas =
    123 ∷ marker Key.pass
    ++ to_string record'.pass
    ++ 44 ∷ marker Key.passes_jsonl_bytes
    ++ to_string record'.passes_jsonl_bytes
    ++ 44 ∷ marker Key.results_jsonl_bytes
    ++ to_string record'.results_jsonl_bytes
    ++ 44 ∷ marker Key.schema
    ++ quote schemas.ack
    ++ 44 ∷ marker Key.state_id
    ++ quote record'.state_id
    ++ end

unfoldable pub canonical_release : ReleaseRecord → ContractSchemas → List ℕ
canonical_release record' schemas =
    123 ∷ marker Key.ack_sha256
    ++ quote record'.ack_sha256
    ++ 44 ∷ marker Key.pass
    ++ to_string record'.pass
    ++ 44 ∷ marker Key.schema
    ++ quote schemas.release
    ++ 44 ∷ marker Key.state_id
    ++ quote record'.state_id
    ++ end

unfoldable pub text_eq : List ℕ → List ℕ → Bool
text_eq [] [] = true
text_eq [] (d ∷ ys) = false
text_eq (c ∷ xs) [] = false
text_eq (c ∷ xs) (d ∷ ys) = c == d && text_eq xs ys

-- The fields of an acknowledgement.
unfoldable pub read_ack : List ℕ → Option AckRecord
read_ack payload = do
  pass ← canonical_size_value payload Key.pass
  passes_jsonl_bytes ← canonical_size_value payload Key.passes_jsonl_bytes
  results_jsonl_bytes ← canonical_size_value payload Key.results_jsonl_bytes
  state_id ← canonical_string_value payload Key.state_id
  some (record {
    pass = pass;
    passes_jsonl_bytes = passes_jsonl_bytes;
    results_jsonl_bytes = results_jsonl_bytes;
    state_id = state_id;
  })

-- `validate_canonical_ack`
unfoldable pub validate_canonical_ack : List ℕ → List ℕ → ℕ → ContractSchemas → Option AckRecord
validate_canonical_ack payload state_id pass schemas = do
  found ← read_ack payload
  schema ← canonical_string_value payload Key.schema
  let mine = text_eq schema schemas.ack && text_eq found.state_id state_id && found.pass == pass
  if mine && text_eq payload (canonical_ack found schemas) then some found else none

-- Lowercase hexadecimal digits only.
unfoldable pub all_hex : List ℕ → Bool
all_hex [] = true
all_hex (c ∷ text) = ((leb 48 c && leb c 57) || (leb 97 c && leb c 102)) && all_hex text

-- The fields of a release.
unfoldable pub read_release : List ℕ → Option ReleaseRecord
read_release payload = do
  ack_sha256 ← canonical_string_value payload Key.ack_sha256
  pass ← canonical_size_value payload Key.pass
  state_id ← canonical_string_value payload Key.state_id
  some (record { ack_sha256 = ack_sha256; pass = pass; state_id = state_id })

-- `validate_canonical_release`
unfoldable pub validate_canonical_release :
    List ℕ → List ℕ → ℕ → ContractSchemas → Option ReleaseRecord
validate_canonical_release payload state_id pass schemas = do
  found ← read_release payload
  schema ← canonical_string_value payload Key.schema
  let mine = text_eq schema schemas.release && text_eq found.state_id state_id && found.pass == pass
  let hex = length found.ack_sha256 == 64 && all_hex found.ack_sha256
  if mine && hex && text_eq payload (canonical_release found schemas) then some found else none
