-- ===== src/Release/Key.antt =====
-- The keys of the documents of src/laion_sieve/pass_release_contract.h, in ASCII.
use booleann.Base.{ℕ, List, [], ◌∷◌, ◌++◌}

abbrev pub pass : List ℕ
pass = 112 ∷ 97 ∷ 115 ∷ 115 ∷ []

abbrev pub jsonl_bytes : List ℕ
jsonl_bytes = 95 ∷ 106 ∷ 115 ∷ 111 ∷ 110 ∷ 108 ∷ 95 ∷ 98 ∷ 121 ∷ 116 ∷ 101 ∷ 115 ∷ []

abbrev pub passes_jsonl_bytes : List ℕ
passes_jsonl_bytes = pass ++ 101 ∷ 115 ∷ jsonl_bytes

abbrev pub results_jsonl_bytes : List ℕ
results_jsonl_bytes = 114 ∷ 101 ∷ 115 ∷ 117 ∷ 108 ∷ 116 ∷ 115 ∷ jsonl_bytes

abbrev pub schema : List ℕ
schema = 115 ∷ 99 ∷ 104 ∷ 101 ∷ 109 ∷ 97 ∷ []

abbrev pub state_id : List ℕ
state_id = 115 ∷ 116 ∷ 97 ∷ 116 ∷ 101 ∷ 95 ∷ 105 ∷ 100 ∷ []

abbrev pub ack_sha256 : List ℕ
ack_sha256 = 97 ∷ 99 ∷ 107 ∷ 95 ∷ 115 ∷ 104 ∷ 97 ∷ 50 ∷ 53 ∷ 54 ∷ []
