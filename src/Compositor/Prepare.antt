-- ===== src/Compositor/Prepare.antt =====
-- What src/laion/native/fixed_block_compositor.cpp does before the merge: the checks of the descriptors, the objects
-- that the segments share, the room that their rows take, and their decoding.
use booleann.Base.{
  ℕ, zero, suc, ◌+◌, ◌-◌, ◌*◌, Bool, true, false, not, ◌&&◌, ◌||◌, Option, none, some, List, [],
  ◌∷◌, ◌++◌, length, get_or, ltb, leb, ◌==◌, if◌then◌else◌, pos,
}
use booleann.Base.Double.{Double}
use booleann.Base.Result.{Result, ok, err, ◌>>=◌}
use booleann.Codec.{u24le_decode}
use booleann.Compositor.{Object, Attribute, Segment, max_objects, max_decoded_rows}

-- An object that is not there: the index of one is checked first.
abbrev pub no_object : Object
no_object = record { has_payload = false; payload = λ _. 0; object_rows = 0 }

abbrev pub no_attribute : (d : Double) → Attribute d
no_attribute d = record {
  has_values = false;
  has_valid = false;
  kind = 0;
  doubles = λ _. d.zero;
  integers = λ _. pos 0;
  valid = λ _. false;
}

-- The place of an ordinal among those found, or their number.
unfoldable pub local_object : ℕ → List ℕ → ℕ
local_object ordinal [] = 0
local_object ordinal (x ∷ xs) =
    let further = local_object ordinal xs in if x == ordinal then 0 else suc further

-- A filter that is malformed: status 9.
unfoldable pub bad_filter : (d : Double) → List (Attribute d) → Segment d → Bool
bad_filter d attributes s =
    let a = get_or attributes (s.filter_code - 1) (no_attribute d) in
    ltb (length attributes) s.filter_code
    || (not (s.filter_code == 0)
        && (not a.has_values
            || not a.has_valid
            || (not (a.kind == 1) && not (a.kind == 2))
            || d.is_nan s.lower
            || d.is_nan s.upper
            || not (d.less s.lower s.upper)))

-- `unique_global_objects` and `segment_local_objects`
pub record Objects : Type 0 where
  pub unique_objects : List ℕ
  pub local_objects : List ℕ

-- The loop over the segments' descriptors.
unfoldable pub collect :
    (d : Double) → ℕ → List (Attribute d) → List (Segment d) → List ℕ → Result ℕ Objects
unfolding local_object bad_filter
collect d object_count attributes [] unique =
    ok (record { unique_objects = unique; local_objects = [] })
collect d object_count attributes (s ∷ segments) unique =
    let place = local_object s.object unique in
    let is_new = place == length unique in
    let further =
      collect d object_count attributes segments
        (if is_new then unique ++ s.object ∷ [] else unique) in
    if leb object_count s.object
    then err 8
    else if is_new && length unique == max_objects
    then err 7
    else if bad_filter d attributes s
    then err 9
    else (further >>= λ o.
        ok (record { unique_objects = o.unique_objects; local_objects = place ∷ o.local_objects }))

-- The loop that adds up the rows of the unique objects.
unfoldable pub total_rows : List Object → List ℕ → ℕ → Result ℕ ℕ
total_rows objects [] total = ok total
total_rows objects (ordinal ∷ ordinals) total =
    let o = get_or objects ordinal no_object in
    let is_null = not (o.object_rows == 0) && not o.has_payload in
    let further = total_rows objects ordinals (total + o.object_rows) in
    if is_null || ltb max_decoded_rows o.object_rows || ltb (max_decoded_rows - o.object_rows) total
    then err (if is_null then 8 else 2)
    else further

-- The first bytes of an array.
abbrev pub first_bytes : ℕ → (ℕ → ℕ) → List ℕ
first_bytes zero bytes = []
first_bytes (suc n) bytes = bytes 0 ∷ first_bytes n (λ i. bytes (suc i))

abbrev pub decoded_exactly : Option ℕ → ℕ → Bool
decoded_exactly none rows = false
decoded_exactly (some n) rows = n == rows

-- The decoding of an object's rows, at a place of the scratch buffer.
unfoldable pub decode_object : ℕ → ℕ → Object → Result ℕ (List ℕ)
unfolding u24le_decode
decode_object capacity cursor o =
    let decoded =
      u24le_decode (some (first_bytes (o.object_rows * 3) o.payload))
        (record { has_dst = true; dst_capacity = capacity - cursor; has_count = true }) in
    if o.object_rows == 0
    then ok []
    else if not (decoded.status == 0) || not (decoded_exactly decoded.decoded_count o.object_rows)
    then err 12
    else ok decoded.written

-- The loop that decodes the unique objects; their rows, object by object.
unfoldable pub decode_objects : ℕ → List Object → List ℕ → ℕ → Result ℕ (List (List ℕ))
unfolding decode_object
decode_objects capacity objects [] cursor = ok []
decode_objects capacity objects (ordinal ∷ ordinals) cursor =
    let o = get_or objects ordinal no_object in
    decode_object capacity cursor o >>= λ rows.
    decode_objects capacity objects ordinals (cursor + o.object_rows) >>= λ others.
    ok (rows ∷ others)
