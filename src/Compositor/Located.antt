-- ===== src/Compositor/Located.antt =====
-- The preparation in src/laion/native/fixed_block_compositor.cpp finds for each segment the rows of its object.
use booleann.Base.{
  ℕ, zero, suc, ◌+◌, ◌-◌, ◌*◌, ◌/◌, ◌%◌, ◌≤◌, ◌<◌, ◌≡◌, refl, sym, ap, subst, ◌∙◌, true, false, not,
  ◌&&◌, ◌||◌, some, List, [], ◌∷◌, ◌++◌, ltb, leb, ◌==◌, if◌then◌else◌, length, length-append,
  get_or, arith, Bool-cases, inl, inr,
}
use booleann.Base.Double.{Double}
use booleann.Base.Result.{Result, ok, err, ◌>>=◌, two_steps, behind_check}
use booleann.Codec.{Target, u24_rows, u24le_decode}
use booleann.Compositor.{Object, Attribute, Segment, max_objects}
use booleann.Compositor.Prepare.{
  Objects, no_object, local_object, bad_filter, collect, first_bytes, decoded_exactly,
  decode_object, decode_objects,
}

-- The rows of an object, as its payload lays them out.
unfoldable pub rows_of : Object → List ℕ
rows_of o = u24_rows (first_bytes (o.object_rows * 3) o.payload)

get_or-append :
    {A : Type 0} (xs ys : List A) (i : ℕ) (z : A)
    → i < length xs
    → get_or (xs ++ ys) i z ≡ get_or xs i z
get_or-append [] ys i z h = absurd (omega arith)
get_or-append (x ∷ xs) ys zero z h = refl
get_or-append (x ∷ xs) ys (suc i) z h = get_or-append xs ys i z (omega arith)

get_or-last : {A : Type 0} (xs : List A) (y z : A) → get_or (xs ++ y ∷ []) (length xs) z ≡ y
get_or-last [] y z = refl
get_or-last (x ∷ xs) y z = get_or-last xs y z

-- The place of an ordinal holds it, if it is not behind the end.
local_object-get :
    (ordinal : ℕ) (xs : List ℕ)
    → (local_object ordinal xs ≤ length xs)
      × ((local_object ordinal xs == length xs) ≡ false
          → get_or xs (local_object ordinal xs) 0 ≡ ordinal)
unfolding local_object
local_object-get ordinal [] = (omega arith, λ e. absurd (cc e))
local_object-get ordinal (x ∷ xs) =
    let rest = local_object-get ordinal xs in
    elim (Bool-cases (x == ordinal)) [
      | inl e ↦ rw e (omega arith, λ f. ground arith)
      | inr e ↦ rw e (omega (arith, rest.0), λ f. rest.1 (ground arith))
    ]

-- Where the segments' objects stand among the unique ones, of which the first are given.
pub record IsLocated (d : Double) (segments : List (Segment d)) (none_there : Segment d)
    (unique : List ℕ) (o : Objects) : Type 0 where
  pub count : length o.local_objects ≡ length segments
  pub longer : length unique ≤ length o.unique_objects
  pub kept : (j : ℕ) → j < length unique → get_or o.unique_objects j 0 ≡ get_or unique j 0
  pub inside : (t : ℕ) → t < length segments → get_or o.local_objects t 0 < length o.unique_objects
  pub located :
      (t : ℕ)
      → t < length segments
      → get_or o.unique_objects (get_or o.local_objects t 0) 0
        ≡ (get_or segments t none_there).object

module _ (d : Double) (object_count : ℕ) (attributes : List (Attribute d))
    (none_there : Segment d) where
  found-IsLocated :
      (s : Segment d) (segments : List (Segment d)) (unique grown : List ℕ) (place : ℕ)
      (o : Objects)
      → place < length grown
      → get_or grown place 0 ≡ s.object
      → length unique ≤ length grown
      → ((j : ℕ) → j < length unique → get_or grown j 0 ≡ get_or unique j 0)
      → IsLocated d segments none_there grown o
      → IsLocated d
          (s ∷ segments)
          none_there
          unique
          (record o { local_objects = place ∷ o.local_objects })
  found-IsLocated s segments unique grown place o h e l k r = record {
    count = ap suc r.count;
    longer = omega (arith, r.longer);
    kept = λ j i. r.kept j (omega arith) ∙ k j i;
    inside = within;
    located = there;
  }
    where
      within :
          (t : ℕ)
          → t < length (s ∷ segments)
          → get_or (place ∷ o.local_objects) t 0 < length o.unique_objects
      within zero i = omega (arith, r.longer)
      within (suc t) i = r.inside t (omega arith)

      there :
          (t : ℕ)
          → t < length (s ∷ segments)
          → get_or o.unique_objects (get_or (place ∷ o.local_objects) t 0) 0
            ≡ (get_or (s ∷ segments) t none_there).object
      there zero i = r.kept place h ∙ e
      there (suc t) i = r.located t (omega arith)

  pub collect-IsLocated :
      (segments : List (Segment d)) (unique : List ℕ) (o : Objects)
      → collect d object_count attributes segments unique ≡ ok o
      → IsLocated d segments none_there unique o
  unfolding collect
  collect-IsLocated [] unique o e =
      let same : record { unique_objects = unique; local_objects = [] } ≡ o = cc e in
      rw (sym same) (record {
        count = refl;
        longer = omega arith;
        kept = λ j h. refl;
        inside = λ t h. absurd (omega arith);
        located = λ t h. absurd (omega arith);
      })
  collect-IsLocated (s ∷ segments) unique o e =
      let place = local_object s.object unique in
      let is_new = place == length unique in
      let grown = if is_new then unique ++ s.object ∷ [] else unique in
      let tail : Result ℕ Objects =
        (collect d object_count attributes segments grown >>= λ found. ok (record {
          unique_objects = found.unique_objects;
          local_objects = place ∷ found.local_objects;
        })) in
      let sound : Result ℕ Objects = if bad_filter d attributes s then err 9 else tail in
      let fits : Result ℕ Objects =
        if is_new && length unique == max_objects then err 7 else sound in
      let a = behind_check (leb object_count s.object) 8 fits o e in
      let b = behind_check (is_new && length unique == max_objects) 7 sound o a.1 in
      let c = behind_check (bad_filter d attributes s) 9 tail o b.1 in
      let found =
        two_steps (collect d object_count attributes segments grown)
          (λ (found : Objects). ok (record {
            unique_objects = found.unique_objects;
            local_objects = place ∷ found.local_objects;
          }))
          o c.1 in
      let same : record found.0 { local_objects = place ∷ found.0.local_objects } ≡ o =
        cc (found.2) in
      let rest = collect-IsLocated segments grown found.0 found.1 in
      let known = local_object-get s.object unique in
      subst (IsLocated d (s ∷ segments) none_there unique) same (elim (Bool-cases is_new) [
        | inl f ↦
            let at_end : place ≡ length unique = ground arith in
            let bigger : length grown ≡ length unique + 1 =
              rw f (length-append unique (s.object ∷ [])) in
            found-IsLocated s segments unique grown place found.0 (omega arith)
              (rw (f, at_end) (get_or-last unique s.object 0)) (omega arith)
              (λ j h. rw f (get_or-append unique (s.object ∷ []) j 0 h)) rest
        | inr f ↦
            let inside : place < length unique = ground (arith, known.0) in
            let as_before : grown ≡ unique = rw f refl in
            found-IsLocated s segments unique unique place found.0 inside (known.1 f) (omega arith)
              (λ j h. refl) (subst (λ l. IsLocated d segments none_there l found.0) as_before rest)
      ])

-- A decoding that succeeds writes the rows that the bytes lay out.
decoded_rows :
    (src : List ℕ) (t : Target)
    → ((u24le_decode (some src) t).status == 0) ≡ true
    → (u24le_decode (some src) t).written ≡ u24_rows src
unfolding u24le_decode
decoded_rows src t h =
    elim (Bool-cases (not t.has_dst || not t.has_count || not (length src % 3 == 0))) [
      | inl e ↦ absurd (cc ((rw e at h)))
      | inr e ↦ elim (Bool-cases (ltb t.dst_capacity (length src / 3))) [
        | inl f ↦ absurd (cc ((rw (e, f) at h)))
        | inr f ↦ rw (e, f) refl
      ]
    ]

decode_object-rows :
    (capacity cursor : ℕ) (o : Object) (rows : List ℕ)
    → decode_object capacity cursor o ≡ ok rows
    → rows ≡ rows_of o
unfolding decode_object rows_of
decode_object-rows capacity cursor o rows e =
    let bytes = first_bytes (o.object_rows * 3) o.payload in
    let target : Target = record {
      has_dst = true;
      dst_capacity = capacity - cursor;
      has_count = true;
    } in
    let decoded = u24le_decode (some bytes) target in
    elim (Bool-cases (o.object_rows == 0)) [
      | inl f ↦
          let none_left : [] ≡ rows = cc ((rw f at e)) in
          let empty : o.object_rows ≡ 0 = ground arith in rw empty (sym none_left)
      | inr f ↦
          let failed =
            not (decoded.status == 0)
            || not (decoded_exactly decoded.decoded_count o.object_rows) in
          let checked = behind_check failed 12 (ok decoded.written) rows (rw f at e) in
          let written : decoded.written ≡ rows = cc (checked.1) in
          sym written ∙ decoded_rows bytes target (ground (arith, checked.0))
    ]

-- Each object is decoded to its own rows.
pub decode_objects-rows :
    (capacity : ℕ) (objects : List Object) (ordinals : List ℕ) (cursor : ℕ)
    (decoded : List (List ℕ))
    → decode_objects capacity objects ordinals cursor ≡ ok decoded
    → (j : ℕ) → j < length ordinals
    → get_or decoded j [] ≡ rows_of (get_or objects (get_or ordinals j 0) no_object)
unfolding decode_objects
decode_objects-rows capacity objects [] cursor decoded e j h = absurd (omega arith)
decode_objects-rows capacity objects (ordinal ∷ ordinals) cursor decoded e j h =
    let o = get_or objects ordinal no_object in
    let first =
      two_steps (decode_object capacity cursor o)
        (λ rows. decode_objects capacity objects ordinals (cursor + o.object_rows) >>= λ others.
          ok (rows ∷ others))
        decoded e in
    let second =
      two_steps (decode_objects capacity objects ordinals (cursor + o.object_rows))
        (λ others. ok (first.0 ∷ others)) decoded first.2 in
    let same : first.0 ∷ second.0 ≡ decoded = cc (second.2) in
    rw (sym same) (
      in_turn first.0 second.0 j h (decode_object-rows capacity cursor o first.0 first.1)
        (decode_objects-rows capacity objects ordinals (cursor + o.object_rows) second.0 second.1))
  where
    in_turn :
        (rows : List ℕ) (others : List (List ℕ)) (j : ℕ)
        → j < length (ordinal ∷ ordinals)
        → rows ≡ rows_of (get_or objects ordinal no_object)
        → ((i : ℕ)
            → i < length ordinals
            → get_or others i [] ≡ rows_of (get_or objects (get_or ordinals i 0) no_object))
        → get_or (rows ∷ others) j []
          ≡ rows_of (get_or objects (get_or (ordinal ∷ ordinals) j 0) no_object)
    in_turn rows others zero i a b = a
    in_turn rows others (suc j) i a b = b j (omega arith)
