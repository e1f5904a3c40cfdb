-- ===== src/Connection/Handshake/Field.antt =====
-- What ws_header_value of Connection.cpp finds in a response, told without its search.
use epic_1bit2qbit.Prelude.{
  ℕ, suc, ◌+◌, ◌≡◌, refl, ap, sym, ◌∙◌, ◌⊎◌, inl, inr, Bool, true, false, [], ◌∷◌, ◌++◌, map,
  Option, none, some, length, take, drop, arith, Bool-cases, if◌then◌else◌, length-append,
  take-append-drop,
}
use epic_1bit2qbit.Prelude.Text.{Bytes, codes, find, starts_with}
use epic_1bit2qbit.Connection.Handshake.Trim.{IsTrimmed, trim-IsTrimmed}
use epic_1bit2qbit.Connection.Handshake.{
  to_lower, trim_front, trim_back, crlf, until_crlf, ws_header_value,
}

-- The text begins with `field`, in whatever case, and `rest` comes behind it.
abbrev pub Begins : Bytes → Bytes → Bytes → Type 0
Begins field s rest = (front : Bytes) × (map to_lower front ≡ field) × (s ≡ front ++ rest)

abbrev pub StartsWith : Bytes → Bytes → Type 0
StartsWith field s = (rest : Bytes) × Begins field s rest

-- The field stands nowhere in the text.
unfoldable pub Nowhere : Bytes → Bytes → Type 0
Nowhere field [] = ¬ StartsWith field []
Nowhere field (c ∷ s) = (¬ StartsWith field (c ∷ s)) × Nowhere field s

-- `rest` comes behind the first place at which the field stands.
unfoldable pub Behind : Bytes → Bytes → Bytes → Type 0
Behind field [] rest = Begins field [] rest
Behind field (c ∷ s) rest =
    Begins field (c ∷ s) rest ⊎ ((¬ StartsWith field (c ∷ s)) × Behind field s rest)

starts_with-map :
    (front rest field : Bytes)
    → map to_lower front ≡ field
    → starts_with field (map to_lower (front ++ rest)) ≡ true
unfolding starts_with
starts_with-map [] rest [] h = refl
starts_with-map [] rest (d ∷ field) h = absurd (cc h)
starts_with-map (c ∷ front) rest [] h = refl
starts_with-map (c ∷ front) rest (d ∷ field) h =
    ground (arith, h, starts_with-map front rest field (ground (arith, h)))

-- The bytes at the front are the field, where the lowered text starts with it.
front_is :
    (field s : Bytes)
    → starts_with field (map to_lower s) ≡ true
    → map to_lower (take (length field) s) ≡ field
unfolding starts_with
front_is [] s h = refl
front_is (d ∷ field) [] h = absurd (cc h)
front_is (d ∷ field) (c ∷ s) h = ground (arith, h, front_is field s (ground (arith, h)))

Begins-front :
    (field s : Bytes)
    → starts_with field (map to_lower s) ≡ true
    → Begins field s (drop (length field) s)
Begins-front field s h =
    (take (length field) s, front_is field s h, sym (take-append-drop (length field) s))

not_there : (field s : Bytes) → starts_with field (map to_lower s) ≡ false → ¬ StartsWith field s
not_there field s h (rest, (front, low, split)) = cc (
  h,
  ap (λ (t : Bytes). starts_with field (map to_lower t)) split,
  starts_with-map front rest field low,
)

-- What a search of the lowered text tells of the text.
abbrev pub Located : Bytes → Bytes → Option ℕ → Type 0
Located field s none = Nowhere field s
Located field s (some k) = Behind field s (drop (k + length field) s)

later-Located :
    (field s : Bytes) (c : ℕ) (o : Option ℕ)
    → ¬ StartsWith field (c ∷ s)
    → Located field s o
    → Located field (c ∷ s) (elim o [ none ↦ none | some i ↦ some (suc i) ])
unfolding Nowhere Behind
later-Located field s c none miss h = (miss, h)
later-Located field s c (some k) miss h =
    let e : suc k + length field ≡ suc (k + length field) = omega arith in inr (miss, rw e h)

find-Located : (field s : Bytes) → Located field s (find field (map to_lower s))
unfolding find Nowhere Behind
find-Located field [] =
    let e : 0 + length field ≡ length field = omega arith in
    elim (Bool-cases (starts_with field [])) [
      | inl here ↦ rw (here, e) (Begins-front field [] here)
      | inr there ↦ rw there (not_there field [] there)
    ]
find-Located field (c ∷ s) =
    let e : 0 + length field ≡ length field = omega arith in
    elim (Bool-cases (starts_with field (map to_lower (c ∷ s)))) [
      | inl here ↦ rw (here, e) (inl (Begins-front field (c ∷ s) here))
      | inr there ↦ rw there (
          later-Located field s c (find field (map to_lower s)) (not_there field (c ∷ s) there)
            (find-Located field s))
    ]

-- The line up to the first CR LF, or the whole text where there is none.
unfoldable pub IsLineOf : Bytes → Bytes → Type 0
IsLineOf [] line = line ≡ []
IsLineOf (c ∷ s) line =
    (((rest : Bytes) × (c ∷ s ≡ crlf ++ rest)) × (line ≡ []))
    ⊎ ((¬ ((rest : Bytes) × (c ∷ s ≡ crlf ++ rest)))
        × ((tail : Bytes) × (line ≡ c ∷ tail) × IsLineOf s tail))

crlf_here : (s : Bytes) → starts_with crlf s ≡ true → (rest : Bytes) × (s ≡ crlf ++ rest)
unfolding starts_with
crlf_here [] h = absurd (cc h)
crlf_here (a ∷ []) h = absurd (ground (arith, h))
crlf_here (a ∷ b ∷ s) h = (s, ground (arith, h))

no_crlf_here : (s : Bytes) → starts_with crlf s ≡ false → ¬ ((rest : Bytes) × (s ≡ crlf ++ rest))
unfolding starts_with
no_crlf_here s h (rest, e) = let clash : false ≡ true = sym h ∙ ap (starts_with crlf) e in cc clash

abbrev line_at : Bytes → Option ℕ → Bytes
line_at s o = elim o as (λ _. Bytes) [ none ↦ s | some n ↦ take n s ]

line_step :
    (c : ℕ) (s : Bytes) (o : Option ℕ) (b : Bool)
    → starts_with crlf (c ∷ s) ≡ b
    → IsLineOf s (line_at s o)
    → IsLineOf
        (c ∷ s)
        (line_at (c ∷ s) (if b then some 0 else elim o [ none ↦ none | some i ↦ some (suc i) ]))
unfolding IsLineOf
line_step c s o true here h = inl (crlf_here (c ∷ s) here, refl)
line_step c s none false there h = inr (no_crlf_here (c ∷ s) there, (s, refl, h))
line_step c s (some k) false there h = inr (no_crlf_here (c ∷ s) there, (take k s, refl, h))

until_crlf-IsLineOf : (s : Bytes) → IsLineOf s (until_crlf s)
unfolding find IsLineOf
until_crlf-IsLineOf [] = unfold starts_with in refl
until_crlf-IsLineOf (c ∷ s) =
    line_step c s (find crlf s) (starts_with crlf (c ∷ s)) refl (until_crlf-IsLineOf s)

-- The value of a header: of the line behind the first place, in whatever case, of `field`, which is its
-- name with a colon, what is left between the spaces; or nothing, where the field stands nowhere.
abbrev pub HasValue : Bytes → Bytes → Bytes → Type 0
HasValue field response value =
    (Nowhere field response × (value ≡ []))
    ⊎ ((rest : Bytes) × (line : Bytes) × Behind field response rest
        × IsLineOf rest line
        × IsTrimmed line value)

pub ws_header_value-HasValue :
    (response name : Bytes)
    → HasValue (map to_lower name ++ codes ":") response (ws_header_value response name)
unfolding ws_header_value
ws_header_value-HasValue response name =
    step (find (map to_lower name ++ codes ":") (map to_lower response))
      (find-Located (map to_lower name ++ codes ":") response)
  where
    step :
        (o : Option ℕ)
        → Located (map to_lower name ++ codes ":") response o
        → HasValue (map to_lower name ++ codes ":") response (elim o [
          | none ↦ []
          | some key ↦
              trim_back
                (trim_front (until_crlf (drop (key + length (map to_lower name) + 1) response)))
        ])
    step none h = inl (h, refl)
    step (some key) h =
        let e : key + length (map to_lower name ++ codes ":")
            ≡ key + length (map to_lower name) + 1 =
          omega (arith, length-append (map to_lower name) (codes ":")) in
        let rest = drop (key + length (map to_lower name) + 1) response in
        inr (
          rest,
          until_crlf rest,
          rw e at h,
          until_crlf-IsLineOf rest,
          trim-IsTrimmed (until_crlf rest),
        )
