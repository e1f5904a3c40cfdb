-- ===== src/Connection/Handshake/Trim.antt =====
-- The loops of ws_header_value of Connection.cpp that take the spaces off both ends of a value.
use epic_1bit2qbit.Prelude.{
  ◌≡◌, refl, ap, sym, ◌∙◌, ◌⊎◌, inl, inr, true, false, [], ◌∷◌, ◌++◌, All, append_assoc, Bool-cases,
  if◌then◌else◌,
}
use epic_1bit2qbit.Prelude.Text.{Bytes, is_space}
use epic_1bit2qbit.Connection.Handshake.{trim_front, trim_back}

abbrev pub AllSpace : Bytes → Type 0
AllSpace = All λ c. is_space c ≡ true

-- The text does not begin, or does not end, with a space.
abbrev pub FrontIsBare : Bytes → Type 0
FrontIsBare [] = Unit {0}
FrontIsBare (c ∷ s) = is_space c ≡ false

abbrev pub BackIsBare : Bytes → Type 0
BackIsBare [] = Unit {0}
BackIsBare (c ∷ []) = is_space c ≡ false
BackIsBare (c ∷ d ∷ s) = BackIsBare (d ∷ s)

-- `value` is `line` without the spaces at both ends.
abbrev pub IsTrimmed : Bytes → Bytes → Type 0
IsTrimmed line value =
    (lead : Bytes) × (trail : Bytes) × (line ≡ lead ++ value ++ trail)
    × AllSpace lead
    × AllSpace trail
    × FrontIsBare value
    × BackIsBare value

trim_front-FrontIsBare :
    (s : Bytes)
    → (lead : Bytes) × (s ≡ lead ++ trim_front s) × AllSpace lead × FrontIsBare (trim_front s)
unfolding trim_front
trim_front-FrontIsBare [] = ([], refl, tt, tt)
trim_front-FrontIsBare (c ∷ s) = elim (Bool-cases (is_space c)) [
  | inl space ↦
      let (lead, split, spaces, bare) = trim_front-FrontIsBare s in
      rw space (c ∷ lead, ap (◌∷◌ c) split, (space, spaces), bare)
  | inr bare ↦ rw bare ([], refl, tt, bare)
]

abbrev pub IsCut : Bytes → Bytes → Type 0
IsCut s v =
    (trail : Bytes) × (s ≡ v ++ trail)
    × AllSpace trail
    × BackIsBare v
    × (FrontIsBare s → FrontIsBare v)

trim_back-IsCut : (s : Bytes) → IsCut s (trim_back s)
unfolding trim_back
trim_back-IsCut [] = ([], refl, tt, tt, λ h. h)
trim_back-IsCut (c ∷ s) = step (trim_back s) (trim_back-IsCut s) (Bool-cases (is_space c))
  where
    step :
        (v : Bytes)
        → IsCut s v
        → (is_space c ≡ true) ⊎ (is_space c ≡ false)
        → IsCut (c ∷ s) (elim v [ [] ↦ if is_space c then [] else c ∷ [] | d ∷ ds ↦ c ∷ d ∷ ds ])
    step [] (trail, split, spaces, bare, front) (inl space) =
        rw space (c ∷ trail, ap (◌∷◌ c) split, (space, spaces), tt, λ h. tt)
    step [] (trail, split, spaces, bare, front) (inr solid) =
        rw solid (trail, ap (◌∷◌ c) split, spaces, solid, λ h. solid)
    step (d ∷ ds) (trail, split, spaces, bare, front) either =
        (trail, ap (◌∷◌ c) split, spaces, bare, λ h. h)

pub trim-IsTrimmed : (line : Bytes) → IsTrimmed line (trim_back (trim_front line))
trim-IsTrimmed line =
    let (lead, split, spaces, bare) = trim_front-FrontIsBare line in
    let (trail, cut, spaces', back, front) = trim_back-IsCut (trim_front line) in
    (
      lead,
      trail,
      split ∙ ap (◌++◌ lead) cut ∙ sym (append_assoc lead (trim_back (trim_front line)) trail),
      spaces,
      spaces',
      front bare,
      back,
    )
