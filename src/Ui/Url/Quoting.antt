-- ===== src/Ui/Url/Quoting.antt =====
-- What a message can put into the command that App.cpp gives to the shell.
use epic_1bit2qbit.Prelude.{
  ℕ, ◌+◌, ◌-◌, ◌*◌, ◌/◌, ◌%◌, ◌<◌, ◌≤◌, ◌≡◌, refl, ap, ◌∙◌, ◌⊎◌, true, false, [], ◌∷◌, ◌++◌, ltb,
  nat_beq, All, All-append, arith, if◌then◌else◌, Bool-cases, inl, inr,
}
use epic_1bit2qbit.Prelude.Text.{Bytes, codes}
use epic_1bit2qbit.Ui.Url.{is_unreserved, upper_hex, percent_encode, verify_command}

-- Text that the shell takes as it stands between single quotes, and a URL query as well.
-- Letters, digits and the five signs - . _ ~ %.
abbrev pub IsSafe : ℕ → Type 0
IsSafe c =
    ((65 ≤ c) × (c ≤ 90))
    ⊎ ((97 ≤ c) × (c ≤ 122))
    ⊎ ((48 ≤ c) × (c ≤ 57))
    ⊎ (c ≡ 45)
    ⊎ (c ≡ 46)
    ⊎ (c ≡ 95)
    ⊎ (c ≡ 126)
    ⊎ (c ≡ 37)

is_unreserved-IsSafe : (c : ℕ) → is_unreserved c ≡ true → IsSafe c
is_unreserved-IsSafe c h = ground arith

upper_hex-IsSafe : (d : ℕ) → d < 16 → IsSafe (upper_hex d)
upper_hex-IsSafe d h = ground arith

percent_encode-IsSafe : (bs : Bytes) → All (λ b. b < 256) bs → All IsSafe (percent_encode bs)
unfolding percent_encode
percent_encode-IsSafe [] h = tt
percent_encode-IsSafe (c ∷ cs) h = elim (Bool-cases (is_unreserved c)) [
  | inl plain ↦ rw plain (is_unreserved-IsSafe c plain, percent_encode-IsSafe cs h.1)
  | inr other ↦ rw other (
    ground arith,
    (
      upper_hex-IsSafe (c / 16) (omega (arith, h.0)),
      (upper_hex-IsSafe (c % 16) (omega arith), percent_encode-IsSafe cs h.1),
    ),
  )
]

-- What a web server makes of a query: %XY is the byte with those digits.
abbrev digit_of : ℕ → ℕ
digit_of c = if ltb c 65 then c - 48 else c - 55

unfoldable pub query_decode : Bytes → Bytes
query_decode [] = []
query_decode (a ∷ []) = a ∷ []
query_decode (a ∷ b ∷ []) = a ∷ b ∷ []
query_decode (a ∷ b ∷ c ∷ rest) =
    let escaped = query_decode rest in
    let plain = query_decode (b ∷ c ∷ rest) in
    if nat_beq a 37 then (digit_of b * 16 + digit_of c) ∷ escaped else a ∷ plain

query_decode-plain :
    (a : ℕ) (cs : Bytes) → nat_beq a 37 ≡ false → query_decode (a ∷ cs) ≡ a ∷ query_decode cs
unfolding query_decode
query_decode-plain a [] h = refl
query_decode-plain a (b ∷ []) h = refl
query_decode-plain a (b ∷ c ∷ rest) h = rw h refl

decode_escape :
    (c : ℕ) (rest cs : Bytes)
    → c < 256
    → query_decode rest ≡ cs
    → query_decode (37 ∷ upper_hex (c / 16) ∷ upper_hex (c % 16) ∷ rest) ≡ c ∷ cs
unfolding query_decode
decode_escape c rest cs small h =
    let digits : digit_of (upper_hex (c / 16)) * 16 + digit_of (upper_hex (c % 16)) ≡ c =
      ground arith in
    λ i. digits i ∷ h i

query_decode-percent_encode :
    (bs : Bytes) → All (λ b. b < 256) bs → query_decode (percent_encode bs) ≡ bs
unfolding percent_encode
query_decode-percent_encode [] h = unfold query_decode in refl
query_decode-percent_encode (c ∷ cs) h = elim (Bool-cases (is_unreserved c)) [
  | inl plain ↦ rw plain (
      query_decode-plain c (percent_encode cs) (ground (arith, plain))
      ∙ ap (◌∷◌ c) (query_decode-percent_encode cs h.1))
  | inr other ↦
      rw other (decode_escape c (percent_encode cs) cs h.0 (query_decode-percent_encode cs h.1))
]

-- Whatever bytes a message's id and its envelope hold, the command for the shell is xdg-open with
-- one quoted argument: between the quotes stand, behind the fixed address, letters, digits and
-- "-_.~%" only; and a web server that decodes them gets "{mid}:{envelope}" back.
pub verify_command_lem :
    (mid wire_ciphertext : Bytes)
    → All (λ b. b < 256) mid
    → All (λ b. b < 256) wire_ciphertext
    → (query : Bytes) × (verify_command mid wire_ciphertext
        ≡ codes "xdg-open 'https://1bit2qbit.theburkenator.com/verify/?message="
          ++ query
          ++ codes "' &")
      × All IsSafe query
      × (query_decode query ≡ mid ++ codes ":" ++ wire_ciphertext)
unfolding verify_command
verify_command_lem mid wire_ciphertext hm hw =
    let payload = mid ++ codes ":" ++ wire_ciphertext in
    let bytes : All (λ b. b < 256) payload =
      All-append (λ b. b < 256) (mid ++ codes ":") wire_ciphertext
        (All-append (λ b. b < 256) mid (codes ":") hm (omega arith, tt)) hw in
    (
      percent_encode payload,
      refl,
      percent_encode-IsSafe payload bytes,
      query_decode-percent_encode payload bytes,
    )
