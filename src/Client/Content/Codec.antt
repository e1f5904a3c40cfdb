-- ===== src/Client/Content/Codec.antt =====
-- b64_encode and b64_decode of Client.cpp undo each other, over what OpenSSL documents of its codec.
use epic_1bit2qbit.Prelude.{
  ℕ, suc, ◌+◌, ◌-◌, ◌≤◌, ◌≡◌, refl, ap, ◌∙◌, sym, true, [], ◌∷◌, ◌++◌, some, length, take, get_or,
  is_empty, arith, length-append, take-append_length, leb, append-nil, false,
}
use epic_1bit2qbit.Prelude.Text.{Bytes}
use epic_1bit2qbit.Prelude.Result.{ok}
use epic_1bit2qbit.Client.Content.{Base64, padding, b64_encode, b64_decode, decoded}

-- EVP_EncodeBlock gives a text; EVP_DecodeBlock gives it back with a zero byte for each '=' at its
-- end.
pub record IsBase64 (codec : Base64) : Type 0 where
  pub encoded : (b : ℕ) (s : Bytes) → is_empty (codec.encode_block (b ∷ s)) ≡ false
  pub decode-encode :
      (b : ℕ) (s : Bytes)
      → (zeros : Bytes) × (codec.decode_block (codec.encode_block (b ∷ s)) ≡ some (b ∷ s ++ zeros))
        × (length zeros ≡ padding codec (codec.encode_block (b ∷ s)))

pub b64_decode-b64_encode :
    (codec : Base64) → IsBase64 codec → (s : Bytes) → b64_decode codec (b64_encode codec s) ≡ ok s
unfolding b64_decode b64_encode decoded
b64_decode-b64_encode codec h [] = refl
b64_decode-b64_encode codec h (b ∷ s) =
    let (zeros, back, count) = h.decode-encode b s in
    let left : length (b ∷ s ++ zeros) - padding codec (codec.encode_block (b ∷ s))
        ≡ length (b ∷ s) =
      omega (arith, length-append s zeros, count) in
    rw (h.encoded b s, back, left) (ap ok (take-append_length (b ∷ s) zeros))

-- A codec for the concrete runs, with the laws: two bytes behind the text, and no padding.
abbrev pub sample_codec : Base64
sample_codec = record {
  encode_block = λ s. s ++ 0 ∷ 0 ∷ [];
  decode_block = λ t. some (take (length t - 2) t);
}

get_or-append : (s t : Bytes) (n : ℕ) → get_or (s ++ t) (length s + n) 0 ≡ get_or t n 0
get_or-append [] t n = let here : 0 + n ≡ n = omega arith in ap (λ i. get_or t i 0) here
get_or-append (b ∷ s) t n =
    let there : length (b ∷ s) + n ≡ suc (length s + n) = omega arith in
    ap (λ i. get_or (b ∷ s ++ t) i 0) there ∙ get_or-append s t n

two_or_more : (n : ℕ) → 2 ≤ n → leb 2 n ≡ true
two_or_more n h = ground arith

no_padding : (s : Bytes) → padding sample_codec (s ++ 0 ∷ 0 ∷ []) ≡ 0
no_padding s =
    let last : length (s ++ 0 ∷ 0 ∷ []) - 1 ≡ length s + 1 =
      omega (arith, length-append s (0 ∷ 0 ∷ [])) in
    let before : length (s ++ 0 ∷ 0 ∷ []) - 2 ≡ length s + 0 =
      omega (arith, length-append s (0 ∷ 0 ∷ [])) in
    let two : leb 2 (length (s ++ 0 ∷ 0 ∷ [])) ≡ true =
      two_or_more _ (omega (arith, length-append s (0 ∷ 0 ∷ []))) in
    rw (two, last, before, get_or-append s (0 ∷ 0 ∷ []) 1, get_or-append s (0 ∷ 0 ∷ []) 0) refl

taken :
    (b : ℕ) (s : Bytes)
    → sample_codec.decode_block (sample_codec.encode_block (b ∷ s)) ≡ some (b ∷ s ++ [])
taken b s =
    let left : length (b ∷ s ++ 0 ∷ 0 ∷ []) - 2 ≡ length (b ∷ s) =
      omega (arith, length-append s (0 ∷ 0 ∷ [])) in
    rw (left, take-append_length (b ∷ s) (0 ∷ 0 ∷ []), append-nil s) refl

pub sample_codec-IsBase64 : IsBase64 sample_codec
sample_codec-IsBase64 = record {
  encoded = λ b s. refl;
  decode-encode = λ b s. ([], taken b s, sym (no_padding (b ∷ s)));
}
