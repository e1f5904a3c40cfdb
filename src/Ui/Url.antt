-- ===== src/Ui/Url.antt =====
-- The command by which App.cpp opens the page that verifies a message.
pub mod Quoting
use epic_1bit2qbit.Prelude.{
  ℕ, ◌+◌, ◌/◌, ◌%◌, ◌≡◌, Bool, true, false, ◌&&◌, ◌||◌, List, [], ◌∷◌, ◌++◌, leb, ltb, nat_beq,
  if◌then◌else◌,
}
use epic_1bit2qbit.Prelude.Text.{Bytes, codes}

-- std::isalnum in the C locale
abbrev pub is_alnum : ℕ → Bool
is_alnum c = (leb 48 c && leb c 57) || (leb 65 c && leb c 90) || (leb 97 c && leb c 122)

-- alphanumeric, or one of - _ . ~
abbrev pub is_unreserved : ℕ → Bool
is_unreserved c = is_alnum c || nat_beq c 45 || nat_beq c 95 || nat_beq c 46 || nat_beq c 126

-- A digit of %02X.
abbrev pub upper_hex : ℕ → ℕ
upper_hex d = if ltb d 10 then 48 + d else 55 + d

unfoldable pub percent_encode : Bytes → Bytes
percent_encode [] = []
percent_encode (c ∷ cs) =
    let rest = percent_encode cs in
    if is_unreserved c then c ∷ rest else 37 ∷ upper_hex (c / 16) ∷ upper_hex (c % 16) ∷ rest

-- "xdg-open '" + url + "' &", for the payload "{mid}:{envelope}"
unfoldable pub verify_command : Bytes → Bytes → Bytes
unfolding percent_encode
verify_command mid wire_ciphertext =
    codes "xdg-open '"
    ++ codes "https://1bit2qbit.theburkenator.com/verify/?message="
    ++ percent_encode (mid ++ codes ":" ++ wire_ciphertext)
    ++ codes "' &"
