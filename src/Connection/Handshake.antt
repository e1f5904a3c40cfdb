-- ===== src/Connection/Handshake.antt =====
-- The WebSocket upgrade of client/src/connection/Connection.cpp (RFC 6455, section 1.3). SHA1 and
-- EVP_EncodeBlock are OpenSSL's, and parameters.
pub mod Field
pub mod Header
pub mod Trim
use epic_1bit2qbit.Prelude.{
  ℕ, zero, suc, ◌+◌, ◌-◌, ◌≡◌, Bool, true, false, not, ◌&&◌, ◌||◌, List, [], ◌∷◌, ◌++◌, map, Option,
  none, some, length, take, drop, ltb, leb, ◌==◌, nat_beq, bytes_eq, if◌then◌else◌,
}
use epic_1bit2qbit.Prelude.Text.{Bytes, codes, find, starts_with, is_space}
use epic_1bit2qbit.Prelude.Result.{Result, ok, err, Exec, pure, throw, throw_if, ◌>>=◌, ◌>>◌}
use epic_1bit2qbit.Connection.Channel.{Channel, ssl_read_exact, ssl_write_all}

abbrev pub crlf : Bytes
crlf = 13 ∷ 10 ∷ []

-- std::tolower in the C locale.
abbrev pub to_lower : ℕ → ℕ
to_lower c = if leb 65 c && leb c 90 then c + 32 else c

unfoldable pub trim_front : Bytes → Bytes
trim_front [] = []
trim_front (c ∷ s) = let rest = trim_front s in if is_space c then rest else c ∷ s

unfoldable pub trim_back : Bytes → Bytes
trim_back [] = []
trim_back (c ∷ s) = elim (trim_back s) [
  | [] ↦ if is_space c then [] else c ∷ []
  | d ∷ ds ↦ c ∷ d ∷ ds
]

-- response.substr(start, end - start) with its end at the next CRLF, or at the end of the text.
abbrev pub until_crlf : Bytes → Bytes
until_crlf s = elim (find crlf s) [ none ↦ s | some n ↦ take n s ]

unfoldable pub ws_header_value : Bytes → Bytes → Bytes
unfolding trim_front trim_back
ws_header_value response name =
    let lower = map to_lower response in
    let lname = map to_lower name in
    elim (find (lname ++ codes ":") lower) [
      | none ↦ []
      | some key ↦ trim_back (trim_front (until_crlf (drop (key + length lname + 1) response)))
    ]

abbrev pub end_of_headers : Bytes
end_of_headers = 13 ∷ 10 ∷ 13 ∷ 10 ∷ []

-- The test of the loop: the last four bytes are CRLF CRLF.
abbrev pub is_complete : Bytes → Bool
is_complete response =
    leb 4 (length response) && (drop (length response - 4) response == end_of_headers)

-- The loop, a byte at a time; `ok none` says that the fuel ran out.
unfoldable pub read_response : ℕ → Bytes → Exec Channel (Option Bytes)
read_response zero response = pure none
read_response (suc fuel) response =
    if is_complete response
    then pure (some response)
    else ssl_read_exact 1 >>= λ b.
        (throw_if (ltb 8192 (length (response ++ b)))
            (codes "ws_handshake: response header too large")
          >> read_response fuel (response ++ b))

-- 8193 rounds are enough: the response grows by a byte in each.
abbrev pub response_fuel : ℕ
response_fuel = 8194

module _ (sha1 encode_block : Bytes → Bytes) where
  -- base64(SHA1(client_key + GUID)), 28 characters of it
  unfoldable pub ws_compute_accept : Bytes → Bytes
  ws_compute_accept client_key =
      take 28 (encode_block (sha1 (client_key ++ codes "258EAFA5-E914-47DA-95CA-C5AB0DC85B11")))

  -- The sixteen bytes are those of RAND_bytes; `none` is its failure.
  unfoldable pub ws_key_base64 : Option Bytes → Exec Channel Bytes
  ws_key_base64 none = throw (codes "RAND_bytes failed generating WS key")
  ws_key_base64 (some buf) = pure (take 24 (encode_block buf))

  abbrev pub upgrade_request : Bytes → Bytes → Bytes
  upgrade_request host key =
      codes "GET /backend/ws HTTP/1.1"
      ++ crlf
      ++ codes "Host: "
      ++ host
      ++ crlf
      ++ codes "Upgrade: websocket"
      ++ crlf
      ++ codes "Connection: Upgrade"
      ++ crlf
      ++ codes "Sec-WebSocket-Key: "
      ++ key
      ++ crlf
      ++ codes "Sec-WebSocket-Version: 13"
      ++ crlf
      ++ crlf

  check_response : Bytes → Option Bytes → Exec Channel (Option (Unit {0}))
  unfolding ws_header_value ws_compute_accept
  check_response key none = pure none
  check_response key (some response) =
      throw_if (not (starts_with (codes "HTTP/1.1 101") (until_crlf response)))
        (codes "ws_handshake: expected 101 Switching Protocols, got: " ++ until_crlf response)
      >> (throw_if
            (not (ws_header_value response (codes "sec-websocket-accept") == ws_compute_accept key))
            (codes "ws_handshake: invalid Sec-WebSocket-Accept")
          >> pure (some tt))

  unfoldable pub ws_handshake : Bytes → Option Bytes → Exec Channel (Option (Unit {0}))
  unfolding check_response
  ws_handshake host random = do
    key ← ws_key_base64 random
    _ ← ssl_write_all (upgrade_request host key)
    response ← read_response response_fuel []
    check_response key response
