-- ===== src/Connection/Handshake/Header.antt =====
-- The response that ws_handshake of Connection.cpp reads.
use epic_1bit2qbit.Prelude.{
  Bool, not, ◌&&◌, ℕ, zero, suc, ◌+◌, ◌<◌, ◌≤◌, ◌≡◌, refl, ap, ◌∙◌, inl, inr, true, false, List, [],
  ◌∷◌, ◌++◌, Option, some, length, take, ltb, ◌==◌, nat_eq, bytes_eq, arith, length-append,
  append_assoc, append-nil, Bool-cases, ◌↔◌, bytes_beq_iff, bytes_ne_of_beq,
}
use epic_1bit2qbit.Prelude.Text.{Bytes, codes, starts_with}
use epic_1bit2qbit.Prelude.Result.{Result, ok}
use epic_1bit2qbit.Connection.Channel.{Channel, SslRead}
use epic_1bit2qbit.Connection.Channel.Reading.{flat, read_exactly}
use epic_1bit2qbit.Connection.Channel.Writing.{ssl_write_all_free}
use epic_1bit2qbit.Connection.Handshake.Field.{HasValue, ws_header_value-HasValue}
use epic_1bit2qbit.Connection.Handshake.{
  ws_header_value, ws_compute_accept, ws_handshake, ws_key_base64, check_response, upgrade_request,
  until_crlf, is_complete, read_response, response_fuel,
}

-- `more` is what is still to come of a response of which `front` has been read: the response is
-- complete at its end and nowhere before.
unfoldable pub EndsFirst : Bytes → Bytes → Type 0
EndsFirst front [] = is_complete front ≡ true
EndsFirst front (c ∷ more) = (is_complete front ≡ false) × EndsFirst (front ++ c ∷ []) more

-- The same as a test.
unfoldable pub ends_first : Bytes → Bytes → Bool
ends_first front [] = is_complete front
ends_first front (c ∷ more) = not (is_complete front) && ends_first (front ++ c ∷ []) more

pub ends_first-EndsFirst :
    (front more : Bytes) → ends_first front more ≡ true → EndsFirst front more
unfolding ends_first EndsFirst
ends_first-EndsFirst front [] h = h
ends_first-EndsFirst front (c ∷ more) h =
    (ground (arith, h), ends_first-EndsFirst (front ++ c ∷ []) more (ground (arith, h)))

grow :
    (fuel : ℕ) (front more rest : Bytes) (ch : Channel)
    → EndsFirst front more
    → length front + length more ≤ 8192
    → flat ch.incoming ≡ more ++ rest
    → length more < fuel
    → (w : List SslRead) × (read_response fuel front ch
        ≡ (ok (some (front ++ more)), record ch { incoming = w }))
      × (flat w ≡ rest)
unfolding read_response EndsFirst
grow zero front more rest ch ends small input enough = absurd (omega arith)
grow (suc fuel) front [] rest ch ends small input enough =
    (ch.incoming, rw (ends, append-nil front) refl, input)
grow (suc fuel) front (c ∷ more) rest ch ends small input enough =
    let (w, r, after) = read_exactly 1 ch (c ∷ []) (more ++ rest) refl input in
    let fits : ltb 8192 (length (front ++ c ∷ [])) ≡ false =
      ground (arith, length-append front (c ∷ [])) in
    let (w', r', after') =
      grow fuel (front ++ c ∷ []) more rest (record ch { incoming = w }) ends.1
        (omega (arith, length-append front (c ∷ []))) after (omega arith) in
    (
      w',
      rw (ends.0, r, fits)
          (r'
            ∙ ap (λ (m : Bytes). (ok (some m), record ch { incoming = w' }))
                (append_assoc front (c ∷ []) more)),
      after',
    )

-- A response of at most 8192 bytes, in pieces of whatever sizes, is read up to the first blank line
-- and no further: the first frame of the server, if it is already there, is left to be read.
pub read_response-first :
    (response rest : Bytes) (ch : Channel)
    → EndsFirst [] response
    → length response ≤ 8192
    → flat ch.incoming ≡ response ++ rest
    → (w : List SslRead) × (read_response response_fuel [] ch
        ≡ (ok (some response), record ch { incoming = w }))
      × (flat w ≡ rest)
read_response-first response rest ch ends small input =
    grow response_fuel [] response rest ch ends (omega arith) input (omega arith)

check_ok :
    (sha1 encode_block : Bytes → Bytes) (key response : Bytes) (ch : Channel)
    → ((check_response sha1 encode_block key (some response) ch).0 ≡ ok (some tt)) ↔ (
        (starts_with (codes "HTTP/1.1 101") (until_crlf response) ≡ true)
        × (ws_header_value response (codes "sec-websocket-accept")
            ≡ ws_compute_accept sha1 encode_block key))
unfolding check_response
check_ok sha1 encode_block key response ch =
    let value = ws_header_value response (codes "sec-websocket-accept") in
    let accept = ws_compute_accept sha1 encode_block key in
    elim (Bool-cases (starts_with (codes "HTTP/1.1 101") (until_crlf response))) [
      | inr other ↦ (λ h. absurd (ground (arith, other, h)), λ h. absurd (cc (other, h.0)))
      | inl switching ↦ elim (Bool-cases (value == accept)) [
        | inl same ↦
            (λ h. (switching, (bytes_beq_iff value accept).0 same), λ h. rw (switching, same) refl)
        | inr differs ↦ (
          λ h. absurd (ground (arith, switching, differs, h)),
          λ h. absurd (bytes_ne_of_beq value accept differs h.1),
        )
      ]
    ]

check_state :
    (sha1 encode_block : Bytes → Bytes) (key response : Bytes) (ch : Channel)
    → check_response sha1 encode_block key (some response) ch
      ≡ ((check_response sha1 encode_block key (some response) ch).0, ch)
unfolding check_response
check_state sha1 encode_block key response ch =
    elim (Bool-cases (starts_with (codes "HTTP/1.1 101") (until_crlf response))) [
      | inr other ↦ rw other refl
      | inl switching ↦
          elim (Bool-cases (
            ws_header_value response (codes "sec-websocket-accept")
            == ws_compute_accept sha1 encode_block key)) [
              | inl same ↦ rw (switching, same) refl
              | inr differs ↦ rw (switching, differs) refl
            ]
    ]

-- RFC 6455, section 1.3: what a server has to answer to a key; 28 characters are the base64 of a digest.
abbrev pub rfc_accept : (Bytes → Bytes) → (Bytes → Bytes) → Bytes → Bytes
rfc_accept sha1 encode_block key =
    take 28 (encode_block (sha1 (key ++ codes "258EAFA5-E914-47DA-95CA-C5AB0DC85B11")))

-- The upgrade with a server that answers with `response`, of at most 8192 bytes up to its first
-- blank line, in pieces of whatever sizes: the client writes its request and no more, and leaves all
-- behind the blank line to be read; it succeeds exactly if the status line says 101 and the value found
-- for Sec-WebSocket-Accept is base64(SHA1(key + GUID)) for the key of the request. That value is what
-- stands, without the spaces around it, on the rest of the line behind the first place at which the name
-- and a colon stand in the response, in upper or lower case, wherever that is; and empty where they
-- stand nowhere. RAND_bytes and SSL_write do not fail.
pub ws_handshake_iff :
    (sha1 encode_block : Bytes → Bytes) (host random response rest : Bytes) (ch : Channel)
    → EndsFirst [] response
    → length response ≤ 8192
    → ch.outgoing ≡ []
    → flat ch.incoming ≡ response ++ rest
    → (w : List SslRead) × (r : Result (Option (Unit {0}))) × (value : Bytes) × (ws_handshake sha1
          encode_block host
          (some random)
          ch
        ≡ (
          r,
          record ch {
            incoming = w;
            outgoing = [];
            sent =
                ch.sent ++ upgrade_request sha1 encode_block host (take 24 (encode_block random));
          },
        ))
      × (flat w ≡ rest)
      × HasValue (codes "sec-websocket-accept:") response value
      × ((r ≡ ok (some tt)) ↔ (
          (starts_with (codes "HTTP/1.1 101") (until_crlf response) ≡ true)
          × (value ≡ rfc_accept sha1 encode_block (take 24 (encode_block random)))))
unfolding ws_handshake ws_key_base64 ws_compute_accept
ws_handshake_iff sha1 encode_block host random response rest ch ends small free input =
    let key = take 24 (encode_block random) in
    let request = upgrade_request sha1 encode_block host key in
    let ch1 : Channel = record ch { outgoing = []; sent = ch.sent ++ request } in
    let (w, r, after) = read_response-first response rest ch1 ends small input in
    let ch2 : Channel = record ch1 { incoming = w } in
    (
      w,
      (check_response sha1 encode_block key (some response) ch2).0,
      ws_header_value response (codes "sec-websocket-accept"),
      rw (ssl_write_all_free ch request free, r) (check_state sha1 encode_block key response ch2),
      after,
      ws_header_value-HasValue response (codes "sec-websocket-accept"),
      check_ok sha1 encode_block key response ch2,
    )
