-- ===== src/Crypto/Call/Replies.antt =====
-- CryptoProxy::call returns the result that the subprocess sent for this request.
use epic_1bit2qbit.Prelude.{
  ◌≡◌, refl, sym, ◌∙◌, ◌⊎◌, inl, inr, true, false, List, is_empty, [], ◌∷◌, ◌++◌, if-true, if-false,
  Bool-cases,
}
use epic_1bit2qbit.Prelude.Text.{Bytes, codes}
use epic_1bit2qbit.Prelude.Result.{Result, ok, err, bind_result, lift}
use epic_1bit2qbit.Crypto.Json.{JsonLib}
use epic_1bit2qbit.Crypto.Pipe.{Pipe, Writing, refused, send_recv}
use epic_1bit2qbit.Crypto.Pipe.Lines.{flat, IsLine, GoOn, write_failed, Exchange, send_recv_lem}
use epic_1bit2qbit.Crypto.Call.{request_of, call, unwrap, error_text, subprocess_error}

module _ {J : Type 0} (lib : JsonLib J) where
  -- What call makes of a parsed reply: an exception where it has the key "error", or what
  -- response.value("result", {}) gives.
  abbrev pub Means : J → Result J → Type 0
  Means response r =
      ((lib.contains response (codes "error") ≡ true) × ((e : Bytes) × (r ≡ err e)))
      ⊎ ((lib.contains response (codes "error") ≡ false)
          × (r ≡ lib.value_or response (codes "result") (lib.object [])))

  subprocess_error-err :
      (method : Bytes) (r : Result Bytes) → (e : Bytes) × (subprocess_error lib method r ≡ err e)
  unfolding subprocess_error
  subprocess_error-err method (err e) = (e, refl)
  subprocess_error-err method (ok why) = (_, refl)

  unwrap-Means : (method : Bytes) (response : J) → Means response (unwrap lib method (ok response))
  unfolding unwrap
  unwrap-Means method response = elim (Bool-cases (lib.contains response (codes "error"))) [
    | inl failed ↦
        let (e, h) =
          subprocess_error-err method (error_text lib (lib.at_key response (codes "error"))) in
        inl (failed, (e, if-true _ _ _ failed ∙ h))
    | inr fine ↦ inr (fine, if-false _ _ _ fine)
  ]

  -- What a call leaves: see Exchange; the reply is parsed and unwrapped.
  abbrev pub Answers : Bytes → J → Bytes → Pipe → Result J × Pipe → Type 0
  Answers request response rest p (r, p') =
      (before : List Writing) × GoOn before
      × ((Means response r
            × (p.outgoing ≡ before ++ p'.outgoing)
            × (p'.sent ≡ p.sent ++ request)
            × (p'.read_buf ++ flat p'.incoming ≡ rest))
          ⊎ ((front : Bytes) × (back : Bytes) × (why : Bytes) × (r ≡ err (write_failed why))
              × (p.outgoing ≡ before ++ refused why ∷ p'.outgoing)
              × (request ≡ front ++ back)
              × (is_empty back ≡ false)
              × (p'.sent ≡ p.sent ++ front)
              × (p'.read_buf ++ flat p'.incoming ≡ p.read_buf ++ flat p.incoming)))

  -- A call sends the request as one line. If the subprocess's next line, in whatever pieces and with
  -- interruptions it arrives, parses as `response`, and no answer of write() that the call takes is an
  -- error (interruptions are none), the call throws where the response has the key "error" and else
  -- returns the value of "result"; what the subprocess sends after that line is kept for the calls to
  -- come. Where write() has refused with an error before the request was out, the call throws that
  -- error and has read nothing.
  pub call_lem :
      (method line rest : Bytes) (params response : J) (p : Pipe)
      → p.is_open ≡ true
      → IsLine line
      → p.read_buf ++ flat p.incoming ≡ line ++ 10 ∷ rest
      → lib.parse line ≡ ok response
      → Answers
          (lib.dump (request_of lib method params) ++ 10 ∷ [])
          response
          rest
          p
          (call lib method params p)
  unfolding call
  call_lem method line rest params response p ready is_line input parsed =
      finish (send_recv request p) (send_recv_lem request line rest p ready is_line input)
    where
      request : Bytes
      request = lib.dump (request_of lib method params) ++ 10 ∷ []

      finish :
          (o : Result Bytes × Pipe)
          → Exchange request line rest p o
          → Answers request response rest p
              (bind_result o (λ reply. lift (unwrap lib method (lib.parse reply))))
      finish (r, p') (before, fine, inl (good, answers, sent, kept)) =
          rw (good, parsed) (before, fine, inl (unwrap-Means method response, answers, sent, kept))
      finish (r, p') (before, fine, inr (front, back, why, bad, answers, split, more, sent, kept)) =
          rw bad (
            before,
            fine,
            inr (front, back, why, refl, answers, split, more, sent, kept ∙ sym input),
          )
