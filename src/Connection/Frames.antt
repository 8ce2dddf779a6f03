-- ===== src/Connection/Frames.antt =====
-- src/utils.rs: sessions of clients that send whole frames.
use ssh_keys.Base.{
  ℕ, zero, suc, ◌%◌, ◌^◌, ◌<◌, ◌≤◌, ◌≡◌, refl, sym, ap, ◌∙◌, Bytes, some, none, List, [], ◌∷◌, ◌++◌,
  append_assoc, append-nil, true, false, length, length-append, All, ◌⊎◌, inl, inr, arith, ◌==◌,
}
use ssh_keys.Outcome.{IoKind, ok, err, io}
use ssh_keys.Packages.{ByteOrder, ByteOrderLaws, Openssl}
use ssh_keys.Reader.{read_exact-append, read_exact_short}
use ssh_keys.Wire.{read_u32, write_string}
use ssh_keys.Wire.RoundTrip.{read_u32-to_be, length-write_string}
use ssh_keys.Config.{Toml}
use ssh_keys.Agent.{Agent, User, RequestInfo, handle_request}
use ssh_keys.Connection.{
  Session, finished, is_closed, send_all, send_string, receive, locked_request, answer_request,
  serve_request, round, serve, connection_handler,
}

abbrev pub frames : ByteOrder → List Bytes → Bytes
frames bo [] = []
frames bo (f ∷ fs) = write_string bo [] f ++ frames bo fs

-- What the client sends after its requests: less than the four bytes of a length and the end of the
-- stream, or a length of zero.
abbrev pub Closing : ByteOrder → IoKind → Bytes → Type 0
Closing bo e rest =
    ((length rest < 4) × (is_closed (io e) ≡ true))
    ⊎ (more : Bytes) × (rest ≡ bo.u32_to_be 0 ++ more)

abbrev pub IsRequest : Bytes → Type 0
IsRequest buf = (0 < length buf) × (length buf < 2 ^ 32)

-- A session whose connection takes all that is written.
abbrev pub open_session : {ssl : Openssl} → Bytes → IoKind → Bytes → Agent ssl → Session ssl
open_session bs e sent a = record {
  input = record { bytes = bs; ending = e };
  output = record { sent = sent; limit = none };
  agent = a;
  poisoned = false;
}

-- The agent answers the requests, one after the other, with the replies.
pub data Answers (bo : ByteOrder) (toml : Toml) {ssl : Openssl} (user : User ssl)
    (info : RequestInfo) : Agent ssl → List Bytes → List Bytes → Agent ssl → Type 0 where
  done : {a : Agent ssl} → Answers bo toml user info a [] [] a
  next :
      {buf reply : Bytes} {a b c : Agent ssl} {bufs replies : List Bytes}
      → handle_request bo toml user buf info a ≡ (ok reply, b)
      → Answers bo toml user info b bufs replies c
      → Answers bo toml user info a (buf ∷ bufs) (reply ∷ replies) c

read_u32_short :
    (bo : ByteOrder) (rest : Bytes) (e : IoKind)
    → length rest < 4
    → read_u32 bo (record { bytes = rest; ending = e }) ≡ err (io e)
unfolding read_u32
read_u32_short bo rest e h = rw (read_exact_short 4 (record { bytes = rest; ending = e }) h)

module _ {bo : ByteOrder} (bytes : ByteOrderLaws bo) (toml : Toml) {ssl : Openssl} (user : User ssl)
    (info : RequestInfo) where
  round-frame :
      (buf reply rest sent : Bytes) (e : IoKind) (a b : Agent ssl)
      → IsRequest buf
      → handle_request bo toml user buf info a ≡ (ok reply, b)
      → round bo toml user info (open_session (write_string bo [] buf ++ rest) e sent a)
        ≡ (ok true, open_session rest e (sent ++ write_string bo [] reply) b)
  unfolding round serve_request answer_request locked_request receive send_string send_all
      write_string
  round-frame buf reply rest sent e a b (pos, small) h =
      let whole : length buf % 2 ^ 32 ≡ length buf = omega arith in
      let nonzero : (length buf == 0) ≡ false = ground arith in
      rw
        (
          whole,
          append_assoc (bo.u32_to_be (length buf)) buf rest,
          read_u32-to_be bytes (length buf) (buf ++ rest) e small,
          nonzero,
          read_exact-append buf rest e,
          h,
        )
        (ap (λ t. (ok true, open_session rest e t b))
          (append_assoc sent (bo.u32_to_be (length reply % 2 ^ 32)) reply))

  -- The loop returns at the end of the client's bytes.
  round-Closing :
      (rest sent : Bytes) (e : IoKind) (a : Agent ssl)
      → Closing bo e rest
      → (t : Session ssl) × (round bo toml user info (open_session rest e sent a) ≡ (ok false, t))
        × (t.output.sent ≡ sent)
        × (t.agent ≡ a)
  unfolding round
  round-Closing rest sent e a (inl (short, closed)) =
      (open_session rest e sent a, rw (read_u32_short bo rest e short, closed), refl, refl)
  round-Closing rest sent e a (inr (more, zero_len)) = (
    open_session more e sent a,
    rw (zero_len, read_u32-to_be bytes 0 more e (omega arith)),
    refl,
    refl,
  )

  serve_goes_on :
      (fuel : ℕ) (s t : Session ssl)
      → round bo toml user info s ≡ (ok true, t)
      → serve bo toml user info (suc fuel) s ≡ serve bo toml user info fuel t
  unfolding serve
  serve_goes_on fuel s t h =
      rw (serve, ap (λ p. p.0) h) (ap (λ p. serve bo toml user info fuel p.1) h)

  serve_stops :
      (fuel : ℕ) (s t : Session ssl)
      → round bo toml user info s ≡ (ok false, t)
      → serve bo toml user info (suc fuel) s ≡ some (ok tt, t)
  unfolding serve
  serve_stops fuel s t h = rw (serve, ap (λ p. p.0) h) (ap (λ p. some (finished p.0, p.1)) h)

  serve-Answers :
      (fuel : ℕ) (bufs replies : List Bytes) (rest sent : Bytes) (e : IoKind) (a c : Agent ssl)
      → All IsRequest bufs
      → Answers bo toml user info a bufs replies c
      → Closing bo e rest
      → length bufs < fuel
      → (t : Session ssl) × (serve bo toml user info fuel
            (open_session (frames bo bufs ++ rest) e sent a)
          ≡ some (ok tt, t))
        × (t.output.sent ≡ sent ++ frames bo replies)
        × (t.agent ≡ c)
  serve-Answers zero bufs replies rest sent e a c w answers closing f = absurd (omega arith)
  serve-Answers (suc fuel) bufs replies rest sent e a c w done closing f =
      let (t, h, hs, ha) = round-Closing rest sent e a closing in
      (t, serve_stops fuel _ t h, hs ∙ sym (append-nil sent), ha)
  serve-Answers (suc fuel) bufs replies rest sent e a c w
        (next {buf} {reply} {b} {bufs = later} {replies = others} h answers) closing f =
      let sent' = sent ++ write_string bo [] reply in
      let (t, hs, ho, ha) =
        serve-Answers fuel later others rest sent' e b c w.1 answers closing (omega arith) in
      let first = round-frame buf reply (frames bo later ++ rest) sent e a b w.0 h in
      (
        t,
        rw (append_assoc (write_string bo [] buf) (frames bo later) rest)
            (serve_goes_on fuel _ (open_session (frames bo later ++ rest) e sent' b) first ∙ hs),
        ho ∙ append_assoc sent (write_string bo [] reply) (frames bo others),
        ha,
      )

  length-frames : (bufs : List Bytes) → All IsRequest bufs → length bufs ≤ length (frames bo bufs)
  length-frames [] w = omega arith
  length-frames (buf ∷ bufs) (w, ws) = omega (
    arith,
    length-append (write_string bo [] buf) (frames bo bufs),
    length-write_string bytes buf w.1,
    length-frames bufs ws,
  )

  -- A client that sends framed requests, each nonempty and shorter than 2^32 bytes, and then either
  -- ends with less than a length or sends a length of zero, is sent the agent's answers in their
  -- order, each as a frame, where the agent answers all of them and nothing fails in sending; the
  -- loop returns without an error, and the agent is left as these answers left it.
  pub connection_handler-Answers :
      (bufs replies : List Bytes) (rest sent : Bytes) (e : IoKind) (a c : Agent ssl)
      → All IsRequest bufs
      → Answers bo toml user info a bufs replies c
      → Closing bo e rest
      → (t : Session ssl) × (connection_handler bo toml user info
            (open_session (frames bo bufs ++ rest) e sent a)
          ≡ some (ok tt, t))
        × (t.output.sent ≡ sent ++ frames bo replies)
        × (t.agent ≡ c)
  unfolding connection_handler
  connection_handler-Answers bufs replies rest sent e a c w answers closing =
      serve-Answers (suc (length (frames bo bufs ++ rest))) bufs replies rest sent e a c w answers
        closing (omega (arith, length-append (frames bo bufs) rest, length-frames bufs w))
