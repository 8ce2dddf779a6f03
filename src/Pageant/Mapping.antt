-- ===== src/Pageant/Mapping.antt =====
-- src/platform/win/pageant/mod.rs: the mapping before and after a request.
use ssh_keys.Base.{
  ◌≤◌, ◌<◌, ◌≡◌, refl, ◌∙◌, Bytes, Option, some, [], ◌∷◌, ◌++◌, length, drop, append-nil, inl, inr,
  ltb, Bool-cases, false, arith,
}
use ssh_keys.Outcome.{ok, unexpected_eof}
use ssh_keys.Packages.{ByteOrder, ByteOrderLaws, Openssl}
use ssh_keys.Wire.{write_string}
use ssh_keys.Config.{Toml}
use ssh_keys.Agent.{Agent, User, RequesterInfo, handle_request}
use ssh_keys.Connection.Frames.{IsRequest, next, done, connection_handler-Answers}
use ssh_keys.Pageant.{answer_mapping, pageant_info, copy_reply, Answered}

-- A mapping after a reply: the reply at its start, or as it was where the reply is longer.
pub data Copied (resp mapping : Bytes) : Bytes → Type 0 where
  fits : length resp ≤ length mapping → Copied resp mapping (resp ++ drop (length resp) mapping)
  too_long : length mapping < length resp → Copied resp mapping mapping

copy_reply-Copied : (resp mapping : Bytes) → Copied resp mapping (copy_reply resp mapping)
unfolding copy_reply
copy_reply-Copied resp mapping = elim (Bool-cases (ltb (length mapping) (length resp))) [
  | inl longer ↦ rw longer (too_long (ground arith))
  | inr short ↦ rw short (fits (ground arith))
]

module _ {bo : ByteOrder} (bytes : ByteOrderLaws bo) (toml : Toml) {ssl : Openssl}
    (user : User ssl) where
  -- In a mapping with one nonempty framed request and a length of zero behind it, as a client's
  -- zeroed memory has, to which the agent with a sound mutex replies, the framed reply is written
  -- over the start, and what is behind it stays, if it is not longer than the mapping; if it is
  -- longer, the mapping stays as it was. The agent is left as its reply left it.
  pub answer_mapping-reply :
      (requester : Option RequesterInfo) (buf reply more : Bytes) (a b : Agent ssl)
      → IsRequest buf
      → handle_request bo toml user buf (pageant_info bo toml user requester) a ≡ (ok reply, b)
      → (let mapping = write_string bo [] buf ++ (bo.u32_to_be 0 ++ more) in
          (s : Answered ssl) × (answer_mapping bo toml user requester mapping a false
            ≡ some (ok tt, s))
          × Copied (write_string bo [] reply) mapping s.mapping
          × (s.agent ≡ b))
  unfolding answer_mapping
  answer_mapping-reply requester buf reply more a b w h =
      let (t, e, sent, agent) =
        connection_handler-Answers bytes toml user (pageant_info bo toml user requester) (buf ∷ [])
          (reply ∷ []) (bo.u32_to_be 0 ++ more) [] unexpected_eof a b (w, tt) (next h done)
          (inr (more, refl)) in
      let at_start : t.output.sent ≡ write_string bo [] reply = sent ∙ append-nil _ in
      (
        record {
          mapping = copy_reply t.output.sent (write_string bo [] buf ++ (bo.u32_to_be 0 ++ more));
          agent = t.agent;
          poisoned = t.poisoned;
        },
        rw (rw (append-nil (write_string bo [] buf)) at e) refl,
        rw at_start (copy_reply-Copied (write_string bo [] reply) _),
        agent,
      )
