-- ===== src/Client/Replies.antt =====
-- What the client reads is what the agent wrote.
use integration_suricata_n_d.Base.{
  ℕ, Bool, true, false, not, ◌||◌, none, some, [], ◌∷◌, ◌≡◌, refl, arith, Bytes, leb, bytes_eq,
  if◌then◌else◌, Bool-cases, inl, inr,
}
use integration_suricata_n_d.Config.{is_empty}
use integration_suricata_n_d.Sys.{ok}
use integration_suricata_n_d.Agent.{Body, refused, toggled, ndpi, ensured, reloaded, Response}
use integration_suricata_n_d.Client.{
  encode_body, decode_toggle, decode_ensure, reply_of, toggle_result, ensure_result, agent_error,
}

-- What the client sees of an answer, field by field.
abbrev pub is_ok_of : Body → Bool
is_ok_of (refused code message) = false
is_ok_of _ = true

abbrev pub changed_of : Body → Bool
changed_of (toggled changed enabled message) = changed
changed_of _ = false

abbrev pub enabled_of : Body → Bool
enabled_of (toggled changed enabled message) = enabled
enabled_of (ndpi enabled line) = enabled
enabled_of _ = false

abbrev pub started_of : Body → Bool
started_of (ensured started socket message) = started
started_of _ = false

abbrev pub message_of : Body → Bytes
message_of (refused code message) = message
message_of (toggled changed enabled message) = message
message_of (ndpi enabled line) = []
message_of (ensured started socket message) = message
message_of (reloaded socket command output message) = message

abbrev pub socket_of : Body → Bytes
socket_of (ensured started socket message) = socket
socket_of (reloaded socket command output message) = socket
socket_of _ = []

abbrev pub code_of : Body → Bytes
code_of (refused code message) = code
code_of _ = []

-- A toggle response that is read from an answer has the answer's fields, for each of the answers that the agent writes,
-- and so has a response about Suricata; no answer is refused.
pub decode-encode_body :
    (b : Body)
    → (decode_toggle (encode_body b)
        ≡ ok (record {
          is_ok = is_ok_of b;
          changed = changed_of b;
          message = message_of b;
          enabled = enabled_of b;
        }))
      × (decode_ensure (encode_body b)
          ≡ ok (record {
            is_ok = is_ok_of b;
            started = started_of b;
            socket = socket_of b;
            code = code_of b;
            message = message_of b;
          }))
unfolding encode_body decode_toggle decode_ensure bytes_eq
decode-encode_body (refused [] []) = (refl, refl)
decode-encode_body (refused [] (c ∷ s)) = (refl, refl)
decode-encode_body (refused (c ∷ s) []) = (refl, refl)
decode-encode_body (refused (c ∷ s) (d ∷ t)) = (refl, refl)
decode-encode_body (toggled c true []) = (refl, refl)
decode-encode_body (toggled c true (d ∷ t)) = (refl, refl)
decode-encode_body (toggled c false []) = (refl, refl)
decode-encode_body (toggled c false (d ∷ t)) = (refl, refl)
decode-encode_body (ndpi e []) = (refl, refl)
decode-encode_body (ndpi e (c ∷ s)) = (refl, refl)
decode-encode_body (ensured b [] []) = (refl, refl)
decode-encode_body (ensured b [] (c ∷ s)) = (refl, refl)
decode-encode_body (ensured b (c ∷ s) []) = (refl, refl)
decode-encode_body (ensured b (c ∷ s) (d ∷ t)) = (refl, refl)
decode-encode_body (reloaded s c o m) = (ground arith, ground arith)

-- The client gives no error just for an answer below 300 that says that all is well, and hands on its fields.
pub toggle_result-reply_of :
    (status_text : ℕ → Bytes) (r : Response)
    → toggle_result (reply_of status_text r) ≡ (
      some (record {
        is_ok = is_ok_of r.body;
        changed = changed_of r.body;
        message = message_of r.body;
        enabled = enabled_of r.body;
      }),
      (if leb 300 r.status || not (is_ok_of r.body)
          then some (agent_error (message_of r.body))
          else none),
    )
unfolding toggle_result reply_of
toggle_result-reply_of status_text r =
    elim (Bool-cases (leb 300 r.status || not (is_ok_of r.body))) [
      | inl e ↦ rw ((decode-encode_body r.body).0, toggle_result) (rw (e, toggle_result) refl)
      | inr e ↦ rw ((decode-encode_body r.body).0, toggle_result) (rw (e, toggle_result) refl)
    ]

-- The same of a response about Suricata, where the message of an error is the status line if the answer has none.
pub ensure_result-reply_of :
    (status_text : ℕ → Bytes) (r : Response)
    → ensure_result (reply_of status_text r) ≡ (
      some (record {
        is_ok = is_ok_of r.body;
        started = started_of r.body;
        socket = socket_of r.body;
        code = code_of r.body;
        message = message_of r.body;
      }),
      (if leb 300 r.status || not (is_ok_of r.body)
          then some (
              agent_error
                (if is_empty (message_of r.body) then status_text r.status else message_of r.body))
          else none),
    )
unfolding ensure_result reply_of
ensure_result-reply_of status_text r =
    elim (Bool-cases (leb 300 r.status || not (is_ok_of r.body))) [
      | inl e ↦ rw ((decode-encode_body r.body).1, ensure_result) (rw (e, ensure_result) refl)
      | inr e ↦ rw ((decode-encode_body r.body).1, ensure_result) (rw (e, ensure_result) refl)
    ]
