-- ===== src/Client.antt =====
-- pkg/agentclient: the requests to the host agent, and what is made of its replies; and the JSON of the agent's answers,
-- by the tags of the structs in pkg/hostagent/handlers.go and handlers_reload.go.
pub mod Replies
use integration_suricata_n_d.Base.{
  ℕ, Bool, true, false, not, ◌||◌, Option, none, some, List, [], ◌∷◌, ◌++◌, if◌then◌else◌, Bytes,
  codes, leb, Duration, le_zero, seconds,
}
use integration_suricata_n_d.Config.{is_empty}
use integration_suricata_n_d.Sys.{Error, msg, Result, ok, err, M}
use integration_suricata_n_d.Json.{
  Value, flag, text, Object, member_of, as_flag, as_text, omit_flag, omit_text,
}
use integration_suricata_n_d.Agent.{Body, refused, toggled, ndpi, ensured, reloaded, Response}

abbrev pub key_ok : Bytes
key_ok = codes "ok"

abbrev pub key_changed : Bytes
key_changed = codes "changed"

abbrev pub key_enabled : Bytes
key_enabled = codes "enabled"

abbrev pub key_code : Bytes
key_code = codes "code"

abbrev pub key_message : Bytes
key_message = codes "message"

abbrev pub key_started : Bytes
key_started = codes "started"

abbrev pub key_socket : Bytes
key_socket = codes "socket"

-- The members in the order of the struct's fields.
unfoldable pub encode_body : Body → Object
encode_body (refused code message) =
    (key_ok, flag false)
    ∷ (key_changed, flag false)
    ∷ (omit_text key_code code ++ omit_text key_message message)
encode_body (toggled changed enabled message) =
    (key_ok, flag true)
    ∷ (key_changed, flag changed)
    ∷ (omit_flag key_enabled enabled ++ omit_text key_message message)
encode_body (ndpi enabled line) =
    (key_ok, flag true) ∷ (key_enabled, flag enabled) ∷ omit_text (codes "line") line
encode_body (ensured started socket message) =
    (key_ok, flag true)
    ∷ (key_started, flag started)
    ∷ (omit_text key_socket socket ++ omit_text key_message message)
encode_body (reloaded socket command output message) =
    (key_ok, flag true)
    ∷ (omit_text key_socket socket
        ++ (omit_text (codes "command") command
            ++ (omit_text (codes "output") output ++ omit_text key_message message)))

-- `ToggleResponse`; the field OK is `is_ok`.
pub record ToggleResponse : Type 0 where
  pub is_ok : Bool
  pub changed : Bool
  pub message : Bytes
  pub enabled : Bool

pub record EnsureSuricataResponse : Type 0 where
  pub is_ok : Bool
  pub started : Bool
  pub socket : Bytes
  pub code : Bytes
  pub message : Bytes

infixl 5 ◌>>=◌
abbrev pub ◌>>=◌ : {A B : Type 0} → Result A → (A → Result B) → Result B
ok a >>= f = f a
err e >>= f = err e

unfoldable pub decode_toggle : Object → Result ToggleResponse
decode_toggle o = do
  k ← as_flag (member_of key_ok o)
  c ← as_flag (member_of key_changed o)
  m ← as_text (member_of key_message o)
  e ← as_flag (member_of key_enabled o)
  ok (record { is_ok = k; changed = c; message = m; enabled = e })

unfoldable pub decode_ensure : Object → Result EnsureSuricataResponse
decode_ensure o = do
  k ← as_flag (member_of key_ok o)
  s ← as_flag (member_of key_started o)
  p ← as_text (member_of key_socket o)
  c ← as_text (member_of key_code o)
  m ← as_text (member_of key_message o)
  ok (record { is_ok = k; started = s; socket = p; code = c; message = m })

-- An HTTP reply: its code, its status line, and its body as far as it is JSON.
pub record Reply : Type 0 where
  pub status_code : ℕ
  pub status : Bytes
  pub body : Result Object

-- What the agent's answer is on the wire, with the text that net/http gives to a code.
unfoldable pub reply_of : (ℕ → Bytes) → Response → Reply
reply_of status_text r = record {
  status_code = r.status;
  status = status_text r.status;
  body = ok (encode_body r.body);
}

pub record Client : Type 0 where
  pub socket_path : Bytes
  pub timeout : Duration

-- `New`
unfoldable pub new_client : Bytes → Duration → Client
new_client socket timeout = record {
  socket_path = socket;
  timeout = if le_zero timeout then seconds 10 else timeout;
}

abbrev pub agent_error : Bytes → Error
agent_error s = msg (codes "agent error: " ++ s)

-- What `postToggle` makes of the reply.
unfoldable pub toggle_result : Reply → Option ToggleResponse × Option Error
toggle_result r = elim (r.body >>= decode_toggle) [
  | err e ↦ (none, some e)
  | ok out ↦
      if leb 300 r.status_code || not out.is_ok
      then (some out, some (agent_error out.message))
      else (some out, none)
]

-- What `EnsureSuricataStarted` makes of the reply.
unfoldable pub ensure_result : Reply → Option EnsureSuricataResponse × Option Error
ensure_result r = elim (r.body >>= decode_ensure) [
  | err e ↦ (none, some e)
  | ok out ↦
      if leb 300 r.status_code || not out.is_ok
      then (some out, some (agent_error (if is_empty out.message then r.status else out.message)))
      else (some out, none)
]

-- `http.Client.Do` of a POST with no body, to a path of the agent: a parameter, since the agent is another process.
abbrev pub Exchange : Type 0
Exchange = Client → Bytes → M (Result Reply)

unfoldable pub post_toggle : Exchange → Client → Bytes → M (Option ToggleResponse × Option Error)
post_toggle send c path w =
    let (r, w') = send c path w in
    (elim r [ err e ↦ (none, some e) | ok reply ↦ toggle_result reply ], w')

abbrev pub enable_path : Bytes
enable_path = codes "/ndpi/enable"

abbrev pub disable_path : Bytes
disable_path = codes "/ndpi/disable"

abbrev pub ensure_path : Bytes
ensure_path = codes "/suricata/ensure"

-- `EnableNDPI` and `DisableNDPI`
abbrev pub set_ndpi : Exchange → Client → Bool → M (Option ToggleResponse × Option Error)
set_ndpi send c enable = post_toggle send c (if enable then enable_path else disable_path)

unfoldable pub request_ensure : Exchange → Client → M (Option EnsureSuricataResponse × Option Error)
request_ensure send c w =
    let (r, w') = send c ensure_path w in
    (elim r [ err e ↦ (none, some e) | ok reply ↦ ensure_result reply ], w')
