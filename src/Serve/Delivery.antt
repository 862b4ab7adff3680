-- ===== src/Serve/Delivery.antt =====
-- How a request of the client gets to the agent and back: what net/http does on both sides of the socket.
use integration_suricata_n_d.Base.{ℕ, none, some, Bytes, codes}
use integration_suricata_n_d.Sys.{Error, outer, other, Result, ok, err, M}
use integration_suricata_n_d.Agent.{post, Deps}
use integration_suricata_n_d.Api.{serve_mux}
use integration_suricata_n_d.Client.{Reply, reply_of}
use integration_suricata_n_d.Serve.{Outside, Served, health_text, answered, agent_routes}

abbrev pub not_json : Error
not_json = outer other (codes "invalid character 'o' looking for beginning of value")

-- The reply to an answer, with the text that net/http gives to a code.
abbrev pub reply_to : (ℕ → Bytes) → Served → Reply
reply_to status_text health_text = record {
  status_code = 200;
  status = status_text 200;
  body = err not_json;
}
reply_to status_text (answered r) = reply_of status_text r

-- A POST to a path of the agent; a path that no pattern has gets the answer 404, which is plain text.
abbrev pub delivered : (ℕ → Bytes) → Outside → Deps → Bytes → M (Result Reply)
delivered status_text o d path w = elim (serve_mux (agent_routes o d) path) [
  | none ↦ (ok (record { status_code = 404; status = status_text 404; body = err not_json }), w)
  | some h ↦ (ok (reply_to status_text (h post w).0), (h post w).1)
]
