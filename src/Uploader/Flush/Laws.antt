-- ===== src/Uploader/Flush/Laws.antt =====
-- `send` of internal/watcher/upload.go and its errors.
use dialtone_watcher.Prelude.{
  ℕ, ◌≤◌, ◌<◌, true, none, some, ◌≡◌, ◌↔◌, Text, codes, arith, Option-cases, inl, inr,
}
use dialtone_watcher.Uploader.{Uploader}
use dialtone_watcher.Uploader.Payload.{WatcherUploadPayload}
use dialtone_watcher.Uploader.Flush.{Web, Request, send}

module _ {F : Type 0} where
  abbrev pub request_of : Uploader F → Text → Request
  request_of u body = record {
    url = u.config.endpoint;
    content_type = codes "application/json";
    machine_id = u.machine_id;
    body = body;
  }

  -- A request with the payload's body and the machine's identity was answered with a status of success.
  pub record IsTaken (web : Web F) (u : Uploader F) (payload : WatcherUploadPayload F)
      : Type 0 where
    pub body : Text
    pub status : ℕ
    pub encoded : web.marshal payload ≡ some body
    pub address : web.is_url u.config.endpoint ≡ true
    pub answered : web.post (request_of u body) ≡ some status
    pub success : (200 ≤ status) × (status < 300)

  -- `send` returns no error exactly if the server answered a request that carries the encoded payload
  -- and the machine's identity with a status from 200 to 299.
  pub send_iff :
      (web : Web F) (u : Uploader F) (payload : WatcherUploadPayload F)
      → (send web u payload ≡ none) ↔ IsTaken web u payload
  unfolding send
  send_iff web u payload = (sound, complete)
    where
      sound : send web u payload ≡ none → IsTaken web u payload
      sound h = elim (Option-cases (web.marshal payload)) [
        | inl failed ↦ absurd (ground arith)
        | inr (body, encoded) ↦ elim (Option-cases (web.post (request_of u body))) [
          | inl lost ↦ absurd (ground arith)
          | inr (status, answered) ↦ record {
            body = body;
            status = status;
            encoded = encoded;
            address = ground arith;
            answered = answered;
            success = ground arith;
          }
        ]
      ]

      complete : IsTaken web u payload → send web u payload ≡ none
      complete t = ground (arith, t.encoded, t.address, t.answered, t.success)
