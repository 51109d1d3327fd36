-- ===== src/Uploader/Flush.antt =====
-- `buildPayload`, `send` and `flush` of internal/watcher/upload.go. The encoding of the body and the
-- server behind the network are parameters. A time is an instant, so `UTC()` leaves it.
pub mod Laws
pub mod Sent
use dialtone_watcher.Prelude.{
  ℕ, Bool, ◌||◌, Option, none, some, Text, codes, leb, ltb, max, nat_beq, if◌then◌else◌,
}
use dialtone_watcher.Clock.{Time, is_zero, sub, whole_seconds}
use dialtone_watcher.Float.{Float64}
use dialtone_watcher.Netip.{Netip}
use dialtone_watcher.Records.{HardwareProfile, Summary}
use dialtone_watcher.Uploader.{Uploader}
use dialtone_watcher.Uploader.Recording.{reset_window}
use dialtone_watcher.Uploader.Payload.{WatcherUploadPayload, normalize_hardware}
use dialtone_watcher.Uploader.Lists.{
  all_upload_processes, all_upload_domains, all_upload_connections,
}

-- `http.NewRequest` and the headers that are set
pub record Request : Type 0 where
  pub url : Text
  pub content_type : Text
  pub machine_id : Text
  pub body : Text

-- `json.Marshal`, `http.NewRequest` and `client.Do`: `none` is an error, `post` answers with the
-- status code.
pub record Web (F : Type 0) : Type 0 where
  pub marshal : WatcherUploadPayload F → Option Text
  pub is_url : Text → Bool
  pub post : Request → Option ℕ

pub data UploadError : Type 0 where
  marshal_error request_error transport_error : UploadError
  bad_status : ℕ → UploadError

module _ {F : Type 0} where
  -- the part behind `json.Marshal`
  unfoldable pub send_body : Web F → Uploader F → Text → Option UploadError
  send_body web u body =
      if web.is_url u.config.endpoint
      then (elim (web.post (record {
        url = u.config.endpoint;
        content_type = codes "application/json";
        machine_id = u.machine_id;
        body = body;
      })) [
        | none ↦ some transport_error
        | some status ↦ if ltb status 200 || leb 300 status then some (bad_status status) else none
      ])
      else some request_error

  -- `none` is success
  unfoldable pub send : Web F → Uploader F → WatcherUploadPayload F → Option UploadError
  unfolding send_body
  send web u payload = elim (web.marshal payload) [
    | none ↦ some marshal_error
    | some body ↦ send_body web u body
  ]

module _ {F : Type 0} ⦃fl : Float64 F⦄ ⦃ip : Netip⦄ where
  unfoldable pub build_payload :
      Time → HardwareProfile F → Summary F → Uploader F → WatcherUploadPayload F
  build_payload now hardware summary u =
      let w = u.window in
      record {
        schema_version = 1;
        sent_at = now;
        period = record {
          started_at = w.started_at;
          ended_at = now;
          duration_seconds = whole_seconds (sub now w.started_at);
          polls = w.polls;
        };
        machine = record {
          hostname = hardware.hostname;
          os = hardware.os;
          platform = hardware.platform;
          platform_version = hardware.platform_version;
          kernel_version = hardware.kernel_version;
          hardware = normalize_hardware hardware;
        };
        summary = record {
          running = summary.running;
          poll_count = w.polls;
          tracked_process_count = max summary.tracked_process_count w.max_tracked_processes;
          tracked_domain_count = max summary.tracked_domain_count w.max_tracked_domains;
          tracked_connection_count = max summary.tracked_connection_count w.max_tracked_connections;
          total_rx_bytes = w.total_rx_bytes;
          total_tx_bytes = w.total_tx_bytes;
        };
        processes = all_upload_processes w.processes;
        domains = all_upload_domains w.domains;
        connections = all_upload_connections w.connections;
      }

  -- The new uploader, the payload that the server took, which the Go function does not return, and
  -- the error.
  unfoldable pub flush :
      Web F
      → Time
      → HardwareProfile F
      → Summary F
      → Uploader F
      → Uploader F × Option (WatcherUploadPayload F) × Option UploadError
  flush web now hardware summary u =
      if is_zero u.window.started_at || nat_beq u.window.polls 0
      then (u, none, none)
      else (let payload = build_payload now hardware summary u in
          elim (send web u payload) [
            | some e ↦ (u, none, some e)
            | none ↦ (reset_window now u, some payload, none)
          ])
