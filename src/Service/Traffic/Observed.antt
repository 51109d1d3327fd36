-- ===== src/Service/Traffic/Observed.antt =====
-- The observed domains behind `pollDomainsLocked` of internal/watcher/watcher.go.
use dialtone_watcher.Prelude.{
  ◌||◌, Bool-cases, Bool, false, Option, none, some, [], ◌∷◌, ◌≡◌, Text, nat_eq, list_eq, ◌==◌,
}
use dialtone_watcher.Prelude.Int.{pos}
use dialtone_watcher.Dict.Laws.{lookup-delete_if, lookup-insert_self}
use dialtone_watcher.Prelude.{◌||◌, Bool-cases}
use dialtone_watcher.Clock.{Time}
use dialtone_watcher.Netip.{Netip}
use dialtone_watcher.Dict.{Dict}
use dialtone_watcher.Dict.Laws.{lookup-delete_if, lookup-insert_self}
use dialtone_watcher.Records.{DomainRecord}
use dialtone_watcher.Network.{NetworkObservation}
use dialtone_watcher.Service.{Service}
use dialtone_watcher.Service.Traffic.{pos}

-- whether an observation is about the domain
abbrev pub is_observed : Text → Dict Text NetworkObservation → Bool
is_observed domain [] = false
is_observed domain ((key, o) ∷ observations) = o.domain == domain || is_observed domain observations

-- an observed domain has a record of this poll
abbrev pub SeenNow : Time → Option DomainRecord → Type 0
SeenNow now none = ⊥
SeenNow now (some r) = r.last_seen ≡ now
