-- ===== src/Network/Keys.antt =====
-- The keys of internal/watcher/watcher.go and internal/watcher/upload.go under which the traffic of
-- connections is grouped.
use dialtone_watcher.Prelude.{ℕ, suc, ◌%◌, ◌^◌, [], ◌∷◌, ◌≡◌, Text, arith, All}
use dialtone_watcher.Prelude.Int.{ℤ, pos, negsuc}
use dialtone_watcher.Strings.Parts.Laws.{Lacks, split_unique}
use dialtone_watcher.Decimal.{format_int}
use dialtone_watcher.Decimal.Injective.{IsDigit, format_uint-IsDigit, format_int-injective}
use dialtone_watcher.Network.{
  NetworkObservation, infer_protocol, infer_socket_protocol, observed_connection_key,
}

pub digits-Lacks_bar : (s : Text) → All IsDigit s → Lacks b'|' s
digits-Lacks_bar [] h = tt
digits-Lacks_bar (c ∷ s) ((lo, hi), h) = (λ e. omega arith, digits-Lacks_bar s h)

pub format_int-Lacks_bar : (a : ℤ) → Lacks b'|' (format_int a)
unfolding format_int
format_int-Lacks_bar (pos n) = digits-Lacks_bar _ (format_uint-IsDigit n)
format_int-Lacks_bar (negsuc n) = (omega arith, digits-Lacks_bar _ (format_uint-IsDigit (suc n)))

-- The protocol names that the program infers hold no bar.
pub infer_protocol-Lacks_bar : (port : ℕ) → Lacks b'|' (infer_protocol port)
unfolding infer_protocol
infer_protocol-Lacks_bar port = ground arith

pub infer_socket_protocol-Lacks_bar :
    (socket_type port : ℕ) → Lacks b'|' (infer_socket_protocol socket_type port)
unfolding infer_socket_protocol
infer_socket_protocol-Lacks_bar socket_type port =
    ground (arith, infer_protocol-Lacks_bar (port % 2 ^ 16))

-- Observations whose protocol holds no bar share a key only if they share process, protocol and
-- domain.
pub observed_connection_key-injective :
    (o o' : NetworkObservation)
    → Lacks b'|' o.protocol
    → Lacks b'|' o'.protocol
    → observed_connection_key o ≡ observed_connection_key o'
    → (o.pid ≡ o'.pid) × (o.protocol ≡ o'.protocol) × (o.domain ≡ o'.domain)
unfolding observed_connection_key
observed_connection_key-injective o o' h h' e =
    let (pids, rest) =
      split_unique b'|' _ _ _ _ (format_int-Lacks_bar o.pid) (format_int-Lacks_bar o'.pid) e in
    let (protocols, domains) = split_unique b'|' _ _ _ _ h h' rest in
    (format_int-injective o.pid o'.pid pids, protocols, domains)
