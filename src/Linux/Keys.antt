-- ===== src/Linux/Keys.antt =====
-- The keys of internal/watcher/network_linux.go: `linuxFlowTupleKey` and the key of a socket.
use dialtone_watcher.Prelude.{ℕ, ◌∷◌, ◌++◌, ◌≡◌, Text}
use dialtone_watcher.Prelude.Int.{ℤ}
use dialtone_watcher.Strings.Parts.Laws.{Lacks, split_unique}
use dialtone_watcher.Decimal.{format_uint}
use dialtone_watcher.Decimal.Injective.{
  format_uint-IsDigit, format_uint-injective, format_int-injective,
}
use dialtone_watcher.Network.Keys.{digits-Lacks_bar, format_int-Lacks_bar}
use dialtone_watcher.Linux.Sockets.{linux_socket_key}
use dialtone_watcher.Linux.Conntrack.{linux_flow_tuple_key}

-- a number in front of a bar
number_part :
    (m n : ℕ) (s t : Text)
    → format_uint m ++ b'|' ∷ s ≡ format_uint n ++ b'|' ∷ t
    → (m ≡ n) × (s ≡ t)
number_part m n s t e =
    let (number, rest) =
      split_unique b'|' _ _ _ _ (digits-Lacks_bar _ (format_uint-IsDigit m))
        (digits-Lacks_bar _ (format_uint-IsDigit n)) e in
    (format_uint-injective m n number, rest)

-- Two flows whose hosts hold no bar share a key only if they share the socket's type and both
-- endpoints.
pub linux_flow_tuple_key-injective :
    (type type' port port' remote_port remote_port' : ℕ) (host host' remote remote' : Text)
    → Lacks b'|' host
    → Lacks b'|' host'
    → Lacks b'|' remote
    → Lacks b'|' remote'
    → linux_flow_tuple_key type host port remote remote_port
      ≡ linux_flow_tuple_key type' host' port' remote' remote_port'
    → (type ≡ type')
      × ((host ≡ host') × ((port ≡ port') × ((remote ≡ remote') × (remote_port ≡ remote_port'))))
unfolding linux_flow_tuple_key
linux_flow_tuple_key-injective type type' port port' remote_port remote_port' host host' remote
      remote' h h' r r' e =
    let (types, e1) = number_part type type' _ _ e in
    let (hosts, e2) = split_unique b'|' _ _ _ _ h h' e1 in
    let (ports, e3) = number_part port port' _ _ e2 in
    let (remotes, e4) = split_unique b'|' _ _ _ _ r r' e3 in
    (types, (hosts, (ports, (remotes, format_uint-injective remote_port remote_port' e4))))

-- Two sockets whose hosts hold no bar share a key only if they share the process, the descriptor, the
-- type and both endpoints.
pub linux_socket_key-injective :
    (pid pid' : ℤ) (fd fd' type type' port port' remote_port remote_port' : ℕ)
    (host host' remote remote' : Text)
    → Lacks b'|' host
    → Lacks b'|' host'
    → Lacks b'|' remote
    → Lacks b'|' remote'
    → linux_socket_key pid fd type host port remote remote_port
      ≡ linux_socket_key pid' fd' type' host' port' remote' remote_port'
    → (pid ≡ pid')
      × ((fd ≡ fd')
          × ((type ≡ type')
              × ((host ≡ host')
                  × ((port ≡ port') × ((remote ≡ remote') × (remote_port ≡ remote_port'))))))
unfolding linux_socket_key
linux_socket_key-injective pid pid' fd fd' type type' port port' remote_port remote_port' host host'
      remote remote' h h' r r' e =
    let (pids, e1) =
      split_unique b'|' _ _ _ _ (format_int-Lacks_bar pid) (format_int-Lacks_bar pid') e in
    let (fds, e2) = number_part fd fd' _ _ e1 in
    let (types, e3) = number_part type type' _ _ e2 in
    let (hosts, e4) = split_unique b'|' _ _ _ _ h h' e3 in
    let (ports, e5) = number_part port port' _ _ e4 in
    let (remotes, e6) = split_unique b'|' _ _ _ _ r r' e5 in
    (
      format_int-injective pid pid' pids,
      (
        fds,
        (types, (hosts, (ports, (remotes, format_uint-injective remote_port remote_port' e6)))),
      ),
    )
