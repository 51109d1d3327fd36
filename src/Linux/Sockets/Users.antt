-- ===== src/Linux/Sockets/Users.antt =====
-- `parseLinuxSocketUsers` of internal/watcher/network_linux.go on the users that `ss` prints.
use dialtone_watcher.Linux.Sockets.Segments.{pid_parts}
use dialtone_watcher.Linux.Sockets.Holders.{Holder, user_of, more_text}
use dialtone_watcher.Prelude.{◌≡◌, List, [], ◌∷◌, Text, nat_eq, gather, map}
use dialtone_watcher.Linux.Sockets.{parse_user}

-- Behind the first part, which holds no number, each part is one user.
record Parts (hs : List Holder) : Type 0 where
  head : Text
  tail : List Text
  split : pid_parts (more_text hs []) ≡ head ∷ tail
  users : gather parse_user tail ≡ map user_of hs
