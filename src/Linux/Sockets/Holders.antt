-- ===== src/Linux/Sockets/Holders.antt =====
-- A user of a socket in the output of `ss`, and `parseLinuxSocketUsers` of
-- internal/watcher/network_linux.go on what stands behind its `pid=`.
use dialtone_watcher.Prelude.{
  ℕ, ◌^◌, ◌<◌, ◌≡◌, ◌≢◌, refl, false, none, some, List, [], ◌∷◌, ◌++◌, Text, codes, ◌==◌, ◌||◌,
  nat_eq, All, arith,
}
use dialtone_watcher.Prelude.Int.{pos}
use dialtone_watcher.Decimal.{format_uint}
use dialtone_watcher.Decimal.Injective.{IsDigit, format_uint-IsDigit}
use dialtone_watcher.Decimal.Parse.{format_uint_some, parse_uint-format_uint, parse_int-format_uint}
use dialtone_watcher.Strings.Parts.{cut}
use dialtone_watcher.Strings.Parts.Laws.{Lacks, cut_at-append}
use dialtone_watcher.Network.{sock_stream}
use dialtone_watcher.Linux.Sockets.{is_empty, LinuxSocketUser, parse_user}

pub record Holder : Type 0 where
  pub name : Text
  pub pid : ℕ
  pub fd : ℕ

-- Names that can be told from what is printed around them.
pub record IsHolder (h : Holder) : Type 0 where
  pub no_pid : cut (codes "pid=") h.name ≡ none
  pub no_end : Lacks b')' h.name
  pub pid_fits : h.pid < 2 ^ 31
  pub fd_fits : h.fd < 2 ^ 32

abbrev pub user_of : Holder → LinuxSocketUser
user_of h = record { pid = pos h.pid; fd = h.fd; socket_type = sock_stream }

-- what `ss` prints, and behind it the rest of the line: `12,fd=3)`
abbrev pub numbers : Holder → Text → Text
numbers h rest = format_uint h.pid ++ (codes ",fd=" ++ (format_uint h.fd ++ b')' ∷ rest))

-- `("ssh",pid=12,fd=3)`
abbrev pub holder_text : Holder → Text → Text
holder_text h rest = b'(' ∷ b'"' ∷ (h.name ++ b'"' ∷ b',' ∷ (codes "pid=" ++ numbers h rest))

-- `,("ssh",pid=13,fd=3)` for each other process
abbrev pub more_text : List Holder → Text → Text
more_text [] rest = rest
more_text (h ∷ hs) rest = b',' ∷ holder_text h (more_text hs rest)

-- `users:(("ssh",pid=12,fd=3),("ssh",pid=13,fd=3))`
abbrev pub users_text : Holder → List Holder → Text → Text
users_text h hs rest = codes "users:(" ++ holder_text h (more_text hs (b')' ∷ rest))

pub digits-not_comma : (s : Text) → All IsDigit s → All (λ c. (c == b',') ≡ false) s
digits-not_comma [] h = tt
digits-not_comma (c ∷ s) (hc, h) = (ground arith, digits-not_comma s h)

pub digits-not_end : (s : Text) → All IsDigit s → All (λ c. (c == b')' || c == b',') ≡ false) s
digits-not_end [] h = tt
digits-not_end (c ∷ s) (hc, h) = (ground arith, digits-not_end s h)

pub not_empty_append : (s t : Text) → s ≢ [] → is_empty (s ++ t) ≡ false
not_empty_append [] t h = absurd (h refl)
not_empty_append (c ∷ s) t h = refl

-- one user is read from what stands behind its `pid=`
pub parse_user_lem :
    (h : Holder) (rest : Text) → IsHolder h → parse_user (numbers h rest) ≡ some (user_of h)
unfolding parse_user
parse_user_lem h rest i =
    let pid = format_uint h.pid in
    let fd = format_uint h.fd in
    rw
      (
        not_empty_append pid (codes ",fd=" ++ (fd ++ b')' ∷ rest)) (format_uint_some h.pid),
        cut_at-append (λ c. c == b',') pid b',' (codes "fd=" ++ (fd ++ b')' ∷ rest))
            (digits-not_comma pid (format_uint-IsDigit h.pid)) refl,
        parse_int-format_uint 32 h.pid i.pid_fits (omega arith),
        cut_at-append (λ c. c == b')' || c == b',') fd b')' rest
            (digits-not_end fd (format_uint-IsDigit h.fd)) refl,
        parse_uint-format_uint 32 h.fd i.fd_fits,
      )
      refl
