-- ===== src/Sshd/Connection.antt =====
-- sshd/server.go: `handleConn` and the callbacks of the authentication. The SSH library decides the
-- handshake and hands over the channels. The debug flag is read several times during a connection; it is
-- taken to stay the same from its start to the first channel.
use ztna_lab_appliance.Common.{
  Bool, true, false, not, List, [], ◌∷◌, ◌++◌, Option, none, some, Text, text, text_eq, LogCall,
  if◌then◌else◌,
}
use ztna_lab_appliance.Sshd.Lifecycle.{ssh_line}
use ztna_lab_appliance.Sshd.Sessions.{Session, Registry, open_session, close_session}
use ztna_lab_appliance.Sshd.Accept.{ip_only}

-- `PasswordCallback`: every password is accepted; `quoted` is what `%q` prints.
unfoldable pub password_callback : (Text → Text) → Text → Text → Text → Bool × LogCall
password_callback quoted remote user password = (
  true,
  ssh_line (
      text "auth attempt from="
      ++ remote
      ++ text " user="
      ++ user
      ++ text " password="
      ++ quoted password),
)

-- `PublicKeyCallback`: every key is accepted.
unfoldable pub public_key_callback : Text → Text → Text → Bool × LogCall
public_key_callback remote user key_type = (
  true,
  ssh_line
      (text "pubkey auth from=" ++ remote ++ text " user=" ++ user ++ text " type=" ++ key_type),
)

abbrev attempt : Text → Text → Text → Text → Text
attempt verb remote user method =
    text "[debug] auth "
    ++ verb
    ++ text " from="
    ++ remote
    ++ text " user="
    ++ user
    ++ text " method="
    ++ method

-- `AuthLogCallback`: `failure` is the text of the error, if there is one.
unfoldable pub auth_log_callback : Bool → Text → Text → Text → Option Text → List LogCall
auth_log_callback false remote user method failure = []
auth_log_callback true remote user method (some e) =
    ssh_line (attempt (text "rejected") remote user method ++ text " err=" ++ e) ∷ []
auth_log_callback true remote user method none =
    ssh_line (attempt (text "accepted") remote user method) ∷ []

-- The result of `ssh.NewServerConn`: the error with its type, its text and its text as `%q` prints it, or
-- the user with the client's version as `%q` prints it.
pub data Handshake : Type 0 where
  refused : Text → Text → Text → Handshake
  accepted : Text → Text → Handshake

abbrev only_if : Bool → Text → List LogCall
only_if debug message = if debug then ssh_line message ∷ [] else []

-- `handleConn` up to the first channel: the session, if the handshake succeeded.
unfoldable pub open_conn :
    (Text → Option Text)
    → Bool
    → Text
    → Text
    → Handshake
    → Registry
    → Option Session × Registry × List LogCall
unfolding open_session ip_only
open_conn split_host_port debug remote now (Handshake.refused kind e quoted) r = (
  none,
  r,
  only_if debug (text "[debug] TCP connection from=" ++ remote)
      ++ only_if debug (
          text "[debug] handshake error type="
          ++ kind
          ++ text " msg="
          ++ quoted
          ++ text " from="
          ++ remote)
      ++ ssh_line (text "handshake failed from=" ++ remote ++ text ": " ++ e) ∷ [],
)
open_conn split_host_port debug remote now (Handshake.accepted user version) r =
    let (session, r', lines) = open_session user (ip_only split_host_port remote) now r in
    (
      some session,
      r',
      only_if debug (text "[debug] TCP connection from=" ++ remote)
          ++ only_if debug (
              text "[debug] handshake ok from="
              ++ remote
              ++ text " user="
              ++ user
              ++ text " clientVersion="
              ++ version)
          ++ lines,
    )

-- A channel that the client asks for: its type, and whether `Accept` succeeds.
pub record NewChannel : Type 0 where
  pub channel_type : Text
  pub accepts : Bool

-- What becomes of a channel.
pub data Fate : Type 0 where
  rejected dropped shell : Fate

-- The loop over the channels.
unfoldable pub channel_fates : List NewChannel → List Fate
channel_fates [] = []
channel_fates (c ∷ chans) =
    (if not (text_eq c.channel_type (text "session"))
      then Fate.rejected
      else (if c.accepts then Fate.shell else Fate.dropped))
    ∷ channel_fates chans

-- The deferred end of a connection.
unfoldable pub close_conn : Option Session → Registry → Registry × List LogCall
unfolding close_session
close_conn none r = (r, [])
close_conn (some session) r = close_session session.id r
