-- ===== src/Mail/Quarantine.antt =====
-- channels/mail/imap_sync.py: the quarantine of one message. A server is what it answers to each command
-- of the session, so a run is the list of the commands it sent, each with whether the server took it.
pub mod Order
use envelockserver.Prelude.{
  ◌+◌, String, Bool, true, false, ◌&&◌, List, [], ◌∷◌, ◌++◌, if◌then◌else◌, ◌==◌, text_comparable,
  number_comparable, any,
}

pub data Command : Type 0 where
  select_folder : Command
  folder_exists : Command
  create_folder : Command
  capabilities : Command
  move : Command
  copy : Command
  delete_messages : Command
  expunge : Command

-- Which commands the server takes, what it holds and what it can do. An exception of the client is a
-- command that is not taken; `upper` stands for the decoding and upper case of a capability.
pub record QuarantineServer : Type 0 where
  pub connects : Bool
  pub takes : Command → Bool
  pub has_quarantine : Bool
  pub server_capabilities : List String
  pub upper : String → String

abbrev pub Trace : Type 0
Trace = List (Command × Bool)

-- Sends the commands in order, up to the first that is not taken.
send_all : (Command → Bool) → List Command → Trace × Bool
send_all takes [] = ([], true)
send_all takes (c ∷ cs) =
    let (rest, fine) = send_all takes cs in
    if takes c then ((c, true) ∷ rest, fine) else ((c, false) ∷ [], false)

-- One command whose failure is suppressed.
send_anyway : (Command → Bool) → Command → Trace
send_anyway takes c = (c, takes c) ∷ []

has_move : QuarantineServer → Bool
has_move server =
    server.takes capabilities && any (λ cap. server.upper cap == "MOVE") server.server_capabilities

-- The commands that take the message out of the inbox.
leaving : QuarantineServer → List Command
unfolding has_move
leaving server = if has_move server then move ∷ [] else copy ∷ delete_messages ∷ expunge ∷ []

prepared : QuarantineServer → Trace
unfolding send_anyway
prepared server =
    (if server.has_quarantine then [] else send_anyway server.takes create_folder)
    ++ send_anyway server.takes capabilities

quarantine_session : QuarantineServer → Trace × Bool
unfolding send_all leaving prepared
quarantine_session server =
    let (opened, fine) = send_all server.takes (select_folder ∷ folder_exists ∷ []) in
    let (moved, left) = send_all server.takes (leaving server) in
    if fine then (opened ++ (prepared server ++ moved), left) else (opened, false)

-- The trace of the session, and the answer.
pub quarantine_message : QuarantineServer → Trace × Bool
unfolding quarantine_session
quarantine_message server = if server.connects then quarantine_session server else ([], false)
