-- ===== src/Mail/ImapSync/Examples.antt =====
-- Polls of a mailbox with four messages, and quarantines on a server that refuses the last command.
use envelockserver.Prelude.{
  ℕ, String, ◌≡◌, refl, Bool, true, false, Option, none, some, [], ◌∷◌, arith, if◌then◌else◌, ◌==◌,
  text_comparable, number_comparable,
}
use envelockserver.Mail.ImapSync.{
  fetched, given_bodies, above, reported, polled, poll, differs, sorted, last_of, cursor_after,
  candidates, fetch_wanted, fetch_new, Server, done, raised, connected,
}
use envelockserver.Mail.ImapSync.Polls.{fetch_new-IsFresh, fetch_new-IsAnswer, IsFresh, IsAnswer}
use envelockserver.Mail.Quarantine.{quarantine_message, QuarantineServer, Command, expunge}
use envelockserver.Mail.Quarantine.Order.{
  only_copies_deleted, has_left, quarantine_message-has_left,
}

abbrev bodies : ℕ → Option String
bodies uid = if uid == 11 then none else some "From: a@b.example"

abbrev office : Server
office = record {
  select_folder = done (some 7);
  search_all = done (12 ∷ 10 ∷ 9 ∷ 11 ∷ []);
  search_from = λ uid. done (12 ∷ 10 ∷ 9 ∷ 11 ∷ []);
  search_since = λ day. raised "TimeoutError" "";
  fetch = λ uids. done bodies;
}

poll_example : IsFresh 9 (fetch_new (some 9) (some 7) 200 (connected office))
unfolding cursor_after differs fetch_new poll polled reported above fetch_wanted given_bodies
    fetched candidates last_of sorted
poll_example = fetch_new-IsFresh 9 200 (some 7) (some 7) office refl refl refl

reply_example : IsAnswer 2 false (fetch_new none (some 6) 2 (connected office))
reply_example = fetch_new-IsAnswer none (some 6) 2 (connected office) (omega arith)

abbrev stubborn : Command → Bool
stubborn expunge = false
stubborn other = true

abbrev old_server : QuarantineServer
old_server = record {
  connects = true;
  takes = stubborn;
  has_quarantine = false;
  server_capabilities = "IMAP4REV1" ∷ [];
  upper = λ cap. cap;
}

quarantine_example :
    (only_copies_deleted false (quarantine_message old_server).0 ≡ true)
    × ((quarantine_message old_server).1 ≡ has_left (quarantine_message old_server).0)
quarantine_example = quarantine_message-has_left old_server
