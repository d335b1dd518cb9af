-- ===== src/Mail/Quarantine/Order.antt =====
-- No message is deleted without a copy, and the answer says whether it left the inbox.
use envelockserver.Prelude.{
  ◌≡◌, inl, inr, Bool, true, false, ◌&&◌, ◌||◌, [], ◌∷◌, arith, Bool-cases, text_comparable,
  number_comparable, any,
}
use envelockserver.Mail.Quarantine.{
  has_move, send_anyway, send_all, leaving, prepared, quarantine_session, Trace, quarantine_message,
  QuarantineServer, Command, move, copy, delete_messages, expunge,
}

-- Every deletion in the trace comes after a copy that the server took; `copied` says that one came before.
pub only_copies_deleted : (copied : Bool) → Trace → Bool
only_copies_deleted copied [] = true
only_copies_deleted copied ((copy, fine) ∷ t) = only_copies_deleted (copied || fine) t
only_copies_deleted copied ((delete_messages, fine) ∷ t) = copied && only_copies_deleted copied t
only_copies_deleted copied ((other, fine) ∷ t) = only_copies_deleted copied t

taken_move : Command × Bool → Bool
taken_move (move, fine) = fine
taken_move other = false

taken_expunge : Command × Bool → Bool
taken_expunge (expunge, fine) = fine
taken_expunge other = false

-- The message is out of the inbox: a move was taken, or the deletion was made final.
pub has_left : Trace → Bool
unfolding taken_move taken_expunge
has_left t = any taken_move t || any taken_expunge t

-- In every session, whatever commands the server refuses, a message is deleted only after a copy of it was
-- made, and the answer is true exactly when the message left the inbox.
pub quarantine_message-has_left :
    (server : QuarantineServer)
    → (only_copies_deleted false (quarantine_message server).0 ≡ true)
      × ((quarantine_message server).1 ≡ has_left (quarantine_message server).0)
unfolding quarantine_message quarantine_session prepared leaving send_all send_anyway
    only_copies_deleted has_left taken_move taken_expunge
quarantine_message-has_left server = elim (Bool-cases (has_move server)) [
  | inl can_move ↦ rw can_move (ground arith)
  | inr cannot ↦ rw cannot (ground arith)
]
