-- ===== src/Platform/Remediation.antt =====
-- platform/remediation.py: what may be done to a message, decided before it is promised. The number of a
-- message on the server is the text that stands for it; the time of the action is left out.
mod Plans
use envelockserver.Prelude.{
  ℕ, zero, suc, ◌+◌, ◌-◌, ◌*◌, ◌/◌, ◌%◌, ◌^◌, ◌≤◌, ◌<◌, String, ◌≡◌, refl, sym, ap, ◌∙◌, fun_ext,
  ◌≢◌, ◌↔◌, ◌⊎◌, inl, inr, Bool, true, false, not, ◌&&◌, ◌||◌, Option, none, some, List, [], ◌∷◌,
  ◌++◌, map, arith, ltb, leb, nat_beq, if◌then◌else◌, ltb→lt, leb→le, nat_beq_iff, is_some,
  Bool-cases, Option-cases, ◌==◌, eq_refl, ne_of_unequal, text_comparable, truthy,
  number_comparable, code-injective, coded_iff, Comparable, All, length, filter, any, all, sum_by,
  any_imp, length-append, length-filter-le, all-filter, all_in-filter, All-append, contains, subset,
  contains-append, contains-filter, any_witness, any_intro, any_mono,
}
use envelockserver.Prelude.Text.{concat, has_text}
use envelockserver.Core.Enums.{SourceMechanism, forward_ingest, journal, source_mechanism_eq}
use envelockserver.Core.Capabilities.{Capability, modify_message, capability_eq}

pub data RemediationAction : Type 0 where
  quarantine restore rewrite_links delete : RemediationAction

abbrev pub quarantine_folder : String
quarantine_folder = "Envelock Quarantine"

pub record RemediationResult : Type 0 where
  pub action : RemediationAction
  pub succeeded : Bool
  pub reason : String

pub alert_only : RemediationResult → Bool
alert_only r = not r.succeeded && has_text "post-delivery" r.reason

pub can_remediate : List Capability → Bool
can_remediate capabilities = contains modify_message capabilities

pub plan_remediation : RemediationAction → List Capability → SourceMechanism → RemediationResult
unfolding can_remediate
plan_remediation action capabilities source =
    if source == forward_ingest || source == journal
    then record {
      action = action;
      succeeded = false;
      reason = concat (
          "This mailbox is connected by forwarding, so the copy reaches us "
          ∷ "post-delivery — we can alert, but not remove the message. "
          ∷ "A direct connection enables quarantine." ∷ []);
    }
    else if not (can_remediate capabilities)
    then record {
      action = action;
      succeeded = false;
      reason = "This connection has no write access to the mailbox.";
    }
    else record {
      action = action;
      succeeded = true;
      reason = concat ("Message moved to '" ∷ quarantine_folder ∷ "'." ∷ []);
    }

pub imap_commands : RemediationAction → (uid : String) → List String
imap_commands quarantine uid =
    concat ("UID MOVE " ∷ uid ∷ " \"" ∷ quarantine_folder ∷ "\"" ∷ []) ∷ []
imap_commands restore uid = concat ("UID MOVE " ∷ uid ∷ " \"INBOX\"" ∷ []) ∷ []
imap_commands delete uid = concat ("UID STORE " ∷ uid ∷ " +FLAGS (\\Deleted)" ∷ []) ∷ "EXPUNGE" ∷ []
imap_commands rewrite_links uid = []

pub record GraphRequest : Type 0 where
  pub method : String
  pub path : String
  pub destination_id : Option String

move_to : String → String → GraphRequest
move_to destination message_id = record {
  method = "POST";
  path = concat ("/messages/" ∷ message_id ∷ "/move" ∷ []);
  destination_id = some destination;
}

deletion : String → GraphRequest
deletion message_id = record {
  method = "DELETE";
  path = concat ("/messages/" ∷ message_id ∷ []);
  destination_id = none;
}

pub graph_operation : RemediationAction → (message_id : String) → GraphRequest
unfolding move_to deletion
graph_operation quarantine message_id = move_to quarantine_folder message_id
graph_operation restore message_id = move_to "inbox" message_id
graph_operation rewrite_links message_id = deletion message_id
graph_operation delete message_id = deletion message_id
