-- ===== src/Mail/Broker/Examples.antt =====
-- The broker's theorems at a concrete broker.
use envelockserver.Prelude.{◌≡◌, refl, [], ◌∷◌, text_comparable, number_comparable}
use envelockserver.Core.Enums.{
  source_mechanism_eq, mailbox_class_eq, protection_level_eq, alert_tier_eq, identity_event_kind_eq,
  protected,
}
use envelockserver.Mail.Broker.{
  strategy_eq, strategy_for, new_pool, count_of, sorted_ips, first_free, pick, acquire, capacity,
  in_use, exhausted, register, ImapBroker, poll,
}
use envelockserver.Mail.Broker.Accounting.{register-IsSound, new_broker-IsSound, IsSound}

abbrev start : ImapBroker
start = record {
  pool = new_pool ("10.0.0.1" ∷ "10.0.0.2" ∷ []) 1;
  stats = record {
    idle_connections = 0;
    polled_mailboxes = 0;
    throttled = 0;
    degraded_to_poll = 0;
  };
  connections = [];
  tasks = [];
}

start-IsSound : IsSound start
start-IsSound = new_broker-IsSound ("10.0.0.1" ∷ "10.0.0.2" ∷ []) 1 (refl, (refl, tt))

abbrev one : ImapBroker
one = (register "m1" "a@x" "imap.x" 993 protected start).1

-- The third protected mailbox polls.
third_polls :
    (register "m3" "c@x" "imap.x" 993 protected
      (register "m2" "b@x" "imap.x" 993 protected one).1).0.strategy
    ≡ poll
unfolding register acquire pick first_free sorted_ips exhausted in_use capacity count_of
    strategy_for new_pool
third_polls = refl

register_example : IsSound one
register_example = register-IsSound "m1" "a@x" "imap.x" 993 protected start refl start-IsSound
