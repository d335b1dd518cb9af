-- ===== src/Mail/Broker.antt =====
-- channels/mail/broker.py: `EgressPool` and the registration of `ImapBroker`. A mailbox is named by
-- its text; a task is the number of the running coroutine. Starting, stopping and running the
-- coroutines, and the credential check, are input and output and are left out.
pub mod Pool
pub mod Accounting
mod Examples
use Prim.Native.Nat.{max}
use envelockserver.Prelude.{
  ℕ, zero, suc, ◌+◌, ◌-◌, ◌*◌, String, ◌≡◌, refl, ◌↔◌, Bool, true, Option, none, some, List, [],
  ◌∷◌, ltb, leb, nat_beq, if◌then◌else◌, ◌==◌, text_comparable, number_comparable, coded_iff,
  Comparable, length,
}
use envelockserver.Prelude.Dict.{Dict, lookup, insert, remove}
use envelockserver.Core.Enums.{
  source_mechanism_eq, mailbox_class_eq, protection_level_eq, alert_tier_eq, identity_event_kind_eq,
  SourceMechanism, imap_idle, imap_poll, MailboxClass, protected,
}

pub data Strategy : Type 0 where
  idle poll : Strategy

abbrev pub strategy_code : Strategy → ℕ
strategy_code idle = 0
strategy_code poll = 1

strategy_decode : ℕ → Option Strategy
strategy_decode zero = some idle
strategy_decode (suc zero) = some poll
strategy_decode _ = none

strategy_back : (a : Strategy) → strategy_decode (strategy_code a) ≡ some a
unfolding strategy_decode
strategy_back idle = refl
strategy_back poll = refl

pub strategy_iff : (a b : Strategy) → (nat_beq (strategy_code a) (strategy_code b) ≡ true) ↔ (a ≡ b)
strategy_iff = coded_iff strategy_code strategy_decode strategy_back

instance abbrev pub strategy_eq : Comparable Strategy
strategy_eq = record {
  equal = λ a b. nat_beq (strategy_code a) (strategy_code b);
  equal_iff = strategy_iff;
}

pub strategy_for : MailboxClass → Strategy
strategy_for mailbox_class = if mailbox_class == protected then idle else poll

pub source_for : Strategy → SourceMechanism
source_for strategy = if strategy == idle then imap_idle else imap_poll

pub record Connection : Type 0 where
  pub mailbox_id : String
  pub address : String
  pub host : String
  pub port : ℕ
  pub strategy : Strategy
  pub egress_ip : Option String

pub record EgressPool : Type 0 where
  pub ips : List String
  pub limit : ℕ
  pub counts : Dict String ℕ

default_route : List String → List String
default_route [] = "" ∷ []
default_route (ip ∷ ips) = ip ∷ ips

pub new_pool : List String → ℕ → EgressPool
unfolding default_route
new_pool ips per_ip_limit = record {
  ips = default_route ips;
  limit = max per_ip_limit 1;
  counts = [];
}

number_or_zero : Option ℕ → ℕ
number_or_zero none = 0
number_or_zero (some n) = n

-- `self._counts[ip]` of a `defaultdict(int)`
pub count_of : String → Dict String ℕ → ℕ
unfolding number_or_zero
count_of ip counts = number_or_zero (lookup ip counts)

-- `sorted(self._ips, key=lambda i: self._counts[i])`, which keeps equals in order.
insert_ip : Dict String ℕ → String → List String → List String
insert_ip counts ip [] = ip ∷ []
insert_ip counts ip (j ∷ js) =
    if leb (count_of ip counts) (count_of j counts) then ip ∷ j ∷ js else j ∷ insert_ip counts ip js

pub sorted_ips : Dict String ℕ → List String → List String
unfolding insert_ip
sorted_ips counts [] = []
sorted_ips counts (ip ∷ ips) = insert_ip counts ip (sorted_ips counts ips)

pub first_free : ℕ → Dict String ℕ → List String → Option String
first_free limit counts [] = none
first_free limit counts (ip ∷ ips) =
    if ltb (count_of ip counts) limit then some ip else first_free limit counts ips

pub pick : EgressPool → Option String
pick pool = first_free pool.limit pool.counts (sorted_ips pool.counts pool.ips)

-- `ip or None`
or_none : String → Option String
or_none ip = if ip == "" then none else some ip

take_slot : EgressPool → Option String → Option String × EgressPool
unfolding or_none
take_slot pool none = (none, pool)
take_slot pool (some ip) =
    (or_none ip, record pool { counts = insert ip (count_of ip pool.counts + 1) pool.counts })

pub acquire : EgressPool → Option String × EgressPool
unfolding take_slot
acquire pool = take_slot pool (pick pool)

-- `ip or ""`
pub egress_key : Option String → String
egress_key none = ""
egress_key (some ip) = ip

pub release : Option String → EgressPool → EgressPool
release ip pool =
    let key = egress_key ip in
    if ltb 0 (count_of key pool.counts)
    then record pool { counts = insert key (count_of key pool.counts - 1) pool.counts }
    else pool

pub capacity : EgressPool → ℕ
capacity pool = length pool.ips * pool.limit

total : Dict String ℕ → ℕ
total [] = 0
total ((ip, n) ∷ counts) = n + total counts

pub in_use : EgressPool → ℕ
unfolding total
in_use pool = total pool.counts

pub exhausted : EgressPool → Bool
exhausted pool = leb (capacity pool) (in_use pool)

pub record BrokerStats : Type 0 where
  pub idle_connections : ℕ
  pub polled_mailboxes : ℕ
  pub throttled : ℕ
  pub degraded_to_poll : ℕ

pub record ImapBroker : Type 0 where
  pub pool : EgressPool
  pub stats : BrokerStats
  pub connections : Dict String Connection
  pub tasks : Dict String ℕ

-- The strategy and the egress address that `register` settles on, and the pool and counters it
-- leaves.
assign :
    Strategy → EgressPool → BrokerStats → (Strategy × Option String) × (EgressPool × BrokerStats)
assign poll pool stats = ((poll, none), (pool, stats))
assign idle pool stats =
    if exhausted pool
    then (
      (poll, none),
      (
        pool,
        record stats {
          degraded_to_poll = stats.degraded_to_poll + 1;
          throttled = stats.throttled + 1;
        },
      ),
    )
    else (let (egress, pool') = acquire pool in ((idle, egress), (pool', stats)))

count_in : Strategy → BrokerStats → BrokerStats
count_in idle stats = record stats { idle_connections = stats.idle_connections + 1 }
count_in poll stats = record stats { polled_mailboxes = stats.polled_mailboxes + 1 }

pub register : String → String → String → ℕ → MailboxClass → ImapBroker → Connection × ImapBroker
unfolding assign count_in
register mailbox_id address host port mailbox_class broker =
    let ((strategy, egress), (pool, stats)) =
      assign (strategy_for mailbox_class) broker.pool broker.stats in
    let conn : Connection = record {
      mailbox_id = mailbox_id;
      address = address;
      host = host;
      port = port;
      strategy = strategy;
      egress_ip = egress;
    } in
    (
      conn,
      record broker {
        pool = pool;
        stats = count_in strategy stats;
        connections = insert mailbox_id conn broker.connections;
      },
    )

-- The counters are signed in the source and natural numbers here.
let_go : Strategy → Option String → ImapBroker → ImapBroker
let_go idle egress broker = record broker {
  pool = release egress broker.pool;
  stats = record broker.stats { idle_connections = broker.stats.idle_connections - 1 };
}
let_go poll egress broker = record broker {
  stats = record broker.stats { polled_mailboxes = broker.stats.polled_mailboxes - 1 };
}

drop_connection : String → Option Connection → ImapBroker → Option ℕ × ImapBroker
unfolding let_go
drop_connection mailbox_id none broker = (none, broker)
drop_connection mailbox_id (some conn) broker =
    let left = let_go conn.strategy conn.egress_ip broker in
    (
      lookup mailbox_id broker.tasks,
      record left {
        connections = remove mailbox_id broker.connections;
        tasks = remove mailbox_id broker.tasks;
      },
    )

-- The task that is cancelled, if there is one, and the broker that is left.
pub unregister : String → ImapBroker → Option ℕ × ImapBroker
unfolding drop_connection
unregister mailbox_id broker =
    drop_connection mailbox_id (lookup mailbox_id broker.connections) broker
