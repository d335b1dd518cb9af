-- ===== src/Mail/Broker/Accounting.antt =====
-- The broker's books: what the pool and the counters say is what the connections are.
use envelockserver.Prelude.{
  ℕ, suc, ◌+◌, ◌-◌, ◌≤◌, ◌<◌, String, ◌≡◌, refl, ◌≢◌, ◌⊎◌, inl, inr, Bool, ◌&&◌, Option, none, some,
  List, [], ◌∷◌, arith, if◌then◌else◌, Bool-cases, Option-cases, ◌==◌, eq_refl, text_comparable,
  number_comparable,
}
use envelockserver.Prelude.Dict.{
  lookup, insert, lookup-remove, IsUnique, count_if, count_if-insert_new, count_if-remove,
  insert-IsUnique, remove-IsUnique,
}
use envelockserver.Core.Enums.{
  source_mechanism_eq, mailbox_class_eq, protection_level_eq, alert_tier_eq, identity_event_kind_eq,
  MailboxClass, protected, monitored,
}
use envelockserver.Mail.Broker.{
  let_go, default_route, drop_connection, strategy_eq, strategy_for, new_pool, count_of, egress_key,
  release, exhausted, register, unregister, Connection, EgressPool, BrokerStats, ImapBroker,
  Strategy, idle, poll,
}
use envelockserver.Mail.Broker.Pool.{IsDistinct, count_of-insert, acquire_of_room}

abbrev pub is_idle : Connection → Bool
is_idle c = c.strategy == idle

abbrev pub is_polled : Connection → Bool
is_polled c = c.strategy == poll

-- The connection holds a slot of the address.
abbrev pub holds : String → Connection → Bool
holds ip c = c.strategy == idle && egress_key c.egress_ip == ip

pub record IsSound (b : ImapBroker) : Type 0 where
  pub slots : (ip : String) → count_of ip b.pool.counts ≡ count_if (holds ip) b.connections
  pub capped : (ip : String) → count_of ip b.pool.counts ≤ b.pool.limit
  pub idle_counted : b.stats.idle_connections ≡ count_if is_idle b.connections
  pub polled_counted : b.stats.polled_mailboxes ≡ count_if is_polled b.connections
  pub unique_ids : IsUnique b.connections
  pub distinct_ips : IsDistinct b.pool.ips

-- A connection that polls holds no slot.
add_polled :
    (b : ImapBroker) (conn : Connection) (stats : BrokerStats)
    → conn.strategy ≡ poll
    → lookup conn.mailbox_id b.connections ≡ none
    → stats.idle_connections ≡ b.stats.idle_connections
    → stats.polled_mailboxes ≡ b.stats.polled_mailboxes + 1
    → IsSound b
    → IsSound (record b { stats = stats; connections = insert conn.mailbox_id conn b.connections })
add_polled b conn stats polls new same more s =
    let added =
      λ (p : Connection → Bool). count_if-insert_new p conn.mailbox_id conn b.connections new in
    record {
      slots = λ ip. ground (arith, s.slots ip, added (holds ip), polls);
      capped = s.capped;
      idle_counted = ground (arith, s.idle_counted, added is_idle, polls);
      polled_counted = ground (arith, s.polled_counted, added is_polled, polls);
      unique_ids = insert-IsUnique conn.mailbox_id conn b.connections s.unique_ids;
      distinct_ips = s.distinct_ips;
    }

add_idle :
    (b : ImapBroker) (conn : Connection) (stats : BrokerStats) (pool : EgressPool)
    → conn.strategy ≡ idle
    → lookup conn.mailbox_id b.connections ≡ none
    → stats.idle_connections ≡ b.stats.idle_connections + 1
    → stats.polled_mailboxes ≡ b.stats.polled_mailboxes
    → count_of (egress_key conn.egress_ip) b.pool.counts < b.pool.limit
    → ((j : String)
        → count_of j pool.counts ≡ (
            if egress_key conn.egress_ip == j
            then suc (count_of j b.pool.counts)
            else count_of j b.pool.counts))
    → pool.ips ≡ b.pool.ips
    → pool.limit ≡ b.pool.limit
    → IsSound b
    → IsSound (record b {
      pool = pool;
      stats = stats;
      connections = insert conn.mailbox_id conn b.connections;
    })
add_idle b conn stats pool idles new more same free taken ips limit s =
    let added =
      λ (p : Connection → Bool). count_if-insert_new p conn.mailbox_id conn b.connections new in
    record {
      slots = λ ip. ground (arith, s.slots ip, added (holds ip), taken ip, idles);
      capped = λ ip. ground (
        arith,
        s.capped ip,
        taken ip,
        text_comparable.equal_iff (egress_key conn.egress_ip) ip,
        limit,
        free,
      );
      idle_counted = ground (arith, s.idle_counted, added is_idle, idles);
      polled_counted = ground (arith, s.polled_counted, added is_polled, idles);
      unique_ids = insert-IsUnique conn.mailbox_id conn b.connections s.unique_ids;
      distinct_ips = rw ips s.distinct_ips;
    }

-- Registering a mailbox that is not registered keeps the books: each address carries as many slots
-- as idle connections use it and at most its limit, and the two counters say how many connections
-- are idle and how many are polled.
pub register-IsSound :
    (id address host : String) (port : ℕ) (mailbox_class : MailboxClass) (b : ImapBroker)
    → lookup id b.connections ≡ none
    → IsSound b
    → IsSound (register id address host port mailbox_class b).1
unfolding register strategy_for
register-IsSound id address host port monitored b new s = add_polled b _ _ refl new refl refl s
register-IsSound id address host port protected b new s = elim (Bool-cases (exhausted b.pool)) [
  | inl spent ↦ rw spent (add_polled b _ _ refl new refl refl s)
  | inr room ↦
      let (free, taken, ips, limit) = acquire_of_room b.pool s.distinct_ips room in
      rw room (add_idle b _ _ _ refl new refl refl free taken ips limit s)
]

count_of-release :
    (egress : Option String) (pool : EgressPool) (ip : String)
    → 0 < count_of (egress_key egress) pool.counts
    → (count_of ip (release egress pool).counts ≡ (
        if egress_key egress == ip then count_of ip pool.counts - 1 else count_of ip pool.counts))
      × ((release egress pool).ips ≡ pool.ips)
      × ((release egress pool).limit ≡ pool.limit)
unfolding release
count_of-release egress pool ip held =
    let key = egress_key egress in
    ground (
      arith,
      count_of-insert key ip (count_of key pool.counts - 1) pool.counts,
      text_comparable.equal_iff key ip,
    )

drop_polled :
    (id : String) (conn : Connection) (b : ImapBroker)
    → conn.strategy ≡ poll
    → lookup id b.connections ≡ some conn
    → IsSound b
    → IsSound (drop_connection id (some conn) b).1
unfolding drop_connection
drop_polled id conn b polls there s =
    let lost = λ (p : Connection → Bool). count_if-remove p id b.connections s.unique_ids there in
    rw (polls, let_go)
      (record {
        slots = λ ip. ground (arith, s.slots ip, lost (holds ip), polls);
        capped = s.capped;
        idle_counted = ground (arith, s.idle_counted, lost is_idle, polls);
        polled_counted = ground (arith, s.polled_counted, lost is_polled, polls);
        unique_ids = remove-IsUnique id b.connections s.unique_ids;
        distinct_ips = s.distinct_ips;
      })

drop_idle :
    (id : String) (conn : Connection) (b : ImapBroker)
    → conn.strategy ≡ idle
    → lookup id b.connections ≡ some conn
    → IsSound b
    → IsSound (drop_connection id (some conn) b).1
unfolding drop_connection
drop_idle id conn b idles there s =
    let lost = λ (p : Connection → Bool). count_if-remove p id b.connections s.unique_ids there in
    let key = egress_key conn.egress_ip in
    let held : 0 < count_of key b.pool.counts =
      ground (arith, s.slots key, lost (holds key), idles, eq_refl key) in
    let freed = λ (ip : String). count_of-release conn.egress_ip b.pool ip held in
    rw (idles, let_go)
      (record {
        slots = λ ip. ground (arith, s.slots ip, lost (holds ip), idles, freed ip);
        capped = λ ip. ground (arith, s.capped ip, freed ip);
        idle_counted = ground (arith, s.idle_counted, lost is_idle, idles);
        polled_counted = ground (arith, s.polled_counted, lost is_polled, idles);
        unique_ids = remove-IsUnique id b.connections s.unique_ids;
        distinct_ips = rw (freed "").1 s.distinct_ips;
      })

strategy-cases : (s : Strategy) → (s ≡ idle) ⊎ (s ≡ poll)
strategy-cases idle = inl refl
strategy-cases poll = inr refl

-- Unregistering a mailbox, registered or not, keeps the books in the same sense; it leaves no
-- connection of that mailbox, and its task is the one that is handed over to be cancelled.
pub unregister-IsSound :
    (id : String) (b : ImapBroker)
    → IsSound b
    → IsSound (unregister id b).1
      × (lookup id (unregister id b).1.connections ≡ none)
      × (lookup id b.connections ≢ none → (unregister id b).0 ≡ lookup id b.tasks)
unfolding unregister
unregister-IsSound id b s = elim (Option-cases (lookup id b.connections)) [
  | inl absent ↦ rw (absent, drop_connection) (s, absent, λ h. absurd (h refl))
  | inr (conn, there) ↦ rw there (
    elim (strategy-cases conn.strategy) [
      | inl idles ↦ drop_idle id conn b idles there s
      | inr polls ↦ drop_polled id conn b polls there s
    ],
    unfold drop_connection in rw (lookup-remove id id b.connections, eq_refl id),
    λ h. unfold drop_connection in refl,
  )
]

new-IsDistinct : (ips : List String) → IsDistinct ips → IsDistinct (default_route ips)
unfolding default_route
new-IsDistinct [] d = (refl, tt)
new-IsDistinct (ip ∷ ips) d = d

-- A new broker with distinct addresses has its books in order.
pub new_broker-IsSound :
    (ips : List String) (per_ip_limit : ℕ)
    → IsDistinct ips
    → IsSound (record {
      pool = new_pool ips per_ip_limit;
      stats = record {
        idle_connections = 0;
        polled_mailboxes = 0;
        throttled = 0;
        degraded_to_poll = 0;
      };
      connections = [];
      tasks = [];
    })
unfolding new_pool count_of
new_broker-IsSound ips per_ip_limit d = record {
  slots = λ ip. refl;
  capped = λ ip. omega arith;
  idle_counted = refl;
  polled_counted = refl;
  unique_ids = tt;
  distinct_ips = new-IsDistinct ips d;
}
