-- ===== src/Mail/ImapSync.antt =====
-- channels/mail/imap_sync.py: one poll of a mailbox, the backfill by date, and the quarantine of a
-- message. The server, behind the package `imapclient`, is the record `Server`: what it answers to each
-- command of the session, or the exception that the client raises. Dialling and logging in, with the
-- check of the host, is one `Opening`. Numbers that are no integers are taken as already dropped.
pub mod Sorted
pub mod Cursor
pub mod Polls
mod Examples
use envelockserver.Prelude.{
  ℕ, zero, suc, ◌+◌, ◌-◌, String, Bool, true, false, not, Option, none, some, List, [], ◌∷◌, ltb,
  leb, if◌then◌else◌, ◌==◌, text_comparable, number_comparable, length, filter,
}
use envelockserver.Prelude.Text.{concat}

-- A command's answer, or the name and the text of an exception.
pub data Outcome (A : Type 0) : Type 0 where
  done : A → Outcome A
  raised : (name text : String) → Outcome A

infixl 5 ◌>>=◌
abbrev pub ◌>>=◌ : {A B : Type 0} → Outcome A → (A → Outcome B) → Outcome B
done a >>= f = f a
raised name text >>= f = raised name text

pub record Server : Type 0 where
  pub select_folder : Outcome (Option ℕ)
  pub search_all : Outcome (List ℕ)
  pub search_from : ℕ → Outcome (List ℕ)
  pub search_since : String → Outcome (List ℕ)
  pub fetch : List ℕ → Outcome (ℕ → Option String)

-- What `_open` comes to.
pub data Opening : Type 0 where
  connected : Server → Opening
  auth_error : String → Opening
  blocked_host : String → Opening
  failed : (name text : String) → Opening

pub record FetchedMessage : Type 0 where
  pub uid : ℕ
  pub raw : String

pub record FetchResult : Type 0 where
  pub messages : List FetchedMessage
  pub uidvalidity : Option ℕ
  pub highest_uid : Option ℕ
  pub ok : Bool
  pub error : Option String
  pub auth_failed : Bool

abbrev pub first_sync_tail : ℕ
first_sync_tail = 50

insert_uid : ℕ → List ℕ → List ℕ
insert_uid u [] = u ∷ []
insert_uid u (v ∷ vs) = if leb u v then u ∷ v ∷ vs else v ∷ insert_uid u vs

-- `sorted(uids)`
pub sorted : List ℕ → List ℕ
unfolding insert_uid
sorted [] = []
sorted (u ∷ us) = insert_uid u (sorted us)

pub drop : ℕ → List ℕ → List ℕ
drop zero us = us
drop (suc n) [] = []
drop (suc n) (u ∷ us) = drop n us

-- `uids[-n:]`, which is the whole list for n = 0.
pub last_of : ℕ → List ℕ → List ℕ
unfolding drop
last_of n us = if n == 0 then us else drop (length us - n) us

add_message : ℕ → Option String → List FetchedMessage → List FetchedMessage
add_message uid none rest = rest
add_message uid (some raw) rest = if raw == "" then rest else record { uid = uid; raw = raw } ∷ rest

-- The loop over the wanted messages: those whose body came.
pub messages_of : (ℕ → Option String) → List ℕ → List FetchedMessage
unfolding add_message
messages_of raw_by_uid [] = []
messages_of raw_by_uid (uid ∷ wanted) =
    add_message uid (raw_by_uid uid) (messages_of raw_by_uid wanted)

max_uid : ℕ → List FetchedMessage → ℕ
max_uid best [] = best
max_uid best (m ∷ ms) = max_uid (if ltb best m.uid then m.uid else best) ms

-- `max((m.uid for m in messages), default=since_uid)`
pub highest : Option ℕ → List FetchedMessage → Option ℕ
unfolding max_uid
highest since_uid [] = since_uid
highest since_uid (m ∷ ms) = some (max_uid m.uid ms)

differs : Option ℕ → Option ℕ → Bool
differs none server = false
differs (some stored) none = true
differs (some stored) (some now) = not (stored == now)

-- The cursor, dropped when the server has numbered the folder anew.
pub cursor_after : (since_uid uidvalidity server_uidvalidity : Option ℕ) → Option ℕ
unfolding differs
cursor_after since_uid uidvalidity server_uidvalidity =
    if differs uidvalidity server_uidvalidity then none else since_uid

-- The answer to the search above the cursor, in order; a server names its last message even when it is
-- no newer.
above : (cursor : ℕ) → Outcome (List ℕ) → Outcome (List ℕ)
above cursor answer = do found ← answer; done (filter (λ u. ltb cursor u) (sorted found))

pub candidates : Server → (cursor : Option ℕ) → Outcome (List ℕ)
unfolding above
candidates server none = do
  all_uids ← server.search_all
  done (last_of first_sync_tail (sorted all_uids))
candidates server (some cursor) = above cursor (server.search_from (cursor + 1))

fetched : List FetchedMessage → Option ℕ → Option ℕ → FetchResult
fetched messages uidvalidity highest_uid = record {
  messages = messages;
  uidvalidity = uidvalidity;
  highest_uid = highest_uid;
  ok = true;
  error = none;
  auth_failed = false;
}

keep_cursor : (cursor since_uid : Option ℕ) → Option ℕ
keep_cursor none since_uid = none
keep_cursor (some c) since_uid = since_uid

given_bodies :
    (since_uid server_uidvalidity : Option ℕ) (wanted : List ℕ)
    → (ℕ → Option String)
    → Outcome FetchResult
unfolding fetched
given_bodies since_uid server_uidvalidity wanted raw_by_uid =
    let messages = messages_of raw_by_uid wanted in
    done (fetched messages server_uidvalidity (highest since_uid messages))

-- What is fetched of the wanted messages, and the cursor to store.
pub fetch_wanted :
    Server → (since_uid cursor server_uidvalidity : Option ℕ) → List ℕ → Outcome FetchResult
unfolding fetched keep_cursor given_bodies
fetch_wanted server since_uid cursor server_uidvalidity [] =
    done (fetched [] server_uidvalidity (keep_cursor cursor since_uid))
fetch_wanted server since_uid cursor server_uidvalidity (u ∷ us) = do
  raw_by_uid ← server.fetch (u ∷ us)
  given_bodies since_uid server_uidvalidity (u ∷ us) raw_by_uid

-- The search and the fetch, once the folder is selected.
polled : Server → (since_uid cursor server_uidvalidity : Option ℕ) (limit : ℕ) → Outcome FetchResult
polled server since_uid cursor server_uidvalidity limit = do
  wanted ← candidates server cursor
  fetch_wanted server since_uid cursor server_uidvalidity (last_of limit wanted)

poll : (since_uid uidvalidity : Option ℕ) (limit : ℕ) → Server → Outcome FetchResult
unfolding polled
poll since_uid uidvalidity limit server = do
  server_uidvalidity ← server.select_folder
  let cursor = cursor_after since_uid uidvalidity server_uidvalidity
  polled server since_uid cursor server_uidvalidity limit

failure : String → Bool → FetchResult
failure reason auth = record {
  messages = [];
  uidvalidity = none;
  highest_uid = none;
  ok = false;
  error = some reason;
  auth_failed = auth;
}

-- `_reason`
reason_of : (name text : String) → String
reason_of name text = if text == "" then name else concat (name ∷ ": " ∷ text ∷ [])

reported : Outcome FetchResult → FetchResult
reported (done r) = r
reported (raised name text) = failure (reason_of name text) false

pub fetch_new : (since_uid uidvalidity : Option ℕ) (limit : ℕ) → Opening → FetchResult
unfolding poll failure reason_of reported
fetch_new since_uid uidvalidity limit (connected server) =
    reported (poll since_uid uidvalidity limit server)
fetch_new since_uid uidvalidity limit (auth_error text) =
    failure (concat ("login rejected: " ∷ text ∷ [])) true
fetch_new since_uid uidvalidity limit (blocked_host text) = failure text false
fetch_new since_uid uidvalidity limit (failed name text) = failure (reason_of name text) false

backfill_wanted : Server → Option ℕ → List ℕ → Outcome FetchResult
unfolding fetched
backfill_wanted server server_uidvalidity [] = done (fetched [] server_uidvalidity none)
backfill_wanted server server_uidvalidity (u ∷ us) = do
  raw_by_uid ← server.fetch (u ∷ us)
  done (fetched (messages_of raw_by_uid (u ∷ us)) server_uidvalidity none)

backfill : (since_date : String) (limit : ℕ) → Server → Outcome FetchResult
unfolding backfill_wanted
backfill since_date limit server = do
  server_uidvalidity ← server.select_folder
  found ← server.search_since since_date
  backfill_wanted server server_uidvalidity (last_of limit (sorted found))

-- A blocked host is caught here by the last handler, under the name of its class.
pub fetch_since : (since_date : String) (limit : ℕ) → Opening → FetchResult
unfolding backfill failure reason_of reported
fetch_since since_date limit (connected server) = reported (backfill since_date limit server)
fetch_since since_date limit (auth_error text) =
    failure (concat ("login rejected: " ∷ text ∷ [])) true
fetch_since since_date limit (blocked_host text) =
    failure (reason_of "_BlockedHostError" text) false
fetch_since since_date limit (failed name text) = failure (reason_of name text) false
