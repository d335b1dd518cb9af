-- ===== src/Mail/ImapSync/Polls.antt =====
-- The promises of a poll: new mail only, in order, bounded, and errors as answers.
use envelockserver.Prelude.{
  ℕ, ◌+◌, ◌≤◌, ◌<◌, String, ◌≡◌, refl, sym, ap, ◌∙◌, ◌⊎◌, inl, inr, Bool, true, false, Option, none,
  some, List, [], ◌∷◌, arith, ltb, is_some, text_comparable, number_comparable, All, length, filter,
}
use envelockserver.Mail.ImapSync.{
  keep_cursor, polled, fetched, above, given_bodies, reason_of, poll, reported, failure, ◌>>=◌,
  sorted, last_of, messages_of, cursor_after, candidates, fetch_wanted, fetch_new, Server,
  FetchResult, Outcome, done, raised, Opening, connected, auth_error, blocked_host, failed,
}
use envelockserver.Mail.ImapSync.Sorted.{
  IsSorted, sorted-IsSorted, filter-IsSorted, filter_above, All-last_of, last_of-IsSorted,
  length-last_of-le,
}
use envelockserver.Mail.ImapSync.Cursor.{
  uids, messages_of-All, messages_of-IsSorted, length-messages_of-le, Reaches, highest-Reaches,
}
use mathlib.Core.Path.{subst}

-- Messages newer than `c`, in ascending order, and a cursor that has reached each of them.
pub record IsFresh (c : ℕ) (r : FetchResult) : Type 0 where
  pub newer : All (λ u. c < u) (uids r.messages)
  pub ascending : IsSorted (uids r.messages)
  pub reached : Reaches c r.highest_uid r.messages

fetch_wanted-IsFresh :
    (server : Server) (c : ℕ) (sv : Option ℕ) (wanted : List ℕ)
    → All (λ u. c < u) wanted
    → IsSorted wanted
    → (reported (fetch_wanted server (some c) (some c) sv wanted)).ok ≡ true
    → IsFresh c (reported (fetch_wanted server (some c) (some c) sv wanted))
unfolding fetch_wanted reported fetched keep_cursor failure
fetch_wanted-IsFresh server c sv [] a s fine = record {
  newer = tt;
  ascending = tt;
  reached = (omega arith, tt);
}
fetch_wanted-IsFresh server c sv (u ∷ us) a s fine = answered (server.fetch (u ∷ us)) fine
  where
    answered :
        (o : Outcome (ℕ → Option String))
        → (reported (o >>= given_bodies (some c) sv (u ∷ us))).ok ≡ true
        → IsFresh c (reported (o >>= given_bodies (some c) sv (u ∷ us)))
    answered (raised name text) fine = cc
    answered (done raw) fine =
        let newer = messages_of-All (λ v. c < v) raw (u ∷ us) a in
        record {
          newer = newer;
          ascending = messages_of-IsSorted raw (u ∷ us) s;
          reached = highest-Reaches c (messages_of raw (u ∷ us)) newer;
        }

searched-IsFresh :
    (server : Server) (c limit : ℕ) (sv : Option ℕ) (o : Outcome (List ℕ))
    → (reported
        (above c o >>= λ us. fetch_wanted server (some c) (some c) sv (last_of limit us))).ok
      ≡ true
    → IsFresh c
        (reported (above c o >>= λ us. fetch_wanted server (some c) (some c) sv (last_of limit us)))
unfolding reported above failure
searched-IsFresh server c limit sv (raised name text) fine = cc
searched-IsFresh server c limit sv (done found) fine =
    let newer = filter_above c (sorted found) in
    let in_order = filter-IsSorted (λ u. ltb c u) (sorted found) (sorted-IsSorted found) in
    let wanted = filter (λ u. ltb c u) (sorted found) in
    fetch_wanted-IsFresh server c sv (last_of limit wanted)
      (All-last_of (λ u. c < u) limit wanted newer) (last_of-IsSorted limit wanted in_order) fine

-- The poll of a folder that keeps its numbers is the search above the cursor, and the fetch.
poll_kept :
    (c limit : ℕ) (uidvalidity sv : Option ℕ) (server : Server)
    → server.select_folder ≡ done sv
    → cursor_after (some c) uidvalidity sv ≡ some c
    → poll (some c) uidvalidity limit server ≡ (
        above c (server.search_from (c + 1)) >>= λ us.
        fetch_wanted server (some c) (some c) sv (last_of limit us))
unfolding poll candidates above
poll_kept c limit uidvalidity sv server selected kept =
    ap (λ o. o >>= λ now. polled server (some c) (cursor_after (some c) uidvalidity now) now limit)
      selected
    ∙ ap (λ cursor. polled server (some c) cursor sv limit) kept

-- Where the server has not numbered the folder anew, a poll that succeeds gives only messages above the
-- stored cursor, in ascending order, and a new cursor that is no lower than the old one and than any
-- message it gives: no message is given twice by polls in a row.
pub fetch_new-IsFresh :
    (c limit : ℕ) (uidvalidity sv : Option ℕ) (server : Server)
    → server.select_folder ≡ done sv
    → cursor_after (some c) uidvalidity sv ≡ some c
    → (fetch_new (some c) uidvalidity limit (connected server)).ok ≡ true
    → IsFresh c (fetch_new (some c) uidvalidity limit (connected server))
unfolding fetch_new
fetch_new-IsFresh c limit uidvalidity sv server selected kept =
    let same = sym (ap reported (poll_kept c limit uidvalidity sv server selected kept)) in
    subst (λ r. r.ok ≡ true → IsFresh c r) same
      (searched-IsFresh server c limit sv (server.search_from (c + 1)))

-- What a caller can rely on in every answer.
pub record IsAnswer (limit : ℕ) (rejected : Bool) (r : FetchResult) : Type 0 where
  pub bounded : length r.messages ≤ limit
  pub outcome :
      ((r.ok ≡ true) × (r.error ≡ none) × (r.auth_failed ≡ false))
      ⊎ ((r.ok ≡ false) × (r.messages ≡ []) × (r.highest_uid ≡ none) × (is_some r.error ≡ true))
  pub login : r.auth_failed ≡ rejected

failure-IsAnswer :
    (limit : ℕ) (reason : String) (auth : Bool) → IsAnswer limit auth (failure reason auth)
unfolding failure
failure-IsAnswer limit reason auth = record {
  bounded = omega arith;
  outcome = inr (refl, refl, refl, refl);
  login = refl;
}

given_bodies-IsAnswer :
    (limit : ℕ) (since sv : Option ℕ) (us : List ℕ) (o : Outcome (ℕ → Option String))
    → length us ≤ limit
    → IsAnswer limit false (reported (o >>= given_bodies since sv us))
unfolding reported given_bodies fetched failure
given_bodies-IsAnswer limit since sv us (raised name text) le =
    failure-IsAnswer limit (reason_of name text) false
given_bodies-IsAnswer limit since sv us (done raw) le = record {
  bounded = omega (arith, length-messages_of-le raw us, le);
  outcome = inl (refl, refl, refl);
  login = refl;
}

fetch_wanted-IsAnswer :
    (server : Server) (limit : ℕ) (since cursor sv : Option ℕ) (us : List ℕ)
    → length us ≤ limit
    → IsAnswer limit false (reported (fetch_wanted server since cursor sv us))
unfolding fetch_wanted reported fetched
fetch_wanted-IsAnswer server limit since cursor sv [] le = record {
  bounded = omega arith;
  outcome = inl (refl, refl, refl);
  login = refl;
}
fetch_wanted-IsAnswer server limit since cursor sv (u ∷ us) le =
    given_bodies-IsAnswer limit since sv (u ∷ us) (server.fetch (u ∷ us)) le

poll-IsAnswer :
    (server : Server) (limit : ℕ) (since uidvalidity : Option ℕ)
    → 0 < limit
    → IsAnswer limit false (reported (poll since uidvalidity limit server))
unfolding poll
poll-IsAnswer server limit since uidvalidity pos = selected server.select_folder
  where
    found :
        (cursor now : Option ℕ) (o : Outcome (List ℕ))
        → IsAnswer limit false
            (reported (o >>= λ us. fetch_wanted server since cursor now (last_of limit us)))
    found cursor now (raised name text) =
        unfold reported in failure-IsAnswer limit (reason_of name text) false
    found cursor now (done us) =
        fetch_wanted-IsAnswer server limit since cursor now (last_of limit us)
          (length-last_of-le limit us pos)

    selected :
        (o : Outcome (Option ℕ))
        → IsAnswer limit false (
            reported
              (o >>= λ now. polled server since (cursor_after since uidvalidity now) now limit))
    selected (raised name text) =
        unfold reported in failure-IsAnswer limit (reason_of name text) false
    selected (done now) =
        let cursor = cursor_after since uidvalidity now in
        unfold polled in found cursor now (candidates server cursor)

abbrev pub is_rejected : Opening → Bool
is_rejected (auth_error text) = true
is_rejected opening = false

-- Whatever the server does, a poll answers: at most `limit` messages, no error where it succeeds, and
-- where it fails a reason, no message and no cursor; a failure counts as a rejected login exactly when the
-- login was rejected.
pub fetch_new-IsAnswer :
    (since uidvalidity : Option ℕ) (limit : ℕ) (opening : Opening)
    → 0 < limit
    → IsAnswer limit (is_rejected opening) (fetch_new since uidvalidity limit opening)
unfolding fetch_new
fetch_new-IsAnswer since uidvalidity limit (connected server) pos =
    poll-IsAnswer server limit since uidvalidity pos
fetch_new-IsAnswer since uidvalidity limit (auth_error text) pos = failure-IsAnswer limit _ true
fetch_new-IsAnswer since uidvalidity limit (blocked_host text) pos = failure-IsAnswer limit _ false
fetch_new-IsAnswer since uidvalidity limit (failed name text) pos = failure-IsAnswer limit _ false
