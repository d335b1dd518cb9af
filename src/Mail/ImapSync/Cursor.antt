-- ===== src/Mail/ImapSync/Cursor.antt =====
-- What one poll fetches, and where it leaves the cursor.
use envelockserver.Prelude.{
  ℕ, suc, ◌≤◌, ◌<◌, String, inl, inr, Option, none, some, List, [], ◌∷◌, map, arith, ltb,
  if◌then◌else◌, Bool-cases, ◌==◌, text_comparable, number_comparable, All, length,
}
use envelockserver.Mail.ImapSync.{max_uid, add_message, messages_of, highest, FetchedMessage}
use envelockserver.Mail.ImapSync.Sorted.{IsSorted}

abbrev pub uids : List FetchedMessage → List ℕ
uids ms = map (λ (m : FetchedMessage). m.uid) ms

add_message-All :
    (P : ℕ → Type 0) (u : ℕ) (o : Option String) (rest : List FetchedMessage)
    → P u
    → All P (uids rest)
    → All P (uids (add_message u o rest))
unfolding add_message
add_message-All P u none rest p a = a
add_message-All P u (some raw) rest p a = elim (Bool-cases (raw == "")) [
  | inl empty ↦ rw empty a
  | inr full ↦ rw full (p, a)
]

pub messages_of-All :
    (P : ℕ → Type 0) (raw : ℕ → Option String) (us : List ℕ)
    → All P us
    → All P (uids (messages_of raw us))
unfolding messages_of
messages_of-All P raw [] a = tt
messages_of-All P raw (u ∷ us) a =
    add_message-All P u (raw u) (messages_of raw us) a.0 (messages_of-All P raw us a.1)

pub messages_of-IsSorted :
    (raw : ℕ → Option String) (us : List ℕ) → IsSorted us → IsSorted (uids (messages_of raw us))
unfolding messages_of
messages_of-IsSorted raw [] s = tt
messages_of-IsSorted raw (u ∷ us) s =
    added (raw u) (messages_of-All (λ v. u ≤ v) raw us s.0) (messages_of-IsSorted raw us s.1)
  where
    added :
        (o : Option String)
        → All (λ v. u ≤ v) (uids (messages_of raw us))
        → IsSorted (uids (messages_of raw us))
        → IsSorted (uids (add_message u o (messages_of raw us)))
    added none a s' = s'
    added (some text) a s' = elim (Bool-cases (text == "")) [
      | inl empty ↦ unfold add_message in rw empty s'
      | inr full ↦ unfold add_message in rw full (a, s')
    ]

pub length-messages_of-le :
    (raw : ℕ → Option String) (us : List ℕ) → length (messages_of raw us) ≤ length us
unfolding messages_of
length-messages_of-le raw [] = omega arith
length-messages_of-le raw (u ∷ us) =
    added (raw u) (messages_of raw us) (length-messages_of-le raw us)
  where
    added :
        (o : Option String) (rest : List FetchedMessage)
        → length rest ≤ length us
        → length (add_message u o rest) ≤ suc (length us)
    added none rest h = unfold add_message in omega arith
    added (some text) rest h = unfold add_message in ground arith

max_uid-ge :
    (best : ℕ) (ms : List FetchedMessage)
    → (best ≤ max_uid best ms) × All (λ u. u ≤ max_uid best ms) (uids ms)
unfolding max_uid
max_uid-ge best [] = (omega arith, tt)
max_uid-ge best (m ∷ ms) =
    let (top, rest) = max_uid-ge (if ltb best m.uid then m.uid else best) ms in
    (ground (arith, top), (ground (arith, top), rest))

-- The cursor is at `h`, no lower than `c` and than any message.
abbrev pub Reaches : ℕ → Option ℕ → List FetchedMessage → Type 0
Reaches c none ms = ⊥
Reaches c (some h) ms = (c ≤ h) × All (λ u. u ≤ h) (uids ms)

pub highest-Reaches :
    (c : ℕ) (ms : List FetchedMessage)
    → All (λ u. c < u) (uids ms)
    → Reaches c (highest (some c) ms) ms
unfolding highest
highest-Reaches c [] a = (omega arith, tt)
highest-Reaches c (m ∷ ms) a =
    let (top, rest) = max_uid-ge m.uid ms in (omega (arith, top, a.0), (top, rest))
