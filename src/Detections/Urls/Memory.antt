-- ===== src/Detections/Urls/Memory.antt =====
-- What a check of a link remembers.
use envelockserver.Prelude.{
  ℕ, ◌+◌, ◌≤◌, ◌<◌, String, ◌≡◌, ◌↔◌, inl, inr, Bool, true, false, some, List, [], ◌∷◌, arith,
  Option-cases, eq_refl, text_comparable, number_comparable, length, contains,
}
use envelockserver.Prelude.Dict.{lookup, lookup-insert}
use envelockserver.Detections.Triage.{verdict_eq, malicious}
use envelockserver.Detections.Urls.{
  check_cached, host_of, url_reasons, judge, check, UrlVerdict, UrlCascade,
}

module _ (is_decimal : ℕ → Bool) (lower registrable_domain : String → String) where
  abbrev pub check_all : List String → UrlCascade → UrlCascade
  check_all [] c = c
  check_all (u ∷ urls) c = check_all urls (check is_decimal lower registrable_domain u c).1

  check-keeps :
      (url u : String) (c : UrlCascade) {v : UrlVerdict}
      → lookup url c.cache ≡ some v
      → lookup url (check is_decimal lower registrable_domain u c).1.cache ≡ some v
  unfolding check
  check-keeps url u c {v} h = elim (Option-cases (lookup u c.cache)) [
    | inl new ↦
        rw (new, check_cached)
          (ground (
            arith,
            lookup-insert u url (judge is_decimal lower registrable_domain u c).0 c.cache,
            text_comparable.equal_iff u url,
          ))
    | inr (w, known) ↦ rw (known, check_cached) h
  ]

  check_all-keeps :
      (url : String) (urls : List String) (c : UrlCascade) {v : UrlVerdict}
      → lookup url c.cache ≡ some v
      → lookup url (check_all urls c).cache ≡ some v
  check_all-keeps url [] c h = h
  check_all-keeps url (u ∷ urls) c h =
      check_all-keeps url urls (check is_decimal lower registrable_domain u c).1
        (check-keeps url u c h)

  check_known :
      (url : String) (c : UrlCascade) {v : UrlVerdict}
      → lookup url c.cache ≡ some v
      → check is_decimal lower registrable_domain url c ≡ (v, c)
  unfolding check
  check_known url c h = rw (h, check_cached)

  check_stores :
      (url : String) (c : UrlCascade)
      → let (v, after) = check is_decimal lower registrable_domain url c in
        lookup url after.cache ≡ some v
  unfolding check
  check_stores url c = elim (Option-cases (lookup url c.cache)) [
    | inl new ↦
        rw (new, check_cached)
          (rw (
            lookup-insert url url (judge is_decimal lower registrable_domain url c).0 c.cache,
            eq_refl url,
          ))
    | inr (w, known) ↦ rw (known, check_cached) known
  ]

  -- A link is judged once: whatever links are checked after it, a further check of it gives the same
  -- verdict and changes nothing, so it makes no further call that is paid for.
  pub check_twice :
      (url : String) (urls : List String) (c : UrlCascade)
      → let (v, after) = check is_decimal lower registrable_domain url c in
        check is_decimal lower registrable_domain url (check_all urls after)
        ≡ (v, check_all urls after)
  check_twice url urls c =
      let after = (check is_decimal lower registrable_domain url c).1 in
      check_known url (check_all urls after) (check_all-keeps url urls after (check_stores url c))

  -- A link in no cache is judged malicious exactly when its domain is on the threat feed; a paid call
  -- is made only for a link that is neither on the feed nor has a reason against it; and the meters
  -- count it as one check, and as free or paid at most once.
  pub judge_by_layer :
      (url : String) (c : UrlCascade)
      → let (v, m) = judge is_decimal lower registrable_domain url c in
        let listed =
          contains
            (registrable_domain (host_of is_decimal lower registrable_domain url))
            c.feed_domains in
        ((v.verdict ≡ malicious) ↔ (listed ≡ true))
        × ((c.metrics.paid_calls < m.paid_calls) ↔ (
            (listed ≡ false)
            × (length (url_reasons is_decimal lower registrable_domain url) ≡ 0)
            × (c.safebrowsing ≡ true)))
        × (m.checked ≡ c.metrics.checked + 1)
        × (m.free_hits + m.paid_calls ≤ c.metrics.free_hits + c.metrics.paid_calls + 1)
  unfolding judge
  judge_by_layer url c = ground arith
