-- ===== src/Detections/Urls.antt =====
-- src/envelock/detections/cascade.py: the cascade over a link. `registrable_domain` and `lower` are
-- arguments, as elsewhere, and so is `is_decimal`, which says of a code point whether `\d` matches it.
pub mod Memory
use Prim.Native.Char.{code}
use Prim.Native.String.{◌∷◌ as char_then, [] as no_text}
use envelockserver.Prelude.{
  ℕ, ◌+◌, ◌-◌, ◌/◌, String, Bool, ◌&&◌, Option, none, some, List, [], ◌∷◌, ◌++◌, ltb, leb,
  if◌then◌else◌, ◌==◌, text_comparable, number_comparable, length, contains,
}
use envelockserver.Prelude.Dict.{Dict, lookup, insert}
use envelockserver.Prelude.Text.{before_first, after_first, after_last, has_text}
use envelockserver.Detections.Triage.{Verdict, malicious, suspicious, unknown}

abbrev pub shorteners : List String
shorteners =
    "bit.ly" ∷ "tinyurl.com" ∷ "t.co" ∷ "goo.gl" ∷ "ow.ly" ∷ "is.gd" ∷ "buff.ly" ∷ "rebrand.ly"
    ∷ "cutt.ly" ∷ "shorturl.at" ∷ "rb.gy" ∷ "tiny.cc" ∷ []

module _ (is_decimal : ℕ → Bool) where
  -- The rest of `^\d{1,3}(\.\d{1,3}){3}$` after `digits` digits of the part that `parts` parts follow;
  -- `$` also stands before a line feed that ends the text.
  ip_rest : (parts digits : ℕ) → String → Bool
  ip_rest parts digits no_text = parts == 0 && leb 1 digits && leb digits 3
  ip_rest parts digits (char_then c text) =
      let next_part = ip_rest (parts - 1) 0 text in
      let next_digit = ip_rest parts (digits + 1) text in
      if code c == b'.'
      then leb 1 parts && leb 1 digits && leb digits 3 && next_part
      else if is_decimal (code c)
      then next_digit
      else code c == 10 && text == "" && parts == 0 && leb 1 digits && leb digits 3

  -- `_IP_HOST.match(host)`
  pub is_ip_host : String → Bool
  unfolding ip_rest
  is_ip_host host = ip_rest 3 0 host

pub record UrlMetrics : Type 0 where
  pub checked : ℕ
  pub free_hits : ℕ
  pub paid_calls : ℕ

pub record UrlVerdict : Type 0 where
  pub url : String
  pub verdict : Verdict
  pub source : String
  pub reasons : List String

pub record UrlCascade : Type 0 where
  pub safebrowsing : Bool
  pub feed_domains : List String
  pub metrics : UrlMetrics
  pub cache : Dict String UrlVerdict

-- `url.split("//", 1)[-1].split("/", 1)[0]`
pub authority : String → String
authority url = before_first "/" (after_first 2 "//" url)

reason_if : Bool → String → List String
reason_if found reason = if found then reason ∷ [] else []

module _ (is_decimal : ℕ → Bool) (lower registrable_domain : String → String) where
  pub host_of : String → String
  host_of url = lower (before_first ":" (after_last "@" (authority url)))

  pub url_reasons : String → List String
  unfolding reason_if
  url_reasons url =
      reason_if (is_ip_host is_decimal (host_of url)) "bare IP address instead of a hostname"
      ++ (reason_if (contains (registrable_domain (host_of url)) shorteners)
            "link shortener hides the destination"
          ++ reason_if (has_text "@" (authority url)) "credentials embedded in the URL")

  -- The verdict on a link that is in no cache, and what its check adds to the meters.
  pub judge : String → UrlCascade → UrlVerdict × UrlMetrics
  judge url c =
      let reg = registrable_domain (host_of url) in
      let m = record c.metrics { checked = c.metrics.checked + 1 } in
      let free = record m { free_hits = m.free_hits + 1 } in
      let reasons = url_reasons url in
      let verdict : Verdict → String → List String → UrlVerdict =
        λ v source why. record { url = url; verdict = v; source = source; reasons = why } in
      if contains reg c.feed_domains
      then (verdict malicious "threat feed" ("on a threat feed" ∷ []), free)
      else if ltb 0 (length reasons)
      then (verdict suspicious "static" reasons, free)
      else if c.safebrowsing
      then (verdict unknown "safebrowsing" [], record m { paid_calls = m.paid_calls + 1 })
      else (verdict unknown "static" ("no reputation source" ∷ []), m)

  check_cached : String → Option UrlVerdict → UrlCascade → UrlVerdict × UrlCascade
  check_cached url (some known) c = (known, c)
  check_cached url none c =
      let (verdict, metrics) = judge url c in
      (verdict, record c { metrics = metrics; cache = insert url verdict c.cache })

  pub check : String → UrlCascade → UrlVerdict × UrlCascade
  unfolding check_cached
  check url c = check_cached url (lookup url c.cache) c
