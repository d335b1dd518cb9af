-- ===== src/Detections/Triage.antt =====
-- src/envelock/detections/cascade.py: verdicts on files, and the static triage of an attachment. A
-- payload is a list of bytes; `lower` is Python's `lower` on texts, which rests on the tables of
-- Unicode.
pub mod Severity
use Prim.Native.Char.{code}
use Prim.Native.String.{◌∷◌ as char_then, [] as no_text}
use envelockserver.Prelude.{
  ℕ, zero, suc, ◌+◌, ◌-◌, ◌/◌, ◌%◌, String, ◌≡◌, refl, ◌↔◌, Bool, true, false, not, ◌&&◌, ◌||◌,
  Option, none, some, List, [], ◌∷◌, ◌++◌, ltb, leb, nat_beq, if◌then◌else◌, ◌==◌, text_comparable,
  number_comparable, coded_iff, Comparable, length, filter,
}
use envelockserver.Prelude.Text.{concat, is_prefix, ends_with_any}

pub data Verdict : Type 0 where
  clean suspicious malicious unknown : Verdict

abbrev pub verdict_code : Verdict → ℕ
verdict_code clean = 0
verdict_code suspicious = 1
verdict_code malicious = 2
verdict_code unknown = 3

verdict_decode : ℕ → Option Verdict
verdict_decode zero = some clean
verdict_decode (suc zero) = some suspicious
verdict_decode (suc (suc zero)) = some malicious
verdict_decode (suc (suc (suc zero))) = some unknown
verdict_decode _ = none

verdict_back : (a : Verdict) → verdict_decode (verdict_code a) ≡ some a
unfolding verdict_decode
verdict_back clean = refl
verdict_back suspicious = refl
verdict_back malicious = refl
verdict_back unknown = refl

pub verdict_iff : (a b : Verdict) → (nat_beq (verdict_code a) (verdict_code b) ≡ true) ↔ (a ≡ b)
verdict_iff = coded_iff verdict_code verdict_decode verdict_back

instance abbrev pub verdict_eq : Comparable Verdict
verdict_eq = record {
  equal = λ a b. nat_beq (verdict_code a) (verdict_code b);
  equal_iff = verdict_iff;
}

-- `_SEVERITY`
abbrev pub severity : Verdict → ℕ
severity clean = 0
severity unknown = 1
severity suspicious = 2
severity malicious = 3

-- `max(v, w, key=_severity)` keeps the first of equals.
abbrev pub worse : Verdict → Verdict → Verdict
worse v w = if ltb (severity v) (severity w) then w else v

abbrev pub Bytes : Type 0
Bytes = List ℕ

-- `payload.startswith(magic)`
abbrev pub begins : Bytes → Bytes → Bool
begins [] payload = true
begins (m ∷ magic) [] = false
begins (m ∷ magic) (x ∷ payload) = m == x && begins magic payload

-- `needle in payload`
unfoldable pub has_bytes : Bytes → Bytes → Bool
has_bytes needle [] = begins needle []
has_bytes needle (x ∷ payload) = begins needle (x ∷ payload) || has_bytes needle payload

unfoldable pub first_bytes : ℕ → Bytes → Bytes
first_bytes zero payload = []
first_bytes (suc n) [] = []
first_bytes (suc n) (x ∷ payload) = x ∷ first_bytes n payload

-- The bytes of a text in ASCII.
abbrev ascii : String → Bytes
ascii no_text = []
ascii (char_then c text) = code c ∷ ascii text

abbrev pub executable_magic : List (Bytes × String)
executable_magic =
    (0x4d ∷ 0x5a ∷ [], "Windows executable")
    ∷ (0x7f ∷ 0x45 ∷ 0x4c ∷ 0x46 ∷ [], "Linux executable")
    ∷ (0xca ∷ 0xfe ∷ 0xba ∷ 0xbe ∷ [], "Mach-O executable")
    ∷ []

abbrev pub risky_ext : List String
risky_ext =
    ".exe" ∷ ".scr" ∷ ".com" ∷ ".pif" ∷ ".bat" ∷ ".cmd" ∷ ".js" ∷ ".jse" ∷ ".vbs" ∷ ".wsf" ∷ ".hta"
    ∷ ".lnk" ∷ ".iso" ∷ ".img" ∷ ".vhd" ∷ ".ps1" ∷ ".msi" ∷ ".one" ∷ []

abbrev pub macro_ext : List String
macro_ext = ".docm" ∷ ".xlsm" ∷ ".pptm" ∷ []

abbrev pub macro_magic : Bytes
macro_magic = 0xd0 ∷ 0xcf ∷ 0x11 ∷ 0xe0 ∷ []

abbrev pub pdf_actions : List String
pdf_actions = "/JavaScript" ∷ "/JS" ∷ "/Launch" ∷ "/OpenAction" ∷ "/EmbeddedFile" ∷ []

pub record StaticVerdict : Type 0 where
  pub verdict : Verdict
  pub reasons : List String

-- The loop over `_EXECUTABLE_MAGIC`, which stops at the first hit.
unfoldable pub executable_kind : Bytes → List (Bytes × String) → Option String
executable_kind payload [] = none
executable_kind payload ((magic, kind) ∷ rest) =
    if begins magic payload then some kind else executable_kind payload rest

-- Each step of the triage takes what the steps before it found.
see_executable : Option String → StaticVerdict → StaticVerdict
see_executable none s = s
see_executable (some kind) s = record {
  verdict = malicious;
  reasons = s.reasons ++ (concat (kind ∷ " content" ∷ []) ∷ []);
}

see : Bool → Verdict → String → StaticVerdict → StaticVerdict
see found v reason s =
    if found
    then record { verdict = worse s.verdict v; reasons = s.reasons ++ (reason ∷ []) }
    else s

join_commas : List String → String
join_commas [] = ""
join_commas (t ∷ []) = t
join_commas (t ∷ ts) = concat (t ∷ ", " ∷ join_commas ts ∷ [])

unfoldable pub pdf_hits : Bytes → List String
pdf_hits payload =
    if begins (ascii "%PDF") payload
    then filter (λ action. has_bytes (ascii action) (first_bytes 200000 payload)) pdf_actions
    else []

-- `declared_mime and declared_mime.startswith("image/")`
says_image : Option String → Bool
says_image none = false
says_image (some mime) = is_prefix "image/" mime

unfoldable pub is_false_image : Option String → Bytes → Bool
unfolding says_image
is_false_image declared_mime payload =
    says_image declared_mime && (begins (ascii "MZ") payload || begins (ascii "PK") payload)

unfoldable pub is_macro_document : (name : String) → Bytes → Bool
is_macro_document name payload = begins macro_magic payload || ends_with_any macro_ext name

-- `if not reasons and payload`
settle : Bytes → StaticVerdict → StaticVerdict
settle payload s =
    if leb (length s.reasons) 0 && not (leb (length payload) 0)
    then record { verdict = clean; reasons = "no static indicators" ∷ [] }
    else s

module _ (lower : String → String) where
  unfoldable pub static_triage :
      (filename : String) → Bytes → (declared_mime : Option String) → StaticVerdict
  unfolding see_executable see settle join_commas
  static_triage filename payload declared_mime =
      let name = lower filename in
      let hits = pdf_hits payload in
      let start : StaticVerdict = record { verdict = unknown; reasons = [] } in
      settle payload (
        see (ltb 0 (length hits)) suspicious
          (concat ("PDF with active content (" ∷ join_commas hits ∷ ")" ∷ []))
          (see (is_macro_document name payload) suspicious "macro-capable Office document" (
            see (is_false_image declared_mime payload) malicious "claims to be an image but is not"
              (see (ends_with_any risky_ext name) suspicious "executable or script extension"
                (see_executable (executable_kind payload executable_magic) start)))))
