-- ===== src/Signature/Params.antt =====
-- activitypub/signature.go: the parameters of a Signature header. The regular expression
-- (\w+)="([^"]*)" is read by a machine that never goes back: a match that begins inside a word ends
-- where the one of the whole word does, and an open quotation has no second quote behind it.
pub mod Reading
use Prim.Native.Char.{Char, code}
use murlog.Prelude.{
  ℕ, ◌==◌, leb, Bool, ◌&&◌, ◌||◌, not, if◌then◌else◌, Option, none, some, List, [], ◌∷◌, String,
  str_eq,
}
use murlog.Prelude.Strings.{append}

-- what the machine has read: a word that may be empty, a word and `=`, or the value behind `="`
pub data Mode : Type 0 where
  word equals : String → Mode
  value : String → String → Mode

-- \w
abbrev pub is_word_char : ℕ → Bool
is_word_char c =
    (leb b'a' c && leb c b'z')
    || ((leb b'A' c && leb c b'Z') || ((leb b'0' c && leb c b'9') || c == b'_'))

abbrev pub snoc : String → Char → String
snoc s c = append s (String.◌∷◌ c "")

-- the machine's next mode, and the match that the character ends
pub step : Mode → Char → Mode × Option (String × String)
step (word w) c =
    if is_word_char (code c)
    then (word (snoc w c), none)
    else if code c == b'=' && not (str_eq w "")
    then (equals w, none)
    else (word "", none)
step (equals w) c =
    if code c == b'"'
    then (value w "", none)
    else if is_word_char (code c)
    then (word (String.◌∷◌ c ""), none)
    else (word "", none)
step (value w v) c = if code c == b'"' then (word "", some (w, v)) else (value w (snoc v c), none)

abbrev pub emit : Option (String × String) → List (String × String) → List (String × String)
emit none ps = ps
emit (some p) ps = p ∷ ps

-- FindAllStringSubmatch
pub scan : Mode → String → List (String × String)
unfolding step
scan m String.[] = []
scan m (String.◌∷◌ c s) = let r = step m c in emit r.1 (scan r.0 s)

-- no match is an error
some_matches : List (String × String) → Option (List (String × String))
some_matches [] = none
some_matches (p ∷ ps) = some (p ∷ ps)

-- parseSignatureHeader, with the matches in order
pub parse_signature_header : String → Option (List (String × String))
unfolding scan some_matches
parse_signature_header header = some_matches (scan (word "") header)

-- params[key]: the last match of the key
pub param : String → List (String × String) → Option String
param key [] = none
param key ((k, v) ∷ ps) = elim (param key ps) [
  | some u ↦ some u
  | none ↦ if str_eq k key then some v else none
]

-- a character in front of the first part
cons_first : Char → List String → List String
cons_first c [] = String.◌∷◌ c "" ∷ []
cons_first c (p ∷ ps) = String.◌∷◌ c p ∷ ps

-- strings.Split at " "
pub split_spaces : String → List String
unfolding cons_first
split_spaces String.[] = "" ∷ []
split_spaces (String.◌∷◌ c s) =
    let rest = split_spaces s in if code c == b' ' then "" ∷ rest else cons_first c rest

-- strings.Join
pub join_with : String → List String → String
join_with sep [] = ""
join_with sep (p ∷ []) = p
join_with sep (p ∷ q ∷ ps) = append p (append sep (join_with sep (q ∷ ps)))

-- the header that SignRequest writes
pub signature_header : String → List String → String → String
signature_header key_id headers sig = append "keyId=\"" (
    append key_id (
      append "\",algorithm=\"rsa-sha256\",headers=\""
        (append (join_with " " headers) (append "\",signature=\"" (append sig "\"")))))
