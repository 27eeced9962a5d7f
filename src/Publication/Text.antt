-- ===== src/Publication/Text.antt =====
-- `_label`, `_optional_label`, `_optional_text` and `_reject_secret` of pipelines/run_store.py, over the
-- code points of a text.
use Prim.Native.Char.{code}
use ang553_latam_aie_01_fina.Common.{
  ℕ, ◌+◌, String, Bool, true, false, ◌&&◌, ◌||◌, Option, none, some, List, [], ◌∷◌, map, ◌==◌, ltb,
  leb, length, all_of, any_of, if◌then◌else◌,
}
use ang553_latam_aie_01_fina.Publication.Call.{Result, ok, err, invalid_text, secret_rejected}

abbrev pub codes : String → List ℕ
codes String.[] = []
codes (String.◌∷◌ c s) = code c ∷ codes s

-- The characters that `str.strip` removes.
unfoldable pub is_space : ℕ → Bool
is_space c =
    (leb 9 c && leb c 13)
    || (leb 28 c && leb c 32)
    || c == 133
    || c == 160
    || c == 5760
    || (leb 8192 c && leb c 8202)
    || c == 8232
    || c == 8233
    || c == 8239
    || c == 8287
    || c == 12288

-- `str.lower`, as far as a search for ASCII text can tell: no other letter's lower case is ASCII but
-- the Kelvin sign's.
unfoldable pub lower : ℕ → ℕ
lower c = if leb b'A' c && leb c b'Z' then c + 32 else if c == 8490 then b'k' else c

unfoldable pub starts : List ℕ → List ℕ → Bool
starts [] t = true
starts (p ∷ ps) [] = false
starts (p ∷ ps) (c ∷ t) = p == c && starts ps t

-- `marker in text`
unfoldable pub contains : List ℕ → List ℕ → Bool
unfolding starts
contains p [] = starts p []
contains p (c ∷ t) = starts p (c ∷ t) || contains p t

abbrev pub secret_markers : List String
secret_markers = "postgres://" ∷ "postgresql://" ∷ "bearer " ∷ "password=" ∷ "api_key=" ∷ []

unfoldable pub has_secret : String → Bool
unfolding contains lower
has_secret s = any_of (λ m. contains (codes m) (map lower (codes s))) secret_markers

-- A blank text or one that is longer than the limit is refused, and so is one with a credential.
unfoldable pub checked_text : ℕ → String → Result String
unfolding is_space has_secret
checked_text limit s =
    if all_of is_space (codes s) || ltb limit (length (codes s))
    then err invalid_text
    else if has_secret s
    then err secret_rejected
    else ok s

unfoldable pub label : String → Result String
unfolding checked_text
label s = checked_text 128 s

unfoldable pub optional_label : Option String → Result (Option String)
unfolding label
optional_label none = ok none
optional_label (some s) = elim (label s) [ err e ↦ err e | ok t ↦ ok (some t) ]

unfoldable pub optional_text : Option String → Result (Option String)
unfolding checked_text
optional_text none = ok none
optional_text (some s) = elim (checked_text 500 s) [ err e ↦ err e | ok t ↦ ok (some t) ]
